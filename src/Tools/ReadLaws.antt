-- ===== src/Tools/ReadLaws.antt =====
-- What nf_workThread of wfptools/devctrl.cpp makes of many reads.
use wfpdriver.Shared.{
  ℕ, suc, ◌^◌, ◌<◌, ◌≤◌, ◌≡◌, refl, Bool, true, false, ◌||◌, some, List, [], ◌∷◌, ◌++◌, map, All,
  Memory, ltb, arith,
}
use wfpdriver.Devctrl.Delivery.{Entry, Framed, total_size}
use wfpdriver.Tools.WorkThread.{Call, aborts, process_read, read_count}
use wfpdriver.Tools.Batch.{IsDriverEntry, call_of, dispatch_records_total, process_read-first}
use wfpdriver.Tools.ReadLoop.{Outcome, completed, next_left, read_loop, work_thread}

-- A read that the driver answered: the records, and the shared buffer as the reader finds it.
pub record Answered : Type 0 where
  pub timeouts : ℕ
  pub first : Entry
  pub others : List Entry
  pub memory : Memory

abbrev pub outcome_of : Answered → Outcome
outcome_of r = completed r.timeouts (total_size (r.first ∷ r.others)) r.memory

abbrev pub first_call : Answered → Call
first_call r = call_of r.first 0

-- The buffer holds the records, and they fit.
pub record IsAnswered (in_buf_len : ℕ) (r : Answered) : Type 0 where
  pub entries : All IsDriverEntry (r.first ∷ r.others)
  pub framed : Framed r.memory 0 (r.first ∷ r.others)
  pub small : total_size (r.first ∷ r.others) < 2 ^ 24
  pub inside : total_size (r.first ∷ r.others) ≤ in_buf_len

read_loop-firsts :
    (rs : List Answered) (left in_buf_len : ℕ)
    → All (IsAnswered in_buf_len) rs
    → read_loop left in_buf_len (map outcome_of rs) ≡ some (map first_call rs, false)
unfolding read_loop
read_loop-firsts [] left in_buf_len v = refl
read_loop-firsts (r ∷ rs) left in_buf_len v =
    let one =
      process_read-first r.first r.others in_buf_len r.memory v.0.entries v.0.framed v.0.small
        v.0.inside in
    let abort = (aborts r.memory 0 || false) || ltb 0 r.timeouts in
    rw one.0 (rw (read_loop-firsts rs (next_left left abort) in_buf_len v.1) refl)

-- Over any number of reads that the driver answered with records, the reader's thread makes one handler
-- call for each read, that of its first record, however the reads fall into batches; and it goes on.
pub work_thread-firsts :
    (rs : List Answered) (in_buf_len : ℕ)
    → All (IsAnswered in_buf_len) rs
    → work_thread in_buf_len (map outcome_of rs) ≡ some (map first_call rs, false)
unfolding work_thread
work_thread-firsts rs in_buf_len v = read_loop-firsts rs 8 in_buf_len v

process_read_total :
    (length in_buf_len : ℕ) (m : Memory)
    → (r : List Call × Bool) × (process_read length in_buf_len m ≡ some r)
unfolding process_read
process_read_total length in_buf_len m =
    dispatch_records_total (suc (read_count length in_buf_len)) (read_count length in_buf_len) 0 m
      (omega arith)

read_loop_total :
    (os : List Outcome) (left in_buf_len : ℕ)
    → (r : List Call × Bool) × (read_loop left in_buf_len os ≡ some r)
unfolding read_loop
read_loop_total [] left in_buf_len = (([], false), refl)
read_loop_total (Outcome.failed ∷ os) left in_buf_len = (([], true), refl)
read_loop_total (Outcome.stopped ∷ os) left in_buf_len = (([], true), refl)
read_loop_total (completed timeouts length m ∷ os) left in_buf_len =
    let (r, e) = process_read_total length in_buf_len m in
    let (s, f) = read_loop_total os (next_left left (r.1 || ltb 0 timeouts)) in_buf_len in
    ((r.0 ++ s.0, s.1), rw e (rw f refl))

-- Whatever the reads bring, the reader's loop over the records of each of them ends, so the thread comes
-- to its next read or to its end.
pub work_thread_total :
    (os : List Outcome) (in_buf_len : ℕ)
    → (r : List Call × Bool) × (work_thread in_buf_len os ≡ some r)
unfolding work_thread
work_thread_total os in_buf_len = read_loop_total os 8 in_buf_len
