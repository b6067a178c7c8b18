-- ===== src/Devctrl/ReadLaws.antt =====
-- Every read request of devctrl.c is pended or completed, and never both or twice.
use wfpdriver.Shared.{
  ℕ, ◌+◌, ◌≡◌, refl, inl, inr, Bool, false, Option, none, some, Option-cases, List, [], ◌∷◌, ◌++◌,
  ◌==◌, if◌then◌else◌, arith,
}
use wfpdriver.State.{Driver, Irp, Completion}
use wfpdriver.Devctrl.Push.{set_event}
use wfpdriver.Devctrl.Reads.{
  complete, pend, arm, finish_read, try_pend, read1, remove_cancelled, cancel_read, take_pending,
  answer_read, service_reads, io_thread_round,
}
use wfpdriver.Devctrl.Keeps.{fill_buffer-Keeps}
use wfpdriver.Devctrl.Events.{begin_cancel, after}

abbrev pub waiting : ℕ → List Irp → ℕ
waiting k [] = 0
waiting k (i ∷ is) = (if i.id == k then 1 else 0) + waiting k is

abbrev pub answered : ℕ → List Completion → ℕ
answered k [] = 0
answered k (c ∷ cs) = (if c.irp_id == k then 1 else 0) + answered k cs

-- How often the request `k` is pended or has been completed.
abbrev pub tally : ℕ → Driver → ℕ
tally k d = waiting k d.pended + answered k d.completed

waiting-append : (k : ℕ) (is js : List Irp) → waiting k (is ++ js) ≡ waiting k is + waiting k js
waiting-append k [] js = omega arith
waiting-append k (i ∷ is) js = omega (arith, waiting-append k is js)

-- A new request is counted once, whichever way devctrl_read1 takes.
pub tally-read1 :
    (k : ℕ) (raced : Bool) (irp : Irp) (d : Driver)
    → tally k (read1 raced irp d).1 ≡ tally k d + (if irp.id == k then 1 else 0)
unfolding read1 finish_read try_pend pend arm complete set_event
tally-read1 k raced irp d = ground (arith, waiting-append k d.pended (arm raced irp ∷ []))

pub waiting-begin_cancel :
    (k id : ℕ) (is : List Irp) → waiting k (begin_cancel id is) ≡ waiting k is
waiting-begin_cancel k id [] = refl
waiting-begin_cancel k id (i ∷ is) = ground (arith, waiting-begin_cancel k id is)

-- Taking a request off the list lowers its count by one.
abbrev Removed : ℕ → ℕ → List Irp → Option (List Irp) → Type 0
Removed k id is none = Unit {0}
Removed k id is (some js) = waiting k is ≡ (if id == k then 1 else 0) + waiting k js

remove_cancelled-Removed : (k id : ℕ) (is : List Irp) → Removed k id is (remove_cancelled id is)
unfolding remove_cancelled
remove_cancelled-Removed k id [] = tt
remove_cancelled-Removed k id (i ∷ is) = ground (arith, remove_cancelled-Removed k id is)

pub tally-cancel_read : (k id : ℕ) (d : Driver) → tally k (cancel_read id d) ≡ tally k d
unfolding cancel_read complete
tally-cancel_read k id d = ground (arith, remove_cancelled-Removed k id d.pended)

abbrev Taken : ℕ → List Irp → Option (Irp × List Irp) → Type 0
Taken k is none = Unit {0}
Taken k is (some (j, js)) = waiting k is ≡ (if j.id == k then 1 else 0) + waiting k js

take_pending-Taken : (k : ℕ) (is : List Irp) → Taken k is (take_pending is)
unfolding take_pending
take_pending-Taken k [] = tt
take_pending-Taken k (i ∷ is) = ground (arith, take_pending-Taken k is)

-- The count is kept by a step that returns.
abbrev pub Tallies : ℕ → ℕ → Option Driver → Type 0
Tallies k n none = Unit {0}
Tallies k n (some d) = tally k d ≡ n

answer_read-Tallies :
    (k : ℕ) (irp : Irp) (d : Driver)
    → Tallies k ((if irp.id == k then 1 else 0) + tally k d) (answer_read irp d)
unfolding answer_read complete
answer_read-Tallies k irp d = ground (arith, fill_buffer-Keeps d)

service_reads-Tallies : (k : ℕ) (d : Driver) → Tallies k (tally k d) (service_reads d)
unfolding service_reads
service_reads-Tallies k d = elim (Option-cases (take_pending d.pended)) [
  | inl n ↦ ground (arith, n)
  | inr ((irp, rest), e) ↦ ground (
    arith,
    e,
    take_pending-Taken k d.pended,
    answer_read-Tallies k irp (record d { pended = rest }),
  )
]

pub io_thread_round-Tallies :
    (k : ℕ) (d : Driver) → Tallies k (tally k d) (after (io_thread_round d))
unfolding io_thread_round
io_thread_round-Tallies k d =
    ground (arith, service_reads-Tallies k (record d { io_event = false }))
