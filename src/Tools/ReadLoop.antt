-- ===== src/Tools/ReadLoop.antt =====
-- wfptools/devctrl.cpp: nf_workThread over the reads that it makes one after the other.
use wfpdriver.Shared.{
  ℕ, ◌-◌, Bool, true, false, ◌||◌, Option, some, ◌>>=◌, List, [], ◌∷◌, ◌++◌, ltb, if◌then◌else◌,
  Memory,
}
use wfpdriver.Tools.WorkThread.{Call, process_read}

-- What comes of a ReadFile: it fails; or the wait for it ends with the stop event or an error; or after
-- some timeouts it completes with rr.length, the shared buffer holding these bytes.
pub data Outcome : Type 0 where
  failed stopped : Outcome
  completed : ℕ → ℕ → Memory → Outcome

-- The reads left in a batch of eight, `left` counting this one; an aborted batch is followed by another.
unfoldable pub next_left : ℕ → Bool → ℕ
next_left left abort = if abort || ltb left 2 then 8 else left - 1

-- The two loops: the handler calls made, and whether the thread has ended. It waits if there are no more
-- outcomes.
unfoldable pub read_loop : ℕ → ℕ → List Outcome → Option (List Call × Bool)
read_loop left in_buf_len [] = some ([], false)
read_loop left in_buf_len (failed ∷ os) = some ([], true)
read_loop left in_buf_len (stopped ∷ os) = some ([], true)
read_loop left in_buf_len (completed timeouts length m ∷ os) = do
  (calls, abort) ← process_read length in_buf_len m
  (more, ended) ← read_loop (next_left left (abort || ltb 0 timeouts)) in_buf_len os
  some (calls ++ more, ended)

unfoldable pub work_thread : ℕ → List Outcome → Option (List Call × Bool)
unfolding read_loop
work_thread in_buf_len os = read_loop 8 in_buf_len os
