-- ===== src/Devctrl/RunLaws.antt =====
-- Read requests of devctrl.c over any events, one after the other.
use wfpdriver.Shared.{
  ℕ, ◌+◌, ◌≡◌, inl, inr, some, Option-cases, List, [], ◌∷◌, ◌==◌, if◌then◌else◌, arith,
}
use wfpdriver.State.{Driver}
use wfpdriver.Packets.DatalinkLaws.{pushdata-Pushed}
use wfpdriver.Packets.EstablishedLaws.{pushflowestablishedctx-Pushed}
use wfpdriver.Devctrl.Events.{
  Event, read, cancel_begins, cancel_runs, frame, flow, io_round, step, run,
}
use wfpdriver.Devctrl.ReadLaws.{
  waiting, answered, tally, Tallies, tally-read1, waiting-begin_cancel, tally-cancel_read,
  io_thread_round-Tallies,
}

-- How often the events bring in the request `k`.
abbrev pub submits : ℕ → Event → ℕ
submits k (read raced irp) = if irp.id == k then 1 else 0
submits k (cancel_begins id) = 0
submits k (cancel_runs id) = 0
submits k (frame packet lens a) = 0
submits k (flow packet lens a) = 0
submits k io_round = 0

abbrev pub submitted : ℕ → List Event → ℕ
submitted k [] = 0
submitted k (e ∷ es) = submits k e + submitted k es

step-Tallies : (k : ℕ) (e : Event) (d : Driver) → Tallies k (tally k d + submits k e) (step e d)
unfolding step
step-Tallies k (read raced irp) d = tally-read1 k raced irp d
step-Tallies k (cancel_begins id) d = omega (arith, waiting-begin_cancel k id d.pended)
step-Tallies k (cancel_runs id) d = omega (arith, tally-cancel_read k id d)
step-Tallies k (frame packet lens a) d = ground (arith, pushdata-Pushed packet lens a d)
step-Tallies k (flow packet lens a) d =
    ground (arith, pushflowestablishedctx-Pushed packet lens a d)
step-Tallies k io_round d = ground (arith, io_thread_round-Tallies k d)

-- After any events that do not end in a fault, each request has been completed as often as it was
-- submitted, less the times that it still waits.
pub tally-run :
    (k : ℕ) (es : List Event) (d d' : Driver)
    → run es d ≡ some d'
    → waiting k d'.pended + answered k d'.completed ≡ tally k d + submitted k es
unfolding run
tally-run k [] d d' h = ground arith
tally-run k (e ∷ es) d d' h = elim (Option-cases (step e d)) [
  | inl n ↦ ground (arith, n)
  | inr (d'', s) ↦ ground (arith, s, step-Tallies k e d, tally-run k es d'' d')
]
