-- ===== src/Devctrl/Refines.antt =====
-- The driver of wfpdriver/devctrl.c with its packet lists does what Channel says, over any
-- events that come one after the other.
use wfpdriver.Shared.{◌≡◌, refl, some, List, [], ◌∷◌, All, Option-cases, inl, inr, arith}
use mathlib.Core.Path.{subst}
use wfpdriver.State.{Driver}
use wfpdriver.Devctrl.Moved.{IsReady}
use wfpdriver.Devctrl.Reads.{read1, cancel_read}
use wfpdriver.Devctrl.Events.{
  Event, read, cancel_begins, cancel_runs, frame, flow, io_round, step, run,
}
use wfpdriver.Devctrl.Channel.{reads, begins, cancels, ChannelSteps, here, next, view}
use wfpdriver.Devctrl.Follows.{
  IsCapture, Follows, Kept-Same, Kept-IsReady, frame-Follows, flow-Follows, read1-Kept,
  cancel_read-Kept,
}
use wfpdriver.Devctrl.RoundFollows.{io_thread_round-Follows}

step-Follows : (e : Event) (d : Driver) → IsCapture e → IsReady d → Follows e d (step e d)
unfolding step
step-Follows (read raced irp) d h r =
    let k = read1-Kept raced irp d in
    (reads (Kept-Same d (read1 raced irp d).1 k), Kept-IsReady d (read1 raced irp d).1 k r)
step-Follows (cancel_begins id) d h r = (
  begins (record { frames = refl; flows = refl; buffer = refl; replies = refl }),
  record { mapped = r.mapped; frames = r.frames; flows = r.flows },
)
step-Follows (cancel_runs id) d h r =
    let k = cancel_read-Kept id d in
    (cancels (Kept-Same d (cancel_read id d) k), Kept-IsReady d (cancel_read id d) k r)
step-Follows (frame packet lens a) d h r = frame-Follows packet lens a d h r
step-Follows (flow packet lens a) d h r = flow-Follows packet lens a d h r
step-Follows io_round d h r = io_thread_round-Follows d r

-- If the shared buffer is mapped in full, the waiting packets are whole and every captured packet has
-- an int for its length, then whatever events the driver goes through without a fault, each carried out
-- to its end before the next begins, are steps of the channel: a capture puts the accepted bytes on top of its stack and touches nothing else; a round of
-- the I/O thread does nothing the channel sees, or takes whole packets off the tops, fills the buffer
-- with their records from its start and answers a read with the number of their bytes; requests and
-- cancellations touch nothing.
pub run-Refines :
    (es : List Event) (d d' : Driver)
    → All IsCapture es
    → IsReady d
    → run es d ≡ some d'
    → ChannelSteps es (view d) (view d')
unfolding run
run-Refines [] d d' h r e =
    let p : d ≡ d' = cc in subst (λ x. ChannelSteps [] (view d) (view x)) p here
run-Refines (x ∷ es) d d' h r e = elim (Option-cases (step x d)) [
  | inl n ↦ ground (arith, n)
  | inr (m, s) ↦
      let f : Follows x d (some m) = rw s at (step-Follows x d h.0 r) in
      next f.0 (run-Refines es m d' h.1 f.1 (rw (s, run) at e))
]
