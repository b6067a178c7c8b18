-- ===== src/Devctrl/Events.antt =====
-- The driver of devctrl.c over events: new requests, captured packets, cancellations in the two halves
-- that the I/O manager makes of them, and rounds of devctrl_ioThread. An event is carried out to its end
-- before the next begins. The code lets go of its locks inside of a round and of a capture, so others can
-- run there: that is not in these sequences. Overlap has a pop of a frame with a capture inside.
use wfpdriver.Shared.{
  ℕ, Bool, true, false, Option, none, some, List, [], ◌∷◌, ◌==◌, if◌then◌else◌, ℤ,
}
use wfpdriver.State.{Driver, Irp}
use wfpdriver.Packets.Alloc.{Alloc}
use wfpdriver.Packets.Datalink
use wfpdriver.Packets.Established
use wfpdriver.Devctrl.Reads.{read1, cancel_read, io_thread_round}

-- `cancel_begins` is the I/O manager: it sets irp->Cancel and takes the cancel routine.
-- `cancel_runs` is the call of devctrl_cancelRead that follows.
pub data Event : Type 0 where
  read : Bool → Irp → Event
  cancel_begins cancel_runs : ℕ → Event
  frame flow : Option (List ℕ) → ℤ → Alloc → Event
  io_round : Event

abbrev pub begin_cancel : ℕ → List Irp → List Irp
begin_cancel id [] = []
begin_cancel id (i ∷ is) =
    (if i.id == id then record i { cancel = true; cancel_routine = false } else i)
    ∷ begin_cancel id is

abbrev pub after {ℓ} : {A : Type ℓ} → Option (A × Driver) → Option Driver
after none = none
after (some (a, d)) = some d

unfoldable pub step : Event → Driver → Option Driver
unfolding read1 cancel_read io_thread_round Datalink.pushdata Established.pushflowestablishedctx
step (read raced irp) d = some (read1 raced irp d).1
step (cancel_begins id) d = some (record d { pended = begin_cancel id d.pended })
step (cancel_runs id) d = some (cancel_read id d)
step (frame packet lens a) d = after (Datalink.pushdata packet lens a d)
step (flow packet lens a) d = after (Established.pushflowestablishedctx packet lens a d)
step io_round d = after (io_thread_round d)

-- `none` is an access violation in one of the steps.
unfoldable pub run : List Event → Driver → Option Driver
run [] d = some d
run (e ∷ es) d = elim (step e d) [ none ↦ none | some d' ↦ run es d' ]
