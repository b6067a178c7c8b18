-- ===== src/Devctrl/Reads.antt =====
-- wfpdriver/devctrl.c: the read requests, from devctrl_read1 to their completion.
use wfpdriver.Shared.{
  ℕ, Bool, true, false, not, ◌&&◌, ◌||◌, Option, none, some, List, [], ◌∷◌, ◌++◌, ltb, ◌==◌,
  if◌then◌else◌,
}
use wfpdriver.Nt.{
  Status, success, pending, invalid_parameter, insufficient_resources, cancelled,
  sizeof_nf_read_result,
}
use wfpdriver.State.{Driver, Irp}
use wfpdriver.Devctrl.Push.{set_event}
use wfpdriver.Devctrl.Fill.{fill_buffer}

-- irp->IoStatus and IoCompleteRequest.
unfoldable pub complete : ℕ → Status → ℕ → ℕ → Driver → Driver
complete id status information length d = record d {
  completed =
      record { irp_id = id; status = status; information = information; length = length }
      ∷ d.completed;
}

-- What happens under the lock: the request is pended, or found cancelled already.
unfoldable pub pend : Irp → Driver → Status × Driver
pend irp d =
    if irp.cancel && irp.cancel_routine
    then (cancelled, d)
    else (pending, record d { pended = d.pended ++ irp ∷ [] })

-- IoSetCancelRoutine(irp, devctrl_cancelRead); with `raced` IoCancelIrp takes the routine before the
-- driver looks at irp->Cancel.
unfoldable pub arm : Bool → Irp → Irp
arm raced irp =
    if raced
    then record irp { cancel = true; cancel_routine = false }
    else record irp { cancel_routine = true }

unfoldable pub finish_read : Irp → Status × Driver → Status × Driver
unfolding complete
finish_read irp (pending, d) = (pending, d)
finish_read irp (status, d) = (status, complete irp.id status 0 0 d)

unfoldable pub try_pend : Bool → Irp → Driver → Status × Driver
unfolding pend arm set_event
try_pend raced irp d = let r = pend (arm raced irp) d in (r.0, set_event r.1)

unfoldable pub read1 : Bool → Irp → Driver → Status × Driver
unfolding finish_read try_pend
read1 raced irp d = finish_read irp (
    if not irp.mdl_address
    then (invalid_parameter, d)
    else if not irp.system_address || ltb irp.read_length sizeof_nf_read_result
    then (insufficient_resources, d)
    else try_pend raced irp d)

-- RemoveEntryList of the request whose cancel routine was taken; `none` if no such request waits.
unfoldable pub remove_cancelled : ℕ → List Irp → Option (List Irp)
remove_cancelled id [] = none
remove_cancelled id (i ∷ is) =
    let rest = remove_cancelled id is in
    if i.id == id && not i.cancel_routine
    then some is
    else elim rest [ none ↦ none | some js ↦ some (i ∷ js) ]

-- devctrl_cancelRead. IoCancelIrp calls it only for a request whose routine it took.
unfoldable pub cancel_read : ℕ → Driver → Driver
unfolding remove_cancelled complete
cancel_read id d = elim (remove_cancelled id d.pended) [
  | none ↦ d
  | some is ↦ complete id cancelled 0 0 (record d { pended = is })
]

-- The first request whose cancel routine is still there, and the list without it.
unfoldable pub take_pending : List Irp → Option (Irp × List Irp)
take_pending [] = none
take_pending (i ∷ is) =
    let rest = take_pending is in
    if i.cancel_routine
    then some (record i { cancel_routine = false }, is)
    else elim rest [ none ↦ none | some (j, js) ↦ some (j, i ∷ js) ]

-- With the request in hand: no address to answer to, or the buffer is filled.
unfoldable pub answer_read : Irp → Driver → Option Driver
unfolding complete
answer_read irp d =
    if irp.system_address
    then elim (fill_buffer d) [
      | none ↦ none
      | some (offset, d') ↦ some (complete irp.id success sizeof_nf_read_result offset d')
    ]
    else some (complete irp.id insufficient_resources 0 0 d)

unfoldable pub is_empty {ℓ} : {A : Type ℓ} → List A → Bool
is_empty [] = true
is_empty (x ∷ xs) = false

unfoldable pub service_reads : Driver → Option Driver
unfolding is_empty take_pending answer_read
service_reads d =
    if is_empty d.pended || is_empty d.query then some d else elim (take_pending d.pended) [
      | none ↦ some d
      | some (irp, rest) ↦ answer_read irp (record d { pended = rest })
    ]

-- One round of devctrl_ioThread after its event was set: `none` in the pair is the end of the thread.
unfoldable pub io_thread_round : Driver → Option (Bool × Driver)
io_thread_round d =
    if d.shutdown
    then some (false, record d { io_event = false })
    else elim (service_reads (record d { io_event = false })) [
      | none ↦ none
      | some d' ↦ some (true, d')
    ]
