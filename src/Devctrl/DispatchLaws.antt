-- ===== src/Devctrl/DispatchLaws.antt =====
-- devctrl_dispatch of devctrl.c answers every request once.
use wfpdriver.Shared.{
  ◌∙◌, ℕ, ◌+◌, ◌≡◌, refl, Bool, true, false, not, ltb, ◌&&◌, Bool-cases, inl, inr, Option, none,
  some, ◌==◌, ◌⊎◌, ◌<◌, ◌≤◌, ◌>>=◌, if◌then◌else◌, arith,
}
use wfpdriver.Nt.{Status, success, unsuccessful, sizeof_nf_buffers, nt_success}
use wfpdriver.State.{Driver, Irp}
use wfpdriver.Devctrl.Push.{setmonitor}
use wfpdriver.Devctrl.Reads.{complete}
use wfpdriver.Devctrl.SharedMem.{
  MmAnswers, ReplyBuffer, Opened, absent, writable, unwritable, is_present, is_writable,
  free_buffers, open_in, open_out, open_both, finish_open, open_mem, set_in, set_out,
}
use wfpdriver.Devctrl.Dispatch.{
  IoControl, Request, process_request, write_request, create_request, close_request, fall_through,
  device_control, dispatch, enable_monitor, disentable_monitor, open_sharemem, stop_monitor,
  unknown, create, close, other, read, write, control,
}
use wfpdriver.Devctrl.CloseLaws.{drained, close_request-drained}
use wfpdriver.Devctrl.Keeps.{SameReads}
use wfpdriver.Devctrl.ReadLaws.{tally, tally-read1}

-- One more request `id` has been answered.
abbrev pub Once : ℕ → ℕ → Driver → Driver → Type 0
Once k id d d' = tally k d' ≡ tally k d + (if id == k then 1 else 0)

-- The requests that fault: a write without an MDL, or one that finds no header in the second buffer;
-- a request for the shared memory that gets it, and whose reply goes where nothing can be written.
abbrev pub Faults : Irp → Request → Driver → Type 0
Faults irp (write length) d = (irp.mdl_address ≡ false) ⊎ (d.out_buf.mapped < 12)
Faults irp (control buffer len a b open_sharemem) d =
    (buffer ≡ unwritable) × (32 ≤ len) × (nt_success (open_both a b d).0 ≡ true)
Faults irp _ d = ⊥

abbrev pub OnceIf : ℕ → Irp → Request → Driver → Option (Status × Driver) → Type 0
OnceIf k irp r d none = Faults irp r d
OnceIf k irp r d (some (status, d')) = Once k irp.id d d'

complete-Once :
    (k id : ℕ) (status : Status) (information length : ℕ) (d d' : Driver)
    → SameReads d d'
    → Once k id d (complete id status information length d')
unfolding complete
complete-Once k id status information length d d' h = rw (h.0, h.1) (omega arith)

free_buffers-SameReads : (d : Driver) → SameReads d (free_buffers d)
unfolding free_buffers
free_buffers-SameReads d = (refl, refl)

if-SameReads :
    (d : Driver) (b : Bool) (x y : Status × Driver)
    → SameReads d x.1
    → SameReads d y.1
    → SameReads d (if b then x else y).1
if-SameReads d true x y hx hy = hx
if-SameReads d false x y hx hy = hy

open_in-SameReads : (a : MmAnswers) (d : Driver) → SameReads d (open_in a d).1
unfolding open_in set_in
open_in-SameReads a d = if-SameReads d (d.in_buf.mdl == 0) _ _ (refl, refl) (refl, refl)

open_out-SameReads : (a : MmAnswers) (d : Driver) → SameReads d (open_out a d).1
unfolding open_out set_out
open_out-SameReads a d = if-SameReads d (d.out_buf.mdl == 0) _ _ (refl, refl) (refl, refl)

open_both-SameReads : (a b : MmAnswers) (d : Driver) → SameReads d (open_both a b d).1
unfolding open_both
open_both-SameReads a b d =
    let i = open_in-SameReads a d in
    let o = open_out-SameReads b (open_in a d).1 in
    if-SameReads d (nt_success (open_in a d).0) _ _ (o.0 ∙ i.0, o.1 ∙ i.1) i

-- A request for the shared memory has been answered, or was served with its buffer not writable.
abbrev OpensOnce : ℕ → ℕ → ReplyBuffer → ℕ → Status → Driver → Opened → Type 0
OpensOnce k id buffer len st d none = (buffer ≡ unwritable) × (32 ≤ len) × (nt_success st ≡ true)
OpensOnce k id buffer len st d (some (status, reply, d')) = Once k id d d'

finish_open-OpensOnce :
    (k id len : ℕ) (buffer : ReplyBuffer) (d : Driver) (r : Status × Driver)
    → is_present buffer && not (ltb len sizeof_nf_buffers) ≡ true
    → SameReads d r.1
    → OpensOnce k id buffer len r.0 d (finish_open id buffer r)
unfolding finish_open free_buffers is_writable is_present
finish_open-OpensOnce k id len writable d (status, d') p h = elim (Bool-cases (nt_success status)) [
  | inl good ↦ rw good (complete-Once k id success sizeof_nf_buffers 0 d d' h)
  | inr bad ↦ rw bad (complete-Once k id unsuccessful 0 0 d (free_buffers d') h)
]
finish_open-OpensOnce k id len unwritable d (status, d') p h =
    elim (Bool-cases (nt_success status)) [
      | inl good ↦ rw good (refl, ground (arith, p), good)
      | inr bad ↦ rw bad (complete-Once k id unsuccessful 0 0 d (free_buffers d') h)
    ]
finish_open-OpensOnce k id len absent d r p h = cc

open_mem-OpensOnce :
    (k id : ℕ) (buffer : ReplyBuffer) (len : ℕ) (a b : MmAnswers) (d : Driver)
    → OpensOnce k id buffer len (open_both a b d).0 d (open_mem id buffer len a b d)
unfolding open_mem
open_mem-OpensOnce k id buffer len a b d =
    elim (Bool-cases (is_present buffer && not (ltb len sizeof_nf_buffers))) [
      | inl good ↦ rw good (
          finish_open-OpensOnce k id len buffer d (open_both a b d) good
            (open_both-SameReads a b d))
      | inr bad ↦ rw bad (complete-Once k id unsuccessful 0 0 d d (refl, refl))
    ]

opened-OnceIf :
    (k : ℕ) (irp : Irp) (buffer : ReplyBuffer) (len : ℕ) (a b : MmAnswers) (d : Driver) (o : Opened)
    → OpensOnce k irp.id buffer len (open_both a b d).0 d o
    → OnceIf k irp
        (control buffer len a b open_sharemem)
        d
        (o >>= λ (status, reply, d1). some (status, d1))
opened-OnceIf k irp buffer len a b d none h = h
opened-OnceIf k irp buffer len a b d (some (status, reply, d1)) h = h

close_request-Once : (k id : ℕ) (d : Driver) → Once k id d (close_request id d).1
unfolding free_buffers
close_request-Once k id d =
    rw (close_request-drained id d)
      (complete-Once k id success 0 0 d (free_buffers (drained d)) (refl, refl))

write_request-OnceIf :
    (k : ℕ) (irp : Irp) (length : ℕ) (d : Driver)
    → OnceIf k irp (write length) d (write_request irp length d)
unfolding write_request process_request complete
write_request-OnceIf k irp length d = ground arith

device_control-OnceIf :
    (k : ℕ) (irp : Irp) (buffer : ReplyBuffer) (len : ℕ) (a b : MmAnswers) (c : IoControl)
    (d : Driver)
    → OnceIf k irp (control buffer len a b c) d (device_control irp.id buffer len a b c d)
unfolding device_control fall_through complete setmonitor
device_control-OnceIf k irp buffer len a b enable_monitor d = omega arith
device_control-OnceIf k irp buffer len a b disentable_monitor d = omega arith
device_control-OnceIf k irp buffer len a b stop_monitor d = omega arith
device_control-OnceIf k irp buffer len a b (unknown c) d = omega arith
device_control-OnceIf k irp buffer len a b open_sharemem d =
    opened-OnceIf k irp buffer len a b d (open_mem irp.id buffer len a b d)
      (open_mem-OpensOnce k irp.id buffer len a b d)

-- Every request is answered: devctrl_dispatch returns, and the request is then pended or completed
-- exactly once more than before, and no other request is touched; but for a write without an MDL or
-- with less than 12 bytes mapped of the second buffer, and a request for the shared memory that is
-- served while the caller's buffer cannot be written.
pub dispatch-OnceIf :
    (k : ℕ) (irp : Irp) (r : Request) (d : Driver) → OnceIf k irp r d (dispatch irp r d)
unfolding dispatch create_request close_request fall_through complete
dispatch-OnceIf k irp create d = omega arith
dispatch-OnceIf k irp other d = omega arith
dispatch-OnceIf k irp close d = close_request-Once k irp.id d
dispatch-OnceIf k irp (read raced) d = tally-read1 k raced irp d
dispatch-OnceIf k irp (write length) d = write_request-OnceIf k irp length d
dispatch-OnceIf k irp (control buffer len a b c) d = device_control-OnceIf k irp buffer len a b c d
