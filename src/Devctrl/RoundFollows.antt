-- ===== src/Devctrl/RoundFollows.antt =====
-- A round of the I/O thread of wfpdriver/devctrl.c, for Channel.
use wfpdriver.Shared.{
  ℕ, ◌≡◌, refl, sym, ap, ap₂, Bool, ◌||◌, true, false, Option, none, some, List, ◌∷◌, Bool-cases,
  Option-cases, inl, inr, if◌then◌else◌, arith,
}
use wfpdriver.Nt.{success, sizeof_nf_read_result}
use wfpdriver.State.{Driver, Irp}
use wfpdriver.Devctrl.Fill.{fill_buffer}
use wfpdriver.Devctrl.FillMoves.{fill_loop-Moves}
use wfpdriver.Devctrl.Moved.{Moved, IsReady}
use wfpdriver.Devctrl.Delivery.{Entry, place_all-mapped}
use wfpdriver.Devctrl.Reads.{
  complete, take_pending, answer_read, service_reads, io_thread_round, is_empty,
}
use wfpdriver.Devctrl.Events.{io_round, after}
use wfpdriver.Devctrl.Channel.{Delivered, idles, delivers, view, replies_of}
use wfpdriver.Devctrl.Follows.{Follows, Kept, Kept-Same, Kept-IsReady, refused-Kept}

answered-Delivered :
    (irp : Irp) (es : List Entry) (off : ℕ) (d d' : Driver)
    → Moved es 0 d off d'
    → Delivered es (view d) (view (complete irp.id success sizeof_nf_read_result off d'))
unfolding complete
answered-Delivered irp es off d d' m = record {
  frames = m.frames;
  flows = m.flows;
  buffer = m.buffer;
  replies = ap₂ ◌∷◌ (omega (arith, m.offset)) (ap replies_of m.completed);
  whole = m.whole;
  fits = omega (
    arith,
    m.offset,
    m.inside,
    ap (λ b. b.buffer_length) m.buffer,
    (place_all-mapped es 0 d.in_buf).1,
  );
}

completed-IsReady :
    (irp : Irp) (off : ℕ) (d : Driver)
    → IsReady d
    → IsReady (complete irp.id success sizeof_nf_read_result off d)
unfolding complete
completed-IsReady irp off d r = record { mapped = r.mapped; frames = r.frames; flows = r.flows }

unseen-Follows : (d d' : Driver) → IsReady d → Kept d d' → Follows io_round d (some d')
unseen-Follows d d' r k = (idles (Kept-Same d d' k), Kept-IsReady d d' k r)

answer_read-Follows : (irp : Irp) (d : Driver) → IsReady d → Follows io_round d (answer_read irp d)
unfolding answer_read fill_buffer
answer_read-Follows irp d r = elim (Bool-cases irp.system_address) [
  | inl addressed ↦ elim (fill_loop-Moves d.query 0 d r (omega arith)) [
    | inl (es, off, d', e, m) ↦
        rw (addressed, e)
          (delivers es (answered-Delivered irp es off d d' m), completed-IsReady irp off d' m.ready)
    | inr (es, off, d', m, s) ↦ rw (addressed, s.2) tt
  ]
  | inr bad ↦ rw bad (unseen-Follows d _ r (refused-Kept irp d))
]

-- Follows is about the view and the readiness, so the driver may be changed elsewhere first.
rebased-Follows :
    (d e : Driver) (r : Option Driver)
    → view e ≡ view d
    → Follows io_round e r
    → Follows io_round d r
rebased-Follows d e none h f = tt
rebased-Follows d e (some d') h f = (rw (sym h) f.0, f.1)

service_reads-Follows : (d : Driver) → IsReady d → Follows io_round d (service_reads d)
unfolding service_reads
service_reads-Follows d r = elim (Bool-cases (is_empty d.pended || is_empty d.query)) [
  | inl idle ↦ rw idle (
      unseen-Follows d d r
        (record { datalink = refl; flows = refl; in_buf = refl; replies = refl }))
  | inr busy ↦ elim (Option-cases (take_pending d.pended)) [
    | inl n ↦
        rw (busy, n)
          (unseen-Follows d d r
            (record { datalink = refl; flows = refl; in_buf = refl; replies = refl }))
    | inr ((irp, rest), e) ↦
        let taken : Driver = record d { pended = rest } in
        rw (busy, e)
          (rebased-Follows d taken (answer_read irp taken) refl (
            answer_read-Follows irp taken
              (record { mapped = r.mapped; frames = r.frames; flows = r.flows })))
  ]
]

round_of-Follows :
    (d : Driver) (r : Option Driver)
    → Follows io_round d r
    → Follows io_round d (after (elim r [ none ↦ none | some d' ↦ some (true, d') ]))
round_of-Follows d none f = tt
round_of-Follows d (some d') f = f

choose-Follows :
    (b : Bool) (d e : Driver) (x : Option (Bool × Driver))
    → Follows io_round d (some e)
    → Follows io_round d (after x)
    → Follows io_round d (after (if b then some (false, e) else x))
choose-Follows true d e x f g = f
choose-Follows false d e x f g = g

pub io_thread_round-Follows :
    (d : Driver) → IsReady d → Follows io_round d (after (io_thread_round d))
unfolding io_thread_round
io_thread_round-Follows d r =
    let woken : Driver = record d { io_event = false } in
    let ready : IsReady woken = record { mapped = r.mapped; frames = r.frames; flows = r.flows } in
    choose-Follows d.shutdown d woken _
      (unseen-Follows d woken r
        (record { datalink = refl; flows = refl; in_buf = refl; replies = refl }))
      (round_of-Follows d (service_reads woken)
        (rebased-Follows d woken (service_reads woken) refl (service_reads-Follows woken ready)))
