-- ===== src/Devctrl/Covers.antt =====
-- Every frame query of devctrl.c stands for a frame that waits, whatever events come one
-- after the other.
use wfpdriver.Shared.{
  ℕ, ◌+◌, ◌-◌, ◌≤◌, ◌≡◌, refl, inl, inr, Bool, false, ◌&&◌, Bool-cases, Option, none, some,
  Option-cases, List, [], ◌∷◌, length, ltb, sub64, add64, ◌==◌, if◌then◌else◌, ℤ, pos, negsuc,
  region, arith,
}
use wfpdriver.Nt.{Status, success, no_memory, nt_success, nf_datalink_packet, nf_flowctx_packet}
use wfpdriver.State.{Driver, Packet, Irp}
use wfpdriver.Packets.Alloc.{Alloc, data_block, fill_packet}
use wfpdriver.Packets.Datalink
use wfpdriver.Packets.Established
use wfpdriver.Devctrl.Pop.{
  Popped, data_size, put_data, finish_flow, finish_data_link, pop_first_data_link,
  pop_data_link_data, pop_flows, pop_flowestablished_data,
}
use wfpdriver.Devctrl.Fill.{pop_by_code, fill_loop, fill_buffer}
use wfpdriver.Devctrl.Reads.{
  read1, finish_read, try_pend, pend, complete, cancel_read, take_pending, answer_read,
  service_reads, io_thread_round,
}
use wfpdriver.Devctrl.Push.{set_event}
use wfpdriver.Devctrl.Serves.{count}
use wfpdriver.Devctrl.Events.{
  Event, read, cancel_begins, cancel_runs, frame, flow, io_round, after, step, run,
}

-- As many frames wait as there are frame queries, at least.
abbrev pub Covers : Driver → Type 0
Covers d = count nf_datalink_packet d.query ≤ length d.datalink

abbrev CoversIf : Option Driver → Type 0
CoversIf none = Unit {0}
CoversIf (some d) = Covers d

frame_filled-Covers :
    (query : Bool) (p : Option Packet) (d : Driver)
    → Covers d
    → (n : ℕ) → CoversIf (after (Datalink.push_filled query p (record d { datalink_live = n })))
unfolding Datalink.push_filled
frame_filled-Covers query none d h n = tt
frame_filled-Covers query (some p) d h n = ground arith

pushdata-Covers :
    (packet : Option (List ℕ)) (lens : ℤ) (a : Alloc) (d : Driver)
    → Covers d
    → CoversIf (after (Datalink.pushdata packet lens a d))
unfolding Datalink.pushdata
pushdata-Covers packet (negsuc n) a d h = ground arith
pushdata-Covers packet (pos n) a d h = elim (Option-cases (data_block n a.buffer)) [
  | inl e ↦ ground (arith, e)
  | inr (b, e) ↦ ground (
    arith,
    e,
    frame_filled-Covers a.query
        (fill_packet (region packet) n (record { data_buffer = b; data_length = 0 })) d h
        (d.datalink_live + 1),
  )
]

flow_filled-Covers :
    (query : Bool) (p : Option Packet) (d : Driver)
    → Covers d
    → (n : ℕ) → CoversIf (after (Established.push_filled query p (record d { flow_live = n })))
unfolding Established.push_filled
flow_filled-Covers query none d h n = tt
flow_filled-Covers query (some p) d h n = ground arith

pushflow-Covers :
    (packet : Option (List ℕ)) (lens : ℤ) (a : Alloc) (d : Driver)
    → Covers d
    → CoversIf (after (Established.pushflowestablishedctx packet lens a d))
unfolding Established.pushflowestablishedctx
pushflow-Covers packet (negsuc n) a d h = ground arith
pushflow-Covers packet (pos n) a d h = elim (Option-cases (data_block n a.buffer)) [
  | inl e ↦ ground (arith, e)
  | inr (b, e) ↦ ground (
    arith,
    e,
    flow_filled-Covers a.query
        (fill_packet (region packet) n (record { data_buffer = b; data_length = 0 })) d h
        (d.flow_live + 1),
  )
]

-- A pop takes at most one frame, and that only if it serves a frame query.
abbrev Takes : ℕ → ℕ → Popped → Type 0
Takes code n none = Unit {0}
Takes code n (some (status, off, d)) =
    n ≤ length d.datalink + (if nt_success status && code == nf_datalink_packet then 1 else 0)

pop_first-Takes :
    (ps : List Packet) (off : ℕ) (d : Driver)
    → d.datalink ≡ ps
    → Takes nf_datalink_packet (length ps) (pop_first_data_link ps off d)
unfolding pop_first_data_link finish_data_link Datalink.packfree
pop_first-Takes [] off d e = omega arith
pop_first-Takes (p ∷ ps) off d e = ground arith

abbrev SameFrames : ℕ → Popped → Type 0
SameFrames n none = Unit {0}
SameFrames n (some (status, off, d)) = length d.datalink ≡ n

finish_flow-SameFrames :
    (last : Option Packet) (status : Status) (off : ℕ) (d : Driver)
    → SameFrames (length d.datalink) (some (finish_flow last (status, off, d)))
unfolding finish_flow Established.packfree
finish_flow-SameFrames none status off d = refl
finish_flow-SameFrames (some p) status off d = ground arith

pop_flows-SameFrames :
    (ps : List Packet) (last : Option Packet) (off : ℕ) (d : Driver)
    → SameFrames (length d.datalink) (pop_flows ps last off d)
unfolding pop_flows
pop_flows-SameFrames [] last off d =
    finish_flow-SameFrames last success off (record d { flows = [] })
pop_flows-SameFrames (p ∷ rest) last off d =
    elim (Bool-cases (ltb (sub64 (sub64 d.in_buf.buffer_length off) 1) (data_size p))) [
      | inl full ↦
          rw full (finish_flow-SameFrames (some p) no_memory off (record d { flows = rest }))
      | inr room ↦ elim (Option-cases (put_data nf_flowctx_packet 520 p off d.in_buf)) [
        | inl n ↦ rw (room, n) tt
        | inr (s, q) ↦
            rw (room, q)
              (pop_flows-SameFrames rest (some p) (add64 off (data_size p))
                (record d { flows = rest; in_buf = s }))
      ]
    ]

pop_by_code-Takes :
    (code off : ℕ) (d : Driver) → Takes code (length d.datalink) (pop_by_code code off d)
unfolding pop_by_code pop_data_link_data pop_flowestablished_data
pop_by_code-Takes code off d =
    ground (arith, pop_first-Takes d.datalink off d refl, pop_flows-SameFrames d.flows none off d)

abbrev FillCovers : Option (ℕ × Driver) → Type 0
FillCovers none = Unit {0}
FillCovers (some (off, d)) = Covers d

fill_loop-Covers :
    (codes : List ℕ) (off : ℕ) (d : Driver)
    → count nf_datalink_packet codes ≤ length d.datalink
    → FillCovers (fill_loop codes off d)
unfolding fill_loop
fill_loop-Covers [] off d h = omega arith
fill_loop-Covers (code ∷ codes) off d h =
    elim (Option-cases (pop_by_code code off (record d { query = codes }))) [
      | inl n ↦ rw (n, fill_loop) tt
      | inr ((status, off', d'), q) ↦
          let k : Takes code (length d.datalink) (some (status, off', d')) =
            rw q at (pop_by_code-Takes code off (record d { query = codes })) in
          elim (Bool-cases (nt_success status)) [
            | inl good ↦
                rw (q, fill_loop, good)
                  (fill_loop-Covers codes off' (record d' { query_live = d'.query_live - 1 })
                    (ground (arith, good, k)))
            | inr bad ↦ rw (q, fill_loop, bad) (ground (arith, bad, k))
          ]
    ]

answer_read-Covers : (irp : Irp) (d : Driver) → Covers d → CoversIf (answer_read irp d)
unfolding answer_read complete fill_buffer
answer_read-Covers irp d h = ground (arith, fill_loop-Covers d.query 0 d h)

io_thread_round-Covers : (d : Driver) → Covers d → CoversIf (after (io_thread_round d))
unfolding io_thread_round service_reads
io_thread_round-Covers d h = elim (Option-cases (take_pending d.pended)) [
  | inl n ↦ ground (arith, n)
  | inr ((irp, rest), e) ↦
      ground (arith, e, answer_read-Covers irp (record d { io_event = false; pended = rest }) h)
]

step-Covers : (e : Event) (d : Driver) → Covers d → CoversIf (step e d)
unfolding step read1 finish_read try_pend pend complete set_event cancel_read
step-Covers (read raced irp) d h = ground arith
step-Covers (cancel_begins id) d h = h
step-Covers (cancel_runs id) d h = ground arith
step-Covers (frame packet lens a) d h = pushdata-Covers packet lens a d h
step-Covers (flow packet lens a) d h = pushflow-Covers packet lens a d h
step-Covers io_round d h = io_thread_round-Covers d h

-- Once there is a frame for every frame query there always is one, whatever reads, cancellations,
-- captured packets, failed allocations and rounds of the thread follow in whatever order, as long as
-- none of them faults.
pub run-Covers :
    (es : List Event) (d d' : Driver)
    → run es d ≡ some d'
    → count nf_datalink_packet d.query ≤ length d.datalink
    → count nf_datalink_packet d'.query ≤ length d'.datalink
unfolding run
run-Covers [] d d' e h = ground arith
run-Covers (x ∷ es) d d' e h = elim (Option-cases (step x d)) [
  | inl n ↦ ground (arith, n)
  | inr (m, s) ↦ run-Covers es m d' (rw (s, run) at e) (rw s at (step-Covers x d h))
]
