-- ===== src/Devctrl/PopMoves.antt =====
-- What one round of devctrl_fillBuffer of devctrl.c moves, and where it can leave the buffer.
use wfpdriver.Shared.{
  ℕ, ◌+◌, ◌-◌, ◌≤◌, ◌<◌, ◌≡◌, ◌≢◌, refl, sym, ◌⊎◌, inl, inr, Option, none, some, List, [], ◌∷◌, map,
  ltb, ◌==◌, Bool-cases, All, not-ltb→le, ltb→lt, arith,
}
use wfpdriver.Nt.{Status, success, no_memory, unsuccessful, nf_datalink_packet, nf_flowctx_packet}
use wfpdriver.State.{Driver, Packet}
use wfpdriver.Packets.Alloc.{IsPacket}
use wfpdriver.Devctrl.Pop.{Popped, data_size, pop_flows, finish_flow, pop_flowestablished_data}
use wfpdriver.Devctrl.Fill.{pop_by_code}
use wfpdriver.Devctrl.Frame.{placed}
use wfpdriver.Devctrl.Delivery.{Entry, total_size, place_all-IsMapped, place_all-mapped}
use wfpdriver.Devctrl.Room.{
  datalink_entry, flow_entry, sent, left, sent-append-left, sent_fits, All-sent,
}
use wfpdriver.Devctrl.Popping.{
  data_link_outcome, pop_data_link_data_lem, flow_result, flow_status, pop_flowestablished_data_lem,
}
use wfpdriver.Devctrl.Overrun.{pop_flowestablished_data_full}
use wfpdriver.Devctrl.Moved.{
  Moved, Moved-refl, IsReady, flows_of-map, frames_of-map, total_size-map,
}

-- A pop that returns.
abbrev pub Pops : ℕ → Driver → Popped → Type 0
Pops off d r =
    (es : List Entry) × (status : Status) × (off' : ℕ) × (d' : Driver) × (r
      ≡ some (status, off', d'))
    × Moved es off d off' d'

data_link_outcome-Moved :
    (ps : List Packet) (off : ℕ) (d : Driver)
    → d.datalink ≡ ps
    → IsReady d
    → off ≤ d.in_buf.buffer_length
    → Pops off d (some (data_link_outcome ps off d))
data_link_outcome-Moved [] off d e r h = ([], unsuccessful, off, d, refl, Moved-refl off d r h)
data_link_outcome-Moved (p ∷ rest) off d e r h =
    elim (Bool-cases (ltb (d.in_buf.buffer_length - off) (data_size p))) [
      | inl full ↦ ([], no_memory, off, d, rw full, Moved-refl off d r h)
      | inr room ↦
          let fits : off + data_size p ≤ d.in_buf.buffer_length =
            omega (arith, not-ltb→le _ _ room) in
          let whole : All IsPacket (p ∷ rest) = rw e at r.frames in
          (
            datalink_entry p ∷ [],
            success,
            off + data_size p,
            record d {
              datalink = rest;
              datalink_live = d.datalink_live - 1;
              in_buf = placed nf_datalink_packet 0 p off d.in_buf;
            },
            rw room,
            record {
              offset = omega arith;
              inside = fits;
              buffer = refl;
              frames = e;
              flows = refl;
              whole = (whole.0, tt);
              sized = omega arith;
              ready = record {
                mapped = omega (arith, r.mapped);
                frames = whole.1;
                flows = r.flows;
              };
              pended = refl;
              completed = refl;
            },
          )
    ]

flow_result-Moved :
    (off : ℕ) (d : Driver)
    → IsReady d
    → off < d.in_buf.buffer_length
    → Moved
        (map flow_entry (sent d.in_buf.buffer_length off d.flows))
        off
        d
        (off + total_size (map flow_entry (sent d.in_buf.buffer_length off d.flows)))
        (flow_result
          (sent d.in_buf.buffer_length off d.flows)
          (left d.in_buf.buffer_length off d.flows)
          off
          d).2
flow_result-Moved off d r h = record {
  offset = refl;
  inside = omega (arith, sent_fits len off d.flows h, place_all-mapped es off d.in_buf);
  buffer = refl;
  frames = rw (frames_of-map (sent len off d.flows));
  flows = rw (flows_of-map (sent len off d.flows)) (sym (sent-append-left len off d.flows));
  whole = (All-sent len off d.flows r.flows).0;
  sized =
      rw (frames_of-map (sent len off d.flows), flows_of-map (sent len off d.flows))
        (omega (arith, total_size-map (sent len off d.flows)));
  ready = record {
    mapped = place_all-IsMapped es off d.in_buf r.mapped;
    frames = r.frames;
    flows = (All-sent len off d.flows r.flows).1;
  };
  pended = refl;
  completed = refl;
}
  where
    len : ℕ
    len = d.in_buf.buffer_length

    es : List Entry
    es = map flow_entry (sent len off d.flows)

-- A pop of either list returns, unless the buffer is full to the last byte and a flow waits.
abbrev pub Stuck {ℓ} : {A : Type ℓ} → ℕ → Driver → Option A → Type ℓ
Stuck off d r = (off ≡ d.in_buf.buffer_length) × (d.flows ≢ []) × (r ≡ none)

pop_flowestablished_data-empty :
    (off : ℕ) (d : Driver)
    → d.flows ≡ []
    → pop_flowestablished_data off d ≡ some (success, off, record d { flows = [] })
unfolding pop_flowestablished_data pop_flows finish_flow
pop_flowestablished_data-empty off d e = rw (e, pop_flows)

-- The pop from a full buffer, by what waits.
pop_full-Pops :
    (ps : List Packet) (off : ℕ) (d : Driver)
    → d.flows ≡ ps
    → IsReady d
    → off ≡ d.in_buf.buffer_length
    → Pops off d (pop_flowestablished_data off d) ⊎ Stuck off d (pop_flowestablished_data off d)
pop_full-Pops [] off d e r h = inl (
  [],
  success,
  off,
  record d { flows = [] },
  pop_flowestablished_data-empty off d e,
  record {
    offset = omega arith;
    inside = omega arith;
    buffer = refl;
    frames = refl;
    flows = e;
    whole = tt;
    sized = refl;
    ready = record { mapped = r.mapped; frames = r.frames; flows = tt };
    pended = refl;
    completed = refl;
  },
)
pop_full-Pops (p ∷ rest) off d e r h =
    let whole : All IsPacket (p ∷ rest) = rw e at r.flows in
    inr
      (h, rw e (λ c. cc), rw h (pop_flowestablished_data_full d p rest e r.mapped.covers whole.0.1))

pop_flow-Pops :
    (off : ℕ) (d : Driver)
    → IsReady d
    → off ≤ d.in_buf.buffer_length
    → Pops off d (pop_flowestablished_data off d) ⊎ Stuck off d (pop_flowestablished_data off d)
pop_flow-Pops off d r h = elim (Bool-cases (ltb off d.in_buf.buffer_length)) [
  | inl lt ↦ inl (
    map flow_entry (sent d.in_buf.buffer_length off d.flows),
    flow_status (left d.in_buf.buffer_length off d.flows),
    _,
    _,
    pop_flowestablished_data_lem d off r.flows r.mapped (ltb→lt _ _ lt),
    flow_result-Moved off d r (ltb→lt _ _ lt),
  )
  | inr ge ↦ pop_full-Pops d.flows off d refl r (omega (arith, not-ltb→le _ _ ge))
]

-- Every pop returns, but a flow pop at the very end of the buffer.
pub pop_by_code-Pops :
    (code off : ℕ) (d : Driver)
    → IsReady d
    → off ≤ d.in_buf.buffer_length
    → Pops off d (pop_by_code code off d) ⊎ Stuck off d (pop_by_code code off d)
unfolding pop_by_code
pop_by_code-Pops code off d r h = elim (Bool-cases (code == nf_datalink_packet)) [
  | inl one ↦
      rw (one, pop_data_link_data_lem d off d.datalink refl r.frames r.mapped h)
        (inl (data_link_outcome-Moved d.datalink off d refl r h))
  | inr other ↦ elim (Bool-cases (code == nf_flowctx_packet)) [
    | inl two ↦ rw (other, two) (pop_flow-Pops off d r h)
    | inr neither ↦ rw (other, neither) (inl ([], success, off, d, refl, Moved-refl off d r h))
  ]
]
