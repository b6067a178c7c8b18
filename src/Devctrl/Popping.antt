-- ===== src/Devctrl/Popping.antt =====
-- What the two pop functions of devctrl.c do on every branch, in closed form.
use wfpdriver.Shared.{
  ℕ, ◌+◌, ◌-◌, ◌≤◌, ◌<◌, ◌≡◌, refl, ap, ◌∙◌, inl, inr, Option, none, some, List, [], ◌∷◌, map, ltb,
  if◌then◌else◌, Bool-cases, not-ltb→le, All, arith,
}
use wfpdriver.Nt.{Status, success, unsuccessful, no_memory, nf_datalink_packet, nf_flowctx_packet}
use wfpdriver.State.{Driver, Packet}
use wfpdriver.Packets.Alloc.{IsPacket}
use wfpdriver.Packets.Datalink
use wfpdriver.Packets.Established
use wfpdriver.Devctrl.Pop.{
  Popped, data_size, finish_data_link, pop_first_data_link, pop_data_link_data, finish_flow,
  pop_flows, pop_flowestablished_data,
}
use wfpdriver.Devctrl.Frame.{placed, IsMapped, put_data-placed, sub64_lem, add64_lem}
use wfpdriver.Devctrl.Room.{flow_entry, sent, left}
use wfpdriver.Devctrl.Delivery.{place_all, total_size}

-- What a pop of the frame list should do: with nothing to move or too little room nothing changes,
-- and otherwise the first packet goes to the buffer and is freed. Plain subtraction, no faults.
abbrev pub data_link_outcome : List Packet → ℕ → Driver → Status × ℕ × Driver
data_link_outcome [] off d = (unsuccessful, off, d)
data_link_outcome (p ∷ rest) off d =
    if ltb (d.in_buf.buffer_length - off) (data_size p) then (no_memory, off, d) else (
      success,
      off + data_size p,
      record d {
        datalink = rest;
        datalink_live = d.datalink_live - 1;
        in_buf = placed nf_datalink_packet 0 p off d.in_buf;
      },
    )

-- Over a mapped buffer and whole packets, a pop of the frame list from an offset inside the buffer does
-- exactly that: the first packet goes to the buffer if it fits.
pub pop_data_link_data_lem :
    (d : Driver) (off : ℕ) (ps : List Packet)
    → d.datalink ≡ ps
    → All IsPacket ps
    → IsMapped d.in_buf
    → off ≤ d.in_buf.buffer_length
    → pop_data_link_data off d ≡ some (data_link_outcome ps off d)
unfolding pop_data_link_data pop_first_data_link finish_data_link Datalink.packfree
pop_data_link_data_lem d off [] e v m h = rw (e, pop_first_data_link)
pop_data_link_data_lem d off (p ∷ rest) e v m h =
    elim (Bool-cases (ltb (d.in_buf.buffer_length - off) (data_size p))) [
      | inl full ↦
          rw (e, pop_first_data_link, sub64_lem d.in_buf.buffer_length off h (omega arith), full)
            (ground arith)
      | inr room ↦ rw (
        e,
        pop_first_data_link,
        sub64_lem d.in_buf.buffer_length off h (omega arith),
        room,
        put_data-placed nf_datalink_packet 0 p off d.in_buf v.0
            (omega (arith, not-ltb→le _ _ room)),
        add64_lem off (data_size p) (omega (arith, not-ltb→le _ _ room)),
      )
    ]

abbrev last_of : Option Packet → List Packet → Option Packet
last_of last [] = last
last_of last (p ∷ ps) = last_of (some p) ps

abbrev flows_put : List Packet → List Packet → ℕ → Driver → Driver
flows_put done rest off d = record d {
  flows = rest;
  in_buf = place_all (map flow_entry done) off d.in_buf;
}

abbrev flow_outcome : Option Packet → List Packet → List Packet → ℕ → Driver → Status × ℕ × Driver
flow_outcome last done [] off d =
    finish_flow (last_of last done)
      (success, off + total_size (map flow_entry done), flows_put done [] off d)
flow_outcome last done (p ∷ rest) off d =
    (no_memory, off + total_size (map flow_entry done), flows_put done (p ∷ rest) off d)

flow_outcome-cons :
    (last : Option Packet) (p : Packet) (rest : List Packet) (off : ℕ) (d : Driver)
    (xs ys : List Packet)
    → flow_outcome
        (some p)
        xs
        ys
        (off + data_size p)
        (record d { flows = rest; in_buf = placed nf_flowctx_packet 520 p off d.in_buf })
      ≡ flow_outcome last (p ∷ xs) ys off d
flow_outcome-cons last p rest off d xs [] =
    ap (λ o. finish_flow (last_of (some p) xs) (success, o, flows_put (p ∷ xs) [] off d))
      (omega arith)
flow_outcome-cons last p rest off d xs (y ∷ ys) =
    ap (λ o. (no_memory, o, flows_put (p ∷ xs) (y ∷ ys) off d)) (omega arith)

pop_flows_lem :
    (ps : List Packet) (last : Option Packet) (off : ℕ) (d : Driver)
    → All IsPacket ps
    → IsMapped d.in_buf
    → off < d.in_buf.buffer_length
    → pop_flows ps last off d
      ≡ some (
          flow_outcome last
            (sent d.in_buf.buffer_length off ps)
            (left d.in_buf.buffer_length off ps)
            off
            d)
unfolding pop_flows
pop_flows_lem [] last off d v m h =
    ap {B = Popped} (λ o. some (finish_flow last (success, o, record d { flows = [] })))
      (omega arith)
pop_flows_lem (p ∷ rest) last off d v m h =
    elim (Bool-cases (ltb (d.in_buf.buffer_length - off - 1) (data_size p))) [
      | inl full ↦
          rw
            (
              sub64_lem d.in_buf.buffer_length off (omega arith) (omega arith),
              sub64_lem (d.in_buf.buffer_length - off) 1 (omega arith) (omega arith),
              full,
            )
            (ap {B = Popped} (λ o. some (no_memory, o, record d { flows = p ∷ rest }))
              (omega arith))
      | inr room ↦
          let fits : off + data_size p < d.in_buf.buffer_length =
            omega (arith, not-ltb→le _ _ room) in
          rw
            (
              sub64_lem d.in_buf.buffer_length off (omega arith) (omega arith),
              sub64_lem (d.in_buf.buffer_length - off) 1 (omega arith) (omega arith),
              room,
              put_data-placed nf_flowctx_packet 520 p off d.in_buf v.0 (omega arith),
              add64_lem off (data_size p) (omega arith),
            )
            (pop_flows_lem rest (some p) (off + data_size p)
                (record d { flows = rest; in_buf = placed nf_flowctx_packet 520 p off d.in_buf })
                v.1 (omega arith) fits
              ∙ ap some (
                  flow_outcome-cons last p rest off d
                    (sent d.in_buf.buffer_length (off + data_size p) rest)
                    (left d.in_buf.buffer_length (off + data_size p) rest)))
    ]

abbrev pub flow_status : List Packet → Status
flow_status [] = success
flow_status (p ∷ ps) = no_memory

-- How many of the entries that left the list are given back: one, if all of them left.
abbrev pub flow_freed : List Packet → List Packet → ℕ
flow_freed [] rest = 0
flow_freed (p ∷ done) [] = 1
flow_freed (p ∷ done) (q ∷ rest) = 0

last_of-some : (p : Packet) (ps : List Packet) → (q : Packet) × (last_of (some p) ps ≡ some q)
last_of-some p [] = (p, refl)
last_of-some p (q ∷ ps) = last_of-some q ps

abbrev pub flow_result : List Packet → List Packet → ℕ → Driver → Status × ℕ × Driver
flow_result done rest off d = (
  flow_status rest,
  off + total_size (map flow_entry done),
  record d {
    flows = rest;
    flow_live = d.flow_live - flow_freed done rest;
    in_buf = place_all (map flow_entry done) off d.in_buf;
  },
)

flow_outcome_lem :
    (done rest : List Packet) (off : ℕ) (d : Driver)
    → flow_outcome none done rest off d ≡ flow_result done rest off d
unfolding finish_flow Established.packfree
flow_outcome_lem [] [] off d = ground arith
flow_outcome_lem [] (q ∷ rest) off d = ground arith
flow_outcome_lem (p ∷ done) [] off d = rw (last_of-some p done).1
flow_outcome_lem (p ∷ done) (q ∷ rest) off d = ground arith

-- Over a mapped buffer and whole packets, a pop of the flow list from an offset before the buffer's end
-- writes the packets that fit one after the other, takes them off the list and keeps the rest.
pub pop_flowestablished_data_lem :
    (d : Driver) (off : ℕ)
    → All IsPacket d.flows
    → IsMapped d.in_buf
    → off < d.in_buf.buffer_length
    → pop_flowestablished_data off d
      ≡ some (
          flow_result
            (sent d.in_buf.buffer_length off d.flows)
            (left d.in_buf.buffer_length off d.flows)
            off
            d)
unfolding pop_flowestablished_data
pop_flowestablished_data_lem d off v m h =
    pop_flows_lem d.flows none off d v m h
    ∙ ap some (
        flow_outcome_lem (sent d.in_buf.buffer_length off d.flows)
          (left d.in_buf.buffer_length off d.flows) off d)
