-- ===== src/Devctrl/Room.antt =====
-- Which packets of a list fit into the shared buffer behind an offset, with a byte to spare, as
-- devtrl_popFlowestablishedData of devctrl.c has it.
use wfpdriver.Shared.{
  ℕ, ◌+◌, ◌-◌, ◌<◌, ◌≡◌, refl, inl, inr, List, [], ◌∷◌, ◌++◌, map, ltb, if◌then◌else◌, Bool-cases,
  not-ltb→le, All, arith,
}
use wfpdriver.Nt.{nf_datalink_packet, nf_flowctx_packet}
use wfpdriver.State.{Packet}
use wfpdriver.Packets.Alloc.{IsPacket}
use wfpdriver.Devctrl.Pop.{data_size}
use wfpdriver.Devctrl.Delivery.{Entry, total_size, IsEntry}

abbrev pub datalink_entry : Packet → Entry
datalink_entry p = record { code = nf_datalink_packet; id = 0; packet = p }

abbrev pub flow_entry : Packet → Entry
flow_entry p = record { code = nf_flowctx_packet; id = 520; packet = p }

-- The packets of a list that fit behind `off` with a byte to spare, and those that are left.
abbrev pub sent : ℕ → ℕ → List Packet → List Packet
sent len off [] = []
sent len off (p ∷ ps) =
    if ltb (len - off - 1) (data_size p) then [] else p ∷ sent len (off + data_size p) ps

abbrev pub left : ℕ → ℕ → List Packet → List Packet
left len off [] = []
left len off (p ∷ ps) =
    if ltb (len - off - 1) (data_size p) then p ∷ ps else left len (off + data_size p) ps

-- Nothing is lost or reordered.
pub sent-append-left : (len off : ℕ) (ps : List Packet) → sent len off ps ++ left len off ps ≡ ps
sent-append-left len off [] = refl
sent-append-left len off (p ∷ ps) = ground (arith, sent-append-left len (off + data_size p) ps)

-- The packets that are sent end inside the buffer.
pub sent_fits :
    (len off : ℕ) (ps : List Packet)
    → off < len
    → off + total_size (map flow_entry (sent len off ps)) < len
sent_fits len off [] h = omega arith
sent_fits len off (p ∷ ps) h = elim (Bool-cases (ltb (len - off - 1) (data_size p))) [
  | inl full ↦ rw full (omega arith)
  | inr room ↦
      let fits : off + data_size p < len = omega (arith, not-ltb→le _ _ room) in
      rw room (omega (arith, sent_fits len (off + data_size p) ps fits))
]

pub All-sent :
    (len off : ℕ) (ps : List Packet)
    → All IsPacket ps
    → All IsEntry (map flow_entry (sent len off ps)) × All IsPacket (left len off ps)
All-sent len off [] v = (tt, tt)
All-sent len off (p ∷ ps) v = elim (Bool-cases (ltb (len - off - 1) (data_size p))) [
  | inl full ↦ rw full (tt, v)
  | inr room ↦ let rest = All-sent len (off + data_size p) ps v.1 in rw room ((v.0, rest.0), rest.1)
]
