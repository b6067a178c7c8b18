-- ===== src/Devctrl/Capture.antt =====
-- What a push of wfpdriver/datalinkctx.c or establishedctx.c puts on its list.
use wfpdriver.Shared.{
  ℕ, zero, suc, ◌^◌, ◌<◌, ◌≡◌, Option, none, some, List, [], ◌++◌, length, length-take, All, ltb,
  ltb→lt, not-ltb→le, Bool-cases, Option-cases, ℤ, pos, negsuc, inl, inr, arith, rtl_copy,
}
use wfpdriver.Nt.{Status}
use wfpdriver.State.{Driver, Packet}
use wfpdriver.Packets.Alloc.{
  Alloc, IsPacket, data_block, fill_packet, fill_packet-data_block, fill_packet_short,
}
use wfpdriver.Packets.Datalink
use wfpdriver.Packets.Established
use wfpdriver.Devctrl.Channel.{accepted}

-- The length is an int.
abbrev pub IsInt : ℤ → Type 0
IsInt (pos n) = n < 2 ^ 31
IsInt (negsuc n) = n < 2 ^ 31

-- The packets that stand on top are whole, if the capture returned.
abbrev pub FramesIf : List Packet → List Packet → Option (Status × Driver) → Type 0
FramesIf ps before none = Unit {0}
FramesIf ps before (some (status, d)) = (d.datalink ≡ ps ++ before) × All IsPacket ps

abbrev pub FlowsIf : List Packet → List Packet → Option (Status × Driver) → Type 0
FlowsIf ps before none = Unit {0}
FlowsIf ps before (some (status, d)) = (d.flows ≡ ps ++ before) × All IsPacket ps

pub pushdata-Frames :
    (packet : Option (List ℕ)) (lens : ℤ) (a : Alloc) (d : Driver)
    → IsInt lens
    → FramesIf (accepted packet lens a) d.datalink (Datalink.pushdata packet lens a d)
unfolding Datalink.pushdata data_block fill_packet rtl_copy
pushdata-Frames none (negsuc n) a d h = ground arith
pushdata-Frames none (pos zero) a d h = ground arith
pushdata-Frames none (pos (suc n)) a d h = elim (Option-cases a.buffer) [
  | inl e ↦ ground (arith, e)
  | inr (m, e) ↦ ground (arith, e, fill_packet_short [] n m)
]
pushdata-Frames (some bytes) (negsuc n) a d h = ground arith
pushdata-Frames (some bytes) (pos zero) a d h = ground arith
pushdata-Frames (some bytes) (pos (suc n)) a d h = elim (Option-cases a.buffer) [
  | inl e ↦ ground (arith, e)
  | inr (m, e) ↦ elim (Bool-cases (ltb (length bytes) (suc n))) [
    | inl short ↦ ground (arith, e, fill_packet_short bytes n m (ltb→lt _ _ short))
    | inr enough ↦ ground (
      arith,
      e,
      fill_packet-data_block bytes n m (not-ltb→le _ _ enough),
      length-take (suc n) bytes,
      not-ltb→le _ _ enough,
    )
  ]
]

pub pushflow-Flows :
    (packet : Option (List ℕ)) (lens : ℤ) (a : Alloc) (d : Driver)
    → IsInt lens
    → FlowsIf (accepted packet lens a) d.flows (Established.pushflowestablishedctx packet lens a d)
unfolding Established.pushflowestablishedctx data_block fill_packet rtl_copy
pushflow-Flows none (negsuc n) a d h = ground arith
pushflow-Flows none (pos zero) a d h = ground arith
pushflow-Flows none (pos (suc n)) a d h = elim (Option-cases a.buffer) [
  | inl e ↦ ground (arith, e)
  | inr (m, e) ↦ ground (arith, e, fill_packet_short [] n m)
]
pushflow-Flows (some bytes) (negsuc n) a d h = ground arith
pushflow-Flows (some bytes) (pos zero) a d h = ground arith
pushflow-Flows (some bytes) (pos (suc n)) a d h = elim (Option-cases a.buffer) [
  | inl e ↦ ground (arith, e)
  | inr (m, e) ↦ elim (Bool-cases (ltb (length bytes) (suc n))) [
    | inl short ↦ ground (arith, e, fill_packet_short bytes n m (ltb→lt _ _ short))
    | inr enough ↦ ground (
      arith,
      e,
      fill_packet-data_block bytes n m (not-ltb→le _ _ enough),
      length-take (suc n) bytes,
      not-ltb→le _ _ enough,
    )
  ]
]
