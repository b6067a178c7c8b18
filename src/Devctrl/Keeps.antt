-- ===== src/Devctrl/Keeps.antt =====
-- Filling the shared buffer of devctrl.c leaves the read requests alone.
use wfpdriver.Shared.{
  ℕ, ◌-◌, ◌≡◌, refl, ◌∙◌, inl, inr, Bool-cases, Option, none, some, Option-cases, List, [], ◌∷◌,
  ltb, sub64, add64, arith,
}
use wfpdriver.Nt.{Status, success, no_memory, nt_success, nf_flowctx_packet}
use wfpdriver.State.{Driver, Packet}
use wfpdriver.Packets.Datalink
use wfpdriver.Packets.Established
use wfpdriver.Devctrl.Pop.{
  Popped, data_size, put_data, finish_flow, finish_data_link, pop_first_data_link,
  pop_data_link_data, pop_flows, pop_flowestablished_data,
}
use wfpdriver.Devctrl.Fill.{pop_by_code, fill_loop, fill_buffer}

-- The requests are the same before and after.
abbrev pub SameReads : Driver → Driver → Type 0
SameReads d d' = (d'.pended ≡ d.pended) × (d'.completed ≡ d.completed)

abbrev pub Keeps : Driver → Popped → Type 0
Keeps d none = Unit {0}
Keeps d (some (status, off, d')) = SameReads d d'

abbrev pub KeepsFill : Driver → Option (ℕ × Driver) → Type 0
KeepsFill d none = Unit {0}
KeepsFill d (some (off, d')) = SameReads d d'

pop_first_data_link-Keeps :
    (ps : List Packet) (off : ℕ) (d : Driver) → Keeps d (pop_first_data_link ps off d)
unfolding pop_first_data_link finish_data_link Datalink.packfree
pop_first_data_link-Keeps [] off d = (refl, refl)
pop_first_data_link-Keeps (p ∷ ps) off d = ground arith

finish_flow-Keeps :
    (d : Driver) (last : Option Packet) (status : Status) (off : ℕ) (d' : Driver)
    → SameReads d d'
    → Keeps d (some (finish_flow last (status, off, d')))
unfolding finish_flow Established.packfree
finish_flow-Keeps d none status off d' h = h
finish_flow-Keeps d (some p) status off d' h = ground arith

pop_flows-Keeps :
    (ps : List Packet) (last : Option Packet) (off : ℕ) (d e : Driver)
    → SameReads e d
    → Keeps e (pop_flows ps last off d)
unfolding pop_flows
pop_flows-Keeps [] last off d e h = finish_flow-Keeps e last success off (record d { flows = [] }) h
pop_flows-Keeps (p ∷ ps) last off d e h =
    elim (Bool-cases (ltb (sub64 (sub64 d.in_buf.buffer_length off) 1) (data_size p))) [
      | inl full ↦ rw full (finish_flow-Keeps e (some p) no_memory off (record d { flows = ps }) h)
      | inr room ↦ elim (Option-cases (put_data nf_flowctx_packet 520 p off d.in_buf)) [
        | inl n ↦ rw (room, n) tt
        | inr (s, q) ↦
            rw (room, q)
              (pop_flows-Keeps ps (some p) (add64 off (data_size p))
                (record d { flows = ps; in_buf = s }) e h)
      ]
    ]

pop_by_code-Keeps : (code off : ℕ) (d : Driver) → Keeps d (pop_by_code code off d)
unfolding pop_by_code pop_data_link_data pop_flowestablished_data
pop_by_code-Keeps code off d = ground (
  arith,
  pop_first_data_link-Keeps d.datalink off d,
  pop_flows-Keeps d.flows none off d d (refl, refl),
)

fill_loop-Keeps :
    (codes : List ℕ) (off : ℕ) (d e : Driver) → SameReads e d → KeepsFill e (fill_loop codes off d)
unfolding fill_loop
fill_loop-Keeps [] off d e h = h
fill_loop-Keeps (code ∷ codes) off d e h =
    elim (Option-cases (pop_by_code code off (record d { query = codes }))) [
      | inl n ↦ rw (n, fill_loop) tt
      | inr ((status, off', d'), q) ↦
          let k : Keeps (record d { query = codes }) (some (status, off', d')) =
            rw q at (pop_by_code-Keeps code off (record d { query = codes })) in
          let same : SameReads e d' = (k.0 ∙ h.0, k.1 ∙ h.1) in
          elim (Bool-cases (nt_success status)) [
            | inl good ↦
                rw (q, fill_loop, good)
                  (fill_loop-Keeps codes off' (record d' { query_live = d'.query_live - 1 }) e same)
            | inr bad ↦ rw (q, fill_loop, bad) same
          ]
    ]

-- Whatever the buffers hold, filling changes neither the pended nor the completed requests.
pub fill_buffer-Keeps : (d : Driver) → KeepsFill d (fill_buffer d)
unfolding fill_buffer
fill_buffer-Keeps d = fill_loop-Keeps d.query 0 d d (refl, refl)
