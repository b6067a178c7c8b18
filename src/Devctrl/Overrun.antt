-- ===== src/Devctrl/Overrun.antt =====
-- Writes of devctrl.c that leave the shared buffer.
use wfpdriver.Shared.{
  ℕ, ◌+◌, ◌-◌, ◌^◌, ◌<◌, ◌≡◌, none, List, ◌∷◌, le→not-ltb, lt→not-leb, sub64, le32, arith,
}
use wfpdriver.Nt.{nf_flowctx_packet}
use wfpdriver.State.{Driver, Packet, SharedMemory}
use wfpdriver.Devctrl.Pop.{
  data_size, put_data, store, store_payload, pop_flows, pop_flowestablished_data,
}

sub64_wraps : (a : ℕ) → sub64 (sub64 a a) 1 ≡ 2 ^ 64 - 1
unfolding sub64
sub64_wraps a = omega arith

-- A header that does not fit into the mapping is an access violation.
pub put_data_outside :
    (code id : ℕ) (p : Packet) (off : ℕ) (s : SharedMemory)
    → s.mapped < off + 12
    → put_data code id p off s ≡ none
unfolding put_data store le32 store_payload
put_data_outside code id p off s h = rw (lt→not-leb (off + 12) s.mapped h)

-- If a flow waits and the buffer is mapped to its length, a pop of the flow list at the very end of the
-- buffer writes outside the mapping.
pub pop_flowestablished_data_full :
    (d : Driver) (p : Packet) (rest : List Packet)
    → d.flows ≡ p ∷ rest
    → d.in_buf.mapped ≡ d.in_buf.buffer_length
    → p.data_length < 2 ^ 32
    → pop_flowestablished_data d.in_buf.buffer_length d ≡ none
unfolding pop_flowestablished_data pop_flows
pop_flowestablished_data_full d p rest e c small = rw (
  e,
  sub64_wraps d.in_buf.buffer_length,
  le→not-ltb (2 ^ 64 - 1) (data_size p) (omega arith),
  put_data_outside nf_flowctx_packet 520 p d.in_buf.buffer_length d.in_buf (omega arith),
)
