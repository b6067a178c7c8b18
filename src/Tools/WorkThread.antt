-- ===== src/Tools/WorkThread.antt =====
-- wfptools/devctrl.cpp: handleEventDispath and what nf_workThread does with one completed read.
-- Addresses are offsets from g_nfBuffers.inBuf. nfdriver.h packs its structures.
use wfpdriver.Shared.{
  ℕ, zero, suc, ◌+◌, ◌-◌, ◌%◌, ◌^◌, Bool, false, ◌&&◌, ◌||◌, Option, none, some, List, [], ◌∷◌,
  ◌++◌, Memory, read32, ltb, leb, ◌==◌, if◌then◌else◌,
}

-- sizeof(NF_DATA) under #pragma pack(push, 1)
abbrev pub sizeof_packed_nf_data : ℕ
sizeof_packed_nf_data = 13

-- NF_ESTABLISHED_LAYER_PACKET, NF_DATALINKMAC_LAYER_PACKET
abbrev pub nf_established_layer_packet : ℕ
nf_established_layer_packet = 2

abbrev pub nf_datalinkmac_layer_packet : ℕ
nf_datalinkmac_layer_packet = 1

-- A call of the event handler with pData->buffer and pData->bufferSize.
pub data Call : Type 0 where
  established_packet datalink_packet : ℕ → ℕ → Call

abbrev pub code_at : Memory → ℕ → ℕ
code_at m a = read32 m a

abbrev pub size_at : Memory → ℕ → ℕ
size_at m a = read32 m (a + 8)

unfoldable pub handle_event_dispath : Memory → ℕ → List Call
handle_event_dispath m a =
    if code_at m a == nf_established_layer_packet
    then established_packet (a + 12) (size_at m a) ∷ []
    else if code_at m a == nf_datalinkmac_layer_packet
    then datalink_packet (a + 12) (size_at m a) ∷ []
    else []

-- Whether a record ends the batch of eight reads early.
unfoldable pub aborts : Memory → ℕ → Bool
aborts m a =
    (code_at m a == nf_datalinkmac_layer_packet || code_at m a == nf_established_layer_packet)
    && ltb (size_at m a) 1400

abbrev pub add_calls : List Call → Bool → Option (List Call × Bool) → Option (List Call × Bool)
add_calls calls abort none = none
add_calls calls abort (some (more, later)) = some (calls ++ more, abort || later)

-- The loop over the records, on fuel; `none` is that the fuel ran out. The result is the calls made
-- and whether abortBatch was set.
unfoldable pub dispatch_records : ℕ → ℕ → ℕ → Memory → Option (List Call × Bool)
unfolding handle_event_dispath aborts
dispatch_records zero left a m = none
dispatch_records (suc f) left a m =
    let size = sizeof_packed_nf_data - 1 + size_at m a in
    let rest = dispatch_records f (left - size) (a + size) m in
    if leb (sizeof_packed_nf_data - 1) left
    then add_calls (handle_event_dispath m a) (aborts m a)
        (if ltb left size then some ([], false) else rest)
    else some ([], false)

-- readBytes: the low DWORD of rr.length, capped by the length of the buffer.
unfoldable pub read_count : ℕ → ℕ → ℕ
read_count length in_buf_len =
    if ltb in_buf_len (length % 2 ^ 32) then in_buf_len % 2 ^ 32 else length % 2 ^ 32

-- One completed read.
unfoldable pub process_read : ℕ → ℕ → Memory → Option (List Call × Bool)
unfolding dispatch_records read_count
process_read length in_buf_len m =
    dispatch_records (suc (read_count length in_buf_len)) (read_count length in_buf_len) 0 m
