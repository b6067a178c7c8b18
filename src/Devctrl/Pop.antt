-- ===== src/Devctrl/Pop.antt =====
-- wfpdriver/devctrl.c: devtrl_popDataLinkData and devtrl_popFlowestablishedData, which move packets
-- into the shared buffer. `none` is a write outside of the mapping.
use wfpdriver.Shared.{
  ℕ, ◌+◌, ◌-◌, Option, none, some, List, [], ◌∷◌, ◌++◌, if◌then◌else◌, ltb, leb, length, sub64,
  add64, le32, write, take,
}
use wfpdriver.Nt.{
  Status, success, unsuccessful, no_memory, nf_datalink_packet, nf_flowctx_packet, sizeof_nf_data,
  offset_buffer, nt_success,
}
use wfpdriver.State.{Driver, Packet, SharedMemory}
use wfpdriver.Packets.Datalink
use wfpdriver.Packets.Established

-- A write through kernelVa.
unfoldable pub store : SharedMemory → ℕ → List ℕ → Option SharedMemory
store s off bs =
    if leb (off + length bs) s.mapped
    then some (record s { bytes = write s.bytes off bs })
    else none

-- dataSize = sizeof(NF_DATA) - 1 + pPacketlens
abbrev pub data_size : Packet → ℕ
data_size p = sizeof_nf_data - 1 + p.data_length

-- pData->code, pData->id, pData->bufferSize
abbrev pub header : ℕ → ℕ → Packet → List ℕ
header code id p = le32 code ++ (le32 id ++ le32 p.data_length)

-- memcpy(pData->buffer, pEntry->dataBuffer, pEntry->dataLength), if there is a data buffer.
unfoldable pub store_payload :
    Packet → ℕ → Option (List ℕ) → Option SharedMemory → Option SharedMemory
unfolding store
store_payload p off b none = none
store_payload p off none (some s) = some s
store_payload p off (some bs) (some s) =
    if leb p.data_length (length bs)
    then store s (off + offset_buffer) (take p.data_length bs)
    else none

unfoldable pub put_data : ℕ → ℕ → Packet → ℕ → SharedMemory → Option SharedMemory
unfolding store store_payload
put_data code id p off s = store_payload p off p.data_buffer (store s off (header code id p))

abbrev pub Popped : Type 0
Popped = Option (Status × ℕ × Driver)

-- On success the entry is freed.
unfoldable pub finish_data_link : Packet → List Packet → ℕ → Driver → Option SharedMemory → Popped
unfolding Datalink.packfree
finish_data_link p rest off d none = none
finish_data_link p rest off d (some s) = some (
  success,
  add64 off (data_size p),
  Datalink.packfree p (record d { datalink = rest; in_buf = s }),
)

-- The first entry is moved; one that does not fit goes back to the head of the list.
unfoldable pub pop_first_data_link : List Packet → ℕ → Driver → Popped
unfolding finish_data_link put_data
pop_first_data_link [] off d = some (unsuccessful, off, d)
pop_first_data_link (p ∷ rest) off d =
    if ltb (sub64 d.in_buf.buffer_length off) (data_size p)
    then some (no_memory, off, record d { datalink = p ∷ rest })
    else finish_data_link p rest off d (put_data nf_datalink_packet 0 p off d.in_buf)

unfoldable pub pop_data_link_data : ℕ → Driver → Popped
unfolding pop_first_data_link
pop_data_link_data off d = pop_first_data_link d.datalink off d

-- pEntry after the loop: freed on success, put back at the head on failure.
unfoldable pub finish_flow : Option Packet → Status × ℕ × Driver → Status × ℕ × Driver
unfolding Established.packfree
finish_flow none r = r
finish_flow (some p) (status, off, d) =
    if nt_success status
    then (status, off, Established.packfree p d)
    else (status, off, record d { flows = p ∷ d.flows })

-- The loop over the list; `last` is pEntry, the entry taken most recently.
unfoldable pub pop_flows : List Packet → Option Packet → ℕ → Driver → Popped
unfolding put_data finish_flow
pop_flows [] last off d = some (finish_flow last (success, off, record d { flows = [] }))
pop_flows (p ∷ rest) last off d =
    if ltb (sub64 (sub64 d.in_buf.buffer_length off) 1) (data_size p)
    then some (finish_flow (some p) (no_memory, off, record d { flows = rest }))
    else elim (put_data nf_flowctx_packet 520 p off d.in_buf) [
      | none ↦ none
      | some s ↦
          pop_flows rest (some p) (add64 off (data_size p)) (record d { flows = rest; in_buf = s })
    ]

unfoldable pub pop_flowestablished_data : ℕ → Driver → Popped
unfolding pop_flows
pop_flowestablished_data off d = pop_flows d.flows none off d
