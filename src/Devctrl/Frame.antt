-- ===== src/Devctrl/Frame.antt =====
-- What devctrl.c writes for one packet into the shared buffer: its NF_DATA header and its bytes.
use wfpdriver.Shared.{
  ℕ, ◌+◌, ◌-◌, ◌^◌, ◌≤◌, ◌<◌, ◌≡◌, refl, ap₂, ◌∙◌, Option, none, some, List, ◌++◌, length,
  length-append, take-length, sub64, add64, le32, le→leb, write, read_bytes, read_bytes-write,
  read_bytes-write_below, read_bytes-append, region, arith,
}
use wfpdriver.Nt.{offset_buffer}
use wfpdriver.State.{Packet, SharedMemory}
use wfpdriver.Packets.Alloc.{IsPacket}
use wfpdriver.Devctrl.Pop.{store, store_payload, put_data, header}

-- The bytes of one record, as far as they are written.
abbrev pub frame : ℕ → ℕ → Packet → List ℕ
frame code id p = header code id p ++ region p.data_buffer

-- The buffer with the record in place.
abbrev pub placed : ℕ → ℕ → Packet → ℕ → SharedMemory → SharedMemory
placed code id p off s = record s {
  bytes = write (write s.bytes off (header code id p)) (off + offset_buffer) (region p.data_buffer);
}

-- The mapping covers the length the driver believes it has.
pub record IsMapped (s : SharedMemory) : Type 0 where
  pub covers : s.mapped ≡ s.buffer_length
  pub small : s.buffer_length < 2 ^ 63

pub sub64_lem : (a b : ℕ) → b ≤ a → a < 2 ^ 64 → sub64 a b ≡ a - b
unfolding sub64
sub64_lem a b h k = omega arith

pub add64_lem : (a b : ℕ) → a + b < 2 ^ 64 → add64 a b ≡ a + b
unfolding add64
add64_lem a b h = omega arith

length-header : (code id : ℕ) (p : Packet) → length (header code id p) ≡ 12
unfolding le32
length-header code id p = refl

pub length-frame :
    (code id : ℕ) (p : Packet) → IsPacket p → length (frame code id p) ≡ 12 + p.data_length
length-frame code id p v =
    omega (arith, length-append (header code id p) (region p.data_buffer), length-header code id p)

store_payload-region :
    (p : Packet) (off : ℕ) (b : Option (List ℕ)) (s : SharedMemory)
    → length (region b) ≡ p.data_length
    → off + offset_buffer + p.data_length ≤ s.mapped
    → store_payload p off b (some s)
      ≡ some (record s { bytes = write s.bytes (off + offset_buffer) (region b) })
unfolding store_payload write
store_payload-region p off none s v h = refl
store_payload-region p off (some bs) s v h = rw (
  ← v,
  le→leb (length bs) (length bs) (omega arith),
  take-length bs,
  le→leb (off + offset_buffer + length bs) s.mapped (omega arith),
)

-- A record that fits is written, and nothing else changes.
pub put_data-placed :
    (code id : ℕ) (p : Packet) (off : ℕ) (s : SharedMemory)
    → IsPacket p
    → off + 12 + p.data_length ≤ s.mapped
    → put_data code id p off s ≡ some (placed code id p off s)
unfolding put_data store le32
put_data-placed code id p off s v h = rw (stored) (
    store_payload-region p off p.data_buffer
      (record s { bytes = write s.bytes off (header code id p) }) v.0 h)
  where
    stored :
        store s off (header code id p)
        ≡ some (record s { bytes = write s.bytes off (header code id p) })
    stored = rw (le→leb (off + 12) s.mapped (omega arith))

-- Reading the record back gives its frame.
pub read_bytes-placed :
    (code id : ℕ) (p : Packet) (off : ℕ) (s : SharedMemory)
    → IsPacket p
    → read_bytes (placed code id p off s).bytes off (12 + p.data_length) ≡ frame code id p
read_bytes-placed code id p off s v =
    read_bytes-append _ off 12 p.data_length
    ∙ ap₂ ◌++◌ {y = header code id p} {v = region p.data_buffer}
        (read_bytes-write_below _ off 12 (off + 12) (region p.data_buffer) (omega arith)
          ∙ rw (← length-header code id p) (read_bytes-write s.bytes off (header code id p)))
        (rw (← v.0) (read_bytes-write _ (off + 12) (region p.data_buffer)))

-- A record leaves the bytes below it.
pub read_bytes-placed_below :
    (code id : ℕ) (p : Packet) (off : ℕ) (s : SharedMemory) (at n : ℕ)
    → at + n ≤ off
    → read_bytes (placed code id p off s).bytes at n ≡ read_bytes s.bytes at n
read_bytes-placed_below code id p off s at n h =
    read_bytes-write_below _ at n (off + 12) (region p.data_buffer) (omega arith)
    ∙ read_bytes-write_below s.bytes at n off (header code id p) h
