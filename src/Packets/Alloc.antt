-- ===== src/Packets/Alloc.antt =====
-- What wfpdriver/datalinkctx.c and establishedctx.c share: the answers of the pool to one push, the
-- data block of a new entry, and the copy of the caller's packet into it.
use wfpdriver.Shared.{
  ℕ, zero, suc, ◌^◌, ◌≤◌, ◌<◌, ◌≡◌, ap, Bool, true, false, Option, none, some, List, Memory,
  read_bytes, rtl_copy, rtl_copy-take, rtl_copy_short, arith, length-read_bytes, region, length,
  take, ltb, ltb→lt, not-ltb→le, Bool-cases, inl, inr, refl,
}
use wfpdriver.State.{Packet}

-- `entry` and `query` are the two lookaside lists, `buffer` ExAllocatePoolWithTag with what the
-- block held before.
pub record Alloc : Type 0 where
  pub entry : Bool
  pub buffer : Option Memory
  pub query : Bool

abbrev pub is_null {ℓ} : {A : Type ℓ} → Option A → Bool
is_null none = true
is_null (some a) = false

-- dataBuffer of a new entry: NULL if lens is 0; `none` if the pool has no block.
unfoldable pub data_block : ℕ → Option Memory → Option (Option (List ℕ))
data_block zero m = some none
data_block (suc n) none = none
data_block (suc n) (some stale) = some (some (read_bytes stale 0 (suc n)))

filled_packet : ℕ → Option (List ℕ) → Option (List ℕ) → Option Packet
filled_packet n b none = none
filled_packet n none (some out) = some (record { data_buffer = none; data_length = n })
filled_packet n (some old) (some out) = some (record { data_buffer = some out; data_length = n })

-- dataLength = lens, and RtlCopyMemory into the block; `none` is an access violation.
unfoldable pub fill_packet : List ℕ → ℕ → Packet → Option Packet
unfolding filled_packet
fill_packet from n p = filled_packet n p.data_buffer (rtl_copy (region p.data_buffer) from n)

-- The block of a packet holds as many bytes as it says, a ULONG.
abbrev pub IsPacket : Packet → Type 0
IsPacket p = (length (region p.data_buffer) ≡ p.data_length) × (p.data_length < 2 ^ 32)

-- A complete copy gives a packet of the caller's bytes.
pub fill_packet-data_block :
    (from : List ℕ) (n : ℕ) (stale : Memory)
    → suc n ≤ length from
    → fill_packet from
        (suc n)
        (record { data_buffer = some (read_bytes stale 0 (suc n)); data_length = 0 })
      ≡ some (record { data_buffer = some (take (suc n) from); data_length = suc n })
unfolding fill_packet filled_packet
fill_packet-data_block from n stale h =
    ap (filled_packet (suc n) (some (read_bytes stale 0 (suc n)))) (
      rtl_copy-take (read_bytes stale 0 (suc n)) from (suc n) (length-read_bytes stale 0 (suc n)) h)

-- A copy out of a region that is too short faults.
pub fill_packet_short :
    (from : List ℕ) (n : ℕ) (stale : Memory)
    → length from < suc n
    → fill_packet from
        (suc n)
        (record { data_buffer = some (read_bytes stale 0 (suc n)); data_length = 0 })
      ≡ none
unfolding fill_packet filled_packet
fill_packet_short from n stale h =
    ap (filled_packet (suc n) (some (read_bytes stale 0 (suc n))))
      (rtl_copy_short (read_bytes stale 0 (suc n)) from (suc n) (omega arith))

-- A caller's region that is as long as it says is copied.
fill_packet_readable :
    (from : List ℕ) (n : ℕ) (m : Option Memory) (b : Option (List ℕ))
    → data_block n m ≡ some b
    → n ≤ length from
    → (q : Packet) × (fill_packet from n (record { data_buffer = b; data_length = 0 }) ≡ some q)
unfolding data_block fill_packet filled_packet rtl_copy
fill_packet_readable from zero m none e h = (record { data_buffer = none; data_length = 0 }, refl)
fill_packet_readable from zero m (some b) e h = cc
fill_packet_readable from (suc n) none b e h = cc
fill_packet_readable from (suc n) (some stale) none e h = cc
fill_packet_readable from (suc n) (some stale) (some b) e h = (
  record { data_buffer = some (take (suc n) from); data_length = suc n },
  cc (fill_packet-data_block from n stale h),
)

-- The copy faults only behind the end of the caller's region.
pub fill_packet_faults :
    (from : List ℕ) (n : ℕ) (m : Option Memory) (b : Option (List ℕ))
    → data_block n m ≡ some b
    → fill_packet from n (record { data_buffer = b; data_length = 0 }) ≡ none
    → length from < n
fill_packet_faults from n m b e f = elim (Bool-cases (ltb (length from) n)) [
  | inl short ↦ ltb→lt _ _ short
  | inr enough ↦ let r = fill_packet_readable from n m b e (not-ltb→le _ _ enough) in cc (r.1)
]
