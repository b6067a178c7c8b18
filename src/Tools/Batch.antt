-- ===== src/Tools/Batch.antt =====
-- What the reader of devctrl.cpp makes of the records that devctrl.c writes. The driver moves on by
-- sizeof(NF_DATA) - 1 + length with 16 for the size, the reader with 13.
use wfpdriver.Shared.{
  ℕ, zero, suc, ◌+◌, ◌-◌, ◌%◌, ◌^◌, ◌≤◌, ◌<◌, ◌≡◌, ◌≢◌, ap, ◌⊎◌, inl, inr, Bool, false, ◌||◌, some,
  List, [], ◌∷◌, Memory, All, read32, read_bytes, region, ◌==◌, if◌then◌else◌, arith,
}
use wfpdriver.Shared.{leb, ltb, leb→le, Bool-cases, ◌++◌}
use wfpdriver.Nt.{nf_flowctx_packet}
use wfpdriver.Devctrl.Pop.{data_size}
use wfpdriver.Devctrl.Delivery.{Entry, Framed, total_size}
use wfpdriver.Tools.WorkThread.{
  Call, established_packet, datalink_packet, code_at, size_at, handle_event_dispath, aborts,
  dispatch_records, read_count, process_read,
}
use wfpdriver.Tools.Header.{HoldsFrame, frame-HoldsFrame, read32-HoldsWord}

-- The loop ends: every round takes at least 12 bytes off the count.
pub dispatch_records_total :
    (f left a : ℕ) (m : Memory)
    → left < f
    → (r : List Call × Bool) × (dispatch_records f left a m ≡ some r)
unfolding dispatch_records
dispatch_records_total zero left a m h = absurd (omega arith)
dispatch_records_total (suc f) left a m h = elim (Bool-cases (leb 12 left)) [
  | inr short ↦ (([], false), rw short)
  | inl room ↦ elim (Bool-cases (ltb left (12 + size_at m a))) [
    | inl cut ↦ ((handle_event_dispath m a ++ [], aborts m a || false), rw (room, cut))
    | inr whole ↦
        let (r, e) =
          dispatch_records_total f (left - (12 + size_at m a)) (a + (12 + size_at m a)) m
            (omega (arith, leb→le _ _ room)) in
        ((handle_event_dispath m a ++ r.0, aborts m a || r.1), rw (room, whole, e))
  ]
]

-- The entries of the driver: its two codes with their ids, lengths that are no multiple of 256.
pub record IsDriverEntry (e : Entry) : Type 0 where
  pub kind : ((e.code ≡ 1) × (e.id ≡ 0)) ⊎ ((e.code ≡ 2) × (e.id ≡ 520))
  pub odd_length : e.packet.data_length % 256 ≢ 0
  pub small : e.packet.data_length < 2 ^ 32

kind_small : {e : Entry} → IsDriverEntry e → e.code < 2 ^ 32
kind_small v = omega (arith, v.kind)

-- The handler call that a record stands for.
abbrev pub call_of : Entry → ℕ → Call
call_of e a =
    if e.code == nf_flowctx_packet
    then established_packet (a + 12) e.packet.data_length
    else datalink_packet (a + 12) e.packet.data_length

-- Three bytes before a record stands no record of either code, and a length beyond any buffer.
stray_header :
    (m : Memory) (a : ℕ) (e : Entry)
    → IsDriverEntry e
    → HoldsFrame m (a + 3) e.code e.id e.packet
    → (2 ^ 24 ≤ code_at m a) × (2 ^ 24 ≤ size_at m a)
unfolding read32
stray_header m a e v h =
    let e1 : m (a + 3 + 4 + 1) ≡ m (a + 8) = ap m (omega arith) in
    let e2 : m (a + 3 + 4 + 2) ≡ m (a + 8 + 1) = ap m (omega arith) in
    let e3 : m (a + 3 + 4 + 3) ≡ m (a + 8 + 2) = ap m (omega arith) in
    let e4 : m (a + 3 + 8) ≡ m (a + 8 + 3) = ap m (omega arith) in (omega arith, omega arith)

no_room :
    (f left a : ℕ) (m : Memory) → left < 12 → dispatch_records (suc f) left a m ≡ some ([], false)
unfolding dispatch_records
no_room f left a m h = ground arith

stray_record :
    (f left a : ℕ) (m : Memory)
    → 2 ^ 24 ≤ code_at m a
    → 2 ^ 24 ≤ size_at m a
    → left < 2 ^ 24
    → dispatch_records (suc f) left a m ≡ some ([], false)
unfolding dispatch_records handle_event_dispath aborts
stray_record f left a m c s h = ground arith

first_record :
    (f left a : ℕ) (m : Memory) (e : Entry)
    → IsDriverEntry e
    → code_at m a ≡ e.code
    → size_at m a ≡ e.packet.data_length
    → 12 + e.packet.data_length ≤ left
    → dispatch_records f (left - (12 + e.packet.data_length)) (a + (12 + e.packet.data_length)) m
      ≡ some ([], false)
    → dispatch_records (suc f) left a m ≡ some (call_of e a ∷ [], aborts m a || false)
unfolding dispatch_records handle_event_dispath
first_record f left a m e v c s h r = ground arith

-- Behind the first record the reader stands three bytes before the second, and stops.
after_first :
    (es : List Entry) (f left a : ℕ) (m : Memory)
    → 0 < f
    → left ≡ 3 + total_size es
    → left < 2 ^ 24
    → All IsDriverEntry es
    → Framed m (a + 3) es
    → dispatch_records f left a m ≡ some ([], false)
after_first es zero left a m p t b v h = absurd (omega arith)
after_first [] (suc f) left a m p t b v h = no_room f left a m (omega arith)
after_first (e ∷ es) (suc f) left a m p t b v h =
    let s = stray_header m a e v.0 (frame-HoldsFrame m (a + 3) e.code e.id e.packet h.0) in
    stray_record f left a m s.0 s.1 b

read_count_lem : (n len : ℕ) → n < 2 ^ 32 → n ≤ len → read_count n len ≡ n
unfolding read_count
read_count_lem n len h k = ground arith

-- A read of any number of the driver's records, at most 16 MiB in all, makes exactly one handler
-- call, that of the first record, with its address and length; what lies at that address is the
-- packet.
pub process_read-first :
    (e : Entry) (es : List Entry) (in_buf_len : ℕ) (m : Memory)
    → All IsDriverEntry (e ∷ es)
    → Framed m 0 (e ∷ es)
    → total_size (e ∷ es) < 2 ^ 24
    → total_size (e ∷ es) ≤ in_buf_len
    → (process_read (total_size (e ∷ es)) in_buf_len m
        ≡ some (call_of e 0 ∷ [], aborts m 0 || false))
      × (read_bytes m 12 e.packet.data_length ≡ region e.packet.data_buffer)
unfolding process_read
process_read-first e es in_buf_len m v h small inside = (
  rw (read_count_lem (total_size (e ∷ es)) in_buf_len (omega arith) inside) (
      first_record (total_size (e ∷ es)) (total_size (e ∷ es)) 0 m e v.0
        (read32-HoldsWord m 0 e.code (kind_small v.0) w.code_word)
        (read32-HoldsWord m 8 e.packet.data_length v.0.small w.size_word) (omega arith)
        (after_first es (total_size (e ∷ es)) _ _ m (omega arith) (omega arith) (omega arith) v.1
          (rw (← shift) h.1))),
  w.payload,
)
  where
    w : HoldsFrame m 0 e.code e.id e.packet
    w = frame-HoldsFrame m 0 e.code e.id e.packet h.0

    shift : 0 + data_size e.packet ≡ 0 + (12 + e.packet.data_length) + 3
    shift = omega arith
