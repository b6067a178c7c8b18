-- ===== src/Shared/Bytes.antt =====
-- Byte memory: little-endian words, writes and reads at an offset, 64-bit subtraction.
use Prim.Native.Nat.{ℕ, zero, suc, ◌+◌, ◌-◌, ◌*◌, ◌/◌, ◌%◌, ◌^◌, ◌≤◌, ◌<◌}
use mathlib.Core.Path.{◌≡◌, refl, ap, ap₂, ◌∙◌}
use mathlib.Core.List.{List, [], ◌∷◌, ◌++◌}
use native.Mathlib.Omega.{arith}
use wfpdriver.Shared.Tests.{◌==◌, if◌then◌else◌}
use wfpdriver.Shared.Lists.{length}

-- UINT64 arithmetic.
unfoldable pub sub64 : ℕ → ℕ → ℕ
sub64 a b = (a + 2 ^ 64 - b) % 2 ^ 64

unfoldable pub add64 : ℕ → ℕ → ℕ
add64 a b = (a + b) % 2 ^ 64

-- What stands behind the first bytes.
unfoldable pub drop : ℕ → List ℕ → List ℕ
drop zero bs = bs
drop (suc n) [] = []
drop (suc n) (b ∷ bs) = drop n bs

pub length-drop : (n : ℕ) (bs : List ℕ) → length (drop n bs) ≡ length bs - n
unfolding drop
length-drop zero bs = omega arith
length-drop (suc n) [] = omega arith
length-drop (suc n) (b ∷ bs) = omega (arith, length-drop n bs)

-- A 32-bit word in memory order.
unfoldable pub le32 : ℕ → List ℕ
le32 x = x % 256 ∷ x / 256 % 256 ∷ x / 65536 % 256 ∷ x / 16777216 % 256 ∷ []

abbrev pub Memory : Type 0
Memory = ℕ → ℕ

unfoldable pub update : Memory → ℕ → ℕ → Memory
update m i b j = if j == i then b else m j

unfoldable pub write : Memory → ℕ → List ℕ → Memory
write m off [] = m
write m off (b ∷ bs) = write (update m off b) (off + 1) bs

unfoldable pub read_bytes : Memory → ℕ → ℕ → List ℕ
read_bytes m off zero = []
read_bytes m off (suc n) = m off ∷ read_bytes m (off + 1) n

-- The 32-bit word at an address.
unfoldable pub read32 : Memory → ℕ → ℕ
read32 m a = m a + 256 * m (a + 1) + 65536 * m (a + 2) + 16777216 * m (a + 3)

pub write_below : (m : Memory) (off : ℕ) (bs : List ℕ) (i : ℕ) → i < off → write m off bs i ≡ m i
unfolding write update
write_below m off [] i h = refl
write_below m off (b ∷ bs) i h = ground (arith, write_below (update m off b) (off + 1) bs i)

pub write_above :
    (m : Memory) (off : ℕ) (bs : List ℕ) (i : ℕ) → off + length bs ≤ i → write m off bs i ≡ m i
unfolding write update
write_above m off [] i h = refl
write_above m off (b ∷ bs) i h = ground (arith, write_above (update m off b) (off + 1) bs i)

pub read_bytes-ext :
    (m k : Memory) (off n : ℕ)
    → ((i : ℕ) → off ≤ i → i < off + n → m i ≡ k i)
    → read_bytes m off n ≡ read_bytes k off n
unfolding read_bytes
read_bytes-ext m k off zero h = refl
read_bytes-ext m k off (suc n) h =
    ap₂ ◌∷◌ (h off (omega arith) (omega arith))
      (read_bytes-ext m k (off + 1) n (λ i p q. h i (omega arith) (omega arith)))

-- A write leaves what lies below it.
pub read_bytes-write_below :
    (m : Memory) (at n off : ℕ) (bs : List ℕ)
    → at + n ≤ off
    → read_bytes (write m off bs) at n ≡ read_bytes m at n
read_bytes-write_below m at n off bs h =
    read_bytes-ext _ _ at n (λ i p q. write_below m off bs i (omega arith))

-- What was written is read back.
pub read_bytes-write :
    (m : Memory) (off : ℕ) (bs : List ℕ) → read_bytes (write m off bs) off (length bs) ≡ bs
unfolding read_bytes write update
read_bytes-write m off [] = refl
read_bytes-write m off (b ∷ bs) =
    ap₂ ◌∷◌ (write_below (update m off b) (off + 1) bs off (omega arith) ∙ ground arith)
      (read_bytes-write (update m off b) (off + 1) bs)

pub read_bytes-append :
    (m : Memory) (off a b : ℕ)
    → read_bytes m off (a + b) ≡ read_bytes m off a ++ read_bytes m (off + a) b
unfolding read_bytes
read_bytes-append m off zero b = ap₂ (read_bytes m) (omega arith) (omega arith)
read_bytes-append m off (suc a) b =
    let e : suc a + b ≡ suc (a + b) = omega arith in
    let f : off + suc a ≡ off + 1 + a = omega arith in
    rw (e, f) (ap (◌∷◌ (m off)) (read_bytes-append m (off + 1) a b))
