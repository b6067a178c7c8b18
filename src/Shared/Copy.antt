-- ===== src/Shared/Copy.antt =====
-- RtlCopyMemory between a block and a readable region: `none` is an access outside of either.
use Prim.Native.Nat.{ℕ, zero, suc, ◌+◌, ◌≤◌}
use mathlib.Core.Path.{◌≡◌, refl}
use mathlib.Core.Logic.{inl, inr}
use mathlib.Core.Option.{Option, none, some}
use mathlib.Core.List.{List, [], ◌∷◌}
use native.Mathlib.Omega.{arith}
use wfpdriver.Shared.Tests.{Option-cases}
use wfpdriver.Shared.Lists.{length, take}
use wfpdriver.Shared.Bytes.{Memory, read_bytes}

abbrev pub cons_some : ℕ → Option (List ℕ) → Option (List ℕ)
cons_some y none = none
cons_some y (some ys) = some (y ∷ ys)

unfoldable pub rtl_copy : List ℕ → List ℕ → ℕ → Option (List ℕ)
rtl_copy to from zero = some to
rtl_copy [] from (suc n) = none
rtl_copy (x ∷ xs) [] (suc n) = none
rtl_copy (x ∷ xs) (y ∷ ys) (suc n) = cons_some y (rtl_copy xs ys n)

-- A region behind a pointer that may be NULL.
abbrev pub region : Option (List ℕ) → List ℕ
region none = []
region (some bs) = bs

pub length-read_bytes : (m : Memory) (off n : ℕ) → length (read_bytes m off n) ≡ n
unfolding read_bytes
length-read_bytes m off zero = refl
length-read_bytes m off (suc n) = omega (arith, length-read_bytes m (off + 1) n)

-- A copy that fills the block.
pub rtl_copy-take :
    (to from : List ℕ) (n : ℕ)
    → length to ≡ n
    → n ≤ length from
    → rtl_copy to from n ≡ some (take n from)
unfolding rtl_copy
rtl_copy-take [] from zero e h = refl
rtl_copy-take (x ∷ xs) from zero e h = absurd (omega arith)
rtl_copy-take [] from (suc n) e h = absurd (omega arith)
rtl_copy-take (x ∷ xs) [] (suc n) e h = absurd (omega arith)
rtl_copy-take (x ∷ xs) (y ∷ ys) (suc n) e h =
    ground (arith, rtl_copy-take xs ys n (omega arith) (omega arith))

-- A copy past the end of the source does not complete.
pub rtl_copy_short : (to from : List ℕ) (n : ℕ) → suc (length from) ≤ n → rtl_copy to from n ≡ none
unfolding rtl_copy
rtl_copy_short to from zero h = absurd (omega arith)
rtl_copy_short [] from (suc n) h = refl
rtl_copy_short (x ∷ xs) [] (suc n) h = refl
rtl_copy_short (x ∷ xs) (y ∷ ys) (suc n) h = ground (arith, rtl_copy_short xs ys n (omega arith))

-- A copy keeps the length of the block.
pub length-rtl_copy :
    (to from : List ℕ) (n : ℕ) {out : List ℕ}
    → rtl_copy to from n ≡ some out
    → length out ≡ length to
unfolding rtl_copy
length-rtl_copy to from zero e = ground arith
length-rtl_copy [] from (suc n) e = ground arith
length-rtl_copy (x ∷ xs) [] (suc n) e = ground arith
length-rtl_copy (x ∷ xs) (y ∷ ys) (suc n) e = elim (Option-cases (rtl_copy xs ys n)) [
  | inl h ↦ ground (arith, h)
  | inr (zs, h) ↦ ground (arith, h, length-rtl_copy xs ys n {out = zs} h)
]
