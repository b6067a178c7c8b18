-- ===== src/Tools/FieldLaws.antt =====
-- Reading the members of a flow's record of wfpdriver/callouts.c where wfptools/main.cpp does.
use wfpdriver.Shared.{
  drop, ℕ, zero, suc, ◌+◌, ◌*◌, ◌/◌, ◌%◌, ◌^◌, ◌<◌, ◌≤◌, ◌≡◌, refl, ap, List, [], ◌∷◌, ◌++◌, length,
  All, false, ◌==◌, le32, arith,
}
use wfpdriver.Callouts.Info.{FlowInfo, flow_bytes, field_of, address_bytes, le16, le64}
use wfpdriver.Tools.Paths.{Wide}
use wfpdriver.Tools.Handler.{
  le_value, wide_at, to_local_port_of, protocol_of, process_id_of, process_path_of,
}

drop-field_of : (n k : ℕ) (bs rest : List ℕ) → drop (n + k) (field_of n bs ++ rest) ≡ drop k rest
unfolding field_of drop
drop-field_of zero k bs rest = let e : zero + k ≡ k = omega arith in rw e refl
drop-field_of (suc n) k [] rest =
    let e : suc n + k ≡ suc (n + k) = omega arith in rw e (drop-field_of n k [] rest)
drop-field_of (suc n) k (b ∷ bs) rest =
    let e : suc n + k ≡ suc (n + k) = omega arith in rw e (drop-field_of n k bs rest)

-- A field that has its size already.
pub field_of_whole : (n : ℕ) (bs : List ℕ) → length bs ≡ n → field_of n bs ≡ bs
unfolding field_of
field_of_whole zero [] h = refl
field_of_whole zero (b ∷ bs) h = absurd (omega (arith, h))
field_of_whole (suc n) [] h = absurd (omega (arith, h))
field_of_whole (suc n) (b ∷ bs) h = ap (◌∷◌ b) (field_of_whole n bs (omega (arith, h)))

le_value-le16 : (x : ℕ) → x < 65536 → le_value (le16 x) ≡ x
unfolding le_value
le_value-le16 x h = omega arith

le_value-le32 : (x : ℕ) (bs : List ℕ) → le_value (le32 x ++ bs) ≡ x % 2 ^ 32 + 2 ^ 32 * le_value bs
unfolding le_value le32
le_value-le32 x bs = omega arith

le_value-le64 : (x : ℕ) → x < 2 ^ 64 → le_value (le64 x) ≡ x
unfolding le_value le32
le_value-le64 x h =
    omega (arith, le_value-le32 x (le32 (x / 2 ^ 32)), le_value-le32 (x / 2 ^ 32) [])

pub to_local_port_of-flow_bytes :
    (f : FlowInfo) → f.to_local_port < 65536 → to_local_port_of (flow_bytes f) ≡ f.to_local_port
unfolding flow_bytes drop
to_local_port_of-flow_bytes f h =
    rw (drop-field_of 16 0 (address_bytes f.local_addr)) (le_value-le16 f.to_local_port h)

pub protocol_of-flow_bytes :
    (f : FlowInfo) → f.protocol < 256 → protocol_of (flow_bytes f) ≡ f.protocol
unfolding flow_bytes drop le_value
protocol_of-flow_bytes f h = rw (drop-field_of 16 2 (address_bytes f.local_addr)) (omega arith)

pub process_id_of-flow_bytes :
    (f : FlowInfo) → f.process_id < 2 ^ 64 → process_id_of (flow_bytes f) ≡ f.process_id
unfolding flow_bytes drop le32
process_id_of-flow_bytes f h = rw (drop-field_of 16 1084 (address_bytes f.local_addr)) (
    rw (drop-field_of 16 1048 (address_bytes f.remote_addr))
      (rw (drop-field_of 1040 6 f.process_path) (le_value-le64 f.process_id h)))

-- A string of characters that are not its end, in bytes.
abbrev pub wide_bytes : Wide → List ℕ
wide_bytes [] = []
wide_bytes (c ∷ cs) = c % 256 ∷ c / 256 % 256 ∷ wide_bytes cs

abbrev pub IsCharacter : ℕ → Type 0
IsCharacter c = (0 < c) × (c < 65536)

-- What may follow a string: nothing, or its end.
abbrev pub Ends : List ℕ → Type 0
Ends [] = Unit {0}
Ends (b ∷ []) = ⊥
Ends (b ∷ c ∷ bs) = (b ≡ 0) × (c ≡ 0)

wide_at_end :
    (n : ℕ) (tail more : List ℕ) → Ends tail → wide_at (field_of n tail ++ 0 ∷ 0 ∷ more) ≡ []
unfolding wide_at field_of
wide_at_end zero tail more h = refl
wide_at_end (suc zero) [] more h = refl
wide_at_end (suc (suc n)) [] more h = refl
wide_at_end n (b ∷ []) more h = absurd h
wide_at_end (suc zero) (b ∷ c ∷ bs) more h = rw h.0 refl
wide_at_end (suc (suc n)) (b ∷ c ∷ bs) more h = rw h.0 (rw h.1 refl)

-- A string in a field that it fits into is read back, even if it fills the field.
wide_at-field_of :
    (w : Wide) (n : ℕ) (tail more : List ℕ)
    → All IsCharacter w
    → Ends tail
    → 2 * length w ≤ n
    → wide_at (field_of n (wide_bytes w ++ tail) ++ 0 ∷ 0 ∷ more) ≡ w
unfolding wide_at field_of
wide_at-field_of [] n tail more v e h = wide_at_end n tail more e
wide_at-field_of (c ∷ cs) zero tail more v e h = absurd (omega (arith, h))
wide_at-field_of (c ∷ cs) (suc zero) tail more v e h = absurd (omega (arith, h))
wide_at-field_of (c ∷ cs) (suc (suc n)) tail more v e h =
    let a : c % 256 + 256 * (c / 256 % 256) ≡ c = omega (arith, v.0.1) in
    let b : (c == 0) ≡ false = ground (arith, v.0.0) in
    rw a (rw b (ap (◌∷◌ c) (wide_at-field_of cs n tail more v.1 e (omega (arith, h)))))

pub process_path_of-flow_bytes :
    (f : FlowInfo) (w : Wide) (tail : List ℕ)
    → f.process_path ≡ wide_bytes w ++ tail
    → All IsCharacter w
    → Ends tail
    → 2 * length w ≤ 1040
    → process_path_of (flow_bytes f) ≡ w
unfolding flow_bytes drop wide_at le32
process_path_of-flow_bytes f w tail p v e h =
    rw (drop-field_of 16 38 (address_bytes f.local_addr)) (
      rw (drop-field_of 16 2 (address_bytes f.remote_addr))
        (rw p (wide_at-field_of w 1040 tail _ v e h)))
