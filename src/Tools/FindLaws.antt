-- ===== src/Tools/FindLaws.antt =====
-- FindInMultiSz of wfptools/main.cpp finds the first occurrence.
use wfpdriver.Shared.{
  drop, ℕ, zero, suc, ◌+◌, ◌-◌, ◌^◌, ◌≤◌, ◌<◌, ◌≡◌, ◌≢◌, refl, ap, ap₂, ◌∙◌, ◌⊎◌, inl, inr, true,
  false, Option, none, some, List, [], ◌∷◌, ◌++◌, length, length-append, take, ◌==◌, Bool-cases,
  sub64, pos, arith,
}
use wfpdriver.Devctrl.Frame.{sub64_lem}
use wfpdriver.Tools.FilePath.{
  char_at, matches_from, found_or, find_from, terminated, find_in_multi_sz,
}

matches_from-cases :
    (cs buffer : List ℕ)
    → length cs ≤ length buffer
    → ((matches_from cs buffer ≡ some true) × (take (length cs) buffer ≡ cs))
      ⊎ ((matches_from cs buffer ≡ some false) × (take (length cs) buffer ≢ cs))
unfolding matches_from
matches_from-cases [] buffer h = inl (refl, refl)
matches_from-cases (c ∷ cs) [] h = absurd (omega arith)
matches_from-cases (c ∷ cs) (b ∷ buffer) h = elim (matches_from-cases cs buffer (omega arith)) [
  | inl (e, p) ↦ elim (Bool-cases (b == c)) [
    | inl same ↦ inl (rw (same, e), ap₂ ◌∷◌ (ground (arith, same)) p)
    | inr other ↦ inr (rw other refl, λ q. ground (arith, other, q))
  ]
  | inr (e, p) ↦ elim (Bool-cases (b == c)) [
    | inl same ↦ inr (rw (same, e), λ q. p (cc))
    | inr other ↦ inr (rw other refl, λ q. ground (arith, other, q))
  ]
]

-- The first of `left` places where the string stands, counted from `i`; or none of them.
abbrev pub Finds : List ℕ → ℕ → ℕ → List ℕ → Option ℕ → Type 0
Finds p left i buffer r =
    ((k : ℕ) × (k < left)
      × (r ≡ some (i + k))
      × (take (length p) (drop k buffer) ≡ p)
      × ((j : ℕ) → j < k → take (length p) (drop j buffer) ≢ p))
    ⊎ ((r ≡ none) × ((j : ℕ) → j < left → take (length p) (drop j buffer) ≢ p))

-- A place that is passed over.
shift_places :
    (p : List ℕ) (b : ℕ) (buffer : List ℕ) (n : ℕ)
    → take (length p) (b ∷ buffer) ≢ p
    → ((j : ℕ) → j < n → take (length p) (drop j buffer) ≢ p)
    → (j : ℕ) → j < suc n
    → take (length p) (drop j (b ∷ buffer)) ≢ p
unfolding drop
shift_places p b buffer n h k zero l = h
shift_places p b buffer n h k (suc j) l = k j (omega arith)

shift-Finds :
    (p : List ℕ) (left i b : ℕ) (buffer : List ℕ) (r : Option ℕ)
    → take (length p) (b ∷ buffer) ≢ p
    → Finds p left (i + 1) buffer r
    → Finds p (suc left) i (b ∷ buffer) r
unfolding drop
shift-Finds p left i b buffer r h (inl (k, l, e, q, f)) =
    inl (suc k, omega arith, e ∙ ap some (omega arith), q, shift_places p b buffer k h f)
shift-Finds p left i b buffer r h (inr (e, f)) = inr (e, shift_places p b buffer left h f)

-- What the first place comes to.
first_place :
    (c : ℕ) (cs : List ℕ) (left i b : ℕ) (buffer : List ℕ)
    → length cs ≤ length buffer
    → ((find_from c cs (suc left) i (b ∷ buffer) ≡ some (some i))
        × (take (suc (length cs)) (b ∷ buffer) ≡ c ∷ cs))
      ⊎ ((find_from c cs (suc left) i (b ∷ buffer) ≡ find_from c cs left (i + 1) buffer)
          × (take (suc (length cs)) (b ∷ buffer) ≢ c ∷ cs))
unfolding find_from found_or
first_place c cs left i b buffer h = elim (Bool-cases (b == c)) [
  | inr other ↦ inr (rw other refl, λ q. ground (arith, other, q))
  | inl same ↦ elim (matches_from-cases cs buffer h) [
    | inl (e, p) ↦ inl (rw (same, e) refl, ap₂ ◌∷◌ (ground (arith, same)) p)
    | inr (e, p) ↦ inr (rw (same, e) refl, λ q. p (cc))
  ]
]

find_from-Finds :
    (c : ℕ) (cs : List ℕ) (left i : ℕ) (buffer : List ℕ)
    → left + length cs ≤ length buffer
    → (r : Option ℕ) × (find_from c cs left i buffer ≡ some r) × Finds (c ∷ cs) left i buffer r
unfolding find_from drop
find_from-Finds c cs zero i buffer h = (none, refl, inr (refl, λ j l. absurd (omega arith)))
find_from-Finds c cs (suc left) i [] h = absurd (omega arith)
find_from-Finds c cs (suc left) i (b ∷ buffer) h =
    elim (first_place c cs left i b buffer (omega arith)) [
      | inl (e, p) ↦
          (some i, e, inl (0, omega arith, ap some (omega arith), p, λ j l. absurd (omega arith)))
      | inr (e, p) ↦
          let (r, f, k) = find_from-Finds c cs left (i + 1) buffer (omega arith) in
          (r, e ∙ f, shift-Finds (c ∷ cs) left i b buffer r p k)
    ]

-- If the buffer can be read to the length that FindInMultiSz is given, and that is larger than the
-- match's, it returns the first index at which the match stands with its end, or -1 if there is no
-- such index that leaves room for it.
pub find_in_multi_sz-first :
    (buffer match : List ℕ) (n : ℕ)
    → length match < n
    → n < 2 ^ 31
    → n ≤ length buffer
    → (r : Option ℕ) × (find_in_multi_sz buffer (pos n) match ≡ some r)
      × Finds (terminated match) (n - length match) 0 buffer r
unfolding find_in_multi_sz terminated char_at drop
find_in_multi_sz-first buffer match zero h k l = absurd (omega arith)
find_in_multi_sz-first buffer [] (suc n) h k l =
    let e : sub64 (suc n) 0 ≡ suc n - 0 = sub64_lem (suc n) 0 (omega arith) (omega arith) in
    rw e (find_from-Finds 0 [] (suc n - 0) 0 buffer (omega arith))
find_in_multi_sz-first buffer (c ∷ cs) (suc n) h k l =
    let len = length (c ∷ cs) in
    let e : sub64 (suc n) len ≡ suc n - len = sub64_lem (suc n) len (omega arith) (omega arith) in
    rw e (
      find_from-Finds c (cs ++ 0 ∷ []) (suc n - len) 0 buffer
        (omega (arith, length-append cs (0 ∷ []))))
