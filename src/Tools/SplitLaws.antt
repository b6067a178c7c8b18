-- ===== src/Tools/SplitLaws.antt =====
-- SplitFilePath of wfptools/main.cpp takes apart what was put together.
use wfpdriver.Shared.{
  drop, ℕ, zero, suc, ◌+◌, ◌≡◌, ◌≢◌, refl, ap, ap₂, ◌∙◌, true, false, Option, none, some, List, [],
  ◌∷◌, ◌++◌, length, length-append, take, All, arith,
}
use mathlib.Core.List.{append-nil}
use wfpdriver.Tools.FilePath.{
  is_separator, char_at, find_separator, find_dot, name_parts, split_at, split_file_path,
}

abbrev pub NotSeparator : ℕ → Type 0
NotSeparator c = is_separator c ≡ false

abbrev pub NotDot : ℕ → Type 0
NotDot c = c ≢ 46

-- What follows the name: a '.' and the extension, if there is one.
abbrev pub suffix : Option (List ℕ) → List ℕ
suffix none = []
suffix (some ext) = 46 ∷ ext

abbrev pub extension : Option (List ℕ) → List ℕ
extension none = []
extension (some ext) = ext

-- The last '.' is the one before the extension.
abbrev pub IsLastDot : List ℕ → Option (List ℕ) → Type 0
IsLastDot name none = All NotDot name
IsLastDot name (some ext) = All NotDot ext

char_at-append : (xs ys : List ℕ) (i : ℕ) → char_at (xs ++ ys) (length xs + i) ≡ char_at ys i
unfolding char_at
char_at-append [] ys i = let e : 0 + i ≡ i = omega arith in rw e refl
char_at-append (x ∷ xs) ys i =
    let e : suc (length xs) + i ≡ suc (length xs + i) = omega arith in rw e (char_at-append xs ys i)

plain_char_at : (cs : List ℕ) (i : ℕ) → All NotSeparator cs → is_separator (char_at cs i) ≡ false
unfolding char_at is_separator
plain_char_at [] i h = refl
plain_char_at (c ∷ cs) zero h = h.0
plain_char_at (c ∷ cs) (suc i) h = plain_char_at cs i h.1

separator_hit :
    (s : List ℕ) (q : ℕ)
    → is_separator (char_at s (suc q)) ≡ true
    → find_separator s (suc q) ≡ suc q
unfolding find_separator
separator_hit s q h = rw h refl

separator_miss :
    (s : List ℕ) (q : ℕ)
    → is_separator (char_at s (suc q)) ≡ false
    → find_separator s (suc q) ≡ find_separator s q
unfolding find_separator
separator_miss s q h = rw h refl

-- The characters behind the separator are passed over.
find_separator_behind :
    (dir : List ℕ) (sep : ℕ) (rest : List ℕ) (n k : ℕ)
    → length dir ≡ suc n
    → is_separator sep ≡ true
    → All NotSeparator rest
    → find_separator (dir ++ sep ∷ rest) (suc n + k) ≡ suc n
unfolding char_at
find_separator_behind dir sep rest n zero l h r =
    let s = dir ++ sep ∷ rest in
    let e : suc n + 0 ≡ suc n = omega arith in
    let i : suc n ≡ length dir + 0 = omega (arith, l) in
    ap (find_separator s) e
    ∙ separator_hit s n (ap is_separator (ap (char_at s) i ∙ char_at-append dir (sep ∷ rest) 0) ∙ h)
find_separator_behind dir sep rest n (suc k) l h r =
    let s = dir ++ sep ∷ rest in
    let e : suc n + suc k ≡ suc (suc n + k) = omega arith in
    let i : suc (suc n + k) ≡ length dir + suc k = omega (arith, l) in
    ap (find_separator s) e
    ∙ separator_miss s (suc n + k) (
        ap is_separator (ap (char_at s) i ∙ char_at-append dir (sep ∷ rest) (suc k))
        ∙ plain_char_at rest k r)
    ∙ find_separator_behind dir sep rest n k l h r

find_dot-none : (cs : List ℕ) → All NotDot cs → find_dot cs ≡ none
unfolding find_dot
find_dot-none [] h = refl
find_dot-none (c ∷ cs) h = rw (find_dot-none cs h.1) (ground (arith, h.0))

find_dot_last :
    (name ext : List ℕ) → All NotDot ext → find_dot (name ++ 46 ∷ ext) ≡ some (length name)
unfolding find_dot
find_dot_last [] ext h = rw (find_dot-none ext h) refl
find_dot_last (c ∷ cs) ext h = rw (find_dot_last cs ext h) refl

take-append : (xs ys : List ℕ) → take (length xs) (xs ++ ys) ≡ xs
take-append [] ys = refl
take-append (x ∷ xs) ys = ap (◌∷◌ x) (take-append xs ys)

take_past :
    (xs : List ℕ) (y : ℕ) (ys : List ℕ) → take (suc (length xs)) (xs ++ y ∷ ys) ≡ xs ++ y ∷ []
take_past [] y ys = refl
take_past (x ∷ xs) y ys = ap (◌∷◌ x) (take_past xs y ys)

drop_past : (xs : List ℕ) (y : ℕ) (ys : List ℕ) → drop (suc (length xs)) (xs ++ y ∷ ys) ≡ ys
unfolding drop
drop_past [] y ys = refl
drop_past (x ∷ xs) y ys = drop_past xs y ys

name_parts_lem :
    (path name : List ℕ) (ext : Option (List ℕ))
    → IsLastDot name ext
    → name_parts path (name ++ suffix ext)
      ≡ record { path = path; file_name = name; file_ext = extension ext }
unfolding name_parts
name_parts_lem path name none h =
    let e : name ++ [] ≡ name = append-nil name in rw e (rw (find_dot-none name h, name_parts) refl)
name_parts_lem path name (some ext) h =
    rw (find_dot_last name ext h, name_parts)
      (ap₂ (λ t d. record { path = path; file_name = t; file_ext = d })
        (take-append name (46 ∷ ext)) (drop_past name 46 ext))

split_parts :
    (c : ℕ) (cs : List ℕ) (sep : ℕ) (rest : List ℕ)
    → split_at (c ∷ (cs ++ sep ∷ rest)) (suc (length cs))
      ≡ (true, name_parts (c ∷ (cs ++ sep ∷ [])) rest)
unfolding split_at
split_parts c cs sep rest =
    ap₂ (λ t d. (true, name_parts t d)) (take_past (c ∷ cs) sep rest) (drop_past (c ∷ cs) sep rest)

-- If the directory is not empty, the separator is one of the two, the rest has none, and the extension
-- has no '.', or there is none and the name has no '.', then SplitFilePath takes the directory with the
-- separator, the name, and the extension apart again.
pub split_file_path-parts :
    (dir : List ℕ) (sep : ℕ) (name : List ℕ) (ext : Option (List ℕ))
    → dir ≢ []
    → is_separator sep ≡ true
    → All NotSeparator (name ++ suffix ext)
    → IsLastDot name ext
    → split_file_path (dir ++ sep ∷ (name ++ suffix ext))
      ≡ (true, record { path = dir ++ sep ∷ []; file_name = name; file_ext = extension ext })
unfolding split_file_path
split_file_path-parts [] sep name ext h s r d = absurd (h refl)
split_file_path-parts (c ∷ cs) sep name ext h s r d =
    let dir = c ∷ cs in
    let rest = name ++ suffix ext in
    let whole = dir ++ sep ∷ rest in
    let long : length whole ≡ suc (length cs) + suc (length rest) =
      omega (arith, length-append dir (sep ∷ rest)) in
    ap (split_at whole) (
      ap (find_separator whole) long
      ∙ find_separator_behind dir sep rest (length cs) (suc (length rest)) refl s r)
    ∙ split_parts c cs sep rest
    ∙ ap (λ parts. (true, parts)) (name_parts_lem (dir ++ sep ∷ []) name ext d)
