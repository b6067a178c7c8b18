-- ===== src/Tools/FilePath.antt =====
-- SplitFilePath and FindInMultiSz of wfptools/main.cpp. A string is the characters before its end, a
-- pointer an Option. `none` as a result is a read outside of the strings.
use wfpdriver.Shared.{
  drop, ℕ, zero, suc, ◌+◌, Bool, true, false, ◌||◌, Option, none, some, List, [], ◌∷◌, ◌++◌, length,
  take, ◌==◌, if◌then◌else◌, sub64, ℤ, pos, negsuc,
}

-- '\\' or '/'
unfoldable pub is_separator : ℕ → Bool
is_separator c = c == 92 || c == 47

-- The character at an index, 0 at the end.
unfoldable pub char_at : List ℕ → ℕ → ℕ
char_at [] i = 0
char_at (c ∷ cs) zero = c
char_at (c ∷ cs) (suc i) = char_at cs i

-- The loop from the end: the last separator, 0 if it comes to the start.
unfoldable pub find_separator : List ℕ → ℕ → ℕ
find_separator s zero = 0
find_separator s (suc q) =
    let rest = find_separator s q in if is_separator (char_at s (suc q)) then suc q else rest

-- The loop over the name: the last '.'.
unfoldable pub find_dot : List ℕ → Option ℕ
find_dot [] = none
find_dot (c ∷ cs) = elim (find_dot cs) [
  | some r ↦ some (suc r)
  | none ↦ if c == 46 then some 0 else none
]

-- What is written to szPath, szFileName and szFileExt where they are not NULL: empty at first.
pub record PathParts : Type 0 where
  pub path : List ℕ
  pub file_name : List ℕ
  pub file_ext : List ℕ

unfoldable pub name_parts : List ℕ → List ℕ → PathParts
name_parts path name = elim (find_dot name) [
  | none ↦ record { path = path; file_name = name; file_ext = [] }
  | some r ↦ record { path = path; file_name = take r name; file_ext = drop (suc r) name }
]

unfoldable pub split_at : List ℕ → ℕ → Bool × PathParts
split_at s zero = (false, record { path = []; file_name = []; file_ext = [] })
split_at s (suc q) = (true, name_parts (take (suc (suc q)) s) (drop (suc (suc q)) s))

-- SplitFilePath with a path that is not NULL; it returns false for NULL.
unfoldable pub split_file_path : List ℕ → Bool × PathParts
split_file_path s = split_at s (find_separator s (length s))

-- The characters of szMatch from 1 on, with its end, against what follows the first.
unfoldable pub matches_from : List ℕ → List ℕ → Option Bool
matches_from [] buffer = some true
matches_from (c ∷ cs) [] = none
matches_from (c ∷ cs) (b ∷ buffer) =
    let rest = matches_from cs buffer in if b == c then rest else some false

-- A hit ends the search at `i`; a miss or a fault is what the characters are.
unfoldable pub found_or : ℕ → Option Bool → Option (Option ℕ) → Option (Option ℕ)
found_or i none rest = none
found_or i (some true) rest = some (some i)
found_or i (some false) rest = rest

-- The loop over the buffer: `left` rounds from index `i`.
unfoldable pub find_from : ℕ → List ℕ → ℕ → ℕ → List ℕ → Option (Option ℕ)
find_from first match zero i buffer = some none
find_from first match (suc left) i [] = none
find_from first match (suc left) i (b ∷ buffer) =
    let rest = find_from first match left (i + 1) buffer in
    if b == first then found_or i (matches_from match buffer) rest else rest

-- szMatch with its end.
unfoldable pub terminated : List ℕ → List ℕ
terminated match = match ++ (0 ∷ [])

-- FindInMultiSz over the characters that can be read from szMultiSz on, with pointers that are not NULL:
-- szMatch is read before it is tested. The bound is a size_t, so it wraps around where the buffer is
-- shorter than the match. The result is the index, `none` for -1.
unfoldable pub find_in_multi_sz : List ℕ → ℤ → List ℕ → Option (Option ℕ)
find_in_multi_sz buffer (negsuc n) match = some none
find_in_multi_sz buffer (pos zero) match = some none
find_in_multi_sz buffer (pos (suc n)) match =
    find_from (char_at match 0) (drop 1 (terminated match)) (sub64 (suc n) (length match)) 0 buffer
