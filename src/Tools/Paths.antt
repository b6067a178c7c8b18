-- ===== src/Tools/Paths.antt =====
-- wfptools/main.cpp: DeviceDosPathToNtPath. Characters are 16-bit numbers, a string a list of them
-- without its end. What Windows answers about the drives is an argument, as is the comparison of two
-- characters that _wcsnicmp makes.
use wfpdriver.Shared.{
  ℕ, Bool, true, false, ◌||◌, Option, none, some, List, [], ◌∷◌, ◌==◌, if◌then◌else◌,
}

abbrev pub Wide : Type 0
Wide = List ℕ

-- A drive that GetLogicalDriveStringsW lists, by its letter, with what QueryDosDeviceW answers.
pub record Drive : Type 0 where
  pub letter : ℕ
  pub device : Option Wide

abbrev pub SameLetter : Type 0
SameLetter = ℕ → ℕ → Bool

-- The rest of a path behind a device's name, if it begins with that.
unfoldable pub behind : SameLetter → Wide → Wide → Option Wide
behind same [] path = some path
behind same (c ∷ cs) [] = none
behind same (c ∷ cs) (p ∷ ps) = let rest = behind same cs ps in if same p c then rest else none

-- 'A' and 'a': lstrcmpiW with "A:\\".
abbrev pub is_floppy : ℕ → Bool
is_floppy letter = letter == 65 || letter == 97

-- The drive's letter and a colon before the rest.
abbrev pub on_drive : ℕ → Wide → Wide
on_drive letter rest = letter ∷ 58 ∷ rest

-- The loop over the drives: the value returned and what pszNtPath holds, which was empty.
unfoldable pub search_drives : SameLetter → List Drive → Wide → Bool × Wide
unfolding behind
search_drives same [] path = (false, path)
search_drives same (d ∷ ds) path =
    let rest = search_drives same ds path in
    if is_floppy d.letter then rest else elim d.device [
      | none ↦ (false, [])
      | some name ↦ elim (behind same name path) [
        | none ↦ rest
        | some tail ↦ (true, on_drive d.letter tail)
      ]
    ]

-- DeviceDosPathToNtPath; `none` for the drives is that they could not be listed.
unfoldable pub device_dos_path_to_nt_path : SameLetter → Option (List Drive) → Wide → Bool × Wide
unfolding search_drives
device_dos_path_to_nt_path same none path = (false, path)
device_dos_path_to_nt_path same (some drives) path = search_drives same drives path
