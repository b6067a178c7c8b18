-- ===== src/Tools/PathLaws.antt =====
-- Which drive DeviceDosPathToNtPath of wfptools/main.cpp takes.
use wfpdriver.Shared.{
  ℕ, ◌≡◌, refl, ◌∙◌, true, false, ◌⊎◌, inl, inr, none, some, List, [], ◌∷◌, ◌++◌, All, Bool-cases,
}
use wfpdriver.Tools.Paths.{
  Wide, Drive, SameLetter, behind, is_floppy, on_drive, search_drives, device_dos_path_to_nt_path,
}

-- _wcsnicmp takes a character for itself.
abbrev pub IsReflexive : SameLetter → Type 0
IsReflexive same = (c : ℕ) → same c c ≡ true

behind-append :
    (same : SameLetter) (name tail : Wide)
    → IsReflexive same
    → behind same name (name ++ tail) ≡ some tail
unfolding behind
behind-append same [] tail h = refl
behind-append same (c ∷ cs) tail h = rw (h c) (behind-append same cs tail h)

-- A drive that the search passes over: a floppy drive, or one whose device's name does not begin
-- the path.
abbrev pub IsPassed : SameLetter → Wide → Drive → Type 0
IsPassed same path d =
    (is_floppy d.letter ≡ true)
    ⊎ ((name : Wide) × (d.device ≡ some name) × (behind same name path ≡ none))

search_drives-passed :
    (same : SameLetter) (d : Drive) (ds : List Drive) (path : Wide)
    → IsPassed same path d
    → search_drives same (d ∷ ds) path ≡ search_drives same ds path
unfolding search_drives
search_drives-passed same d ds path (inl f) = rw f refl
search_drives-passed same d ds path (inr (name, e, n)) = elim (Bool-cases (is_floppy d.letter)) [
  | inl f ↦ rw f refl
  | inr r ↦ rw r (rw e (rw n refl))
]

search_drives-skip :
    (same : SameLetter) (ds es : List Drive) (path : Wide)
    → All (IsPassed same path) ds
    → search_drives same (ds ++ es) path ≡ search_drives same es path
search_drives-skip same [] es path v = refl
search_drives-skip same (d ∷ ds) es path v =
    search_drives-passed same d (ds ++ es) path v.0 ∙ search_drives-skip same ds es path v.1

-- Where the search stops, the device's name is replaced by the drive's letter and a colon.
search_drives-found :
    (same : SameLetter) (d : Drive) (es : List Drive) (name tail : Wide)
    → IsReflexive same
    → is_floppy d.letter ≡ false
    → d.device ≡ some name
    → search_drives same (d ∷ es) (name ++ tail) ≡ (true, on_drive d.letter tail)
unfolding search_drives
search_drives-found same d es name tail h f e =
    rw f (rw e (rw (behind-append same name tail h) refl))

-- DeviceDosPathToNtPath takes the first drive, floppy drives aside, whose device's name begins the path,
-- and puts the letter in the name's place, whatever follows the name in the path and whatever drives
-- come later: also if what follows belongs to a longer device's name.
pub device_dos_path_to_nt_path-first :
    (same : SameLetter) (ds es : List Drive) (d : Drive) (name tail : Wide)
    → IsReflexive same
    → All (IsPassed same (name ++ tail)) ds
    → is_floppy d.letter ≡ false
    → d.device ≡ some name
    → device_dos_path_to_nt_path same (some (ds ++ d ∷ es)) (name ++ tail)
      ≡ (true, on_drive d.letter tail)
unfolding device_dos_path_to_nt_path
device_dos_path_to_nt_path-first same ds es d name tail h v f e =
    search_drives-skip same ds (d ∷ es) (name ++ tail) v
    ∙ search_drives-found same d es name tail h f e

-- If Windows lists the drives and every one is passed over, the path is left as it is.
pub device_dos_path_to_nt_path-unchanged :
    (same : SameLetter) (ds : List Drive) (path : Wide)
    → All (IsPassed same path) ds
    → device_dos_path_to_nt_path same (some ds) path ≡ (false, path)
unfolding device_dos_path_to_nt_path search_drives
device_dos_path_to_nt_path-unchanged same [] path v = refl
device_dos_path_to_nt_path-unchanged same (d ∷ ds) path v =
    search_drives-passed same d ds path v.0 ∙ device_dos_path_to_nt_path-unchanged same ds path v.1
