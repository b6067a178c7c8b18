-- ===== src/Setup/RegistryLaws.antt =====
-- The registry keys that InstallDriver of wfptools/main.cpp leaves open.
use wfpdriver.Shared.{
  ℕ, ◌+◌, ◌-◌, ◌≡◌, true, false, Option, none, some, [], ◌∷◌, ◌++◌, length, ltb, Bool-cases, inl,
  inr, if◌then◌else◌, arith,
}
use wfpdriver.Setup.Scm.{Text}
use wfpdriver.Setup.Service.{okay}
use wfpdriver.Setup.Registry.{
  ValueName, create_key, set_text, set_dword, set_binary, close_key, RegLog, Registry, RegResult,
  then_reg, close_reg, fits_buffer, write_security, write_types, write_path, write_name,
  install_driver, security_key, services_key, nt_prefix, security, security_string_len, start_type,
  service_type, image_path, display_name, error_control,
}

-- The keys opened and not closed.
abbrev pub open_keys : RegLog → ℕ
open_keys [] = 0
open_keys ((create_key k, good) ∷ l) = (if good then 1 else 0) + open_keys l
open_keys ((close_key, good) ∷ l) = open_keys l - 1
open_keys (_ ∷ l) = open_keys l

-- Whether the last call is a value that could not be set.
abbrev pub failed_sets : RegLog → ℕ
failed_sets ((set_text n t k, false) ∷ l) = 1
failed_sets ((set_dword n v, false) ∷ l) = 1
failed_sets ((set_binary n k, false) ∷ l) = 1
failed_sets _ = 0

-- A key is left open exactly by a value that could not be set.
abbrev pub LeavesIf : RegResult → Type 0
LeavesIf none = Unit {0}
LeavesIf (some (status, l)) = open_keys l ≡ failed_sets l

-- What goes on with one key open.
abbrev Goes : (RegLog → RegResult) → Type 0
Goes next = (l : RegLog) → open_keys l ≡ 1 → LeavesIf (next l)

module _ (w : Registry) where
  create-LeavesIf :
      (key : Text) (next : RegLog → RegResult) (l : RegLog)
      → Goes next
      → open_keys l ≡ 0
      → LeavesIf (then_reg w (create_key key) next l)
  unfolding then_reg
  create-LeavesIf key next l k h = elim (Bool-cases (w l (create_key key))) [
    | inl good ↦ rw good (k ((create_key key, true) ∷ l) (omega (arith, h)))
    | inr bad ↦ rw bad (omega (arith, h))
  ]

  text-LeavesIf :
      (name : ValueName) (text : Text) (n : ℕ) (next : RegLog → RegResult)
      → Goes next
      → Goes (then_reg w (set_text name text n) next)
  unfolding then_reg
  text-LeavesIf name text n next k l h = elim (Bool-cases (w l (set_text name text n))) [
    | inl good ↦ rw good (k ((set_text name text n, true) ∷ l) h)
    | inr bad ↦ rw bad h
  ]

  dword-LeavesIf :
      (name : ValueName) (n : ℕ) (next : RegLog → RegResult)
      → Goes next
      → Goes (then_reg w (set_dword name n) next)
  unfolding then_reg
  dword-LeavesIf name n next k l h = elim (Bool-cases (w l (set_dword name n))) [
    | inl good ↦ rw good (k ((set_dword name n, true) ∷ l) h)
    | inr bad ↦ rw bad h
  ]

  binary-LeavesIf :
      (name : ValueName) (n : ℕ) (next : RegLog → RegResult)
      → Goes next
      → Goes (then_reg w (set_binary name n) next)
  unfolding then_reg
  binary-LeavesIf name n next k l h = elim (Bool-cases (w l (set_binary name n))) [
    | inl good ↦ rw good (k ((set_binary name n, true) ∷ l) h)
    | inr bad ↦ rw bad h
  ]

  open_keys-close_reg : (l : RegLog) → open_keys l ≡ 1 → open_keys (close_reg w l) ≡ 0
  unfolding close_reg
  open_keys-close_reg l h = omega (arith, h)

  closed-LeavesIf : Goes (λ l. some (okay, close_reg w l))
  unfolding close_reg
  closed-LeavesIf l h = omega (arith, h)

  write_security-LeavesIf : (l : RegLog) → open_keys l ≡ 0 → LeavesIf (write_security w l)
  unfolding write_security
  write_security-LeavesIf l h =
      create-LeavesIf security_key _ l
        (binary-LeavesIf security security_string_len _ closed-LeavesIf) h

  write_types-LeavesIf : Goes (write_types w)
  unfolding write_types
  write_types-LeavesIf = dword-LeavesIf start_type 3 _ (
      dword-LeavesIf service_type 1 _
        (λ l h. write_security-LeavesIf (close_reg w l) (open_keys-close_reg l h)))

  fits-LeavesIf : (text : Text) (r : RegResult) → LeavesIf r → LeavesIf (fits_buffer text r)
  unfolding fits_buffer
  fits-LeavesIf text r h = elim (Bool-cases (ltb (length text) 4096)) [
    | inl fits ↦ rw fits h
    | inr over ↦ rw over tt
  ]

  write_path-LeavesIf : (full_path : Text) → Goes (write_path w full_path)
  unfolding write_path
  write_path-LeavesIf full_path l h =
      fits-LeavesIf (nt_prefix ++ full_path) _
        (text-LeavesIf image_path (nt_prefix ++ full_path) _ _ write_types-LeavesIf l h)

  write_name-LeavesIf : (name full_path : Text) → Goes (write_name w name full_path)
  unfolding write_name
  write_name-LeavesIf name full_path =
      text-LeavesIf display_name name _ _
        (dword-LeavesIf error_control 1 _ (write_path-LeavesIf full_path))

-- Whatever the registry answers, InstallDriver started with no key open leaves one open exactly if a
-- value could not be set, if it returns.
pub install_driver-LeavesIf :
    (w : Registry) (name full_path : Option Text) (l : RegLog)
    → open_keys l ≡ 0
    → failed_sets l ≡ 0
    → LeavesIf (install_driver w name full_path l)
unfolding install_driver
install_driver-LeavesIf w none full_path l h k = omega (arith, h, k)
install_driver-LeavesIf w (some name) none l h k = omega (arith, h, k)
install_driver-LeavesIf w (some name) (some full_path) l h k =
    fits-LeavesIf w (services_key ++ name) _
      (create-LeavesIf w (services_key ++ name) _ l (write_name-LeavesIf w name full_path) h)
