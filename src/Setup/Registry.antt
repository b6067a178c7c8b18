-- ===== src/Setup/Registry.antt =====
-- InstallDriver of wfptools/main.cpp, which writes the service to the registry by hand. `none` is a
-- write behind szBuf.
use wfpdriver.Shared.{
  ℕ, Bool, Option, none, some, List, [], ◌∷◌, ◌++◌, length, ltb, if◌then◌else◌, ℤ,
}
use wfpdriver.Setup.Scm.{Text}
use wfpdriver.Setup.Service.{failure, okay}

pub data ValueName : Type 0 where
  display_name error_control image_path start_type service_type security : ValueName

-- RegCreateKeyEx, RegSetValueEx with the number of bytes it is given, RegFlushKey and RegCloseKey.
pub data RegCall : Type 0 where
  create_key : Text → RegCall
  set_text : ValueName → Text → ℕ → RegCall
  set_dword : ValueName → ℕ → RegCall
  set_binary : ValueName → ℕ → RegCall
  flush_key close_key : RegCall

-- The calls with whether they succeeded, the last one first.
abbrev pub RegLog : Type 0
RegLog = List (RegCall × Bool)

abbrev pub Registry : Type 0
Registry = RegLog → RegCall → Bool

abbrev pub RegResult : Type 0
RegResult = Option (ℤ × RegLog)

-- A call, and what follows it if it succeeds.
unfoldable pub then_reg : Registry → RegCall → (RegLog → RegResult) → RegLog → RegResult
then_reg w c next l =
    let l1 = (c, w l c) ∷ l in let rest = next l1 in if w l c then rest else some (failure, l1)

-- RegFlushKey and RegCloseKey, whose answers nothing looks at.
unfoldable pub close_reg : Registry → RegLog → RegLog
close_reg w l = let l1 = (flush_key, w l flush_key) ∷ l in (close_key, w l1 close_key) ∷ l1

-- LG_PAGE_SIZE characters, the last for the end of the string.
unfoldable pub fits_buffer : Text → RegResult → RegResult
fits_buffer text r = if ltb (length text) 4096 then r else none

-- L"SYSTEM\\CurrentControlSet\\Services\\"
abbrev pub services_key : Text
services_key =
    83 ∷ 89 ∷ 83 ∷ 84 ∷ 69 ∷ 77 ∷ 92 ∷ 67 ∷ 117 ∷ 114 ∷ 114 ∷ 101 ∷ 110 ∷ 116 ∷ 67 ∷ 111 ∷ 110 ∷ 116
    ∷ 114 ∷ 111 ∷ 108 ∷ 83 ∷ 101 ∷ 116 ∷ 92 ∷ 83 ∷ 101 ∷ 114 ∷ 118 ∷ 105 ∷ 99 ∷ 101 ∷ 115 ∷ 92 ∷ []

-- L"\\??\\"
abbrev pub nt_prefix : Text
nt_prefix = 92 ∷ 63 ∷ 63 ∷ 92 ∷ []

-- L"\\Security", which lstrcpyW puts in the place of the key's path.
abbrev pub security_key : Text
security_key = 92 ∷ 83 ∷ 101 ∷ 99 ∷ 117 ∷ 114 ∷ 105 ∷ 116 ∷ 121 ∷ []

-- SECURITY_STRING_LEN
abbrev pub security_string_len : ℕ
security_string_len = 168

-- The second key.
unfoldable pub write_security : Registry → RegLog → RegResult
write_security w l =
    then_reg w (create_key security_key)
      (then_reg w (set_binary security security_string_len) (λ l1. some (okay, close_reg w l1))) l

unfoldable pub write_types : Registry → RegLog → RegResult
write_types w l =
    then_reg w (set_dword start_type 3)
      (then_reg w (set_dword service_type 1) (λ l1. write_security w (close_reg w l1))) l

-- A text is set with the number of its characters for that of its bytes.
unfoldable pub write_path : Registry → Text → RegLog → RegResult
write_path w full_path l =
    let text = nt_prefix ++ full_path in
    fits_buffer text (then_reg w (set_text image_path text (length text)) (write_types w) l)

unfoldable pub write_name : Registry → Text → Text → RegLog → RegResult
write_name w name full_path l =
    then_reg w (set_text display_name name (length name))
      (then_reg w (set_dword error_control 1) (write_path w full_path)) l

-- InstallDriver
unfoldable pub install_driver : Registry → Option Text → Option Text → RegLog → RegResult
install_driver w none full_path l = some (failure, l)
install_driver w (some name) none l = some (failure, l)
install_driver w (some name) (some full_path) l =
    let key = services_key ++ name in
    fits_buffer key (then_reg w (create_key key) (write_name w name full_path) l)
