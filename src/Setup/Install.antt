-- ===== src/Setup/Install.antt =====
-- nf_driverInstall of wfptools/main.cpp: the driver's file copied from the program's folder, and the
-- service started.
use wfpdriver.Shared.{
  ℕ, Bool, false, not, ◌&&◌, ◌||◌, some, [], ◌∷◌, ◌++◌, ◌==◌, ℤ, pos, negsuc, if◌then◌else◌,
}
use wfpdriver.Setup.Scm.{Text, copy_file, ScmLog, Windows, tell}
use wfpdriver.Setup.Service.{ServiceResult, failure, start_driver, service_name}

-- L'\\'
abbrev pub backslash : ℕ
backslash = 92

unfoldable pub has_backslash : Text → Bool
has_backslash [] = false
has_backslash (c ∷ cs) = c == backslash || has_backslash cs

-- find_last_of and substr: what stands before the last backslash, and all of it where there is none,
-- as the -1 is converted to npos.
unfoldable pub before_last : Text → Text
before_last [] = []
before_last (c ∷ cs) =
    let rest = before_last cs in if c == backslash && not (has_backslash cs) then [] else c ∷ rest

-- L"\\wfpdriver.sys"
abbrev pub file_name : Text
file_name = backslash ∷ service_name ++ (46 ∷ 115 ∷ 121 ∷ 115 ∷ [])

-- L"C:\\Windows\\System32\\drivers"
abbrev pub drivers_folder : Text
drivers_folder =
    67 ∷ 58 ∷ backslash ∷ 87 ∷ 105 ∷ 110 ∷ 100 ∷ 111 ∷ 119 ∷ 115 ∷ backslash ∷ 83 ∷ 121 ∷ 115 ∷ 116
    ∷ 101 ∷ 109 ∷ 51 ∷ 50 ∷ backslash ∷ 100 ∷ 114 ∷ 105 ∷ 118 ∷ 101 ∷ 114 ∷ 115 ∷ []

abbrev pub driver_path : Text
driver_path = drivers_folder ++ file_name

-- StartDriver(...) == TRUE
unfoldable pub is_true : ℤ → Bool
is_true (pos n) = n == 1
is_true (negsuc n) = false

-- nf_driverInstall, where GetModuleFileName gives this path. Whether the file is copied does not
-- matter.
unfoldable pub nf_driver_install : Windows → Text → ScmLog → ServiceResult
nf_driver_install w module_path l =
    let copy = copy_file (before_last module_path ++ file_name) driver_path in
    let (started, l1) = start_driver w (some service_name) (some driver_path) (tell w copy l) in
    if is_true started then (pos 1, l1) else (failure, l1)
