-- ===== src/Setup/Scm.antt =====
-- The calls that wfptools/main.cpp makes of the service control manager. What Windows answers is a
-- parameter: any function of the calls made so far and the next one.
use wfpdriver.Shared.{
  ℕ, zero, suc, ◌+◌, Bool, Option, none, some, ◌>>=◌, List, [], ◌∷◌, if◌then◌else◌,
}

-- A wide string, without its end.
abbrev pub Text : Type 0
Text = List ℕ

-- The calls with the arguments that the code varies. `sleep` has the milliseconds.
pub data ScmCall : Type 0 where
  open_manager interrogate stop start query_status : ScmCall
  open_service : Text → ScmCall
  create_service : Text → Text → ScmCall
  close_service close_manager : ScmCall
  sleep : ℕ → ScmCall
  copy_file : Text → Text → ScmCall
  create_process : ScmCall

-- Whether a call succeeds (a handle that is not NULL, a BOOL that is not 0), the service's state in
-- dwCurrentState if it does, and GetLastError if not.
pub record Answer : Type 0 where
  pub good : Bool
  pub current_state : ℕ
  pub last_error : ℕ

-- The calls with their answers, the last one first.
abbrev pub ScmLog : Type 0
ScmLog = List (ScmCall × Answer)

abbrev pub Windows : Type 0
Windows = ScmLog → ScmCall → Answer

unfoldable pub ask : Windows → ScmCall → ScmLog → Answer × ScmLog
ask w c l = (w l c, (c, w l c) ∷ l)

-- A call whose answer the code ignores.
unfoldable pub tell : Windows → ScmCall → ScmLog → ScmLog
tell w c l = (c, w l c) ∷ l

-- The handles that a process holds: of the manager, and of the service.
abbrev pub Held : Type 0
Held = ℕ × ℕ

-- What a call does to the handles held. `none` is a use or a close of a handle that is not held.
abbrev pub use_handles : ScmCall → Bool → Held → Option Held
use_handles open_manager good (m, s) = some ((if good then suc m else m), s)
use_handles (open_service n) good (zero, s) = none
use_handles (open_service n) good (suc m, s) = some (suc m, (if good then suc s else s))
use_handles (create_service n p) good (zero, s) = none
use_handles (create_service n p) good (suc m, s) = some (suc m, (if good then suc s else s))
use_handles interrogate good (m, zero) = none
use_handles interrogate good (m, suc s) = some (m, suc s)
use_handles stop good (m, zero) = none
use_handles stop good (m, suc s) = some (m, suc s)
use_handles start good (m, zero) = none
use_handles start good (m, suc s) = some (m, suc s)
use_handles query_status good (m, zero) = none
use_handles query_status good (m, suc s) = some (m, suc s)
use_handles close_service good (m, zero) = none
use_handles close_service good (m, suc s) = some (m, s)
use_handles close_manager good (zero, s) = none
use_handles close_manager good (suc m, s) = some (m, s)
use_handles (sleep ms) good h = some h
use_handles (copy_file from to) good h = some h
use_handles create_process good h = some h

-- The handles held after a sequence of calls, if none of them used a handle that was not.
abbrev pub held : ScmLog → Option Held
held [] = some (0, 0)
held ((c, a) ∷ l) = held l >>= use_handles c a.good

-- The answer to the last interrogation.
abbrev pub last_interrogation : ScmLog → Option Answer
last_interrogation [] = none
last_interrogation ((interrogate, a) ∷ l) = some a
last_interrogation (_ ∷ l) = last_interrogation l

-- The milliseconds slept.
abbrev pub slept : ScmLog → ℕ
slept [] = 0
slept ((sleep ms, a) ∷ l) = ms + slept l
slept (_ ∷ l) = slept l

-- The service states read by QueryServiceStatusEx.
abbrev pub states_read : ScmLog → ℕ
states_read [] = 0
states_read ((query_status, a) ∷ l) = (if a.good then 1 else 0) + states_read l
states_read (_ ∷ l) = states_read l
