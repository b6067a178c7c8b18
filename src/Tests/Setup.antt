-- ===== src/Tests/Setup.antt =====
-- Installing and starting the driver at concrete answers: wfptools/main.cpp and devctrl.cpp.
use wfpdriver.Shared.{ℕ, ◌≡◌, refl, Bool, true, false, some, List, [], ◌∷◌, ℤ}
use wfpdriver.Shared.{◌&&◌, ◌==◌}
use wfpdriver.Tools.Handler.{find, key_of, ipproto_tcp}
use wfpdriver.Setup.Service.{get_services_status}
use wfpdriver.Setup.Device.{shared_answered}
use wfpdriver.Setup.Init.{prepare_service, is_installed}
use wfpdriver.Setup.InitLaws.{goes_on}
use wfpdriver.Setup.Program.{
  ProgramRuns, Library, Surroundings, is_whole, program_main, program_main-monitors,
}
use wfpdriver.Setup.Scm.{
  ScmCall, start, stop, open_service, ScmLog, Windows, held, states_read, ask, tell,
}
use wfpdriver.Setup.Service.{
  create_driver, start_driver, create_opened, close_stopped, stop_running, is_stopped, with_service,
  from_manager, start_opened, start_and_wait, wait_for, close_both, is_running, is_negative,
}
use wfpdriver.Setup.Runs.{Operation, create, get_status, initialise, operate_all, operate_all-held}
use wfpdriver.Setup.ResultLaws.{Finds, start_driver-running}
use wfpdriver.Setup.Device.{DeviceAnswers, Device, null}
use wfpdriver.Setup.Init.{nf_init}
use wfpdriver.Setup.InitLaws.{Initialises, nf_init-Initialises}

-- The state of a service that obeys, stopped at first.
abbrev state_after : ScmLog → ℕ
state_after [] = 1
state_after ((start, a) ∷ l) = 4
state_after ((stop, a) ∷ l) = 1
state_after (_ ∷ l) = state_after l

abbrev obeying : Windows
obeying l c = record { good = true; current_state = state_after l; last_error = 0 }

-- A service that is not installed yet.
abbrev found : ScmCall → Bool
found (open_service n) = false
found _ = true

abbrev missing : Windows
missing l c = record { good = found c; current_state = 4; last_error = 1060 }

abbrev operations : List Operation
operations = create (some (1 ∷ [])) (some (2 ∷ [])) ∷ get_status ∷ initialise (3 ∷ []) ∷ []

operate_all-held_example :
    let l = operate_all obeying operations [] in held l ≡ some (states_read l, states_read l)
operate_all-held_example = operate_all-held obeying operations

starts : is_negative (start_driver obeying (some (1 ∷ [])) (some (2 ∷ [])) []).0 ≡ false
unfolding start_driver create_driver create_opened close_stopped stop_running is_stopped
    with_service from_manager start_opened start_and_wait wait_for is_running is_negative close_both
    ask tell
starts = refl

start_driver-running_example :
    Finds is_running (start_driver obeying (some (1 ∷ [])) (some (2 ∷ [])) []).1
start_driver-running_example =
    start_driver-running obeying (some (1 ∷ [])) (some (2 ∷ [])) [] starts

abbrev device_answers : DeviceAnswers
device_answers = record {
  create_file = some 44;
  share = false;
  io_pending = true;
  overlapped = true;
  bytes_returned = 32;
  create_thread = some 48;
  control = true;
}

abbrev no_device : Device
no_device = record {
  m_devhandler = null;
  m_threadobjhandler = null;
  g_device_handle = null;
  g_h_device = [];
  g_event_handler = false;
  sent = [];
}

nf_init-Initialises_example :
    (r : ℤ × (ScmLog × Device)) × (nf_init missing device_answers (3 ∷ []) (5 ∷ []) ([], no_device)
      ≡ some r)
    × Initialises missing device_answers ([], no_device) r
nf_init-Initialises_example =
    nf_init-Initialises missing device_answers (3 ∷ []) (5 ∷ []) [] no_device

abbrev library : Library
library = record { loaded = true; has_init = true; has_get_process_info = true; has_monitor = true }

-- No flow has been seen yet.
abbrev quiet : Surroundings
quiet = record {
  windows = missing;
  device = device_answers;
  module_path = 3 ∷ [];
  link_name = 5 ∷ [];
  same_letter = λ a b. a == b;
  drives = some [];
  flows = [];
}

is_whole-library : is_whole library ≡ true
unfolding is_whole
is_whole-library = refl

goes_on-missing : goes_on missing [] ≡ true
unfolding get_services_status with_service from_manager ask tell is_installed
goes_on-missing = refl

answered : shared_answered device_answers && device_answers.control ≡ true
unfolding shared_answered
answered = refl

program_main-monitors_example :
    ProgramRuns
      (find (key_of 53 ipproto_tcp) quiet.flows)
      44
      (prepare_service missing (3 ∷ []) []).1
      no_device
      (program_main library quiet ([], no_device))
program_main-monitors_example =
    program_main-monitors library quiet 44 [] no_device is_whole-library goes_on-missing refl
      answered
