-- ===== src/Setup/Service.antt =====
-- CreateDriver, StartDriver, StopDriver and GetServicesStatus of wfptools/main.cpp.
use wfpdriver.Shared.{
  ℕ, zero, suc, [], ◌∷◌, Bool, true, false, not, ◌||◌, ◌&&◌, Option, none, some, ◌==◌, ℤ, pos,
  negsuc, if◌then◌else◌,
}
use wfpdriver.Setup.Scm.{
  Text, open_manager, interrogate, stop, start, query_status, open_service, create_service,
  close_service, close_manager, sleep, Answer, ScmLog, Windows, ask, tell,
}

-- SERVICE_STOPPED, SERVICE_RUNNING
abbrev pub service_stopped : ℕ
service_stopped = 1

abbrev pub service_running : ℕ
service_running = 4

abbrev pub error_service_not_active : ℕ
error_service_not_active = 1062

-- LG_SLEEP_TIME
abbrev pub lg_sleep_time : ℕ
lg_sleep_time = 4000

-- -1 and 0 as int
abbrev pub failure : ℤ
failure = negsuc 0

abbrev pub okay : ℤ
okay = pos 0

unfoldable pub is_negative : ℤ → Bool
is_negative (pos n) = false
is_negative (negsuc n) = true

-- A function of the code: its result and the calls made.
abbrev pub ServiceResult : Type 0
ServiceResult = ℤ × ScmLog

unfoldable pub close_both : Windows → ScmLog → ScmLog
close_both w l = tell w close_manager (tell w close_service l)

-- The interrogation fails or finds the service stopped.
unfoldable pub is_stopped : Answer → Bool
is_stopped a = not a.good || a.current_state == service_stopped

unfoldable pub is_running : Answer → Bool
is_running a = a.good && a.current_state == service_running

-- The loop that waits for the service to be in a state, with the rounds that are left: bStopped,
-- bStarted.
unfoldable pub wait_for : (Answer → Bool) → Windows → ℕ → ScmLog → Bool × ScmLog
wait_for done w zero l = (false, l)
wait_for done w (suc n) l =
    let (a, l1) = ask w interrogate l in
    let rest = wait_for done w n (tell w (sleep lg_sleep_time) l1) in
    if done a then (true, l1) else rest

-- SERVICE_CONTROL_STOP and the wait: whether the service may be taken for stopped.
unfoldable pub stop_and_wait : Windows → ScmLog → Bool × ScmLog
stop_and_wait w l =
    let (a, l1) = ask w stop l in if a.good then wait_for is_stopped w 10 l1 else (false, l1)

-- The part that CreateDriver and StopDriver share.
unfoldable pub stop_running : Windows → ScmLog → Bool × ScmLog
stop_running w l =
    let (a, l1) = ask w interrogate l in if is_stopped a then (true, l1) else stop_and_wait w l1

unfoldable pub close_stopped : Windows → Bool × ScmLog → ServiceResult
close_stopped w (stopped, l) = ((if stopped then okay else failure), close_both w l)

-- CreateDriver after its OpenService failed.
unfoldable pub create_new : Windows → Text → Text → ScmLog → ServiceResult
create_new w name path l =
    let (a, l1) = ask w (create_service name path) l in
    if a.good then (okay, close_both w l1) else (failure, tell w close_manager l1)

unfoldable pub create_opened : Windows → Text → Text → ScmLog → ServiceResult
create_opened w name path l =
    let (a, l1) = ask w (open_service name) l in
    if a.good then close_stopped w (stop_running w l1) else create_new w name path l1

-- CreateDriver. `none` is a NULL pointer.
unfoldable pub create_driver : Windows → Option Text → Option Text → ScmLog → ServiceResult
create_driver w none path l = (failure, l)
create_driver w (some name) none l = (failure, l)
create_driver w (some name) (some path) l =
    let (a, l1) = ask w open_manager l in
    if a.good then create_opened w name path l1 else (failure, l1)

-- StartService and the wait for the service to run.
unfoldable pub start_and_wait : Windows → ScmLog → ServiceResult
start_and_wait w l =
    let (a, l1) = ask w start l in
    let (started, l2) = wait_for is_running w 10 l1 in
    if a.good
    then ((if started then pos 1 else failure), close_both w l2)
    else (failure, close_both w l1)

-- StartDriver with the service open.
unfoldable pub start_opened : Windows → ScmLog → ServiceResult
start_opened w l =
    let (a, l1) = ask w interrogate l in
    if is_running a
    then (okay, close_both w l1)
    else if a.good || a.last_error == error_service_not_active
    then start_and_wait w l1
    else (failure, close_both w l1)

-- The service opened from an open manager, for what follows.
unfoldable pub from_manager : Windows → Text → (ScmLog → ServiceResult) → ScmLog → ServiceResult
from_manager w name f l =
    let (a, l1) = ask w (open_service name) l in
    if a.good then f l1 else (failure, tell w close_manager l1)

-- The manager and the service opened, for what follows.
unfoldable pub with_service : Windows → Text → (ScmLog → ServiceResult) → ScmLog → ServiceResult
with_service w name f l =
    let (a, l1) = ask w open_manager l in if a.good then from_manager w name f l1 else (failure, l1)

-- StartDriver
unfoldable pub start_driver : Windows → Option Text → Option Text → ScmLog → ServiceResult
start_driver w none path l = (failure, l)
start_driver w (some name) path l =
    let (created, l1) = create_driver w (some name) path l in
    if is_negative created then (failure, l1) else with_service w name (start_opened w) l1

unfoldable pub stop_opened : Windows → ScmLog → ServiceResult
stop_opened w l = close_stopped w (stop_running w l)

-- StopDriver. The code hands its name to OpenService without a test for NULL.
unfoldable pub stop_driver : Windows → Text → ScmLog → ServiceResult
stop_driver w name l = with_service w name (stop_opened w) l

-- L"wfpdriver"
abbrev pub service_name : Text
service_name = 119 ∷ 102 ∷ 112 ∷ 100 ∷ 114 ∷ 105 ∷ 118 ∷ 101 ∷ 114 ∷ []

-- QueryServiceStatusEx in GetServicesStatus. A status that was read is returned with both handles open.
unfoldable pub query_opened : Windows → ScmLog → ServiceResult
query_opened w l =
    let (a, l1) = ask w query_status l in
    if a.good then (pos a.current_state, l1) else (failure, close_both w l1)

-- GetServicesStatus, -1 standing for the DWORD 0xffffffff.
unfoldable pub get_services_status : Windows → ScmLog → ServiceResult
get_services_status w l = with_service w service_name (query_opened w) l
