-- ===== src/Setup/Init.antt =====
-- nf_init of wfptools/main.cpp: the service is brought to run, then the device is set up.
use wfpdriver.Shared.{
  Bool, true, false, not, ◌||◌, Option, some, ◌>>=◌, ◌==◌, ℤ, pos, negsuc, if◌then◌else◌,
}
use wfpdriver.Setup.Scm.{Text, create_process, sleep, ScmLog, Windows, tell}
use wfpdriver.Setup.Service.{failure, is_negative, get_services_status, service_running}
use wfpdriver.Setup.Install.{nf_driver_install}
use wfpdriver.Setup.Device.{
  DeviceAnswers, Device, DeviceResult, device_init, device_open, device_initshare_mem,
  device_workthread, device_on_monitor, set_event_handler,
}

-- SERVICE_RUNNING, SERVICE_CONTINUE_PENDING, SERVICE_START_PENDING
unfoldable pub runs : ℤ → Bool
runs (pos n) = n == 4 || (n == 5 || n == 2)
runs (negsuc n) = false

-- SERVICE_STOPPED, SERVICE_STOP_PENDING
unfoldable pub is_installed : ℤ → Bool
is_installed (pos n) = n == 1 || n == 3
is_installed (negsuc n) = false

-- `!n`
unfoldable pub is_zero_int : ℤ → Bool
is_zero_int (pos n) = n == 0
is_zero_int (negsuc n) = false

-- `SERVICE_RUNNING == n`
unfoldable pub is_service_running : ℤ → Bool
is_service_running (pos n) = n == service_running
is_service_running (negsuc n) = false

-- `sc start wfpdriver` and the wait for it: whether nf_init goes on.
unfoldable pub start_by_sc : Windows → ScmLog → Bool × ScmLog
start_by_sc w l =
    let (state, l1) = get_services_status w (tell w (sleep 3000) (tell w create_process l)) in
    (is_service_running state, l1)

unfoldable pub install_new : Windows → Text → ScmLog → Bool × ScmLog
install_new w path l =
    let (result, l1) = nf_driver_install w path l in (not (is_zero_int result), l1)

-- The switch on the service's state: whether nf_init goes on. `path` is what GetModuleFileName gives.
unfoldable pub prepare_service : Windows → Text → ScmLog → Bool × ScmLog
prepare_service w path l =
    let (state, l1) = get_services_status w l in
    if runs state
    then (true, l1)
    else if is_installed state
    then start_by_sc w l1
    else install_new w path l1

-- A step of the `do` block: `0 > status` leaves it.
unfoldable pub unless_negative : (Device → ℤ × Device) → ℤ × Device → ℤ × Device
unless_negative f (status, d) = if is_negative status then (status, d) else f d

unfoldable pub monitored : ℤ × Device → ℤ × Device
monitored (status, d) = if is_negative status then (status, d) else (pos 1, set_event_handler d)

unfoldable pub after_open : DeviceAnswers → ℤ × Device → ℤ × Device
after_open a r = monitored (
    unless_negative (device_on_monitor a)
      (unless_negative (device_workthread a) (unless_negative (device_initshare_mem a) r)))

-- From devctrl_init on, for the name in devSyLinkName.
unfoldable pub set_up_device : DeviceAnswers → Text → Device → DeviceResult
set_up_device a name d = do r ← device_open a (some name) (device_init d); some (after_open a r)

-- nf_init
unfoldable pub nf_init :
    Windows → DeviceAnswers → Text → Text → ScmLog × Device → Option (ℤ × (ScmLog × Device))
nf_init w a path name (l, d) =
    let (ready, l1) = prepare_service w path l in
    let set_up = (do (status, d1) ← set_up_device a name d; some (status, (l1, d1))) in
    if ready then set_up else some (failure, (l1, d))
