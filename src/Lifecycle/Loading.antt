-- ===== src/Lifecycle/Loading.antt =====
-- wfpdriver/driver.c: the state of a load, and what DriverEntry initialises in driver.c, devctrl.c,
-- datalinkctx.c and establishedctx.c.
use wfpdriver.Shared.{ℕ, ◌+◌, Bool, true, false, [], if◌then◌else◌}
use wfpdriver.Nt.{Status, success, nt_success}
use wfpdriver.State.{Driver, started}
use wfpdriver.Lifecycle.Engine.{Lookaside, absent, ready, Callouts, unregistered}

-- The globals of driver.c, the lookaside lists of the other files, and what the system holds for the
-- driver. `device` is whether g_deviceControl is set, `thread` whether the I/O thread runs.
pub record Loaded : Type 0 where
  pub device : Bool
  pub devices : ℕ
  pub links : ℕ
  pub thread : Bool
  pub thread_object : Bool
  pub subscribed : Bool
  pub query_list : Lookaside
  pub datalink_list : Lookaside
  pub established_list : Lookaside
  pub callouts : Callouts
  pub driver : Driver

abbrev pub not_loaded : Loaded
not_loaded = record {
  device = false;
  devices = 0;
  links = 0;
  thread = false;
  thread_object = false;
  subscribed = false;
  query_list = absent;
  datalink_list = absent;
  established_list = absent;
  callouts = unregistered;
  driver = started;
}

-- What the system answers to DriverEntry.
pub record LoadAnswers : Type 0 where
  pub create_device : Status
  pub create_link : Status
  pub create_thread : Status
  pub reference_thread : Status
  pub bfe_running : Bool
  pub subscribe : Status

-- IoCreateSymbolicLink in driver_init: the device is not deleted when it fails.
unfoldable pub link_device : LoadAnswers → Loaded → Status × Loaded
link_device a l =
    (a.create_link, if nt_success a.create_link then record l { links = l.links + 1 } else l)

unfoldable pub driver_init : LoadAnswers → Loaded → Status × Loaded
unfolding link_device
driver_init a l =
    if nt_success a.create_device
    then link_device a (record l { device = true; devices = l.devices + 1 })
    else (a.create_device, l)

-- devctrl_init: a thread that cannot be referenced runs on.
unfoldable pub devctrl_init : LoadAnswers → Loaded → Status × Loaded
devctrl_init a l =
    let m = record l {
      query_list = ready;
      driver = record (l.driver) { pended = []; query = []; io_event = false };
    } in
    if nt_success a.create_thread
    then (
      a.reference_thread,
      record m { thread = true; thread_object = nt_success a.reference_thread },
    )
    else (a.create_thread, m)

unfoldable pub datalinkctx_init : Loaded → Status × Loaded
datalinkctx_init l =
    (success, record l { datalink_list = ready; driver = record (l.driver) { datalink = [] } })

unfoldable pub establishedctx_init : Loaded → Status × Loaded
establishedctx_init l =
    (success, record l { established_list = ready; driver = record (l.driver) { flows = [] } })
