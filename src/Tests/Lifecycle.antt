-- ===== src/Tests/Lifecycle.antt =====
-- Loading and unloading at concrete answers: wfpdriver/driver.c and callouts.c.
use wfpdriver.Shared.{arith, ◌≡◌, refl, true, false, ◌⊎◌, none, some, []}
use wfpdriver.Nt.{Status, success, insufficient_resources, unsuccessful}
use wfpdriver.Lifecycle.DeviceLaws.{RegisteredWith}
use wfpdriver.Lifecycle.Engine.{
  device_control, address_of_variable, Oracle, Call, sublayer_add, ready, unregistered,
}
use wfpdriver.Lifecycle.Registration.{callout_init}
use wfpdriver.Lifecycle.InitLaws.{Initialises, callout_init-Initialises}
use wfpdriver.Lifecycle.Loading.{Loaded, not_loaded, LoadAnswers}
use wfpdriver.Lifecycle.Freeing.{driver_unload}
use wfpdriver.Lifecycle.Entry.{driver_entry}
use wfpdriver.Lifecycle.FreeLaws.{IsLoaded, IsUnloaded, driver_unload-IsUnloaded}
use wfpdriver.Lifecycle.EntryLaws.{Starts, Loads, driver_entry-Loads}
use wfpdriver.Lifecycle.EntryFails.{Fails, driver_entry-Fails}
use wfpdriver.Lifecycle.Waiting.{
  then_unload, then_running, unload_without_engine_faults, callback-Loads,
}
use wfpdriver.Tests.Data.{busy, busy-IsBalanced}

-- The engine refuses the sublayer and agrees to all else.
abbrev refusal : Call → Status
refusal sublayer_add = insufficient_resources
refusal _ = success

abbrev refusing : Oracle
refusing log c = refusal c

abbrev agreeing : Oracle
agreeing log c = success

abbrev answers : LoadAnswers
answers = record {
  create_device = success;
  create_link = success;
  create_thread = success;
  reference_thread = success;
  bfe_running = true;
  subscribe = success;
}

answers-Starts : Starts answers
answers-Starts = record {
  create_device = refl;
  create_link = refl;
  create_thread = refl;
  reference_thread = refl;
}

-- The engine does not run yet.
abbrev early : LoadAnswers
early = record answers { bfe_running = false }

early-Starts : Starts early
early-Starts = record {
  create_device = refl;
  create_link = refl;
  create_thread = refl;
  reference_thread = refl;
}

abbrev no_link : LoadAnswers
no_link = record answers { create_link = unsuccessful }

callout_init-Initialises_example : Initialises (callout_init refusing device_control unregistered)
callout_init-Initialises_example =
    callout_init-Initialises refusing device_control unregistered refl
      (record { transactions = refl; handle = refl })

driver_entry-Loads_example : Loads (driver_entry refusing answers not_loaded)
driver_entry-Loads_example = driver_entry-Loads refusing answers answers-Starts refl

driver_entry-Fails_example : Fails no_link (driver_entry agreeing no_link not_loaded)
driver_entry-Fails_example = driver_entry-Fails agreeing no_link refl

-- A driver in use, with what waits in it.
abbrev in_use : Loaded
in_use = record {
  device = true;
  devices = 1;
  links = 1;
  thread = true;
  thread_object = true;
  subscribed = false;
  query_list = ready;
  datalink_list = ready;
  established_list = ready;
  callouts = record { engine = false; flow_list = ready; datalink_list = ready; log = [] };
  driver = busy;
}

in_use-IsLoaded : IsLoaded in_use
in_use-IsLoaded = record {
  parts = record {
    device = refl;
    devices = refl;
    links = refl;
    thread = refl;
    thread_object = refl;
    query_list = refl;
    datalink_list = refl;
    established_list = refl;
  };
  settled = record { transactions = refl; handle = refl };
  callout_lists = record { flow_list = refl; datalink_list = refl };
  balanced = busy-IsBalanced;
  counts = record { datalink = omega arith; flows = omega arith; query = omega arith };
}

driver_unload-IsUnloaded_example :
    (l : Loaded) × (driver_unload agreeing in_use ≡ some l) × IsUnloaded in_use l
driver_unload-IsUnloaded_example = driver_unload-IsUnloaded agreeing in_use in_use-IsLoaded

unload_without_engine_faults_example :
    then_unload agreeing (driver_entry agreeing early not_loaded) ≡ none
unload_without_engine_faults_example =
    unload_without_engine_faults agreeing agreeing early early-Starts refl

callback-Loads_example :
    (l : Loaded) × (then_running agreeing (driver_entry agreeing early not_loaded) ≡ some l)
    × (IsLoaded l ⊎ ((l.callouts.engine ≡ false) × ((u : Oracle) → driver_unload u l ≡ none)))
    × RegisteredWith address_of_variable l.callouts.log
callback-Loads_example = callback-Loads agreeing agreeing early early-Starts refl refl
