-- ===== src/Lifecycle/EntryLaws.antt =====
-- DriverEntry of wfpdriver/driver.c: what it makes, what it leaves when a step fails, and what
-- driverUnload can do with it.
use wfpdriver.Shared.{arith, ◌≡◌, ◌≢◌, refl, ◌∙◌, ap, Bool, true, false, ◌⊎◌, inl, inr, none, some}
use wfpdriver.Nt.{Status, nt_success}
use wfpdriver.State.{no_shared_memory, started}
use wfpdriver.Devctrl.MemoryLaws.{IsWhole, IsBalanced}
use wfpdriver.Lifecycle.Engine.{
  DevicePointer, device_control, Oracle, ready, deleted, Callouts, unregistered,
}
use wfpdriver.Lifecycle.Registration.{callout_init}
use wfpdriver.Lifecycle.BalanceLaws.{IsSettled}
use wfpdriver.Lifecycle.InitLaws.{callout_init-Initialises}
use wfpdriver.Lifecycle.ReadyLaws.{Lists}
use wfpdriver.Lifecycle.Loading.{
  Loaded, not_loaded, LoadAnswers, link_device, driver_init, devctrl_init, datalinkctx_init,
  establishedctx_init,
}
use wfpdriver.Lifecycle.Freeing.{driver_unload}
use wfpdriver.Lifecycle.Entry.{
  Entry, free_unless, start_callouts, start_filtering, init_packets, init_devctrl, driver_entry,
}
use wfpdriver.Lifecycle.FreeLaws.{HasParts, IsLoaded}
use wfpdriver.Lifecycle.Faults.{driver_unload_faults}

-- The device, its link and the I/O thread are made.
pub record Starts (a : LoadAnswers) : Type 0 where
  pub create_device : nt_success a.create_device ≡ true
  pub create_link : nt_success a.create_link ≡ true
  pub create_thread : nt_success a.create_thread ≡ true
  pub reference_thread : nt_success a.reference_thread ≡ true

-- The driver before it turns to the filter engine.
abbrev pub initialised : Loaded
initialised = record {
  device = true;
  devices = 1;
  links = 1;
  thread = true;
  thread_object = true;
  subscribed = false;
  query_list = ready;
  datalink_list = ready;
  established_list = ready;
  callouts = unregistered;
  driver = started;
}

initialised-HasParts : HasParts initialised
initialised-HasParts = record {
  device = refl;
  devices = refl;
  links = refl;
  thread = refl;
  thread_object = refl;
  query_list = refl;
  datalink_list = refl;
  established_list = refl;
}

abbrev pub linked : Loaded
linked = record not_loaded { device = true; devices = 1; links = 1 }

abbrev threaded : Loaded
threaded = record linked { thread = true; thread_object = true; query_list = ready }

pub driver_init_lem :
    (a : LoadAnswers)
    → nt_success a.create_device ≡ true
    → nt_success a.create_link ≡ true
    → driver_init a not_loaded ≡ (a.create_link, linked)
unfolding driver_init link_device
driver_init_lem a d k = rw d (rw k refl)

devctrl_init_lem :
    (a : LoadAnswers) → Starts a → devctrl_init a linked ≡ (a.reference_thread, threaded)
unfolding devctrl_init
devctrl_init_lem a s = rw s.create_thread (rw s.reference_thread refl)

init_packets_lem : init_packets threaded ≡ initialised
unfolding init_packets datalinkctx_init establishedctx_init
init_packets_lem = refl

after_devctrl_lem :
    (o : Oracle) (a : LoadAnswers)
    → Starts a
    → init_devctrl o a (a.reference_thread, threaded) ≡ start_filtering o a initialised
unfolding init_devctrl
after_devctrl_lem o a s = rw s.reference_thread (ap (start_filtering o a) init_packets_lem)

pub entry_after_init :
    (o : Oracle) (a : LoadAnswers) (r : Status × Loaded)
    → nt_success r.0 ≡ true
    → driver_init a not_loaded ≡ r
    → driver_entry o a not_loaded ≡ init_devctrl o a (devctrl_init a r.1)
unfolding driver_entry
entry_after_init o a r h e = rw e (rw h refl)

pub driver_entry-initialised :
    (o : Oracle) (a : LoadAnswers)
    → Starts a
    → driver_entry o a not_loaded ≡ start_filtering o a initialised
driver_entry-initialised o a s =
    entry_after_init o a (a.create_link, linked) s.create_link
      (driver_init_lem a s.create_device s.create_link)
    ∙ ap (init_devctrl o a) (devctrl_init_lem a s)
    ∙ after_devctrl_lem o a s

-- The driver with its callouts, and whether it waits for the filter engine to run.
unfoldable pub with_callouts : Bool → Callouts → Loaded
with_callouts b c = record initialised { subscribed = b; callouts = c }

deleted≢ready : deleted ≢ ready
deleted≢ready h = cc

-- What a load leaves that goes on to the filter engine: a success, whatever the engine answered, and a
-- driver that unloads, or one without an engine that cannot.
pub record Loads (e : Entry) : Type 0 where
  pub status : Status
  pub after : Loaded
  pub result : e ≡ some (status, after)
  pub success : nt_success status ≡ true
  pub fate :
      IsLoaded after
      ⊎ ((after.callouts.engine ≡ false) × ((o : Oracle) → driver_unload o after ≡ none))

pub start_callouts_lem :
    (o : Oracle) (p : DevicePointer) (l : Loaded) (st : Status) (c : Callouts)
    → callout_init o p l.callouts ≡ some (st, c)
    → start_callouts o p l ≡ some (st, record l { callouts = c })
unfolding start_callouts
start_callouts_lem o p l st c h = rw (h, start_callouts) refl

started_filtering :
    (o : Oracle) (a : LoadAnswers) (l : Loaded) (st : Status) (c : Callouts)
    → a.bfe_running ≡ true
    → nt_success st ≡ true
    → callout_init o device_control l.callouts ≡ some (st, c)
    → start_filtering o a l ≡ some (st, record l { callouts = c })
unfolding start_filtering free_unless
started_filtering o a l st c r g h =
    rw r (rw (start_callouts_lem o device_control l st c h) (rw g refl))

pub unregistered-IsSettled : IsSettled unregistered
unregistered-IsSettled = record { transactions = refl; handle = refl }

nothing-IsWhole : IsWhole no_shared_memory
nothing-IsWhole = record {
  parts = λ h. absurd (h refl);
  absent = λ h. (refl, refl, refl);
  covers = refl;
}

started-IsBalanced : IsBalanced started
started-IsBalanced = record {
  in_whole = nothing-IsWhole;
  out_whole = nothing-IsWhole;
  mdls = refl;
  kernel_maps = refl;
  user_maps = refl;
}

pub with_callouts-HasParts : (b : Bool) (c : Callouts) → HasParts (with_callouts b c)
unfolding with_callouts
with_callouts-HasParts b c = record {
  device = refl;
  devices = refl;
  links = refl;
  thread = refl;
  thread_object = refl;
  query_list = refl;
  datalink_list = refl;
  established_list = refl;
}

with_callouts-IsLoaded :
    (b : Bool) (c : Callouts) → IsSettled c → Lists ready c → IsLoaded (with_callouts b c)
unfolding with_callouts
with_callouts-IsLoaded b c h l = record {
  parts = with_callouts-HasParts b c;
  settled = h;
  callout_lists = l;
  balanced = started-IsBalanced;
  counts = record { datalink = omega arith; flows = omega arith; query = omega arith };
}

pub fate_of :
    (b : Bool) (c : Callouts)
    → IsSettled c
    → ((c.engine ≡ true) × Lists ready c) ⊎ ((c.engine ≡ false) × (Lists ready c ⊎ Lists deleted c))
    → IsLoaded (with_callouts b c)
      ⊎ ((c.engine ≡ false) × ((o : Oracle) → driver_unload o (with_callouts b c) ≡ none))
unfolding with_callouts
fate_of b c h (inl (_, l)) = inl (with_callouts-IsLoaded b c h l)
fate_of b c h (inr (e, inl l)) = inl (with_callouts-IsLoaded b c h l)
fate_of b c h (inr (e, inr l)) = inr (
  e,
  λ o.
      driver_unload_faults o (with_callouts b c) deleted (with_callouts-HasParts b c) deleted≢ready
        l,
)

-- If the device, its link and the thread are made and the filter engine runs, DriverEntry returns a
-- success whatever the engine answers, and then the driver is loaded and in use, ready to unload, or
-- it has no engine handle and unloading it faults.
pub driver_entry-Loads :
    (o : Oracle) (a : LoadAnswers)
    → Starts a
    → a.bfe_running ≡ true
    → Loads (driver_entry o a not_loaded)
unfolding with_callouts
driver_entry-Loads o a s r =
    let i = callout_init-Initialises o device_control unregistered refl unregistered-IsSettled in
    record {
      status = i.status;
      after = with_callouts false i.after;
      result =
          driver_entry-initialised o a s
          ∙ started_filtering o a initialised i.status i.after r i.success i.result;
      success = i.success;
      fate = fate_of false i.after i.settled i.outcome;
    }
