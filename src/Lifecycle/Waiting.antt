-- ===== src/Lifecycle/Waiting.antt =====
-- DriverEntry of wfpdriver/driver.c while the filter engine does not run, and bfeStateCallback, which
-- starts the callouts when it does.
use wfpdriver.Shared.{
  ◌≡◌, ◌≢◌, refl, ◌∙◌, ap, true, false, Bool-cases, ◌⊎◌, inl, inr, Option, none, some, ◌>>=◌,
}
use wfpdriver.Nt.{Status, nt_success}
use wfpdriver.Lifecycle.DeviceLaws.{RegisteredWith, callout_init-RegisteredWith}
use wfpdriver.Lifecycle.Engine.{address_of_variable, Oracle, absent, ready, Callouts, unregistered}
use wfpdriver.Lifecycle.Registration.{callout_init}
use wfpdriver.Lifecycle.InitLaws.{callout_init-Initialises}
use wfpdriver.Lifecycle.ReadyLaws.{Lists}
use wfpdriver.Lifecycle.Loading.{Loaded, not_loaded, LoadAnswers}
use wfpdriver.Lifecycle.Freeing.{driver_unload}
use wfpdriver.Lifecycle.Entry.{
  Entry, fail_entry, free_unless, start_filtering, driver_entry, bfe_state_callback,
}
use wfpdriver.Lifecycle.FreeLaws.{IsLoaded}
use wfpdriver.Lifecycle.Faults.{driver_free_faults, driver_unload_faults}
use wfpdriver.Lifecycle.EntryLaws.{
  Starts, driver_entry-initialised, with_callouts, with_callouts-HasParts, unregistered-IsSettled,
  start_callouts_lem, fate_of,
}

abbrev pub then_unload : Oracle → Entry → Option Loaded
then_unload o e = e >>= λ r. driver_unload o r.1

abbrev pub then_running : Oracle → Entry → Option Loaded
then_running o e = e >>= λ r. bfe_state_callback o true r.1

absent≢ready : absent ≢ ready
absent≢ready h = cc

unregistered-Lists : Lists absent unregistered
unregistered-Lists = record { flow_list = refl; datalink_list = refl }

waiting_entry :
    (o : Oracle) (a : LoadAnswers)
    → Starts a
    → a.bfe_running ≡ false
    → nt_success a.subscribe ≡ true
    → driver_entry o a not_loaded ≡ some (a.subscribe, with_callouts true unregistered)
unfolding start_filtering free_unless with_callouts
waiting_entry o a s r g = driver_entry-initialised o a s ∙ rw r (rw g refl)

not_subscribed :
    (o : Oracle) (a : LoadAnswers)
    → Starts a
    → a.bfe_running ≡ false
    → nt_success a.subscribe ≡ false
    → driver_entry o a not_loaded ≡ none
unfolding start_filtering free_unless with_callouts fail_entry
not_subscribed o a s r b =
    driver_entry-initialised o a s
    ∙ rw r (
        rw b (
          rw
            (driver_free_faults o (with_callouts false unregistered) absent
              (with_callouts-HasParts false unregistered) absent≢ready unregistered-Lists)
            refl))

-- If the device, its link and the thread are made but the filter engine does not run, then loading and
-- unloading before it does faults: in DriverEntry itself if it cannot subscribe, else in driverUnload.
pub unload_without_engine_faults :
    (o o' : Oracle) (a : LoadAnswers)
    → Starts a
    → a.bfe_running ≡ false
    → then_unload o' (driver_entry o a not_loaded) ≡ none
unfolding with_callouts
unload_without_engine_faults o o' a s r = elim (Bool-cases (nt_success a.subscribe)) [
  | inl g ↦
      ap (then_unload o') (waiting_entry o a s r g)
      ∙ driver_unload_faults o' (with_callouts true unregistered) absent
          (with_callouts-HasParts true unregistered) absent≢ready unregistered-Lists
  | inr b ↦ ap (then_unload o') (not_subscribed o a s r b)
]

callback_lem :
    (o : Oracle) (st : Status) (c : Callouts)
    → callout_init o address_of_variable unregistered ≡ some (st, c)
    → bfe_state_callback o true (with_callouts true unregistered) ≡ some (with_callouts true c)
unfolding bfe_state_callback with_callouts
callback_lem o st c h =
    rw (start_callouts_lem o address_of_variable (with_callouts true unregistered) st c h) refl

-- If the filter engine does not run when the driver is loaded but starts later, its callback returns:
-- the driver is then loaded and in use, or without an engine handle and faulting when unloaded, as it is
-- after a DriverEntry that finds the engine running; but whatever callouts are registered are registered
-- with the address of the variable g_deviceControl, where DriverEntry passes the device.
pub callback-Loads :
    (o o' : Oracle) (a : LoadAnswers)
    → Starts a
    → a.bfe_running ≡ false
    → nt_success a.subscribe ≡ true
    → (l : Loaded) × (then_running o' (driver_entry o a not_loaded) ≡ some l)
      × (IsLoaded l ⊎ ((l.callouts.engine ≡ false) × ((u : Oracle) → driver_unload u l ≡ none)))
      × RegisteredWith address_of_variable l.callouts.log
unfolding with_callouts
callback-Loads o o' a s r g =
    let i =
      callout_init-Initialises o' address_of_variable unregistered refl unregistered-IsSettled in
    (
      with_callouts true i.after,
      ap (then_running o') (waiting_entry o a s r g) ∙ callback_lem o' i.status i.after i.result,
      fate_of true i.after i.settled i.outcome,
      callout_init-RegisteredWith address_of_variable o' unregistered (i.status, i.after) tt
          i.result,
    )
