-- ===== src/Lifecycle/Faults.antt =====
-- driver_free of wfpdriver/driver.c when the lookaside lists of callouts.c are not in use.
use wfpdriver.Shared.{◌-◌, ◌≡◌, ◌≢◌, refl, false, none}
use wfpdriver.Packets.Datalink
use wfpdriver.Devctrl.Push.{setmonitor, set_shutdown}
use wfpdriver.Lifecycle.Engine.{Oracle, Lookaside, absent, ready, deleted, delete_list, Callouts}
use wfpdriver.Lifecycle.Registration.{callout_free, delete_lists}
use wfpdriver.Lifecycle.ReadyLaws.{Lists}
use wfpdriver.Lifecycle.Loading.{Loaded}
use wfpdriver.Lifecycle.Freeing.{shut_down, free_callouts, driver_free, driver_unload}
use wfpdriver.Lifecycle.FreeLaws.{
  HasParts, datalinkctx_free_lem, establishedctx_free_lem, delete_device_lem, unwatched,
}

callout_free_faults :
    (o : Oracle) (s : Callouts) (x : Lookaside) → x ≢ ready → Lists x s → callout_free o s ≡ none
unfolding callout_free delete_lists delete_list
callout_free_faults o s absent h l = rw l.flow_list refl
callout_free_faults o s ready h l = absurd (h refl)
callout_free_faults o s deleted h l = rw l.flow_list refl

pub driver_free_faults :
    (o : Oracle) (l : Loaded) (x : Lookaside)
    → HasParts l
    → x ≢ ready
    → Lists x l.callouts
    → driver_free o l ≡ none
unfolding driver_free shut_down setmonitor set_shutdown unwatched free_callouts
driver_free_faults o l x p h q =
    let l1 : Loaded = record l {
      device = false;
      devices = l.devices - 1;
      links = l.links - 1;
      driver = unwatched l.driver;
    } in
    let l2 : Loaded = record l1 { datalink_list = deleted; driver = Datalink.clean l1.driver } in
    rw (delete_device_lem l p.device) (
      rw (datalinkctx_free_lem l1 p.datalink_list) (
        rw (establishedctx_free_lem l2 p.established_list)
          (rw (callout_free_faults o l.callouts x h q, free_callouts) refl)))

-- Unloading faults if the callouts' lookaside lists were never initialised or are already deleted.
pub driver_unload_faults :
    (o : Oracle) (l : Loaded) (x : Lookaside)
    → HasParts l
    → x ≢ ready
    → Lists x l.callouts
    → driver_unload o l ≡ none
unfolding driver_unload
driver_unload_faults o l x p h q = rw (driver_free_faults o l x p h q) refl
