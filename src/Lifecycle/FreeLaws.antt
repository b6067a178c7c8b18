-- ===== src/Lifecycle/FreeLaws.antt =====
-- driverUnload of wfpdriver/driver.c gives back what a load took.
use wfpdriver.Shared.{◌-◌, ◌≡◌, refl, ap, true, false, some}
use wfpdriver.State.{Driver}
use wfpdriver.Packets.Datalink
use wfpdriver.Packets.Established
use wfpdriver.Devctrl.Push.{setmonitor, set_shutdown}
use wfpdriver.Devctrl.Reads.{io_thread_round}
use wfpdriver.Devctrl.Dispatch.{clean}
use wfpdriver.Devctrl.MemoryLaws.{IsBalanced}
use wfpdriver.Devctrl.SharedMem.{free_buffers}
use wfpdriver.Devctrl.CloseLaws.{
  IsClosed, Counts, drained, clean-frames_first, free_buffers-IsClosed,
}
use wfpdriver.Lifecycle.Engine.{Oracle, ready, deleted, delete_list, Callouts}
use wfpdriver.Lifecycle.Registration.{callout_free}
use wfpdriver.Lifecycle.BalanceLaws.{IsSettled}
use wfpdriver.Lifecycle.ReadyLaws.{Lists}
use wfpdriver.Lifecycle.FreedLaws.{IsFreed, callout_free-IsFreed}
use wfpdriver.Lifecycle.Loading.{Loaded}
use wfpdriver.Lifecycle.Freeing.{
  datalinkctx_free, establishedctx_free, stop_thread, devctrl_free, delete_device, shut_down,
  free_callouts, driver_free, driver_unload,
}

-- The lists, the device and the thread that a load makes.
pub record HasParts (l : Loaded) : Type 0 where
  pub device : l.device ≡ true
  pub devices : l.devices ≡ 1
  pub links : l.links ≡ 1
  pub thread : l.thread ≡ true
  pub thread_object : l.thread_object ≡ true
  pub query_list : l.query_list ≡ ready
  pub datalink_list : l.datalink_list ≡ ready
  pub established_list : l.established_list ≡ ready

-- A driver loaded and in use. Entries of the lookaside lists may have been lost.
pub record IsLoaded (l : Loaded) : Type 0 where
  pub parts : HasParts l
  pub settled : IsSettled l.callouts
  pub callout_lists : Lists ready l.callouts
  pub balanced : IsBalanced l.driver
  pub counts : Counts l.driver

-- Nothing is left of a load `before` but its pended reads and the entries that were lost.
pub record IsUnloaded (before l : Loaded) : Type 0 where
  pub device : l.device ≡ false
  pub devices : l.devices ≡ 0
  pub links : l.links ≡ 0
  pub thread : l.thread ≡ false
  pub thread_object : l.thread_object ≡ false
  pub subscribed : l.subscribed ≡ false
  pub query_list : l.query_list ≡ deleted
  pub datalink_list : l.datalink_list ≡ deleted
  pub established_list : l.established_list ≡ deleted
  pub callouts : IsFreed l.callouts
  pub driver : IsClosed before.driver l.driver

pub datalinkctx_free_lem :
    (l : Loaded)
    → l.datalink_list ≡ ready
    → datalinkctx_free l
      ≡ some (record l { datalink_list = deleted; driver = Datalink.clean l.driver })
unfolding datalinkctx_free delete_list
datalinkctx_free_lem l h = rw h refl

pub establishedctx_free_lem :
    (l : Loaded)
    → l.established_list ≡ ready
    → establishedctx_free l
      ≡ some (record l { established_list = deleted; driver = Established.clean l.driver })
unfolding establishedctx_free delete_list
establishedctx_free_lem l h = rw h refl

-- A running thread that finds the shutdown flag ends.
stop_thread_lem :
    (l : Loaded)
    → l.thread ≡ true
    → l.driver.shutdown ≡ true
    → stop_thread l
      ≡ some (record l {
        thread = false;
        thread_object = false;
        driver = record (l.driver) { io_event = false };
      })
unfolding stop_thread io_thread_round
stop_thread_lem l h s = rw h (rw s refl)

unfoldable pub unwatched : Driver → Driver
unwatched d = record d { shutdown = true; monitor_flag = 0 }

-- What driver_free comes to, `c` being the callouts freed.
freed : Loaded → Callouts → Loaded
freed l c = record l {
  device = false;
  devices = l.devices - 1;
  links = l.links - 1;
  thread = false;
  thread_object = false;
  query_list = deleted;
  datalink_list = deleted;
  established_list = deleted;
  callouts = c;
  driver = record (clean (Established.clean (Datalink.clean (unwatched l.driver)))) {
    io_event = false;
  };
}

devctrl_free_lem :
    (l : Loaded)
    → l.query_list ≡ ready
    → l.thread ≡ true
    → l.thread_object ≡ true
    → (clean l.driver).shutdown ≡ true
    → devctrl_free l
      ≡ some (record l {
        thread = false;
        thread_object = false;
        query_list = deleted;
        driver = record (clean l.driver) { io_event = false };
      })
unfolding devctrl_free delete_list
devctrl_free_lem l q t o s =
    rw q (rw o (stop_thread_lem (record l { query_list = deleted; driver = clean l.driver }) t s))

cleaned-shutdown :
    (d : Driver) → (clean (Established.clean (Datalink.clean (unwatched d)))).shutdown ≡ true
unfolding unwatched free_buffers
cleaned-shutdown d = ap (λ e. e.shutdown) (clean-frames_first (record d { shutdown = true }))

pub delete_device_lem :
    (l : Loaded)
    → l.device ≡ true
    → delete_device l ≡ record l { device = false; devices = l.devices - 1; links = l.links - 1 }
unfolding delete_device
delete_device_lem l h = rw h refl

free_callouts_lem :
    (o : Oracle) (l : Loaded) (c : Callouts)
    → callout_free o l.callouts ≡ some c
    → free_callouts o l ≡ some (record l { callouts = c })
unfolding free_callouts
free_callouts_lem o l c h = rw (h, free_callouts) refl

driver_free_lem :
    (o : Oracle) (l : Loaded) (c : Callouts)
    → HasParts l
    → callout_free o l.callouts ≡ some c
    → driver_free o l ≡ some (freed l c)
unfolding driver_free shut_down setmonitor set_shutdown unwatched freed
driver_free_lem o l c p h =
    let l1 : Loaded = record l {
      device = false;
      devices = l.devices - 1;
      links = l.links - 1;
      driver = unwatched l.driver;
    } in
    let l2 : Loaded = record l1 { datalink_list = deleted; driver = Datalink.clean l1.driver } in
    let l3 : Loaded = record l2 {
      established_list = deleted;
      driver = Established.clean l2.driver;
    } in
    let l4 : Loaded = record l3 { callouts = c } in
    rw (delete_device_lem l p.device) (
      rw (datalinkctx_free_lem l1 p.datalink_list) (
        rw (establishedctx_free_lem l2 p.established_list) (
          rw (free_callouts_lem o l3 c h) (
            devctrl_free_lem l4 p.query_list p.thread p.thread_object
              (cleaned-shutdown l.driver)))))

event_reset-IsClosed : (d e : Driver) → IsClosed d e → IsClosed d (record e { io_event = false })
event_reset-IsClosed d e h = record {
  monitor = h.monitor;
  query = h.query;
  datalink = h.datalink;
  flows = h.flows;
  query_live = h.query_live;
  datalink_live = h.datalink_live;
  flow_live = h.flow_live;
  in_buf = h.in_buf;
  out_buf = h.out_buf;
  mm = h.mm;
  pended = h.pended;
}

shutdown_before-IsClosed : (d e : Driver) → IsClosed (record d { shutdown = true }) e → IsClosed d e
shutdown_before-IsClosed d e h = record {
  monitor = h.monitor;
  query = h.query;
  datalink = h.datalink;
  flows = h.flows;
  query_live = h.query_live;
  datalink_live = h.datalink_live;
  flow_live = h.flow_live;
  in_buf = h.in_buf;
  out_buf = h.out_buf;
  mm = h.mm;
  pended = h.pended;
}

cleaned-IsClosed :
    (d : Driver)
    → IsBalanced d
    → Counts d
    → IsClosed d (clean (Established.clean (Datalink.clean (unwatched d))))
unfolding unwatched
cleaned-IsClosed d b c =
    let e : Driver = record d { shutdown = true } in
    let closed : IsClosed e (free_buffers (drained e)) =
      free_buffers-IsClosed e
        (record {
          in_whole = b.in_whole;
          out_whole = b.out_whole;
          mdls = b.mdls;
          kernel_maps = b.kernel_maps;
          user_maps = b.user_maps;
        })
        (record { datalink = c.datalink; flows = c.flows; query = c.query }) in
    rw (clean-frames_first e) (shutdown_before-IsClosed d (free_buffers (drained e)) closed)

freed-IsUnloaded :
    (l : Loaded) (c : Callouts)
    → IsLoaded l
    → IsFreed c
    → IsUnloaded l (record (freed l c) { subscribed = false })
unfolding freed
freed-IsUnloaded l c h f = record {
  device = refl;
  devices = rw h.parts.devices refl;
  links = rw h.parts.links refl;
  thread = refl;
  thread_object = refl;
  subscribed = refl;
  query_list = refl;
  datalink_list = refl;
  established_list = refl;
  callouts = f;
  driver = event_reset-IsClosed l.driver _ (cleaned-IsClosed l.driver h.balanced h.counts);
}

-- A driver that is loaded and in use unloads, whatever the filter engine answers: the device, its link,
-- the I/O thread, the engine handle, the lookaside lists, both buffers and every packet and query that
-- waits are gone, and exactly the entries of those packets and queries went back to their lookaside
-- lists; reads that are pended stay pended. In use means that the parts of a load are there, that
-- nothing begun with the engine is left open, that what the memory manager gave is balanced, and that no
-- list is longer than the count of the entries taken for it, which the loss of entries keeps.
pub driver_unload-IsUnloaded :
    (o : Oracle) (l : Loaded)
    → IsLoaded l
    → (l' : Loaded) × (driver_unload o l ≡ some l') × IsUnloaded l l'
unfolding driver_unload
driver_unload-IsUnloaded o l h =
    let (c, e, f) = callout_free-IsFreed o l.callouts h.settled h.callout_lists in
    (
      record (freed l c) { subscribed = false },
      rw (driver_free_lem o l c h.parts e) refl,
      freed-IsUnloaded l c h f,
    )
