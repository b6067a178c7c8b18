-- ===== src/Lifecycle/Freeing.antt =====
-- driver_free and driverUnload of wfpdriver/driver.c, with devctrl_free, datalinkctx_free and
-- establishedctx_free. `none` is a fault, or a wait that nothing ends.
use wfpdriver.Shared.{◌-◌, true, false, Option, none, some, ◌>>=◌, if◌then◌else◌}
use wfpdriver.Packets.Datalink
use wfpdriver.Packets.Established
use wfpdriver.Devctrl.Push.{setmonitor, set_shutdown}
use wfpdriver.Devctrl.Reads.{io_thread_round}
use wfpdriver.Devctrl.Dispatch.{clean}
use wfpdriver.Lifecycle.Engine.{Oracle, delete_list}
use wfpdriver.Lifecycle.Registration.{callout_free}
use wfpdriver.Lifecycle.Loading.{Loaded}

-- datalinkctx_free
unfoldable pub datalinkctx_free : Loaded → Option Loaded
unfolding delete_list Datalink.clean
datalinkctx_free l = elim (delete_list l.datalink_list) [
  | none ↦ none
  | some list ↦ some (record l { datalink_list = list; driver = Datalink.clean l.driver })
]

-- establishedctx_free
unfoldable pub establishedctx_free : Loaded → Option Loaded
unfolding delete_list Established.clean
establishedctx_free l = elim (delete_list l.established_list) [
  | none ↦ none
  | some list ↦ some (record l { established_list = list; driver = Established.clean l.driver })
]

-- The wait of devctrl_free for a thread that runs: the event wakes it, and it has to end then.
unfoldable pub stop_thread : Loaded → Option Loaded
unfolding io_thread_round
stop_thread l =
    if l.thread
    then elim (io_thread_round (record (l.driver) { io_event = true })) [
      | none ↦ none
      | some (running, d) ↦
          if running
          then none
          else some (record l { thread = false; thread_object = false; driver = d })
    ]
    else some (record l { thread_object = false; driver = record (l.driver) { io_event = true } })

-- devctrl_free
unfoldable pub devctrl_free : Loaded → Option Loaded
unfolding clean delete_list stop_thread
devctrl_free l = elim (delete_list l.query_list) [
  | none ↦ none
  | some list ↦
      let m = record l { query_list = list; driver = clean l.driver } in
      if m.thread_object then stop_thread m else some m
]

-- IoDeleteDevice and IoDeleteSymbolicLink.
unfoldable pub delete_device : Loaded → Loaded
delete_device l =
    if l.device
    then record l { device = false; devices = l.devices - 1; links = l.links - 1 }
    else l

-- The devctrl_setShutdown and devctrl_setmonitor(0) of driver_free.
unfoldable pub shut_down : Loaded → Loaded
unfolding set_shutdown setmonitor
shut_down l = record l { driver = (setmonitor 0 (set_shutdown l.driver)).1 }

unfoldable pub free_callouts : Oracle → Loaded → Option Loaded
unfolding callout_free
free_callouts o l = elim (callout_free o l.callouts) [
  | none ↦ none
  | some c ↦ some (record l { callouts = c })
]

unfoldable pub driver_free : Oracle → Loaded → Option Loaded
unfolding delete_device shut_down datalinkctx_free establishedctx_free free_callouts devctrl_free
driver_free o l = do
  d ← datalinkctx_free (shut_down (delete_device l))
  e ← establishedctx_free d
  c ← free_callouts o e
  devctrl_free c

unfoldable pub driver_unload : Oracle → Loaded → Option Loaded
unfolding driver_free
driver_unload o l = do l' ← driver_free o l; some (record l' { subscribed = false })
