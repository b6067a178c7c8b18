-- ===== src/Lifecycle/Entry.antt =====
-- DriverEntry and bfeStateCallback of wfpdriver/driver.c. `none` is a fault, or a wait that nothing
-- ends.
use wfpdriver.Shared.{Bool, Option, some, ◌>>=◌, if◌then◌else◌}
use wfpdriver.Nt.{Status, nt_success}
use wfpdriver.Lifecycle.Engine.{Oracle, DevicePointer, device_control, address_of_variable}
use wfpdriver.Lifecycle.Registration.{callout_init}
use wfpdriver.Lifecycle.Loading.{
  Loaded, LoadAnswers, driver_init, devctrl_init, datalinkctx_init, establishedctx_init,
}
use wfpdriver.Lifecycle.Freeing.{driver_free, delete_device, devctrl_free}

-- A pair of a status and the driver as it is after.
abbrev pub Entry : Type 0
Entry = Option (Status × Loaded)

-- `driver_free(); return status;`
unfoldable pub fail_entry : Oracle → Status → Loaded → Entry
fail_entry o status l = do l' ← driver_free o l; some (status, l')

unfoldable pub free_unless : Oracle → Status × Loaded → Entry
free_unless o (status, l) = if nt_success status then some (status, l) else fail_entry o status l

unfoldable pub start_callouts : Oracle → DevicePointer → Loaded → Entry
start_callouts o p l = do
  (status, c) ← callout_init o p l.callouts
  some (status, record l { callouts = c })

-- From FwpmBfeStateGet on.
unfoldable pub start_filtering : Oracle → LoadAnswers → Loaded → Entry
start_filtering o a l =
    if a.bfe_running
    then (do r ← start_callouts o device_control l; free_unless o r)
    else free_unless o (a.subscribe, record l { subscribed = nt_success a.subscribe })

-- datalinkctx_init and establishedctx_init cannot fail.
unfoldable pub init_packets : Loaded → Loaded
init_packets l = (establishedctx_init (datalinkctx_init l).1).1

unfoldable pub undo_devctrl : Status → Loaded → Entry
undo_devctrl status l = do l' ← devctrl_free (delete_device l); some (status, l')

-- devctrl_init and what follows it.
unfoldable pub init_devctrl : Oracle → LoadAnswers → Status × Loaded → Entry
init_devctrl o a (status, l) =
    if nt_success status then start_filtering o a (init_packets l) else undo_devctrl status l

-- DriverEntry
unfoldable pub driver_entry : Oracle → LoadAnswers → Loaded → Entry
driver_entry o a l =
    let r = driver_init a l in
    if nt_success r.0 then init_devctrl o a (devctrl_init a r.1) else some r

-- bfeStateCallback, called with whether the new state is FWPM_SERVICE_RUNNING. It passes the address of
-- g_deviceControl.
unfoldable pub bfe_state_callback : Oracle → Bool → Loaded → Option Loaded
bfe_state_callback o running l =
    if running then (do (status, l') ← start_callouts o address_of_variable l; some l') else some l
