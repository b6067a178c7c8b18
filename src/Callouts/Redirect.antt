-- ===== src/Callouts/Redirect.antt =====
-- wfpdriver/callouts.c: helper_callout_classFn_connectredirect. `none` is a fault.
use wfpdriver.Shared.{◌+◌, Bool, true, false, not, ◌||◌, Option, none, some, ◌==◌, if◌then◌else◌}
use wfpdriver.Packets.Alloc.{Alloc}
use wfpdriver.Callouts.Info.{
  Wdk, Layer, connect_redirect_v4, FlowValues, Classify, permit, block_out,
}
use wfpdriver.Callouts.Flow.{push_flow_entry, flow_entry_bytes}

abbrev pub is_redirect_v4 : Layer → Bool
is_redirect_v4 connect_redirect_v4 = true
is_redirect_v4 _ = false

-- `packet` and `context`: the two pointers are there; `reauthorize`: the flag of the connection;
-- `debugger`: one is attached, so DbgBreakPoint returns.
unfoldable pub class_fn_connectredirect :
    Wdk → FlowValues → Bool → Bool → Bool → Bool → Bool → Bool → Alloc → Classify → Option Classify
unfolding push_flow_entry flow_entry_bytes
class_fn_connectredirect w v packet context reauthorize debugger clear_right allocated a c =
    let pushed =
      push_flow_entry w clear_right a (record c { live = c.live + 1 })
        (flow_entry_bytes w (is_redirect_v4 v.layer) w.layer_ale_connect_redirect_v4
          w.callout_guid_ale_connectredirect_v4 v v.process_path) in
    if c.driver.monitor_flag == 0
    then some (record c { out = record (c.out) { action_type = permit } })
    else if not (c.out.rights w.right_action_write)
    then some c
    else if not packet || not context || reauthorize
    then some (record c { out = record (c.out) { action_type = permit } })
    else if allocated
    then if debugger then pushed else none
    else some (record c { out = block_out w c.out })
