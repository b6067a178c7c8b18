-- ===== src/Callouts/Flow.antt =====
-- wfpdriver/callouts.c: helper_callout_classFn_flowEstablished. `none` is an access violation or a
-- write outside of the entry.
use wfpdriver.Shared.{
  ℕ, ◌+◌, ◌-◌, Bool, true, false, Option, none, some, List, ◌++◌, take, drop, ltb, length, ◌==◌,
  if◌then◌else◌, pos,
}
use wfpdriver.Nt.{Status}
use wfpdriver.State.{Driver}
use wfpdriver.Packets.Alloc.{Alloc}
use wfpdriver.Packets.Established.{pushflowestablishedctx}
use wfpdriver.Callouts.Info.{
  Wdk, Layer, flow_established_v4, Address, ipv4, ipv6, FlowInfo, FlowValues, Classify, permit_out,
  block_out, flow_bytes, sizeof_flow_info, sizeof_process_path,
}

-- AF_INET and AF_INET6
abbrev pub af_inet : ℕ
af_inet = 2

abbrev pub af_inet6 : ℕ
af_inet6 = 23

abbrev pub is_flow_v4 : Layer → Bool
is_flow_v4 flow_established_v4 = true
is_flow_v4 _ = false

-- A layer's address: swapped if it is IPv4, else 16 bytes.
abbrev pub address_of : Wdk → Bool → ℕ → List ℕ → Address
address_of w v4 a bs = if v4 then ipv4 (w.ulong_byte_swap a) else ipv6 bs

-- The record for a flow; the path is copied with the size that the engine reports.
unfoldable pub flow_info : Wdk → Bool → ℕ → ℕ → FlowValues → List ℕ → FlowInfo
flow_info w v4 layer_id callout_id v path = record {
  address_family = if v4 then af_inet else af_inet6;
  local_addr = address_of w v4 v.local_address v.local_address16;
  to_local_port = v.local_port;
  protocol = v.protocol;
  flow_id = v.flow_handle;
  layer_id = layer_id;
  callout_id = callout_id;
  remote_addr = address_of w v4 v.remote_address v.remote_address16;
  to_remote_port = v.remote_port;
  process_path = path;
  process_path_size = length path;
  process_id = v.process_id;
  ref_count = 1;
}

-- A path copied over the record from processPath on, behind which 1062 bytes of the entry are left.
unfoldable pub with_path : List ℕ → List ℕ → List ℕ
with_path path bytes = take 58 bytes ++ (path ++ drop (58 + length path) bytes)

-- The entry as it is pushed. A path longer than the array is written over the fields behind it; one that
-- is longer than the rest of the entry, or none, does not get that far.
unfoldable pub flow_entry_bytes :
    Wdk → Bool → ℕ → ℕ → FlowValues → Option (List ℕ) → Option (List ℕ)
unfolding flow_info flow_bytes
flow_entry_bytes w v4 layer_id callout_id v none = none
flow_entry_bytes w v4 layer_id callout_id v (some path) =
    let bytes = flow_bytes (flow_info w v4 layer_id callout_id v path) in
    if ltb sizeof_process_path (length path)
    then if ltb 1062 (length path) then none else some (with_path path bytes)
    else some bytes

-- The push, whose status is not looked at, the answer, and the entry given back.
unfoldable pub finish_flow_classify :
    Wdk → Bool → Classify → Option (Status × Driver) → Option Classify
finish_flow_classify w clear_right c none = none
finish_flow_classify w clear_right c (some (status, d)) =
    some (record { out = permit_out w clear_right c.out; driver = d; live = c.live - 1 })

unfoldable pub push_flow_entry : Wdk → Bool → Alloc → Classify → Option (List ℕ) → Option Classify
unfolding finish_flow_classify
push_flow_entry w clear_right a c none = none
push_flow_entry w clear_right a c (some bytes) =
    finish_flow_classify w clear_right c
      (pushflowestablishedctx (some bytes) (pos sizeof_flow_info) a c.driver)

-- `allocated`: the lookaside list has an entry.
unfoldable pub class_fn_flow_established :
    Wdk → FlowValues → Bool → Bool → Alloc → Classify → Option Classify
unfolding push_flow_entry flow_entry_bytes
class_fn_flow_established w v clear_right allocated a c =
    if c.driver.monitor_flag == 0
    then some (record c { out = permit_out w clear_right c.out })
    else if allocated
    then push_flow_entry w clear_right a (record c { live = c.live + 1 })
        (flow_entry_bytes w (is_flow_v4 v.layer) w.layer_outbound_mac_frame_ethernet
          w.callout_id_outbound_mac_etherent v v.process_path)
    else some (record c { out = block_out w c.out })
