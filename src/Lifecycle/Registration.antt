-- ===== src/Lifecycle/Registration.antt =====
-- wfpdriver/callouts.c: registering the callouts and adding the filters. `none` is the deletion of a
-- lookaside list that is not in use.
use wfpdriver.Shared.{Bool, true, false, Option, none, some, [], ◌∷◌, if◌then◌else◌}
use wfpdriver.Nt.{Status, success, unsuccessful, nt_success, as_boolean}
use wfpdriver.Lifecycle.Engine.{
  DevicePointer, CalloutKey, flow_v4, flow_v6, inbound_mac, outbound_mac, redirect_v4, redirect_v6,
  ip_protocol, ether_type, engine_open, transaction_begin, transaction_commit, transaction_abort,
  provider_add, sublayer_add, sublayer_delete, provider_context_delete, callout_register,
  callout_unregister, callout_add, filter_add, Oracle, ready, delete_list, Callouts, call,
  close_engine,
}

abbrev pub Result : Type 0
Result = Status × Callouts

-- `if (!NT_SUCCESS(status)) break;` before the next call.
unfoldable pub then_call : (Callouts → Result) → Result → Result
then_call next (status, s) = if nt_success status then next s else (status, s)

-- helper_callout_registerCallout
unfoldable pub register_callout : Oracle → DevicePointer → CalloutKey → Callouts → Result
unfolding call
register_callout o p key s = call o (callout_register p key) s

-- IPPROTO_TCP is 6, IPPROTO_UDP 17.
unfoldable pub add_flow_established_filter : Oracle → CalloutKey → Callouts → Result
unfolding call then_call
add_flow_established_filter o key s =
    then_call (call o (filter_add key (ip_protocol 6 ∷ ip_protocol 17 ∷ [])))
      (call o (callout_add key) s)

-- NDIS_ETH_TYPE_IPV4 is 0x0800, NDIS_ETH_TYPE_IPV6 0x86dd. Nothing calls it: its calls are commented
-- out.
unfoldable pub add_data_link_mac_filter : Oracle → CalloutKey → Callouts → Result
unfolding call then_call
add_data_link_mac_filter o key s =
    then_call (call o (filter_add key (ether_type 0x0800 ∷ ether_type 0x86dd ∷ [])))
      (call o (callout_add key) s)

-- The do block of callouts_addFilters.
unfoldable pub add_filters_body : Oracle → Callouts → Result
unfolding call then_call add_flow_established_filter
add_filters_body o s = then_call (call o transaction_commit) (
    then_call (add_flow_established_filter o flow_v6)
      (then_call (add_flow_established_filter o flow_v4) (call o sublayer_add s)))

unfoldable pub abort_failed : Oracle → Result → Result
unfolding call
abort_failed o (status, s) =
    if nt_success status then (status, s) else (status, (call o transaction_abort s).1)

-- callouts_addFilters
unfoldable pub add_filters : Oracle → Callouts → Result
unfolding call add_filters_body abort_failed
add_filters o s =
    let r = call o transaction_begin s in
    if nt_success r.0 then abort_failed o (add_filters_body o r.1) else r

-- The do block of callouts_registerCallouts: each status overwrites the one before.
unfoldable pub register_body : Oracle → DevicePointer → Callouts → Result
unfolding call register_callout
register_body o p s =
    call o transaction_commit (register_callout o p flow_v6 (register_callout o p flow_v4 s).1).1

unfoldable pub close_failed : Oracle → Result → Result
unfolding call close_engine
close_failed o (status, s) =
    if nt_success status
    then (status, s)
    else (status, close_engine o (call o transaction_abort s).1)

-- callouts_registerCallouts
unfoldable pub register_callouts : Oracle → DevicePointer → Callouts → Result
unfolding call close_engine register_body close_failed
register_callouts o p s =
    let r = call o transaction_begin s in
    if nt_success r.0 then close_failed o (register_body o p r.1) else (r.0, close_engine o r.1)

-- The two lookaside lists go, whatever callbacks hold of them.
unfoldable pub delete_lists : Callouts → Option Callouts
unfolding delete_list
delete_lists s = elim (delete_list s.flow_list) [
  | none ↦ none
  | some f ↦ elim (delete_list s.datalink_list) [
    | none ↦ none
    | some m ↦ some (record s { flow_list = f; datalink_list = m })
  ]
]

-- Their answers are not looked at.
unfoldable pub unregister_all : Oracle → Callouts → Callouts
unfolding call
unregister_all o s =
    let s1 = (call o (callout_unregister flow_v4) s).1 in
    let s2 = (call o (callout_unregister flow_v6) s1).1 in
    let s3 = (call o (callout_unregister inbound_mac) s2).1 in
    let s4 = (call o (callout_unregister outbound_mac) s3).1 in
    let s5 = (call o (callout_unregister redirect_v4) s4).1 in
    let s6 = (call o (callout_unregister redirect_v6) s5).1 in
    (call o provider_context_delete (call o sublayer_delete s6).1).1

unfoldable pub close_if_open : Oracle → Callouts → Callouts
unfolding close_engine
close_if_open o s = if s.engine then close_engine o s else s

-- callout_free
unfoldable pub callout_free : Oracle → Callouts → Option Callouts
unfolding delete_lists unregister_all close_if_open
callout_free o s = elim (delete_lists s) [
  | none ↦ none
  | some s' ↦ some (close_if_open o (unregister_all o s'))
]

-- dwStatus != 0
abbrev pub is_zero : Status → Bool
is_zero success = true
is_zero _ = false

-- The do block of callout_init.
unfoldable pub callout_init_body : Oracle → DevicePointer → Callouts → Result
unfolding call then_call register_callouts add_filters
callout_init_body o p s =
    let r = call o provider_add s in
    if is_zero r.0
    then then_call (add_filters o) (register_callouts o p r.1)
    else (unsuccessful, r.1)

unfoldable pub free_failed : Oracle → Result → Option Result
unfolding callout_free
free_failed o (status, s) =
    if nt_success status
    then some (as_boolean status, s)
    else elim (callout_free o s) [ none ↦ none | some s' ↦ some (as_boolean status, s') ]

-- FwpmEngineOpen stores the handle if it succeeds.
unfoldable pub open_engine : Oracle → Callouts → Result
unfolding call
open_engine o s =
    let r = call o engine_open s in
    if nt_success r.0 then (r.0, record (r.1) { engine = true }) else r

-- callout_init with what it is passed for the device; it returns its NTSTATUS as a BOOLEAN.
unfoldable pub callout_init : Oracle → DevicePointer → Callouts → Option Result
unfolding open_engine callout_init_body free_failed as_boolean
callout_init o p s =
    let r = open_engine o (record s { flow_list = ready; datalink_list = ready }) in
    if nt_success r.0 then free_failed o (callout_init_body o p r.1) else some (as_boolean r.0, r.1)
