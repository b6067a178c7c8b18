-- ===== src/Lifecycle/Engine.antt =====
-- The calls that wfpdriver/callouts.c makes of the filter engine, and the globals that go with them.
-- What the engine answers is a parameter: any function of the calls made so far and the next one.
use wfpdriver.Shared.{ℕ, ◌+◌, Bool, false, Option, none, some, List, [], ◌∷◌, if◌then◌else◌}
use wfpdriver.Nt.{Status, nt_success}

-- The g_calloutGuid_ globals by which callouts are unregistered.
pub data CalloutKey : Type 0 where
  flow_v4 flow_v6 inbound_mac outbound_mac redirect_v4 redirect_v6 : CalloutKey

-- What the callouts are registered with: g_deviceControl, or the address of that variable.
pub data DevicePointer : Type 0 where
  device_control address_of_variable : DevicePointer

-- FWPM_FILTER_CONDITION: FWPM_CONDITION_IP_PROTOCOL or FWPM_CONDITION_ETHER_TYPE, equal to a number.
pub data Condition : Type 0 where
  ip_protocol ether_type : ℕ → Condition

pub data Call : Type 0 where
  engine_open engine_close : Call
  transaction_begin transaction_commit transaction_abort : Call
  provider_add sublayer_add sublayer_delete provider_context_delete : Call
  callout_register : DevicePointer → CalloutKey → Call
  callout_unregister callout_add : CalloutKey → Call
  filter_add : CalloutKey → List Condition → Call

-- The calls with their answers, the last one first.
abbrev pub Log : Type 0
Log = List (Call × Status)

abbrev pub Oracle : Type 0
Oracle = Log → Call → Status

-- An NPAGED_LOOKASIDE_LIST: not initialized, in use, or deleted.
pub data Lookaside : Type 0 where
  absent ready deleted : Lookaside

-- ExDeleteNPagedLookasideList wants a list that is in use.
unfoldable pub delete_list : Lookaside → Option Lookaside
delete_list absent = none
delete_list ready = some deleted
delete_list deleted = none

-- `engine` is whether g_engineHandle is set.
pub record Callouts : Type 0 where
  pub engine : Bool
  pub flow_list : Lookaside
  pub datalink_list : Lookaside
  pub log : Log

abbrev pub unregistered : Callouts
unregistered = record { engine = false; flow_list = absent; datalink_list = absent; log = [] }

unfoldable pub call : Oracle → Call → Callouts → Status × Callouts
call o c s = (o s.log c, record s { log = (c, o s.log c) ∷ s.log })

-- FwpmEngineClose, and the handle reset.
unfoldable pub close_engine : Oracle → Callouts → Callouts
unfolding call
close_engine o s = record ((call o engine_close s).1) { engine = false }

-- Transactions begun and not yet committed or aborted are the difference of these two.
abbrev pub began : Log → ℕ
began [] = 0
began ((transaction_begin, st) ∷ l) = (if nt_success st then 1 else 0) + began l
began (_ ∷ l) = began l

abbrev pub ended : Log → ℕ
ended [] = 0
ended ((transaction_commit, st) ∷ l) = (if nt_success st then 1 else 0) + ended l
ended ((transaction_abort, st) ∷ l) = 1 + ended l
ended (_ ∷ l) = ended l

-- Handles opened, and handles closed.
abbrev pub opened : Log → ℕ
opened [] = 0
opened ((engine_open, st) ∷ l) = (if nt_success st then 1 else 0) + opened l
opened (_ ∷ l) = opened l

abbrev pub closed : Log → ℕ
closed [] = 0
closed ((engine_close, st) ∷ l) = 1 + closed l
closed (_ ∷ l) = closed l
