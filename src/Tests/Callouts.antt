-- ===== src/Tests/Callouts.antt =====
-- The theorems on wfpdriver/callouts.c at a concrete flow and frame.
use wfpdriver.Shared.{
  ℕ, ◌+◌, ◌-◌, ◌≤◌, ◌≡◌, refl, true, false, Option, none, some, [], ◌∷◌, Memory, leb, ◌==◌,
  if◌then◌else◌, arith,
}
use wfpdriver.Callouts.Info.{
  Wdk, FlowValues, Classify, unset, flow_established_v4, connect_redirect_v4,
  outbound_mac_frame_ethernet,
}
use wfpdriver.Callouts.Flow.{class_fn_flow_established}
use wfpdriver.Callouts.Redirect.{class_fn_connectredirect}
use wfpdriver.Callouts.Mac.{Ndis, MacValues, class_fn_mac}
use wfpdriver.Callouts.ClassifyLaws
use wfpdriver.Callouts.MacLaws
use wfpdriver.Tests.Data.{busy, plenty}

abbrev wdk : Wdk
wdk = record {
  ulong_byte_swap = λ a. a;
  right_action_write = 0;
  flag_absorb = 1;
  layer_outbound_mac_frame_ethernet = 80;
  layer_ale_connect_redirect_v4 = 60;
  callout_id_outbound_mac_etherent = 4096;
  callout_guid_ale_connectredirect_v4 = 8192;
}

abbrev asked : Classify
asked = record {
  out = record { action_type = unset 0; rights = λ _. true; flags = λ _. false };
  driver = busy;
  live = 0;
}

abbrev flow_values : FlowValues
flow_values = record {
  layer = flow_established_v4;
  local_address = 16777343;
  remote_address = 16777343;
  local_address16 = [];
  remote_address16 = [];
  protocol = 6;
  local_port = 80;
  remote_port = 5000;
  flow_handle = 11;
  process_id = 4;
  process_path = some (65 ∷ 0 ∷ 0 ∷ 0 ∷ []);
}

class_fn_flow_established-Answers_example :
    ClassifyLaws.Answers wdk flow_values asked
      (class_fn_flow_established wdk flow_values true true plenty asked)
class_fn_flow_established-Answers_example =
    ClassifyLaws.class_fn_flow_established-Answers wdk flow_values true true plenty asked

class_fn_connectredirect-Answers_example :
    ClassifyLaws.Answers wdk
      (record flow_values { layer = connect_redirect_v4 })
      asked
      (class_fn_connectredirect wdk
        (record flow_values { layer = connect_redirect_v4 })
        true
        true
        false
        true
        true
        true
        plenty
        asked)
class_fn_connectredirect-Answers_example =
    ClassifyLaws.class_fn_connectredirect-Answers wdk
      (record flow_values { layer = connect_redirect_v4 }) true true false true true true plenty
      asked (omega arith) refl refl

-- One piece of memory, of which `left` bytes from `start` on are the data.
record OnePiece : Type 0 where
  bytes : Memory
  start : ℕ
  left : ℕ

advance_piece : ℕ → OnePiece → Option OnePiece
advance_piece n b =
    if leb n b.left then some (record b { start = b.start + n; left = b.left - n }) else none

abbrev retreat_piece : ℕ → OnePiece → OnePiece
retreat_piece n b = record b { start = b.start - n; left = b.left + n }

advance_piece_within :
    (n : ℕ) (b : OnePiece)
    → n ≤ b.left
    → (b' : OnePiece) × (advance_piece n b ≡ some b') × (b'.left ≡ b.left - n)
unfolding advance_piece
advance_piece_within n b h =
    (record b { start = b.start + n; left = b.left - n }, ground arith, refl)

retreat-advance_piece :
    (n : ℕ) (b b' : OnePiece) → advance_piece n b ≡ some b' → retreat_piece n b' ≡ b
unfolding advance_piece
retreat-advance_piece n b b' h = ground arith

abbrev one_piece_ndis : Ndis
one_piece_ndis = record {
  NetBuffer = OnePiece;
  memory = λ b. b.bytes;
  advance = advance_piece;
  retreat = retreat_piece;
  get_data_buffer = λ n b. if leb n b.left then some b.start else none;
  data_length = λ b. b.left;
  advance_within = advance_piece_within;
  retreat-advance = retreat-advance_piece;
}

-- A frame with an IPv4 header of twenty bytes behind its fourteen, for TCP.
abbrev net_buffer : OnePiece
net_buffer = record {
  bytes = λ a. if a == 4110 then 69 else if a == 4119 then 6 else 0;
  start = 4096;
  left = 74;
}

abbrev mac_values : MacValues
mac_values = record {
  layer = outbound_mac_frame_ethernet;
  mac_local_address = 1 ∷ 2 ∷ 3 ∷ 4 ∷ 5 ∷ 6 ∷ [];
  mac_remote_address = 6 ∷ 5 ∷ 4 ∷ 3 ∷ 2 ∷ 1 ∷ [];
  ether_type = 2048;
}

class_fn_mac-Answers_example :
    MacLaws.Answers one_piece_ndis wdk asked net_buffer
      (class_fn_mac one_piece_ndis wdk mac_values true true plenty asked net_buffer)
class_fn_mac-Answers_example =
    MacLaws.class_fn_mac-Answers one_piece_ndis wdk mac_values true true plenty asked net_buffer
