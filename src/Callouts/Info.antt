-- ===== src/Callouts/Info.antt =====
-- wfpdriver/callouts.c: the records that the callbacks send, as the compiler lays them out on x64, and
-- what the callbacks read and answer.
use wfpdriver.Shared.{
  ℕ, suc, zero, ◌/◌, ◌%◌, ◌^◌, Bool, true, false, Option, List, [], ◌∷◌, ◌++◌, le32, ◌==◌,
  if◌then◌else◌,
}
use wfpdriver.State.{Driver}

-- What the WDK headers fix: RtlUlongByteSwap, the bit FWPS_RIGHT_ACTION_WRITE, the bit
-- FWPS_CLASSIFY_OUT_FLAG_ABSORB, layer numbers, and the low words of two globals' addresses.
pub record Wdk : Type 0 where
  pub ulong_byte_swap : ℕ → ℕ
  pub right_action_write : ℕ
  pub flag_absorb : ℕ
  pub layer_outbound_mac_frame_ethernet : ℕ
  pub layer_ale_connect_redirect_v4 : ℕ
  pub callout_id_outbound_mac_etherent : ℕ
  pub callout_guid_ale_connectredirect_v4 : ℕ

-- inFixedValues->layerId
pub data Layer : Type 0 where
  flow_established_v4 flow_established_v6 : Layer
  inbound_mac_frame_ethernet outbound_mac_frame_ethernet : Layer
  connect_redirect_v4 connect_redirect_v6 : Layer
  other_layer : ℕ → Layer

-- A union of a 16-byte address with a 4-byte one, in a zeroed structure.
pub data Address : Type 0 where
  ipv4 : ℕ → Address
  ipv6 : List ℕ → Address

pub record FlowInfo : Type 0 where
  pub address_family : ℕ
  pub local_addr : Address
  pub to_local_port : ℕ
  pub protocol : ℕ
  pub flow_id : ℕ
  pub layer_id : ℕ
  pub callout_id : ℕ
  pub remote_addr : Address
  pub to_remote_port : ℕ
  pub process_path : List ℕ
  pub process_path_size : ℕ
  pub process_id : ℕ
  pub ref_count : ℕ

pub record MacInfo : Type 0 where
  pub code : ℕ
  pub address_family : ℕ
  pub local_addr : Address
  pub to_local_port : ℕ
  pub protocol : ℕ
  pub remote_addr : Address
  pub to_remote_port : ℕ
  pub destination_address : List ℕ
  pub source_address : List ℕ
  pub ether_type : ℕ

abbrev pub sizeof_flow_info : ℕ
sizeof_flow_info = 1120

abbrev pub sizeof_mac_info : ℕ
sizeof_mac_info = 60

-- sizeof(processPath): MAX_PATH * 2 WCHARs.
abbrev pub sizeof_process_path : ℕ
sizeof_process_path = 1040

abbrev pub zeros : ℕ → List ℕ
zeros zero = []
zeros (suc n) = 0 ∷ zeros n

-- A field of `n` bytes: what is copied there, over zeroes.
unfoldable pub field_of : ℕ → List ℕ → List ℕ
field_of zero bs = []
field_of (suc n) [] = 0 ∷ field_of n []
field_of (suc n) (b ∷ bs) = b ∷ field_of n bs

abbrev pub le16 : ℕ → List ℕ
le16 x = x % 256 ∷ x / 256 % 256 ∷ []

abbrev pub le64 : ℕ → List ℕ
le64 x = le32 x ++ le32 (x / 2 ^ 32)

abbrev pub address_bytes : Address → List ℕ
address_bytes (ipv4 a) = le32 a
address_bytes (ipv6 bs) = bs

abbrev pub concat : List (List ℕ) → List ℕ
concat [] = []
concat (f ∷ fs) = f ++ concat fs

-- NF_CALLOUT_FLOWESTABLISHED_INFO: offsets 0, 4, 20, 22, 24, 32, 36, 40, 56, 58, 1100, 1104, 1112.
unfoldable pub flow_bytes : FlowInfo → List ℕ
unfolding field_of
flow_bytes f = concat (
    le16 f.address_family
    ∷ zeros 2
    ∷ field_of 16 (address_bytes f.local_addr)
    ∷ le16 f.to_local_port
    ∷ (f.protocol % 256 ∷ zeros 1)
    ∷ le64 f.flow_id
    ∷ le16 f.layer_id
    ∷ zeros 2
    ∷ le32 f.callout_id
    ∷ field_of 16 (address_bytes f.remote_addr)
    ∷ le16 f.to_remote_port
    ∷ field_of 1040 f.process_path
    ∷ zeros 2
    ∷ le32 f.process_path_size
    ∷ le64 f.process_id
    ∷ le32 f.ref_count
    ∷ zeros 4
    ∷ [])

-- NF_CALLOUT_MAC_INFO: offsets 0, 4, 8, 24, 26, 28, 44, 46, 52, 58.
unfoldable pub mac_bytes : MacInfo → List ℕ
unfolding field_of
mac_bytes m = concat (
    le32 m.code
    ∷ le16 m.address_family
    ∷ zeros 2
    ∷ field_of 16 (address_bytes m.local_addr)
    ∷ le16 m.to_local_port
    ∷ (m.protocol % 256 ∷ zeros 1)
    ∷ field_of 16 (address_bytes m.remote_addr)
    ∷ le16 m.to_remote_port
    ∷ field_of 6 m.destination_address
    ∷ field_of 6 m.source_address
    ∷ le16 m.ether_type
    ∷ [])

-- FWPS_CLASSIFY_OUT0; bits by their numbers.
pub data Action : Type 0 where
  permit block : Action
  unset : ℕ → Action

abbrev pub Bits : Type 0
Bits = ℕ → Bool

pub record ClassifyOut : Type 0 where
  pub action_type : Action
  pub rights : Bits
  pub flags : Bits

abbrev pub clear_bit : ℕ → Bits → Bits
clear_bit b bits i = if i == b then false else bits i

abbrev pub set_bit : ℕ → Bits → Bits
set_bit b bits i = if i == b then true else bits i

-- The answer, the driver, and how many entries the callbacks hold of their lookaside lists.
pub record Classify : Type 0 where
  pub out : ClassifyOut
  pub driver : Driver
  pub live : ℕ

-- FWP_ACTION_PERMIT; a filter with FWPS_FILTER_FLAG_CLEAR_ACTION_RIGHT has a bit cleared in `flags`.
abbrev pub permit_out : Wdk → Bool → ClassifyOut → ClassifyOut
permit_out w clear_right o = record o {
  action_type = permit;
  flags = if clear_right then clear_bit w.right_action_write o.flags else o.flags;
}

abbrev pub block_out : Wdk → ClassifyOut → ClassifyOut
block_out w o = record o { action_type = block; rights = clear_bit w.right_action_write o.rights }

-- What the engine hands to the flow callbacks. The metadata may lack the process path.
pub record FlowValues : Type 0 where
  pub layer : Layer
  pub local_address : ℕ
  pub remote_address : ℕ
  pub local_address16 : List ℕ
  pub remote_address16 : List ℕ
  pub protocol : ℕ
  pub local_port : ℕ
  pub remote_port : ℕ
  pub flow_handle : ℕ
  pub process_id : ℕ
  pub process_path : Option (List ℕ)
