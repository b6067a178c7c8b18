-- ===== src/Callouts/Mac.antt =====
-- wfpdriver/callouts.c: helper_callout_classFn_mac, over the net buffers of NDIS. `none` is an access
-- violation, or an advance past the end of the data.
use wfpdriver.Shared.{
  ℕ, ◌+◌, ◌-◌, ◌*◌, ◌/◌, ◌%◌, ◌^◌, ◌≤◌, ◌≡◌, Bool, Option, none, some, List, Memory, ◌==◌,
  if◌then◌else◌, pos,
}
use wfpdriver.Nt.{Status, nf_datalink_packet}
use wfpdriver.State.{Driver}
use wfpdriver.Packets.Alloc.{Alloc}
use wfpdriver.Packets.Datalink.{pushdata}
use wfpdriver.Callouts.Info.{
  Wdk, Layer, inbound_mac_frame_ethernet, outbound_mac_frame_ethernet, ipv4, MacInfo, mac_bytes,
  sizeof_mac_info, Classify, ClassifyOut, permit_out, block_out, set_bit,
}

-- What the callback uses of NDIS, and what NDIS documents: an advance within the data succeeds and
-- shortens it, and a retreat by as much gives it back. `memory` is what can be read of the first net buffer, by address;
-- `advance` is `none` past the end of the data; `get_data_buffer` with no storage is NULL unless so
-- many bytes lie in one piece.
pub record Ndis : Type 1 where
  pub NetBuffer : Type 0
  pub memory : NetBuffer → Memory
  pub advance : ℕ → NetBuffer → Option NetBuffer
  pub retreat : ℕ → NetBuffer → NetBuffer
  pub get_data_buffer : ℕ → NetBuffer → Option ℕ
  pub data_length : NetBuffer → ℕ
  pub advance_within :
      (n : ℕ) (b : NetBuffer)
      → n ≤ data_length b
      → (b' : NetBuffer) × (advance n b ≡ some b') × (data_length b' ≡ data_length b - n)
  pub retreat-advance : (n : ℕ) (b b' : NetBuffer) → advance n b ≡ some b' → retreat n b' ≡ b

-- What the engine hands to the callback.
pub record MacValues : Type 0 where
  pub layer : Layer
  pub mac_local_address : List ℕ
  pub mac_remote_address : List ℕ
  pub ether_type : ℕ

abbrev pub word16 : Memory → ℕ → ℕ
word16 m a = m a + 256 * m (a + 1)

-- IsOutBound: 1 for the inbound layer, 2 for the outbound one, `none` for any other.
unfoldable pub direction : Layer → Option ℕ
direction inbound_mac_frame_ethernet = some 1
direction outbound_mac_frame_ethernet = some 2
direction _ = none

-- The record after RtlSecureZeroMemory and the copies of the two MAC addresses.
unfoldable pub mac_start : ℕ → MacValues → MacInfo
mac_start dir v = record {
  code = 0;
  address_family = dir;
  local_addr = ipv4 0;
  to_local_port = 0;
  protocol = 0;
  remote_addr = ipv4 0;
  to_remote_port = 0;
  destination_address = v.mac_remote_address;
  source_address = v.mac_local_address;
  ether_type = v.ether_type;
}

-- The ports, if the transport header is there: sizeof(TCP_HEADER) is 20, sizeof(UDP_HEADER) is 8.
unfoldable pub put_ports : Memory → Option ℕ → MacInfo → MacInfo
put_ports m none i = i
put_ports m (some at) i = record i {
  to_local_port = word16 m at;
  to_remote_port = word16 m (at + 2);
}

-- pSourceAddress and pDestinationAddress are arrays: what is swapped and stored is the address where
-- they lie, as a ULONG.
unfoldable pub put_ip : Wdk → Memory → ℕ → MacInfo → MacInfo
put_ip w m at i = record i {
  local_addr = ipv4 (w.ulong_byte_swap ((at + 12) % 2 ^ 32));
  remote_addr = ipv4 (w.ulong_byte_swap ((at + 16) % 2 ^ 32));
  protocol = m (at + 9);
}

-- The failure exit absorbs the packet as well.
abbrev pub absorb_out : Wdk → ClassifyOut → ClassifyOut
absorb_out w o = record (block_out w o) { flags = set_bit w.flag_absorb o.flags }

module _ (n : Ndis) where
  open n use {NetBuffer, memory, advance, retreat, get_data_buffer}

  unfoldable pub transport_at : ℕ → ℕ → MacInfo → Option NetBuffer → Option (MacInfo × NetBuffer)
  unfolding put_ports
  transport_at header_size len i none = none
  transport_at header_size len i (some b) =
      some (put_ports (memory b) (get_data_buffer header_size b) i, retreat len b)

  -- The switch on the protocol.
  unfoldable pub transport : ℕ → ℕ → MacInfo → NetBuffer → Option (MacInfo × NetBuffer)
  unfolding transport_at
  transport protocol len i b =
      if protocol == 6
      then transport_at 20 len i (advance len b)
      else if protocol == 17
      then transport_at 8 len i (advance len b)
      else some (i, b)

  -- The body of the do block behind the data pointer.
  unfoldable pub parse_ip : Wdk → Option ℕ → MacInfo → NetBuffer → Option (MacInfo × NetBuffer)
  unfolding put_ip transport
  parse_ip w none i b = some (i, b)
  parse_ip w (some at) i b =
      if memory b at / 16 == 4
      then transport (memory b (at + 9)) (memory b at % 16 * 4) (put_ip w (memory b) at i) b
      else some (i, b)

  -- sizeof(struct iphdr) is 20.
  unfoldable pub parse_advanced : Wdk → MacInfo → Option NetBuffer → Option (MacInfo × NetBuffer)
  unfolding parse_ip
  parse_advanced w i none = none
  parse_advanced w i (some b) = parse_ip w (get_data_buffer 20 b) i b

  unfoldable pub restore : ℕ → Option (MacInfo × NetBuffer) → Option (MacInfo × NetBuffer)
  restore len none = none
  restore len (some (i, b)) = some (i, retreat len b)

  -- An outbound frame is advanced over its 14-byte header, parsed, and put back.
  unfoldable pub parse_frame : Wdk → ℕ → MacInfo → NetBuffer → Option (MacInfo × NetBuffer)
  unfolding parse_advanced restore
  parse_frame w dir i b =
      if dir == 2
      then restore 14 (parse_advanced w i (advance 14 b))
      else parse_advanced w i (some b)

  unfoldable pub finish_mac_classify :
      Wdk → Bool → Classify → NetBuffer → Option (Status × Driver) → Option (Classify × NetBuffer)
  finish_mac_classify w clear_right c b none = none
  finish_mac_classify w clear_right c b (some (status, d)) =
      some (record { out = permit_out w clear_right c.out; driver = d; live = c.live - 1 }, b)

  unfoldable pub push_mac :
      Wdk → Bool → Alloc → Classify → Option (MacInfo × NetBuffer) → Option (Classify × NetBuffer)
  unfolding finish_mac_classify mac_bytes
  push_mac w clear_right a c none = none
  push_mac w clear_right a c (some (i, b)) = finish_mac_classify w clear_right c b (
      pushdata (some (mac_bytes (record i { code = nf_datalink_packet }))) (pos sizeof_mac_info) a
        c.driver)

  unfoldable pub classify_direction :
      Wdk
      → MacValues
      → Bool
      → Bool
      → Alloc
      → Option ℕ
      → Classify
      → NetBuffer
      → Option (Classify × NetBuffer)
  unfolding push_mac parse_frame mac_start
  classify_direction w v clear_right allocated a none c b =
      some (record c { out = permit_out w clear_right c.out }, b)
  classify_direction w v clear_right allocated a (some dir) c b =
      if allocated
      then push_mac w clear_right a (record c { live = c.live + 1 })
          (parse_frame w dir (mac_start dir v) b)
      else some (record c { out = absorb_out w c.out }, b)

  -- The three pointers are there: the engine's contract at these layers.
  unfoldable pub class_fn_mac :
      Wdk → MacValues → Bool → Bool → Alloc → Classify → NetBuffer → Option (Classify × NetBuffer)
  unfolding classify_direction direction
  class_fn_mac w v clear_right allocated a c b =
      if c.driver.monitor_flag == 0
      then some (record c { out = permit_out w clear_right c.out }, b)
      else classify_direction w v clear_right allocated a (direction v.layer) c b
