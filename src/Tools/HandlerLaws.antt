-- ===== src/Tools/HandlerLaws.antt =====
-- What nf_getprocessinfo of wfptools/main.cpp finds of the flows that EventHandler was handed.
use wfpdriver.Shared.{
  ℕ, ◌+◌, ◌*◌, ◌^◌, ◌<◌, ◌≤◌, ◌≡◌, ◌≢◌, refl, ap, ◌∙◌, Bool, true, ◌⊎◌, inl, inr, Option, some,
  ◌>>=◌, List, [], ◌∷◌, ◌++◌, length, All, le→not-ltb, Memory, read_bytes, arith,
}
use wfpdriver.Callouts.Info.{FlowInfo, flow_bytes, sizeof_flow_info}
use wfpdriver.Callouts.Layout.{length-flow_bytes}
use wfpdriver.Tools.Paths.{Wide, SameLetter, Drive, device_dos_path_to_nt_path}
use wfpdriver.Tools.Handler.{
  FlowMap, find, assign, key_of, handle_established, found, answer_found, get_process_info,
}
use wfpdriver.Tools.FieldLaws.{
  field_of_whole, to_local_port_of-flow_bytes, protocol_of-flow_bytes, process_id_of-flow_bytes,
  process_path_of-flow_bytes, wide_bytes, IsCharacter, Ends,
}

pub find-assign : (k : ℕ) (v : List ℕ) (m : FlowMap) → find k (assign k v m) ≡ some v
unfolding find assign
find-assign k v [] = ground arith
find-assign k v ((j, w) ∷ m) = ground (arith, find-assign k v m)

pub find-assign_other :
    (j k : ℕ) (v : List ℕ) (m : FlowMap) → j ≢ k → find j (assign k v m) ≡ find j m
unfolding find assign
find-assign_other j k v [] h = ground arith
find-assign_other j k v ((i, w) ∷ m) h = ground (arith, find-assign_other j k v m h)

-- The record of a flow of the process whose image path is `path`.
pub record IsFlow (f : FlowInfo) (path : Wide) : Type 0 where
  pub port : f.to_local_port < 65536
  pub protocol : f.protocol < 256
  pub process : f.process_id < 2 ^ 64
  pub tail : List ℕ
  pub bytes : f.process_path ≡ wide_bytes path ++ tail
  pub ends : Ends tail
  pub characters : All IsCharacter path
  pub fits : 2 * length path ≤ 1040

pub handle_established_lem :
    (m : Memory) (buf : ℕ) (f : FlowInfo) (flows : FlowMap)
    → f.to_local_port < 65536
    → f.protocol < 256
    → read_bytes m buf sizeof_flow_info ≡ flow_bytes f
    → handle_established m buf sizeof_flow_info flows
      ≡ some (assign (key_of f.to_local_port f.protocol) (flow_bytes f) flows)
unfolding handle_established
handle_established_lem m buf f flows p q e = rw e (
    rw (field_of_whole 1120 (flow_bytes f) (length-flow_bytes f))
      (rw (to_local_port_of-flow_bytes f p) (rw (protocol_of-flow_bytes f q) refl)))

answer_found_lem :
    (same : SameLetter) (drives : Option (List Drive)) (f : FlowInfo) (path : Wide)
    → IsFlow f path
    → length (device_dos_path_to_nt_path same drives path).1 ≤ 259
    → answer_found same drives (flow_bytes f)
      ≡ some (found f.process_id (device_dos_path_to_nt_path same drives path).1)
unfolding answer_found
answer_found_lem same drives f path v h =
    rw (process_path_of-flow_bytes f path v.tail v.bytes v.characters v.ends v.fits) (
      rw (process_id_of-flow_bytes f v.process)
        (rw (le→not-ltb 259 (length (device_dos_path_to_nt_path same drives path).1) h) refl))

pub get_found :
    (same : SameLetter) (drives : Option (List Drive)) (f : FlowInfo) (path : Wide)
    (flows : FlowMap)
    → IsFlow f path
    → length (device_dos_path_to_nt_path same drives path).1 ≤ 259
    → get_process_info same drives true f.to_local_port f.protocol true
        (assign (key_of f.to_local_port f.protocol) (flow_bytes f) flows)
      ≡ some (found f.process_id (device_dos_path_to_nt_path same drives path).1)
unfolding get_process_info
get_found same drives f path flows v h =
    rw (find-assign (key_of f.to_local_port f.protocol) (flow_bytes f) flows)
      (answer_found_lem same drives f path v h)

-- Once the handler was handed the record of a flow of a process, nf_getprocessinfo at the flow's local
-- port and protocol finds the process: its id, and its path in drive letters, if that has less than 260
-- characters. The process's path is at most 520 characters long, none of them 0.
pub handled-get_process_info :
    (same : SameLetter) (drives : Option (List Drive)) (m : Memory) (buf : ℕ) (f : FlowInfo)
    (path : Wide) (flows : FlowMap)
    → IsFlow f path
    → read_bytes m buf sizeof_flow_info ≡ flow_bytes f
    → length (device_dos_path_to_nt_path same drives path).1 ≤ 259
    → (handle_established m buf sizeof_flow_info flows
        >>= get_process_info same drives true f.to_local_port f.protocol true)
      ≡ some (found f.process_id (device_dos_path_to_nt_path same drives path).1)
handled-get_process_info same drives m buf f path flows v e h =
    rw (handle_established_lem m buf f flows v.port v.protocol e)
      (get_found same drives f path flows v h)

-- IPPROTO_TCP or IPPROTO_UDP.
abbrev pub IsTransport : ℕ → Type 0
IsTransport p = (p ≡ 6) ⊎ (p ≡ 17)

key_of_lem :
    (p i : ℕ)
    → p < 65536
    → IsTransport i
    → ((i ≡ 6) × (key_of p i ≡ p + 1000000)) ⊎ ((i ≡ 17) × (key_of p i ≡ p + 2000000))
unfolding key_of
key_of_lem p i h (inl e) = inl (e, ap (key_of p) e ∙ tcp p h)
  where
    tcp : (q : ℕ) → q < 65536 → key_of q 6 ≡ q + 1000000
    tcp q k = omega arith
key_of_lem p i h (inr e) = inr (e, ap (key_of p) e ∙ udp p h)
  where
    udp : (q : ℕ) → q < 65536 → key_of q 17 ≡ q + 2000000
    udp q k = omega arith

-- A port with a protocol has a key of its own.
key_apart :
    (p q i j : ℕ)
    → p < 65536
    → q < 65536
    → IsTransport i
    → IsTransport j
    → (p ≢ q) ⊎ (i ≢ j)
    → key_of q j ≢ key_of p i
key_apart p q i j hp hq hi hj h e = omega (arith, key_of_lem p i hp hi, key_of_lem q j hq hj, h, e)

-- The record of a TCP or UDP flow does not change what is found for any other TCP or UDP port.
pub handled_others :
    (same : SameLetter) (drives : Option (List Drive)) (m : Memory) (buf : ℕ) (f : FlowInfo)
    (flows : FlowMap) (address buffer : Bool) (port protocol : ℕ)
    → f.to_local_port < 65536
    → IsTransport f.protocol
    → read_bytes m buf sizeof_flow_info ≡ flow_bytes f
    → port < 65536
    → IsTransport protocol
    → (f.to_local_port ≢ port) ⊎ (f.protocol ≢ protocol)
    → (handle_established m buf sizeof_flow_info flows
        >>= get_process_info same drives address port protocol buffer)
      ≡ get_process_info same drives address port protocol buffer flows
unfolding get_process_info
handled_others same drives m buf f flows address buffer port protocol p t e q u h =
    rw (handle_established_lem m buf f flows p (omega (arith, t)) e) (
      rw
        (find-assign_other (key_of port protocol) (key_of f.to_local_port f.protocol) (flow_bytes f)
          flows (key_apart f.to_local_port port f.protocol protocol p q t u h))
        refl)
