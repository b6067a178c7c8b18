-- ===== src/Tools/Handler.antt =====
-- wfptools/main.cpp: EventHandler, the map of flows, and nf_getprocessinfo. `none` is an access
-- violation or a write outside of a local variable.
use wfpdriver.Shared.{
  drop, ℕ, ◌+◌, ◌*◌, ◌%◌, ◌^◌, Bool, not, ◌&&◌, Option, none, some, List, [], ◌∷◌, ltb, ◌==◌,
  if◌then◌else◌, Memory, read_bytes, length, take, ◌>>=◌,
}
use wfpdriver.Callouts.Info.{field_of, sizeof_flow_info, sizeof_mac_info}
use wfpdriver.Tools.WorkThread.{Call, established_packet, datalink_packet}
use wfpdriver.Tools.Paths.{Wide, SameLetter, Drive, device_dos_path_to_nt_path}

-- The bytes of a field, and the number that they are.
abbrev pub field : ℕ → ℕ → List ℕ → List ℕ
field off n bs = take n (drop off bs)

unfoldable pub le_value : List ℕ → ℕ
le_value [] = 0
le_value (b ∷ bs) = b + 256 * le_value bs

-- A string of 16-bit characters up to its end.
unfoldable pub wide_at : List ℕ → Wide
wide_at [] = []
wide_at (b ∷ []) = []
wide_at (b ∷ c ∷ bs) =
    let rest = wide_at bs in if b + 256 * c == 0 then [] else (b + 256 * c) ∷ rest

-- Members of NF_CALLOUT_FLOWESTABLISHED_INFO. The path is read as a string that starts there.
abbrev pub to_local_port_of : List ℕ → ℕ
to_local_port_of bs = le_value (field 20 2 bs)

abbrev pub protocol_of : List ℕ → ℕ
protocol_of bs = le_value (field 22 1 bs)

abbrev pub process_id_of : List ℕ → ℕ
process_id_of bs = le_value (field 1104 8 bs)

abbrev pub process_path_of : List ℕ → Wide
process_path_of bs = wide_at (drop 58 bs)

-- flowestablished_map, with the bytes of the structure.
abbrev pub FlowMap : Type 0
FlowMap = List (ℕ × List ℕ)

unfoldable pub find : ℕ → FlowMap → Option (List ℕ)
find k [] = none
find k ((j, v) ∷ m) = let rest = find k m in if k == j then some v else rest

-- map::operator[] and an assignment.
unfoldable pub assign : ℕ → List ℕ → FlowMap → FlowMap
assign k v [] = (k, v) ∷ []
assign k v ((j, w) ∷ m) = let rest = assign k v m in if k == j then (k, v) ∷ m else (j, w) ∷ rest

-- IPPROTO_TCP and IPPROTO_UDP.
abbrev pub ipproto_tcp : ℕ
ipproto_tcp = 6

abbrev pub ipproto_udp : ℕ
ipproto_udp = 17

-- The key of a port, in 32 bits.
unfoldable pub key_of : ℕ → ℕ → ℕ
key_of port protocol =
    if protocol == ipproto_tcp
    then (port + 1000000) % 2 ^ 32
    else if protocol == ipproto_udp
    then (port + 2000000) % 2 ^ 32
    else port

-- EventHandler::establishedPacket, up to what it prints.
unfoldable pub handle_established : Memory → ℕ → ℕ → FlowMap → Option FlowMap
unfolding field_of assign key_of
handle_established m buf len flows =
    if ltb sizeof_flow_info len
    then none
    else (let info = field_of sizeof_flow_info (read_bytes m buf len) in
        some (assign (key_of (to_local_port_of info) (protocol_of info)) info flows))

-- EventHandler::datalinkPacket only prints.
unfoldable pub handle_datalink : ℕ → FlowMap → Option FlowMap
handle_datalink len flows = if ltb sizeof_mac_info len then none else some flows

unfoldable pub handle_call : Memory → Call → FlowMap → Option FlowMap
unfolding handle_established handle_datalink
handle_call m (established_packet buf len) flows = handle_established m buf len flows
handle_call m (datalink_packet buf len) flows = handle_datalink len flows

unfoldable pub handle_calls : Memory → List Call → FlowMap → Option FlowMap
unfolding handle_call
handle_calls m [] flows = some flows
handle_calls m (c ∷ cs) flows = do flows' ← handle_call m c flows; handle_calls m cs flows'

-- What nf_getprocessinfo returns: -1, -3, or 1 with what it stored.
pub data ProcessInfo : Type 0 where
  refused not_found : ProcessInfo
  found : ℕ → Wide → ProcessInfo

-- The path goes through an array of MAX_PATH characters on the stack.
unfoldable pub answer_found : SameLetter → Option (List Drive) → List ℕ → Option ProcessInfo
answer_found same drives info =
    let path = (device_dos_path_to_nt_path same drives (process_path_of info)).1 in
    if ltb 259 (length path) then none else some (found (process_id_of info) path)

-- nf_getprocessinfo: `address` and `buffer` are whether the pointers are not NULL.
unfoldable pub get_process_info :
    SameLetter → Option (List Drive) → Bool → ℕ → ℕ → Bool → FlowMap → Option ProcessInfo
unfolding find key_of
get_process_info same drives address port protocol buffer flows =
    if not address && (port == 0) && not buffer && (protocol == 0)
    then some refused
    else elim (find (key_of port protocol) flows) [
      | none ↦ some not_found
      | some info ↦ if buffer then answer_found same drives info else none
    ]
