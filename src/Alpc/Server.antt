-- ===== src/Alpc/Server.antt =====
-- wfptools/HlprServerAlpc.cpp: the program's end of the port, and the map of flows that it fills. The
-- structures NF_CALLOUT_* are those of wfptools/devctrl.h. `none` is a fault.
use wfpdriver.Shared.{
  ℕ, ◌+◌, ◌*◌, ◌%◌, ◌^◌, Bool, true, ◌||◌, Option, none, some, ◌>>=◌, List, [], ◌∷◌, ◌++◌, ltb, leb,
  ◌==◌, if◌then◌else◌, take, Memory, read32, read_bytes,
}
use wfpdriver.Callouts.Info.{field_of, sizeof_flow_info, sizeof_mac_info}
use wfpdriver.Tools.Handler.{
  FlowMap, assign, to_local_port_of, protocol_of, ipproto_tcp, ipproto_udp,
}
use wfpdriver.Alpc.Message.{sizeof_port_message, sizeof_univermsg, message_header, create_msg_mem}
use wfpdriver.Alpc.Port.{
  Received, failed, message, received_in, univermsg, alpc_driver_connectserver,
  alpc_driver_connectserver_recv,
}

-- waitDriverConnectAlpcHandle == 100, flowestablished_list with its front first, and map_processinfo.
pub record Server : Type 0 where
  pub connected : Bool
  pub queue : List (List ℕ)
  pub flows : FlowMap

-- NF_FLOWCTX_PACKET, NF_DATALINK_PACKET
abbrev pub flowctx_packet : ℕ
flowctx_packet = 2

abbrev pub datalink_packet : ℕ
datalink_packet = 1

-- The NF_DATA behind the PORT_MESSAGE, packed: code, id, bufferSize, buffer.
abbrev pub message_code : Memory → ℕ
message_code m = read32 m 40

abbrev pub message_size : Memory → ℕ
message_size m = read32 m 48

-- memcpy of the buffer into a zeroed structure of this size. `none` is a copy past the end of either.
unfoldable pub copy_buffer : ℕ → ℕ → Memory → Option (List ℕ)
copy_buffer capacity room m =
    let n = message_size m in
    if ltb capacity n || ltb room (12 + n)
    then none
    else some (field_of capacity (read_bytes m 52 n))

unfoldable pub push_flow : Option (List ℕ) → Server → Option Server
push_flow none s = none
push_flow (some info) s = some (record s { queue = s.queue ++ info ∷ [] })

unfoldable pub ignore_frame : Option (List ℕ) → Server → Option Server
ignore_frame none s = none
ignore_frame (some info) s = some s

-- `Msg->buffer && Msg->bufferSize` around what is done with a copied structure.
unfoldable pub with_buffer :
    ℕ → (Option (List ℕ) → Server → Option Server) → ℕ → Memory → Server → Option Server
with_buffer capacity f room m s =
    if ltb room 12
    then none
    else if message_size m == 0
    then some s
    else f (copy_buffer capacity room m) s

-- DispatchMsgHandle, over a PORT_MESSAGE with `room` bytes behind it. Its test for NULL takes both
-- pointers to be NULL, which they are not.
unfoldable pub dispatch_msg_handle : ℕ → Memory → Server → Option Server
dispatch_msg_handle room m s =
    if ltb room 4
    then none
    else if message_code m == flowctx_packet
    then with_buffer sizeof_flow_info push_flow room m s
    else if message_code m == datalink_packet
    then with_buffer sizeof_mac_info ignore_frame room m s
    else some s

-- 0 >= DataLength, a CSHORT.
unfoldable pub is_empty_message : Memory → Bool
is_empty_message m = let n = m 0 + 256 * m 1 in n == 0 || leb 32768 n

-- pmReceive after a wait whose status nothing looks at.
unfoldable pub wait_message : Memory → Received → Option Memory
wait_message m failed = some m
wait_message m (message bytes) = received_in m bytes

-- The loop of AlpcPortStart over the waits: it ends with an empty message, and waits if there are no
-- more.
unfoldable pub port_loop : ℕ → Memory → List Received → Server → Option Server
port_loop room m [] s = some s
port_loop room m (r ∷ rs) s = do
  m' ← wait_message m r
  let rest = (do s' ← dispatch_msg_handle room m' s; port_loop room m' rs s')
  if is_empty_message m' then some s else rest

-- What Windows answers to AlpcPortStart.
pub record PortAnswers : Type 0 where
  pub create : Bool
  pub first : Received
  pub heap : Bool
  pub accept : Bool
  pub messages : List Received

-- NtAlpcAcceptConnectPort and what follows.
unfoldable pub accept_port : PortAnswers → ℕ → Memory → Server → Option Server
accept_port a room m s =
    let rest = port_loop room m a.messages (record s { connected = true }) in
    if a.accept then rest else some s

-- The answer to a connection: `lpMem` is set for the driver's only, and is used for any.
unfoldable pub answer_connection : PortAnswers → ℕ → Memory → Server → Option Server
answer_connection a room m s = do
  let header = message_header sizeof_univermsg (read32 m 24)
  mem ← create_msg_mem a.heap header sizeof_univermsg (univermsg alpc_driver_connectserver_recv)
  if read32 m sizeof_port_message == alpc_driver_connectserver then accept_port a room m s else none

unfoldable pub first_message : PortAnswers → ℕ → Memory → Received → Server → Option Server
first_message a room stale failed s = some s
first_message a room stale (message bytes) s = do
  m ← received_in stale bytes
  if ltb room 4 then none else answer_connection a room m s

-- AlpcPortStart
unfoldable pub alpc_port_start : PortAnswers → ℕ → Memory → Server → Option Server
alpc_port_start a room stale s = if a.create then first_message a room stale a.first s else some s

-- AlpcSendtoClientMsg: the message sent, if there is memory for it.
unfoldable pub alpc_send_to_client_msg : Bool → ℕ → List ℕ → Option (List ℕ)
alpc_send_to_client_msg heap id msg =
    if heap then some (message_header sizeof_univermsg id ++ take sizeof_univermsg msg) else none

-- The key of a flow in map_processinfo.
unfoldable pub list_key : List ℕ → ℕ
list_key info =
    let port = to_local_port_of info in
    if protocol_of info == ipproto_tcp
    then (port + 2000000) % 2 ^ 32
    else if protocol_of info == ipproto_udp
    then (port + 1000000) % 2 ^ 32
    else port

unfoldable pub list_all : List (List ℕ) → FlowMap → FlowMap
list_all [] flows = flows
list_all (info ∷ infos) flows = list_all infos (assign (list_key info) info flows)

-- A round of list_thread: the queue is emptied into the map.
unfoldable pub list_thread : Server → Server
list_thread s = record s { queue = []; flows = list_all s.queue s.flows }
