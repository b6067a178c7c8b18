-- ===== src/Alpc/Port.antt =====
-- wfpdriver/HlprDriverAlpc.c: the driver's end of the port. `none` is a fault.
use wfpdriver.Shared.{
  ℕ, ◌+◌, ◌-◌, Bool, ◌&&◌, Option, none, some, ◌>>=◌, List, [], ◌∷◌, ◌++◌, length, ltb, ◌==◌,
  if◌then◌else◌, ℤ, as_ulong, le32, Memory, write, read32,
}
use wfpdriver.Nt.{Status, success, unsuccessful, nt_success}
use wfpdriver.Callouts.Info.{zeros}
use wfpdriver.Alpc.Message.{
  sizeof_port_message, sizeof_univermsg, as_cshort, cshort_size, message_header, create_msg_mem,
}

-- ALPC_DRIVER_CONNECTSERVER, ALPC_DRIVER_CONNECTSERVER_RECV
abbrev pub alpc_driver_connectserver : ℕ
alpc_driver_connectserver = 10

abbrev pub alpc_driver_connectserver_recv : ℕ
alpc_driver_connectserver_recv = 11

-- sizeof(DIRVER_MSG_TEST): UNIVERMSG and ten characters.
abbrev pub sizeof_msg_test : ℕ
sizeof_msg_test = 28

-- The globals: g_DriverhPort, 0 being NULL, and whether the addresses of the two system routines are
-- known. `live` is the pool blocks that are not freed, `sent` the messages sent, the last one first.
pub record AlpcDriver : Type 0 where
  pub port : ℕ
  pub connect_known : Bool
  pub send_known : Bool
  pub live : ℕ
  pub sent : List (List ℕ)
  pub threads : ℕ

-- What the kernel answers: ExAllocatePoolWithTag, the connection with its handle, the status of a send,
-- whether the thread is made.
pub record AlpcAnswers : Type 0 where
  pub pool : Bool
  pub connect : Status
  pub handle : ℕ
  pub send : Status
  pub thread : Bool

-- InitAlpcAddrs, where MmGetSystemRoutineAddress knows the routines or not.
unfoldable pub init_alpc_addrs : Bool → Bool → AlpcDriver → Status × AlpcDriver
init_alpc_addrs connect send d = (
  (if send && connect then success else unsuccessful),
  record d { connect_known = connect; send_known = send },
)

-- g_DriverhPort > 0 && Sys_NtAlpcSendWaitReceivePort
unfoldable pub can_send : AlpcDriver → Bool
can_send d = ltb 0 d.port && d.send_known

-- The block is sent and freed, or freed.
unfoldable pub send_mem : AlpcAnswers → List ℕ → AlpcDriver → Status × AlpcDriver
send_mem a mem d =
    if can_send d
    then (a.send, record d { sent = mem ∷ d.sent; live = d.live - 1 })
    else (unsuccessful, record d { live = d.live - 1 })

-- AlpcSendflowEstablishedMsg and AlpcSendDataLinkStructMsg, over the bytes that can be read at the
-- packet: DataLength is a CSHORT.
unfoldable pub alpc_send : AlpcAnswers → List ℕ → ℤ → AlpcDriver → Option (Status × AlpcDriver)
alpc_send a packet lens d = do
  let n = as_cshort (as_ulong lens)
  mem ← create_msg_mem a.pool (message_header n 0) (cshort_size n) packet
  some (send_mem a mem (record d { live = d.live + 1 }))

-- The end of TestSendMsg, which does not free the block when it cannot send.
unfoldable pub send_test_mem : AlpcAnswers → List ℕ → AlpcDriver → Status × AlpcDriver
send_test_mem a mem d =
    if can_send d
    then (a.send, record d { sent = mem ∷ d.sent; live = d.live - 1 })
    else (unsuccessful, d)

-- TestSendMsg
unfoldable pub test_send_msg : AlpcAnswers → List ℕ → AlpcDriver → Option (Status × AlpcDriver)
test_send_msg a info d = do
  mem ← create_msg_mem a.pool (message_header sizeof_msg_test 0) sizeof_msg_test info
  some (send_test_mem a mem (record d { live = d.live + 1 }))

-- A UNIVERMSG with Event 0.
unfoldable pub univermsg : ℕ → List ℕ
univermsg control_id = le32 control_id ++ le32 0

-- Sys_NtAlpcConnectPort with the block, which is freed after; the thread is made whatever comes of it.
unfoldable pub connect_port : AlpcAnswers → AlpcDriver → Status × AlpcDriver
connect_port a d = (
  success,
  record d {
    port = if nt_success a.connect then a.handle else d.port;
    live = d.live - 1;
    threads = if a.thread then d.threads + 1 else d.threads;
  },
)

-- AlpcDriverStart
unfoldable pub alpc_driver_start : AlpcAnswers → AlpcDriver → Option (Status × AlpcDriver)
alpc_driver_start a d = do
  let message = univermsg alpc_driver_connectserver
  mem ← create_msg_mem a.pool (message_header sizeof_univermsg 0) sizeof_univermsg message
  if d.connect_known then some (connect_port a (record d { live = d.live + 1 })) else none

-- What comes of one wait for a message: an error, or the bytes of a message.
pub data Received : Type 0 where
  failed : Received
  message : List ℕ → Received

-- The message in the PORT_MESSAGE on the stack: `stale` is what the stack held there and behind it. A
-- longer message is written over other locals, which is a fault.
unfoldable pub received_in : Memory → List ℕ → Option Memory
received_in stale bytes =
    if ltb sizeof_port_message (length bytes) then none else some (write stale 0 bytes)

-- The events initialised for a message, a UNIVERMSG read behind the PORT_MESSAGE, where `room` bytes
-- can be read.
unfoldable pub events_for : ℕ → Memory → Option ℕ
events_for room m =
    if ltb room sizeof_univermsg
    then none
    else some (if read32 m sizeof_port_message == alpc_driver_connectserver_recv then 1 else 0)

-- RtlSecureZeroMemory of the PORT_MESSAGE.
unfoldable pub zeroed : Memory → Memory
zeroed m = write m 0 (zeros sizeof_port_message)

-- The loop of AlpcRecvServerMsgROUTINE over the waits: how often g_kEvent was initialised.
unfoldable pub alpc_recv_server_msg : ℕ → Memory → List Received → Option ℕ
alpc_recv_server_msg room stale [] = some 0
alpc_recv_server_msg room stale (failed ∷ rs) = alpc_recv_server_msg room (zeroed stale) rs
alpc_recv_server_msg room stale (message bytes ∷ rs) = do
  m ← received_in (zeroed stale) bytes
  one ← events_for room m
  more ← alpc_recv_server_msg room m rs
  some (one + more)
