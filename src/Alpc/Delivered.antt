-- ===== src/Alpc/Delivered.antt =====
-- A flow's record from wfpdriver/HlprDriverAlpc.c through DispatchMsgHandle and list_thread of
-- wfptools/HlprServerAlpc.cpp to its map.
use wfpdriver.Shared.{
  ℕ, ◌+◌, ◌≤◌, ◌≡◌, ◌≢◌, refl, sym, ap, ◌∙◌, true, some, List, [], ◌∷◌, ◌++◌, length, length-append,
  take, take-length, pos, if◌then◌else◌, arith, Memory, read_bytes, write, read_bytes-write,
  read_bytes-append, length-read_bytes, region, le32,
}
use wfpdriver.Nt.{Status, unsuccessful}
use wfpdriver.State.{Packet}
use wfpdriver.Packets.Alloc.{IsPacket}
use wfpdriver.Devctrl.Frame.{frame, length-frame}
use wfpdriver.Callouts.Info.{field_of, sizeof_flow_info}
use wfpdriver.Tools.Handler.{FlowMap, find, assign}
use wfpdriver.Tools.HandlerLaws.{find-assign}
use wfpdriver.Tools.Header.{append_cancel, HoldsFrame, frame-HoldsFrame, read32-HoldsWord}
use wfpdriver.Alpc.Message.{message_header, port_message}
use wfpdriver.Alpc.Port.{AlpcDriver, AlpcAnswers, alpc_send, can_send}
use wfpdriver.Alpc.PortLaws.{alpc_send_lem}
use wfpdriver.Alpc.Server.{
  Server, dispatch_msg_handle, with_buffer, push_flow, copy_buffer, message_code, message_size,
  list_key, list_all, list_thread,
}

-- The message that carries a flow's record.
abbrev pub flow_message : ℕ → Packet → List ℕ
flow_message id p = message_header (12 + p.data_length) 0 ++ frame 2 id p

length-message_header : (n id : ℕ) → length (message_header n id) ≡ 40
unfolding message_header port_message le32
length-message_header n id = refl

length-flow_message :
    (id : ℕ) (p : Packet) → IsPacket p → length (flow_message id p) ≡ 52 + p.data_length
length-flow_message id p w = omega (
  arith,
  length-append (message_header (12 + p.data_length) 0) (frame 2 id p),
  length-message_header (12 + p.data_length) 0,
  length-frame 2 id p w,
)

-- The message as it lies in the receiver's memory.
abbrev held_message : Memory → ℕ → Packet → Memory
held_message stale id p = write stale 0 (flow_message id p)

held_frame :
    (stale : Memory) (id : ℕ) (p : Packet)
    → IsPacket p
    → read_bytes (held_message stale id p) 40 (12 + p.data_length) ≡ frame 2 id p
held_frame stale id p w =
    let m = held_message stale id p in
    let n = 12 + p.data_length in
    let long : 40 + n ≡ length (flow_message id p) = omega (arith, length-flow_message id p w) in
    let whole : read_bytes m 0 (40 + n) ≡ flow_message id p =
      ap (read_bytes m 0) long ∙ read_bytes-write stale 0 (flow_message id p) in
    (append_cancel (read_bytes m 0 40) (read_bytes m 40 n) (message_header n 0) (frame 2 id p)
      (length-read_bytes m 0 40 ∙ sym (length-message_header n 0))
      (sym (read_bytes-append m 0 40 n) ∙ whole)).1

-- The record that comes out of a payload: zeroes behind it.
abbrev pub record_of : Packet → List ℕ
record_of p = field_of sizeof_flow_info (region p.data_buffer)

queued :
    (room : ℕ) (m : Memory) (id : ℕ) (p : Packet) (s : Server)
    → HoldsFrame m 40 2 id p
    → p.data_length ≢ 0
    → p.data_length ≤ sizeof_flow_info
    → 12 + p.data_length ≤ room
    → dispatch_msg_handle room m s ≡ some (record s { queue = s.queue ++ record_of p ∷ [] })
unfolding dispatch_msg_handle with_buffer copy_buffer push_flow
queued room m id p s f z h r =
    let code : message_code m ≡ 2 = read32-HoldsWord m 40 2 (omega arith) f.code_word in
    let size : message_size m ≡ p.data_length =
      read32-HoldsWord m 48 p.data_length (omega arith) f.size_word in
    let bytes : read_bytes m 52 p.data_length ≡ region p.data_buffer = f.payload in
    rw (code, size, bytes) (ground (arith, z, h, r))

list_all-append :
    (queue : List (List ℕ)) (info : List ℕ) (flows : FlowMap)
    → list_all (queue ++ info ∷ []) flows ≡ assign (list_key info) info (list_all queue flows)
unfolding list_all
list_all-append [] info flows = refl
list_all-append (i ∷ is) info flows = list_all-append is info (assign (list_key i) i flows)

pub listed :
    (info : List ℕ) (s : Server)
    → find (list_key info) (list_thread (record s { queue = s.queue ++ info ∷ [] })).flows
      ≡ some info
unfolding list_thread
listed info s =
    ap (find (list_key info)) (list_all-append s.queue info s.flows)
    ∙ find-assign (list_key info) info (list_all s.queue s.flows)

sent_whole :
    (a : AlpcAnswers) (id : ℕ) (p : Packet) (d : AlpcDriver)
    → IsPacket p
    → p.data_length ≤ sizeof_flow_info
    → a.pool ≡ true
    → can_send d ≡ true
    → alpc_send a (frame 2 id p) (pos (12 + p.data_length)) d
      ≡ some (a.send, record d { sent = flow_message id p ∷ d.sent })
sent_whole a id p d w h pool open_port =
    let n = 12 + p.data_length in
    let long : length (frame 2 id p) ≡ n = length-frame 2 id p w in
    let all : take n (frame 2 id p) ≡ frame 2 id p =
      ap (λ k. take k (frame 2 id p)) (sym long) ∙ take-length (frame 2 id p) in
    let sent : (mem : List ℕ) → Status × AlpcDriver =
      λ mem. if can_send d then (a.send, record d { sent = mem ∷ d.sent }) else (unsuccessful, d) in
    alpc_send_lem a (frame 2 id p) n d pool (omega (arith, h)) (omega (arith, long))
    ∙ ap (λ bs. some (sent (message_header n 0 ++ bs))) all
    ∙ ap
        (λ b. some (
          if b
          then (a.send, record d { sent = flow_message id p ∷ d.sent })
          else (unsuccessful, d)))
        open_port

-- If the packet is the NF_DATA of a flow's record of 1 to 1120 bytes, and the driver has memory and an
-- open port, then AlpcSendflowEstablishedMsg sends one message and leaves no block allocated; and where
-- that message lies in memory with all of its bytes, DispatchMsgHandle handles it without a fault, and
-- after a round of list_thread the map finds the record, with zeroes behind it, under its key.
flow_handled :
    (a : AlpcAnswers) (room id : ℕ) (stale : Memory) (p : Packet) (d : AlpcDriver) (s : Server)
    → IsPacket p
    → p.data_length ≢ 0
    → p.data_length ≤ sizeof_flow_info
    → 12 + p.data_length ≤ room
    → a.pool ≡ true
    → can_send d ≡ true
    → (mem : List ℕ) × (s' : Server) × (alpc_send a (frame 2 id p) (pos (12 + p.data_length)) d
        ≡ some (a.send, record d { sent = mem ∷ d.sent }))
      × (dispatch_msg_handle room (write stale 0 mem) s ≡ some s')
      × (find (list_key (record_of p)) (list_thread s').flows ≡ some (record_of p))
flow_handled a room id stale p d s w z h r pool open_port =
    let m = held_message stale id p in
    let f : HoldsFrame m 40 2 id p = frame-HoldsFrame m 40 2 id p (held_frame stale id p w) in
    (
      flow_message id p,
      record s { queue = s.queue ++ record_of p ∷ [] },
      sent_whole a id p d w h pool open_port,
      queued room m id p s f z h r,
      listed (record_of p) s,
    )
