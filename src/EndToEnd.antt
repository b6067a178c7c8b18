-- ===== src/EndToEnd.antt =====
-- From a flow that the callback of wfpdriver/callouts.c sees, over devctrl_fillBuffer of
-- wfpdriver/devctrl.c and the reader of wfptools/devctrl.cpp, to nf_getprocessinfo of
-- wfptools/main.cpp.
use wfpdriver.Shared.{
  ℕ, ◌-◌, ◌*◌, ◌^◌, ◌<◌, ◌≤◌, ◌≡◌, ◌≢◌, refl, ap, ◌∙◌, sym, Bool, true, false, Option, none, some,
  inr, region, ◌>>=◌, List, [], ◌∷◌, ◌++◌, length, All, ltb, le→not-ltb, ◌||◌, Memory, read_bytes,
  arith,
}
use wfpdriver.Nt.{nf_flowctx_packet}
use wfpdriver.State.{Packet, Driver, SharedMemory}
use wfpdriver.Packets.Alloc.{Alloc, IsPacket}
use wfpdriver.Devctrl.Pop.{data_size, pop_flowestablished_data}
use wfpdriver.Devctrl.Fill.{pop_by_code, fill_loop, fill_buffer}
use wfpdriver.Devctrl.Frame.{IsMapped}
use wfpdriver.Devctrl.Delivery.{place_all, place_all-Framed, place_all-mapped, total_size}
use wfpdriver.Devctrl.Room.{flow_entry}
use wfpdriver.Devctrl.Popping.{flow_result, pop_flowestablished_data_lem}
use wfpdriver.Callouts.Info.{Wdk, FlowValues, Classify, FlowInfo, flow_bytes}
use wfpdriver.Callouts.Layout.{length-flow_bytes}
use wfpdriver.Callouts.Flow.{is_flow_v4, flow_info, class_fn_flow_established}
use wfpdriver.Callouts.ClassifyLaws.{with_flow, class_fn_flow_established_sends}
use wfpdriver.Tools.WorkThread.{aborts, process_read}
use wfpdriver.Tools.Batch.{call_of, process_read-first}
use wfpdriver.Tools.Paths.{Wide, SameLetter, Drive, device_dos_path_to_nt_path}
use wfpdriver.Tools.Handler.{
  FlowMap, handle_call, handle_calls, handle_established, ProcessInfo, found, get_process_info,
}
use wfpdriver.Tools.FieldLaws.{wide_bytes, IsCharacter, Ends}
use wfpdriver.Tools.HandlerLaws.{IsFlow, handled-get_process_info}

pop_one :
    (d : Driver) (p : Packet)
    → d.flows ≡ p ∷ []
    → IsPacket p
    → IsMapped d.in_buf
    → data_size p < d.in_buf.buffer_length
    → pop_flowestablished_data 0 d ≡ some (flow_result (p ∷ []) [] 0 d)
pop_one d p e v m h =
    let room : ltb (d.in_buf.buffer_length - 0 - 1) (data_size p) ≡ false =
      le→not-ltb _ _ (omega arith) in
    pop_flowestablished_data_lem d 0 (rw e (v, tt)) m (omega arith) ∙ rw e (rw room refl)

-- A driver whose only packet is a flow's.
pub fill_one :
    (d : Driver) (p : Packet)
    → d.query ≡ nf_flowctx_packet ∷ []
    → d.flows ≡ p ∷ []
    → IsPacket p
    → IsMapped d.in_buf
    → data_size p < d.in_buf.buffer_length
    → (d' : Driver) × (fill_buffer d ≡ some (data_size p, d'))
      × (d'.in_buf ≡ place_all (flow_entry p ∷ []) 0 d.in_buf)
unfolding fill_buffer fill_loop pop_by_code
fill_one d p q e v m h =
    let r = flow_result (p ∷ []) [] 0 (record d { query = [] }) in
    let d' : Driver = record (r.2) { query = []; query_live = d.query_live - 1 } in
    let o : r.1 ≡ data_size p = omega arith in
    (
      d',
      rw q (rw (pop_one (record d { query = [] }) p e v m h, fill_loop) (ap (λ n. some (n, d')) o)),
      refl,
    )

-- The memory after that: a record at its start, for the reader.
one_call :
    (s : SharedMemory) (p : Packet)
    → IsPacket p
    → p.data_length ≡ 1120
    → data_size p ≤ s.buffer_length
    → let m = (place_all (flow_entry p ∷ []) 0 s).bytes in
      (process_read (data_size p) s.buffer_length m
        ≡ some (call_of (flow_entry p) 0 ∷ [], aborts m 0 || false))
      × (read_bytes m 12 p.data_length ≡ region p.data_buffer)
one_call s p v k h =
    let m = (place_all (flow_entry p ∷ []) 0 s).bytes in
    let o : total_size (flow_entry p ∷ []) ≡ data_size p = omega arith in
    let r =
      process_read-first (flow_entry p) [] s.buffer_length m
        (record { kind = inr (refl, refl); odd_length = omega (arith, k); small = v.1 }, tt)
        (place_all-Framed (flow_entry p ∷ []) 0 s (v, tt)) (omega (arith, k)) (omega (arith, h)) in
    (ap (λ n. process_read n s.buffer_length m) (sym o) ∙ r.0, r.1)

-- The driver after the callback pushed a flow's record onto empty lists.
pushed_packet : List ℕ → Packet
pushed_packet bytes = record { data_buffer = some bytes; data_length = 1120 }

-- What the program finds after the driver filled the buffer for a read and the reader handled it.
abbrev pub read_and_find :
    SameLetter → Option (List Drive) → ℕ → ℕ → FlowMap → Driver → Option ProcessInfo
read_and_find same drives port protocol flows d = fill_buffer d >>= λ r.
    process_read r.0 r.1.in_buf.buffer_length r.1.in_buf.bytes >>= λ c.
    handle_calls r.1.in_buf.bytes c.0 flows >>= get_process_info same drives true port protocol true

handled :
    (same : SameLetter) (drives : Option (List Drive)) (m : Memory) (f : FlowInfo) (path : Wide)
    (flows : FlowMap)
    → IsFlow f path
    → read_bytes m 12 1120 ≡ flow_bytes f
    → length (device_dos_path_to_nt_path same drives path).1 ≤ 259
    → (handle_calls m (call_of (flow_entry (pushed_packet (flow_bytes f))) 0 ∷ []) flows
        >>= get_process_info same drives true f.to_local_port f.protocol true)
      ≡ some (found f.process_id (device_dos_path_to_nt_path same drives path).1)
unfolding handle_calls handle_call pushed_packet
handled same drives m f path flows v e h =
    bind_some (handle_established m 12 1120 flows)
      (get_process_info same drives true f.to_local_port f.protocol true)
    ∙ handled-get_process_info same drives m 12 f path flows v e h
  where
    bind_some :
        (x : Option FlowMap) (g : FlowMap → Option ProcessInfo)
        → ((x >>= λ y. some y) >>= g) ≡ (x >>= g)
    bind_some none g = refl
    bind_some (some y) g = refl

found_after_push :
    (same : SameLetter) (drives : Option (List Drive)) (d : Driver) (f : FlowInfo) (path : Wide)
    (flows : FlowMap)
    → d.query ≡ nf_flowctx_packet ∷ []
    → d.flows ≡ pushed_packet (flow_bytes f) ∷ []
    → IsMapped d.in_buf
    → 1135 < d.in_buf.buffer_length
    → IsFlow f path
    → length (device_dos_path_to_nt_path same drives path).1 ≤ 259
    → read_and_find same drives f.to_local_port f.protocol flows d
      ≡ some (found f.process_id (device_dos_path_to_nt_path same drives path).1)
unfolding pushed_packet
found_after_push same drives d f path flows q e m h v k =
    let p = pushed_packet (flow_bytes f) in
    let u : IsPacket p = (length-flow_bytes f, omega arith) in
    let (d', filled, buffer) = fill_one d p q e u m (omega (arith, h)) in
    let (calls, packet) = one_call d.in_buf p u refl (omega (arith, h)) in
    rw filled (
      rw buffer (
        rw (place_all-mapped (flow_entry p ∷ []) 0 d.in_buf).1
          (rw calls (handled same drives _ f path flows v packet k))))

-- What the engine reports of a flow: its port, protocol and process, whose image path is `path`, in
-- `bytes` with or without an end.
pub record Reports (v : FlowValues) (bytes : List ℕ) (path : Wide) : Type 0 where
  pub reported : v.process_path ≡ some bytes
  pub short : length bytes ≤ 1040
  pub port : v.local_port < 65536
  pub protocol : v.protocol < 256
  pub process : v.process_id < 2 ^ 64
  pub tail : List ℕ
  pub encoded : bytes ≡ wide_bytes path ++ tail
  pub ends : Ends tail
  pub characters : All IsCharacter path
  pub fits : 2 * length path ≤ 1040

-- Memory for all that a push allocates.
pub record HasMemory (a : Alloc) (stale : Memory) : Type 0 where
  pub entry : a.entry ≡ true
  pub buffer : a.buffer ≡ some stale
  pub query : a.query ≡ true

-- The monitor is on, no query and no flow waits, and the shared buffer has room for a flow's record.
pub record IsIdle (d : Driver) : Type 0 where
  pub monitor : d.monitor_flag ≢ 0
  pub query : d.query ≡ []
  pub flows : d.flows ≡ []
  pub mapped : IsMapped d.in_buf
  pub room : 1135 < d.in_buf.buffer_length

-- The record that the flow callback sends.
abbrev sent_info : Wdk → FlowValues → List ℕ → FlowInfo
sent_info w v bytes =
    flow_info w (is_flow_v4 v.layer) w.layer_outbound_mac_frame_ethernet
      w.callout_id_outbound_mac_etherent v bytes

sent_info-IsFlow :
    (w : Wdk) (v : FlowValues) (bytes : List ℕ) (path : Wide)
    → Reports v bytes path
    → IsFlow (sent_info w v bytes) path
unfolding flow_info
sent_info-IsFlow w v bytes path r = record {
  port = r.port;
  protocol = r.protocol;
  process = r.process;
  tail = r.tail;
  bytes = r.encoded;
  ends = r.ends;
  characters = r.characters;
  fits = r.fits;
}

found_of_sent :
    (same : SameLetter) (drives : Option (List Drive)) (w : Wdk) (v : FlowValues) (bytes : List ℕ)
    (path : Wide) (d : Driver) (flows : FlowMap)
    → IsIdle d
    → Reports v bytes path
    → length (device_dos_path_to_nt_path same drives path).1 ≤ 259
    → read_and_find same drives v.local_port v.protocol flows
        (with_flow (flow_bytes (sent_info w v bytes)) d)
      ≡ some (found v.process_id (device_dos_path_to_nt_path same drives path).1)
unfolding flow_info pushed_packet
found_of_sent same drives w v bytes path d flows i r k =
    found_after_push same drives (with_flow (flow_bytes (sent_info w v bytes)) d)
      (sent_info w v bytes) path flows (ap (◌∷◌ nf_flowctx_packet) i.query)
      (ap (◌∷◌ (pushed_packet (flow_bytes (sent_info w v bytes)))) i.flows) i.mapped i.room
      (sent_info-IsFlow w v bytes path r) k

-- If the flow callback sees a flow while the monitor is on, memory is there and the driver is idle, then
-- after the driver has filled the shared buffer for a read and the reader has handled what was read,
-- nf_getprocessinfo at the flow's local port and protocol finds the flow's process: its id, and its
-- path in drive letters, if that has less than 260 characters. The image path that the engine reports
-- has at most 520 characters, none of them 0.
pub class_fn_flow_established-found :
    (same : SameLetter) (drives : Option (List Drive)) (w : Wdk) (v : FlowValues)
    (clear_right : Bool) (a : Alloc) (stale : Memory) (bytes : List ℕ) (path : Wide) (c : Classify)
    (flows : FlowMap)
    → HasMemory a stale
    → IsIdle c.driver
    → Reports v bytes path
    → length (device_dos_path_to_nt_path same drives path).1 ≤ 259
    → (class_fn_flow_established w v clear_right true a c >>= λ k.
        read_and_find same drives v.local_port v.protocol flows k.driver)
      ≡ some (found v.process_id (device_dos_path_to_nt_path same drives path).1)
class_fn_flow_established-found same drives w v clear_right a stale bytes path c flows h i r k =
    rw
      (class_fn_flow_established_sends w v clear_right a stale bytes c i.monitor r.reported r.short
        h.entry h.buffer h.query)
      (found_of_sent same drives w v bytes path c.driver flows i r k)
