-- ===== src/Callouts/ClassifyLaws.antt =====
-- What the two flow callbacks of callouts.c answer, and what they send.
use wfpdriver.Shared.{
  ◌++◌, drop, length-append, length-take, length-drop, not-ltb→le, ℕ, ◌+◌, ◌≤◌, ◌≡◌, ◌≢◌, refl, ap,
  ◌∙◌, ◌⊎◌, inl, inr, not, ◌||◌, Bool, true, false, Option, none, some, List, ◌∷◌, length, take,
  take-length, Memory, ◌==◌, if◌then◌else◌, pos, le→not-ltb, ltb, ltb→lt, Bool-cases, ◌<◌, arith,
}
use wfpdriver.Nt.{Status, nf_flowctx_packet}
use wfpdriver.State.{Driver}
use wfpdriver.Packets.Alloc.{Alloc}
use wfpdriver.Packets.Established.{pushflowestablishedctx}
use wfpdriver.Packets.EstablishedLaws.{
  PushedIf, Pushed, Pushed-refl, pushflowestablishedctx_lem, pushflowestablishedctx-Pushed,
}
use wfpdriver.Callouts.Info.{Wdk, FlowValues, Classify, permit, permit_out, block_out, flow_bytes}
use wfpdriver.Callouts.Flow.{
  class_fn_flow_established, flow_entry_bytes, flow_info, push_flow_entry, finish_flow_classify,
  is_flow_v4, with_path,
}
use wfpdriver.Callouts.Layout.{length-flow_bytes}
use wfpdriver.Callouts.Redirect.{class_fn_connectredirect, is_redirect_v4}

-- With the monitor off a flow is permitted and the driver left alone.
pub class_fn_flow_established_off :
    (w : Wdk) (v : FlowValues) (clear_right allocated : Bool) (a : Alloc) (c : Classify)
    → c.driver.monitor_flag ≡ 0
    → class_fn_flow_established w v clear_right allocated a c
      ≡ some (record c { out = permit_out w clear_right c.out })
unfolding class_fn_flow_established
class_fn_flow_established_off w v clear_right allocated a c h = ground (arith, h)

flow_entry_bytes_fits :
    (w : Wdk) (v4 : Bool) (layer_id callout_id : ℕ) (v : FlowValues) (path : List ℕ)
    → length path ≤ 1040
    → flow_entry_bytes w v4 layer_id callout_id v (some path)
      ≡ some (flow_bytes (flow_info w v4 layer_id callout_id v path))
unfolding flow_entry_bytes
flow_entry_bytes_fits w v4 layer_id callout_id v path h = rw (le→not-ltb 1040 (length path) h)

-- The driver after a complete push of one flow entry.
abbrev pub with_flow : List ℕ → Driver → Driver
with_flow bytes d = record d {
  flows = record { data_buffer = some bytes; data_length = 1120 } ∷ d.flows;
  flow_live = d.flow_live + 1;
  query = nf_flowctx_packet ∷ d.query;
  query_live = d.query_live + 1;
  io_event = true;
}

push_flow_entry-with_flow :
    (w : Wdk) (clear_right : Bool) (a : Alloc) (stale : Memory) (bytes : List ℕ) (c : Classify)
    → a.entry ≡ true
    → a.buffer ≡ some stale
    → a.query ≡ true
    → length bytes ≡ 1120
    → push_flow_entry w clear_right a (record c { live = c.live + 1 }) (some bytes)
      ≡ some (record {
        out = permit_out w clear_right c.out;
        driver = with_flow bytes c.driver;
        live = c.live;
      })
unfolding push_flow_entry finish_flow_classify
push_flow_entry-with_flow w clear_right a stale bytes c e b q h = ground (
  arith,
  pushflowestablishedctx_lem bytes 1119 a stale c.driver e b q (omega (arith, h)),
  ap (λ n. take n bytes) h,
  take-length bytes,
)

not-zero : (n : ℕ) → n ≢ 0 → (n == 0) ≡ false
not-zero n h = ground (arith, h)

if-false {ℓ} : {A : Type ℓ} {b : Bool} (x : A) {y : A} → b ≡ false → (if b then x else y) ≡ y
if-false x h = rw h

abbrev flow_push : Wdk → FlowValues → Bool → Alloc → Classify → Option (List ℕ) → Option Classify
flow_push w v clear_right a c path =
    push_flow_entry w clear_right a (record c { live = c.live + 1 })
      (flow_entry_bytes w (is_flow_v4 v.layer) w.layer_outbound_mac_frame_ethernet
        w.callout_id_outbound_mac_etherent v path)

-- With the monitor on, memory for all and a path that fits, a flow is permitted and its record of
-- 1120 bytes stands at the head of the list, its code at the head of the queries; the entry that
-- the callback took is given back.
pub class_fn_flow_established_sends :
    (w : Wdk) (v : FlowValues) (clear_right : Bool) (a : Alloc) (stale : Memory) (path : List ℕ)
    (c : Classify)
    → c.driver.monitor_flag ≢ 0
    → v.process_path ≡ some path
    → length path ≤ 1040
    → a.entry ≡ true
    → a.buffer ≡ some stale
    → a.query ≡ true
    → class_fn_flow_established w v clear_right true a c
      ≡ some (record {
        out = permit_out w clear_right c.out;
        driver =
            with_flow
              (flow_bytes (
                flow_info w
                  (is_flow_v4 v.layer)
                  w.layer_outbound_mac_frame_ethernet
                  w.callout_id_outbound_mac_etherent
                  v
                  path))
              c.driver;
        live = c.live;
      })
unfolding class_fn_flow_established
class_fn_flow_established_sends w v clear_right a stale path c on p fits e b q =
    if-false (some (record c { out = permit_out w clear_right c.out }))
      (not-zero c.driver.monitor_flag on)
    ∙ ap (flow_push w v clear_right a c) p
    ∙ ap (push_flow_entry w clear_right a (record c { live = c.live + 1 })) (
        flow_entry_bytes_fits w (is_flow_v4 v.layer) w.layer_outbound_mac_frame_ethernet
          w.callout_id_outbound_mac_etherent v path fits)
    ∙ push_flow_entry-with_flow w clear_right a stale
        (flow_bytes (
          flow_info w (is_flow_v4 v.layer) w.layer_outbound_mac_frame_ethernet
            w.callout_id_outbound_mac_etherent v path))
        c e b q
        (length-flow_bytes (
          flow_info w (is_flow_v4 v.layer) w.layer_outbound_mac_frame_ethernet
            w.callout_id_outbound_mac_etherent v path))

-- The engine named no process path, or one that is longer than what the entry has from processPath on.
abbrev pub LacksPath : Option (List ℕ) → Type 0
LacksPath none = Unit {0}
LacksPath (some path) = 1062 < length path

-- What a flow callback has done: it holds no entry, the lists and their counts agree, and it has
-- either permitted the flow, the rights left alone, or blocked it and sent nothing. A fault needs a
-- path that is absent or too long.
abbrev pub Answers : Wdk → FlowValues → Classify → Option Classify → Type 0
Answers w v c none = LacksPath v.process_path
Answers w v c (some c') =
    (c'.live ≡ c.live)
    × Pushed c.driver c'.driver
    × (((c'.out.action_type ≡ permit) × (c'.out.rights ≡ c.out.rights))
        ⊎ ((c'.out ≡ block_out w c.out) × (c'.driver ≡ c.driver)))

if-Answers :
    (w : Wdk) (v : FlowValues) (c : Classify) (b : Bool) (x y : Option Classify)
    → Answers w v c x
    → Answers w v c y
    → Answers w v c (if b then x else y)
if-Answers w v c true x y hx hy = hx
if-Answers w v c false x y hx hy = hy

if_not-Answers :
    (w : Wdk) (v : FlowValues) (c : Classify) (b : Bool) (x y : Option Classify)
    → b ≡ true
    → Answers w v c y
    → Answers w v c (if not b then x else y)
if_not-Answers w v c true x y h hy = hy
if_not-Answers w v c false x y h hy = ground (arith, h)

finish-Answers :
    (w : Wdk) (v : FlowValues) (clear_right : Bool) (c : Classify) (r : Option (Status × Driver))
    → PushedIf 1120 1120 c.driver r
    → Answers w v c (finish_flow_classify w clear_right (record c { live = c.live + 1 }) r)
unfolding finish_flow_classify
finish-Answers w v clear_right c none h = absurd (omega arith)
finish-Answers w v clear_right c (some (status, d)) h = (omega arith, h, inl (refl, refl))

pushed-Answers :
    (w : Wdk) (v : FlowValues) (clear_right : Bool) (a : Alloc) (c : Classify) (bytes : List ℕ)
    → length bytes ≡ 1120
    → Answers w v c (push_flow_entry w clear_right a (record c { live = c.live + 1 }) (some bytes))
unfolding push_flow_entry
pushed-Answers w v clear_right a c bytes e =
    finish-Answers w v clear_right c (pushflowestablishedctx (some bytes) (pos 1120) a c.driver)
      (rw e at (pushflowestablishedctx-Pushed (some bytes) (pos 1120) a c.driver))

length-with_path :
    (path bytes : List ℕ)
    → 58 + length path ≤ length bytes
    → length (with_path path bytes) ≡ length bytes
unfolding with_path
length-with_path path bytes h = omega (
  arith,
  length-append (take 58 bytes) (path ++ drop (58 + length path) bytes),
  length-append path (drop (58 + length path) bytes),
  length-take 58 bytes,
  length-drop (58 + length path) bytes,
  h,
)

push_flow_entry-Answers :
    (w : Wdk) (v4 : Bool) (layer_id callout_id : ℕ) (v : FlowValues) (clear_right : Bool)
    (a : Alloc) (c : Classify) (path : Option (List ℕ))
    → v.process_path ≡ path
    → Answers w v c (
        push_flow_entry w clear_right a
          (record c { live = c.live + 1 })
          (flow_entry_bytes w v4 layer_id callout_id v path))
unfolding push_flow_entry flow_entry_bytes
push_flow_entry-Answers w v4 layer_id callout_id v clear_right a c none e = rw e tt
push_flow_entry-Answers w v4 layer_id callout_id v clear_right a c (some path) e =
    let bytes = flow_bytes (flow_info w v4 layer_id callout_id v path) in
    let size = length-flow_bytes (flow_info w v4 layer_id callout_id v path) in
    elim (Bool-cases (ltb 1040 (length path))) [
      | inl long ↦ elim (Bool-cases (ltb 1062 (length path))) [
        | inl outside ↦ rw (long, outside, e) (ltb→lt _ _ outside)
        | inr inside ↦
            let s : length (with_path path bytes) ≡ 1120 =
              length-with_path path bytes (omega (arith, not-ltb→le _ _ inside, size)) ∙ size in
            rw (long, inside) (pushed-Answers w v clear_right a c (with_path path bytes) s)
      ]
      | inr fits ↦ rw fits (pushed-Answers w v clear_right a c bytes size)
    ]

-- Whatever the monitor, the memory and the flow are, the callback returns if the flow has a process
-- path of at most 1062 bytes; one that returns holds no entry, keeps the account of the packet
-- lists, and permits the flow with the rights left alone, or blocks it and sends nothing.
pub class_fn_flow_established-Answers :
    (w : Wdk) (v : FlowValues) (clear_right allocated : Bool) (a : Alloc) (c : Classify)
    → Answers w v c (class_fn_flow_established w v clear_right allocated a c)
unfolding class_fn_flow_established
class_fn_flow_established-Answers w v clear_right allocated a c =
    if-Answers w v c (c.driver.monitor_flag == 0) _ _ (refl, Pushed-refl c.driver, inl (refl, refl))
      (if-Answers w v c allocated _ _
        (push_flow_entry-Answers w (is_flow_v4 v.layer) w.layer_outbound_mac_frame_ethernet
          w.callout_id_outbound_mac_etherent v clear_right a c v.process_path refl)
        (refl, Pushed-refl c.driver, inr (refl, refl)))

-- With the monitor on, the right to write the action and a debugger attached, the redirect callback
-- does as the flow callback: it returns if there is a process path of at most 1062 bytes, holds no entry, keeps the
-- account of the packet lists, and permits the connection with the rights left alone, or blocks it
-- and sends nothing.
pub class_fn_connectredirect-Answers :
    (w : Wdk) (v : FlowValues) (packet context reauthorize debugger clear_right allocated : Bool)
    (a : Alloc) (c : Classify)
    → c.driver.monitor_flag ≢ 0
    → c.out.rights w.right_action_write ≡ true
    → debugger ≡ true
    → Answers w v c
        (class_fn_connectredirect w v packet context reauthorize debugger clear_right allocated a c)
unfolding class_fn_connectredirect
class_fn_connectredirect-Answers w v packet context reauthorize debugger clear_right allocated a c
      on may attached =
    if-Answers w v c (c.driver.monitor_flag == 0) _ _ (refl, Pushed-refl c.driver, inl (refl, refl))
      (if_not-Answers w v c (c.out.rights w.right_action_write) _ _ may (
        if-Answers w v c (not packet || not context || reauthorize) _ _
          (refl, Pushed-refl c.driver, inl (refl, refl))
          (if-Answers w v c allocated _ _
            (rw attached (
              push_flow_entry-Answers w (is_redirect_v4 v.layer) w.layer_ale_connect_redirect_v4
                w.callout_guid_ale_connectredirect_v4 v clear_right a c v.process_path refl))
            (refl, Pushed-refl c.driver, inr (refl, refl)))))
