-- ===== src/Callouts/MacLaws.antt =====
-- What helper_callout_classFn_mac of callouts.c leaves in the net buffer, and what it sends.
use wfpdriver.Shared.{
  ℕ, ◌/◌, ◌%◌, ◌*◌, ◌+◌, ◌≤◌, ◌<◌, ◌≡◌, refl, ap, ◌∙◌, ◌⊎◌, inl, inr, Bool, true, false, Option,
  none, some, ◌==◌, ltb, ltb→lt, not-ltb→le, Bool-cases, if◌then◌else◌, pos, arith,
}
use wfpdriver.Nt.{Status, nf_datalink_packet}
use wfpdriver.State.{Driver}
use wfpdriver.Packets.Alloc.{Alloc}
use wfpdriver.Packets.Datalink.{pushdata}
use wfpdriver.Packets.DatalinkLaws.{PushedIf, Pushed, Pushed-refl, pushdata-Pushed}
use wfpdriver.Callouts.Info.{Wdk, MacInfo, Classify, permit, mac_bytes, sizeof_mac_info}
use wfpdriver.Callouts.Layout.{length-mac_bytes}
use wfpdriver.Callouts.Mac.{
  Ndis, MacValues, transport_at, transport, put_ip, parse_ip, parse_advanced, restore, parse_frame,
  finish_mac_classify, push_mac, absorb_out, classify_direction, class_fn_mac, direction, mac_start,
}

module _ (n : Ndis) where
  open n use {
    NetBuffer, memory, advance, retreat, get_data_buffer, data_length, advance_within,
    retreat-advance,
  }

  advance_fails : (len : ℕ) (b : NetBuffer) → advance len b ≡ none → data_length b < len
  advance_fails len b e = elim (Bool-cases (ltb (data_length b) len)) [
    | inl short ↦ ltb→lt _ _ short
    | inr enough ↦ let r = advance_within len b (not-ltb→le _ _ enough) in cc (r.1)
  ]

  -- The net buffer is as it was; a fault needs fewer bytes than `need`.
  abbrev Restored : ℕ → NetBuffer → Option (MacInfo × NetBuffer) → Type 0
  Restored need b none = data_length b < need
  Restored need b (some (i, b')) = b' ≡ b

  transport_at-Restored :
      (size len : ℕ) (i : MacInfo) (b : NetBuffer) (r : Option NetBuffer)
      → len ≤ 60
      → advance len b ≡ r
      → Restored 60 b (transport_at n size len i r)
  unfolding transport_at
  transport_at-Restored size len i b none small h = omega (arith, advance_fails len b h)
  transport_at-Restored size len i b (some b') small h = retreat-advance len b b' h

  if-Restored :
      (need : ℕ) (b : NetBuffer) (t : Bool) (x y : Option (MacInfo × NetBuffer))
      → Restored need b x
      → Restored need b y
      → Restored need b (if t then x else y)
  if-Restored need b true x y hx hy = hx
  if-Restored need b false x y hx hy = hy

  transport-Restored :
      (protocol len : ℕ) (i : MacInfo) (b : NetBuffer)
      → len ≤ 60
      → Restored 60 b (transport n protocol len i b)
  unfolding transport
  transport-Restored protocol len i b small =
      if-Restored 60 b (protocol == 6) _ _
        (transport_at-Restored 20 len i b (advance len b) small refl)
        (if-Restored 60 b (protocol == 17) _ _
          (transport_at-Restored 8 len i b (advance len b) small refl) refl)

  parse_ip-Restored :
      (w : Wdk) (at : Option ℕ) (i : MacInfo) (b : NetBuffer) → Restored 60 b (parse_ip n w at i b)
  unfolding parse_ip
  parse_ip-Restored w none i b = refl
  parse_ip-Restored w (some at) i b =
      if-Restored 60 b (memory b at / 16 == 4) _ _
        (transport-Restored (memory b (at + 9)) (memory b at % 16 * 4) (put_ip w (memory b) at i) b
          (omega arith))
        refl

  same_advance :
      (len : ℕ) (b x y : NetBuffer) → advance len b ≡ some x → advance len b ≡ some y → x ≡ y
  same_advance len b x y p q = cc

  -- Behind the Ethernet header.
  short_frame :
      (b b' : NetBuffer) → advance 14 b ≡ some b' → data_length b' < 60 → data_length b < 74
  short_frame b b' h k = elim (Bool-cases (ltb (data_length b) 14)) [
    | inl short ↦ omega (arith, ltb→lt _ _ short)
    | inr enough ↦
        let r = advance_within 14 b (not-ltb→le _ _ enough) in
        omega (arith, r.2, ap data_length (same_advance 14 b b' r.0 h r.1))
  ]

  restore-Restored :
      (b b' : NetBuffer) (r : Option (MacInfo × NetBuffer))
      → advance 14 b ≡ some b'
      → Restored 60 b' r
      → Restored 74 b (restore n 14 r)
  unfolding restore
  restore-Restored b b' none h k = short_frame b b' h k
  restore-Restored b b' (some (i, b'')) h k = ap (retreat 14) k ∙ retreat-advance 14 b b' h

  parse_outbound-Restored :
      (w : Wdk) (i : MacInfo) (b : NetBuffer) (r : Option NetBuffer)
      → advance 14 b ≡ r
      → Restored 74 b (restore n 14 (parse_advanced n w i r))
  unfolding restore parse_advanced
  parse_outbound-Restored w i b none h = omega (arith, advance_fails 14 b h)
  parse_outbound-Restored w i b (some b') h =
      restore-Restored b b' (parse_ip n w (get_data_buffer 20 b') i b') h
        (parse_ip-Restored w (get_data_buffer 20 b') i b')

  weaken-Restored :
      (b : NetBuffer) (r : Option (MacInfo × NetBuffer)) → Restored 60 b r → Restored 74 b r
  weaken-Restored b none h = omega arith
  weaken-Restored b (some (i, b')) h = h

  -- Parsing a frame leaves the net buffer as it found it.
  parse_frame-Restored :
      (w : Wdk) (dir : ℕ) (i : MacInfo) (b : NetBuffer) → Restored 74 b (parse_frame n w dir i b)
  unfolding parse_frame parse_advanced
  parse_frame-Restored w dir i b =
      if-Restored 74 b (dir == 2) _ _ (parse_outbound-Restored w i b (advance 14 b) refl)
        (weaken-Restored b _ (parse_ip-Restored w (get_data_buffer 20 b) i b))

  -- What the callback has done: the net buffer is as it was, no entry is held, the lists and their
  -- counts agree, and the frame is permitted, or blocked and absorbed with nothing sent. A fault
  -- needs a frame of less than 74 bytes, an Ethernet header with the longest IPv4 header.
  abbrev pub Answers : Wdk → Classify → NetBuffer → Option (Classify × NetBuffer) → Type 0
  Answers w c b none = data_length b < 74
  Answers w c b (some (c', b')) =
      (b' ≡ b)
      × (c'.live ≡ c.live)
      × Pushed c.driver c'.driver
      × (((c'.out.action_type ≡ permit) × (c'.out.rights ≡ c.out.rights))
          ⊎ ((c'.out ≡ absorb_out w c.out) × (c'.driver ≡ c.driver)))

  finish-Answers :
      (w : Wdk) (clear_right : Bool) (c : Classify) (b b' : NetBuffer)
      (r : Option (Status × Driver))
      → b' ≡ b
      → PushedIf 60 60 c.driver r
      → Answers w c b (finish_mac_classify n w clear_right (record c { live = c.live + 1 }) b' r)
  unfolding finish_mac_classify
  finish-Answers w clear_right c b b' none e h = absurd (omega arith)
  finish-Answers w clear_right c b b' (some (status, d)) e h = (e, omega arith, h, inl (refl, refl))

  push_mac-Answers :
      (w : Wdk) (clear_right : Bool) (a : Alloc) (c : Classify) (b : NetBuffer)
      (r : Option (MacInfo × NetBuffer))
      → Restored 74 b r
      → Answers w c b (push_mac n w clear_right a (record c { live = c.live + 1 }) r)
  unfolding push_mac
  push_mac-Answers w clear_right a c b none h = h
  push_mac-Answers w clear_right a c b (some (i, b')) h =
      let j : MacInfo = record i { code = nf_datalink_packet } in
      finish-Answers w clear_right c b b'
        (pushdata (some (mac_bytes j)) (pos sizeof_mac_info) a c.driver) h
        (rw (length-mac_bytes j) at
          (pushdata-Pushed (some (mac_bytes j)) (pos sizeof_mac_info) a c.driver))

  if-Answers :
      (w : Wdk) (c : Classify) (b : NetBuffer) (t : Bool) (x y : Option (Classify × NetBuffer))
      → Answers w c b x
      → Answers w c b y
      → Answers w c b (if t then x else y)
  if-Answers w c b true x y hx hy = hx
  if-Answers w c b false x y hx hy = hy

  classify_direction-Answers :
      (w : Wdk) (v : MacValues) (clear_right allocated : Bool) (a : Alloc) (dir : Option ℕ)
      (c : Classify) (b : NetBuffer)
      → Answers w c b (classify_direction n w v clear_right allocated a dir c b)
  unfolding classify_direction
  classify_direction-Answers w v clear_right allocated a none c b =
      (refl, refl, Pushed-refl c.driver, inl (refl, refl))
  classify_direction-Answers w v clear_right allocated a (some dir) c b =
      if-Answers w c b allocated _ _
        (push_mac-Answers w clear_right a c b (parse_frame n w dir (mac_start dir v) b)
          (parse_frame-Restored w dir (mac_start dir v) b))
        (refl, refl, Pushed-refl c.driver, inr (refl, refl))

  -- Whatever the layer, the memory and the frame are, a callback over a frame of at least 74 bytes
  -- returns; one that returns has put the net buffer back, holds no entry, keeps the account of the
  -- packet lists, and permits the frame with the rights left alone, or blocks and absorbs it and
  -- sends nothing.
  pub class_fn_mac-Answers :
      (w : Wdk) (v : MacValues) (clear_right allocated : Bool) (a : Alloc) (c : Classify)
      (b : NetBuffer)
      → Answers w c b (class_fn_mac n w v clear_right allocated a c b)
  unfolding class_fn_mac
  class_fn_mac-Answers w v clear_right allocated a c b =
      if-Answers w c b (c.driver.monitor_flag == 0) _ _
        (refl, refl, Pushed-refl c.driver, inl (refl, refl))
        (classify_direction-Answers w v clear_right allocated a (direction v.layer) c b)
