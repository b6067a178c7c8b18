-- ===== src/Devctrl/Serves.antt =====
-- What one pop of devctrl.c does when there is room for every waiting packet.
use wfpdriver.Shared.{
  ℕ, ◌+◌, ◌-◌, ◌<◌, ◌≤◌, ◌≡◌, ◌≢◌, refl, sym, ap, ◌∙◌, ◌⊎◌, inl, inr, some, List, [], ◌∷◌, ◌++◌,
  length, ltb, true, false, ◌==◌, if◌then◌else◌, Bool-cases, le→not-ltb, arith,
}
use mathlib.Core.Path.{subst₂}
use wfpdriver.Nt.{Status, success, nf_datalink_packet, nf_flowctx_packet}
use wfpdriver.State.{Driver, Packet}
use wfpdriver.Devctrl.Pop.{data_size}
use wfpdriver.Devctrl.Fill.{pop_by_code}
use wfpdriver.Devctrl.Frame.{placed}
use wfpdriver.Devctrl.Delivery.{Entry, place_all-mapped}
use wfpdriver.Devctrl.Room.{sent, left}
use wfpdriver.Devctrl.Popping.{pop_data_link_data_lem, flow_result, pop_flowestablished_data_lem}
use wfpdriver.Devctrl.Moved.{Moved, IsReady, sizes, sizes-append, frames_of, flows_of}
use wfpdriver.Devctrl.PopMoves.{pop_by_code-Pops}

abbrev pub count : ℕ → List ℕ → ℕ
count c [] = 0
count c (x ∷ xs) = (if x == c then 1 else 0) + count c xs

-- With room for all of a list, nothing of it is left.
left_nil : (len off : ℕ) (ps : List Packet) → off + sizes ps < len → left len off ps ≡ []
left_nil len off [] h = refl
left_nil len off (p ∷ ps) h = ground (arith, left_nil len (off + data_size p) ps)

-- One query has been served: the packets that it stands for are gone, and what is left still fits.
pub record Served (code off : ℕ) (d : Driver) (off' : ℕ) (d' : Driver) : Type 0 where
  pub ready : IsReady d'
  pub fits : off' + sizes d'.datalink + sizes d'.flows ≡ off + sizes d.datalink + sizes d.flows
  pub len : d'.in_buf.buffer_length ≡ d.in_buf.buffer_length
  pub frames :
      length d.datalink ≡ length d'.datalink + (if code == nf_datalink_packet then 1 else 0)
  pub flows : (code ≢ nf_flowctx_packet) ⊎ (d'.flows ≡ [])
  pub emptied : d.flows ≡ [] → d'.flows ≡ []

append_nil : (xs ys : List Packet) → [] ≡ xs ++ ys → ys ≡ []
append_nil [] ys h = sym h
append_nil (x ∷ xs) ys h = cc

Moved-Served :
    (code : ℕ) (es : List Entry) (off off' : ℕ) (d d' : Driver)
    → Moved es off d off' d'
    → length d.datalink ≡ length d'.datalink + (if code == nf_datalink_packet then 1 else 0)
    → (code ≢ nf_flowctx_packet) ⊎ (d'.flows ≡ [])
    → Served code off d off' d'
Moved-Served code es off off' d d' m f g = record {
  ready = m.ready;
  fits = omega (
    arith,
    m.offset,
    m.sized,
    ap sizes m.frames,
    ap sizes m.flows,
    sizes-append (frames_of es) d'.datalink,
    sizes-append (flows_of es) d'.flows,
  );
  len = ap (λ b. b.buffer_length) m.buffer ∙ (place_all-mapped es off d.in_buf).1;
  frames = f;
  flows = g;
  emptied = λ e. append_nil (flows_of es) d'.flows (sym e ∙ m.flows);
}

unfoldable pub PopServes : ℕ → ℕ → Driver → Type 0
PopServes code off d =
    (off' : ℕ) × (d' : Driver) × (pop_by_code code off d ≡ some (success, off', d'))
    × Served code off d off' d'

some_inj : {x y : Status × ℕ × Driver} → some x ≡ some y → x ≡ y
some_inj e = cc

closed-PopServes :
    (code off : ℕ) (d : Driver) (off' : ℕ) (d' : Driver)
    → IsReady d
    → off < d.in_buf.buffer_length
    → pop_by_code code off d ≡ some (success, off', d')
    → length d.datalink ≡ length d'.datalink + (if code == nf_datalink_packet then 1 else 0)
    → (code ≢ nf_flowctx_packet) ⊎ (d'.flows ≡ [])
    → PopServes code off d
unfolding PopServes
closed-PopServes code off d off' d' r h c f g = elim (pop_by_code-Pops code off d r (omega arith)) [
  | inr stuck ↦ absurd (omega (arith, stuck.0))
  | inl (es, status, o, d'', e, m) ↦
      let q = some_inj (sym e ∙ c) in
      (
        off',
        d',
        c,
        Moved-Served code es off off' d d'
            (subst₂ (λ x y. Moved es off d x y) (ap (λ t. t.1) q) (ap (λ t. t.2) q) m) f g,
      )
]

frame-PopServes :
    (off : ℕ) (d : Driver) (p : Packet) (rest : List Packet)
    → d.datalink ≡ p ∷ rest
    → IsReady d
    → off + sizes d.datalink + sizes d.flows < d.in_buf.buffer_length
    → PopServes nf_datalink_packet off d
unfolding pop_by_code
frame-PopServes off d p rest e r h =
    closed-PopServes nf_datalink_packet off d (off + data_size p) taken r (omega arith)
      (pop_data_link_data_lem d off (p ∷ rest) e (rw e at r.frames) r.mapped (omega arith)
        ∙ rw (room))
      (rw e (omega arith)) (inl (omega arith))
  where
    taken : Driver
    taken = record d {
      datalink = rest;
      datalink_live = d.datalink_live - 1;
      in_buf = placed nf_datalink_packet 0 p off d.in_buf;
    }

    room : ltb (d.in_buf.buffer_length - off) (data_size p) ≡ false
    room = le→not-ltb _ _ (omega (arith, ap sizes e))

flow-PopServes :
    (off : ℕ) (d : Driver)
    → IsReady d
    → off + sizes d.datalink + sizes d.flows < d.in_buf.buffer_length
    → PopServes nf_flowctx_packet off d
unfolding pop_by_code
flow-PopServes off d r h =
    closed-PopServes nf_flowctx_packet off d _ _ r (omega arith)
      (pop_flowestablished_data_lem d off r.flows r.mapped (omega arith)
        ∙ ap (λ l. some (flow_result (sent d.in_buf.buffer_length off d.flows) l off d))
            (left_nil d.in_buf.buffer_length off d.flows (omega arith)))
      (omega arith) (inr refl)

other-PopServes :
    (code off : ℕ) (d : Driver)
    → (code == nf_datalink_packet) ≡ false
    → (code == nf_flowctx_packet) ≡ false
    → IsReady d
    → off < d.in_buf.buffer_length
    → PopServes code off d
unfolding pop_by_code
other-PopServes code off d n m r h =
    closed-PopServes code off d off d r h (rw (n, m)) (rw n (omega arith)) (inl (ground (arith, m)))

pub pop-PopServes :
    (code off : ℕ) (d : Driver) (rest : List ℕ)
    → count nf_datalink_packet (code ∷ rest) ≤ length d.datalink
    → IsReady d
    → off + sizes d.datalink + sizes d.flows < d.in_buf.buffer_length
    → PopServes code off d
pop-PopServes code off d rest c r h = elim (Bool-cases (code == nf_datalink_packet)) [
  | inl one ↦ frame_code code off d rest d.datalink refl one c r h
  | inr n ↦ elim (Bool-cases (code == nf_flowctx_packet)) [
    | inl two ↦ rw (code_is code nf_flowctx_packet two) (flow-PopServes off d r h)
    | inr m ↦ other-PopServes code off d n m r (omega arith)
  ]
]
  where
    code_is : (a b : ℕ) → (a == b) ≡ true → a ≡ b
    code_is a b e = ground arith

    frame_code :
        (code off : ℕ) (d : Driver) (rest : List ℕ) (ps : List Packet)
        → d.datalink ≡ ps
        → (code == nf_datalink_packet) ≡ true
        → count nf_datalink_packet (code ∷ rest) ≤ length d.datalink
        → IsReady d
        → off + sizes d.datalink + sizes d.flows < d.in_buf.buffer_length
        → PopServes code off d
    frame_code code off d rest [] e one c r h = absurd (ground (arith, e, one))
    frame_code code off d rest (p ∷ ps) e one c r h =
        rw (code_is code nf_datalink_packet one) (frame-PopServes off d p ps e r h)
