-- ===== src/Devctrl/FillMoves.antt =====
-- devctrl_fillBuffer of devctrl.c: what one call moves into the shared buffer.
use wfpdriver.Shared.{
  ℕ, ◌+◌, ◌-◌, ◌≤◌, ◌<◌, ◌≡◌, ◌≢◌, refl, ap, ◌⊎◌, inl, inr, Option, none, some, List, [], ◌∷◌, ◌++◌,
  ◌==◌, All, Bool-cases, arith,
}
use wfpdriver.Nt.{nt_success, nf_datalink_packet, nf_flowctx_packet}
use wfpdriver.Packets.Alloc.{IsPacket}
use wfpdriver.State.{Driver}
use wfpdriver.Devctrl.Fill.{fill_loop, fill_buffer}
use wfpdriver.Devctrl.Delivery.{
  Entry, IsEntry, total_size, Framed, place_all-Framed, place_all-mapped,
}
use wfpdriver.Devctrl.Moved.{
  Moved, Moved-refl, Moved-trans, IsReady, sizes, sizes-append, frames_of, flows_of,
}
use wfpdriver.Devctrl.PopMoves.{Stuck, pop_by_code-Pops}

-- The loop returns after moving `es`, or leaves the mapping after moving `es`.
abbrev pub Fills : ℕ → Driver → Option (ℕ × Driver) → Type 0
Fills off d r =
    (es : List Entry) × (off' : ℕ) × (d' : Driver) × (r ≡ some (off', d')) × Moved es off d off' d'

abbrev pub Overruns : ℕ → Driver → Option (ℕ × Driver) → Type 0
Overruns off d r =
    (es : List Entry) × (off' : ℕ) × (d' : Driver) × Moved es off d off' d' × Stuck off' d' r

-- The query list and its count do not matter to what is moved.
requery-Moved :
    (es : List Entry) (off off' : ℕ) (d d' : Driver) (q q' : List ℕ) (n n' : ℕ)
    → Moved es off (record d { query = q; query_live = n }) off' d'
    → Moved es off d off' (record d' { query = q'; query_live = n' })
requery-Moved es off off' d d' q q' n n' m = record {
  offset = m.offset;
  inside = m.inside;
  buffer = m.buffer;
  frames = m.frames;
  flows = m.flows;
  whole = m.whole;
  sized = m.sized;
  ready = record { mapped = m.ready.mapped; frames = m.ready.frames; flows = m.ready.flows };
  pended = m.pended;
  completed = m.completed;
}

extend_Moves :
    (es : List Entry) (off off' : ℕ) (d d' : Driver) (r : Option (ℕ × Driver))
    → Moved es off d off' d'
    → Fills off' d' r ⊎ Overruns off' d' r
    → Fills off d r ⊎ Overruns off d r
extend_Moves es off off' d d' r m (inl (fs, o, d'', e, k)) =
    inl (es ++ fs, o, d'', e, Moved-trans es fs off off' o d d' d'' m k)
extend_Moves es off off' d d' r m (inr (fs, o, d'', k, s)) =
    inr (es ++ fs, o, d'', Moved-trans es fs off off' o d d' d'' m k, s)

pub fill_loop-Moves :
    (codes : List ℕ) (off : ℕ) (d : Driver)
    → IsReady d
    → off ≤ d.in_buf.buffer_length
    → Fills off d (fill_loop codes off d) ⊎ Overruns off d (fill_loop codes off d)
unfolding fill_loop
fill_loop-Moves [] off d r h = inl (
  [],
  off,
  record d { query = [] },
  refl,
  requery-Moved [] off off d d d.query [] d.query_live d.query_live (Moved-refl off d r h),
)
fill_loop-Moves (code ∷ rest) off d r h =
    elim (pop_by_code-Pops code off (record d { query = rest }) ready h) [
      | inr stuck ↦ inr (
        [],
        off,
        record d { query = rest },
        requery-Moved [] off off d d d.query rest d.query_live d.query_live (Moved-refl off d r h),
        (stuck.0, stuck.1, rw (stuck.2, fill_loop)),
      )
      | inl (es, status, off', d', e, m) ↦ elim (Bool-cases (nt_success status)) [
        | inl good ↦
            let d'' : Driver = record d' { query_live = d'.query_live - 1 } in
            let m' : Moved es off d off' d'' =
              requery-Moved es off off' d d' rest d'.query d.query_live (d'.query_live - 1) m in
            rw (e, fill_loop, good)
              (extend_Moves es off off' d d'' (fill_loop rest off' d'') m'
                (fill_loop-Moves rest off' d'' m'.ready m'.inside))
        | inr bad ↦ inl (
          es,
          off',
          record d' { query = code ∷ rest },
          rw (e, fill_loop, bad),
          requery-Moved es off off' d d' rest (code ∷ rest) d.query_live d'.query_live m,
        )
      ]
    ]
  where
    ready : IsReady (record d { query = rest })
    ready = record { mapped = r.mapped; frames = r.frames; flows = r.flows }

-- A whole packet under the code of its list.
abbrev pub IsKnown : Entry → Type 0
IsKnown e = ((e.code ≡ nf_datalink_packet) ⊎ (e.code ≡ nf_flowctx_packet)) × IsPacket e.packet

sizes_at_most : (es : List Entry) → sizes (frames_of es) + sizes (flows_of es) ≤ total_size es
sizes_at_most [] = omega arith
sizes_at_most (e ∷ es) = ground (arith, sizes_at_most es)

-- A record of neither code would take room that no packet accounts for.
sized-IsKnown :
    (es : List Entry)
    → All IsEntry es
    → total_size es ≡ sizes (frames_of es) + sizes (flows_of es)
    → All IsKnown es
sized-IsKnown [] w s = tt
sized-IsKnown (e ∷ es) w s = elim (Bool-cases (e.code == nf_datalink_packet)) [
  | inl frame ↦
      let c : e.code ≡ 1 = ground (arith, frame) in
      ((inl c, w.0), sized-IsKnown es w.1 (ground (arith, s, c)))
  | inr other ↦ elim (Bool-cases (e.code == nf_flowctx_packet)) [
    | inl flow ↦
        let c : e.code ≡ 2 = ground (arith, flow) in
        ((inr c, w.0), sized-IsKnown es w.1 (ground (arith, s, c)))
    | inr neither ↦ absurd (ground (arith, s, other, neither, sizes_at_most es))
  ]
]

-- What one call of devctrl_fillBuffer may have done. `es` are the records written so far.
abbrev pub Delivers : Driver → Type 0
Delivers d =
    ((es : List Entry) × (off : ℕ) × (d' : Driver) × (fill_buffer d ≡ some (off, d'))
      × All IsKnown es
      × (off ≡ total_size es)
      × (off ≤ d.in_buf.buffer_length)
      × Framed d'.in_buf.bytes 0 es
      × (d.datalink ≡ frames_of es ++ d'.datalink)
      × (d.flows ≡ flows_of es ++ d'.flows))
    ⊎ ((es : List Entry) × (d' : Driver) × (fill_buffer d ≡ none)
        × All IsKnown es
        × (total_size es ≡ d.in_buf.buffer_length)
        × (d.datalink ≡ frames_of es ++ d'.datalink)
        × (d.flows ≡ flows_of es ++ d'.flows)
        × (d'.flows ≢ []))

-- One call of devctrl_fillBuffer over a mapped buffer and whole packets. Either it returns an offset
-- inside the buffer, the bytes below the offset hold the records of packets that were taken in
-- order off the heads of the two lists, each record as long as `data_size` says and under the code of
-- its list, and every other packet is still on its list; or it leaves the mapping, and then a front
-- part of each list is such that its records, and nothing else, fill the buffer to its last byte, and a
-- flow packet is waiting behind them.
pub fill_buffer-Moves : (d : Driver) → IsReady d → Delivers d
unfolding fill_buffer
fill_buffer-Moves d r = elim (fill_loop-Moves d.query 0 d r (omega arith)) [
  | inl (es, off, d', e, m) ↦ inl (
    es,
    off,
    d',
    e,
    sized-IsKnown es m.whole m.sized,
    omega (arith, m.offset),
    same es off d' m,
    rw m.buffer (place_all-Framed es 0 d.in_buf m.whole),
    m.frames,
    m.flows,
  )
  | inr (es, off, d', m, s) ↦ inr (
    es,
    d',
    s.2,
    sized-IsKnown es m.whole m.sized,
    omega (
      arith,
      m.offset,
      s.0,
      ap (λ b. b.buffer_length) m.buffer,
      (place_all-mapped es 0 d.in_buf).1,
    ),
    m.frames,
    m.flows,
    s.1,
  )
]
  where
    same :
        (es : List Entry) (off : ℕ) (d' : Driver)
        → Moved es 0 d off d'
        → off ≤ d.in_buf.buffer_length
    same es off d' m =
        omega
          (arith, m.inside, ap (λ b. b.buffer_length) m.buffer, (place_all-mapped es 0 d.in_buf).1)

-- Over a mapped buffer and whole packets, with room for every waiting packet and a byte to spare,
-- devctrl_fillBuffer returns.
pub fill_buffer-returns :
    (d : Driver)
    → IsReady d
    → sizes d.datalink + sizes d.flows < d.in_buf.buffer_length
    → (off : ℕ) × (d' : Driver) × (fill_buffer d ≡ some (off, d'))
unfolding fill_buffer
fill_buffer-returns d r h = elim (fill_loop-Moves d.query 0 d r (omega arith)) [
  | inl (es, off, d', e, m) ↦ (off, d', e)
  | inr (es, off, d', m, s) ↦ absurd (
      omega (
        arith,
        m.offset,
        s.0,
        ap (λ b. b.buffer_length) m.buffer,
        (place_all-mapped es 0 d.in_buf).1,
        m.sized,
        ap sizes m.frames,
        ap sizes m.flows,
        sizes-append (frames_of es) d'.datalink,
        sizes-append (flows_of es) d'.flows,
      ))
]
