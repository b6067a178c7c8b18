-- ===== src/Devctrl/Drains.antt =====
-- When one call of devctrl_fillBuffer of devctrl.c serves every query.
use wfpdriver.Shared.{
  ℕ, ◌+◌, ◌-◌, ◌<◌, ◌≤◌, ◌≡◌, ◌≢◌, refl, ◌∙◌, ◌⊎◌, inl, inr, some, List, [], ◌∷◌, length, arith,
}
use wfpdriver.Nt.{nf_datalink_packet, nf_flowctx_packet}
use wfpdriver.State.{Driver}
use wfpdriver.Devctrl.Fill.{fill_loop, fill_buffer}
use wfpdriver.Devctrl.Moved.{IsReady, sizes}
use wfpdriver.Devctrl.Serves.{count, PopServes, pop-PopServes}

-- All queries of a list have been served.
record Drained (codes : List ℕ) (off : ℕ) (d : Driver) (off' : ℕ) (d' : Driver) : Type 0 where
  query : d'.query ≡ []
  fits : off' + sizes d'.datalink + sizes d'.flows ≡ off + sizes d.datalink + sizes d.flows
  frames : length d.datalink ≡ length d'.datalink + count nf_datalink_packet codes
  flows : (count nf_flowctx_packet codes ≡ 0) ⊎ (d'.flows ≡ [])
  emptied : d.flows ≡ [] → d'.flows ≡ []

Drains : List ℕ → ℕ → Driver → Type 0
Drains codes off d =
    (off' : ℕ) × (d' : Driver) × (fill_loop codes off d ≡ some (off', d'))
    × Drained codes off d off' d'

flows_after :
    (code : ℕ) (codes : List ℕ) (x y : Driver)
    → (code ≢ nf_flowctx_packet) ⊎ (x.flows ≡ [])
    → (x.flows ≡ [] → y.flows ≡ [])
    → (count nf_flowctx_packet codes ≡ 0) ⊎ (y.flows ≡ [])
    → (count nf_flowctx_packet (code ∷ codes) ≡ 0) ⊎ (y.flows ≡ [])
flows_after code codes x y (inl other) keep (inl none_left) = inl (ground (arith, other))
flows_after code codes x y (inr gone) keep (inl none_left) = inr (keep gone)
flows_after code codes x y first keep (inr gone) = inr gone

requery-IsReady :
    (d : Driver) (q : List ℕ) (n : ℕ) → IsReady d → IsReady (record d { query = q; query_live = n })
requery-IsReady d q n r = record { mapped = r.mapped; frames = r.frames; flows = r.flows }

fill_loop-Drains :
    (codes : List ℕ) (off : ℕ) (d : Driver)
    → IsReady d
    → count nf_datalink_packet codes ≤ length d.datalink
    → off + sizes d.datalink + sizes d.flows < d.in_buf.buffer_length
    → Drains codes off d
unfolding Drains PopServes fill_loop
fill_loop-Drains [] off d r c h = (
  off,
  record d { query = [] },
  refl,
  record { query = refl; fits = refl; frames = omega arith; flows = inl refl; emptied = λ e. e },
)
fill_loop-Drains (code ∷ codes) off d r c h =
    let (o, d', e, s) =
      pop-PopServes code off (record d { query = codes }) codes c
        (requery-IsReady d codes d.query_live r) h in
    let d'' : Driver = record d' { query_live = d'.query_live - 1 } in
    let (off', end, q, t) =
      fill_loop-Drains codes o d'' (requery-IsReady d' d'.query (d'.query_live - 1) s.ready)
        (omega (arith, s.frames)) (omega (arith, s.fits, s.len)) in
    (
      off',
      end,
      rw (e, fill_loop) q,
      record {
        query = t.query;
        fits = t.fits ∙ s.fits;
        frames = omega (arith, s.frames, t.frames);
        flows = flows_after code codes d' end s.flows t.emptied t.flows;
        emptied = λ z. t.emptied (s.emptied z);
      },
    )

-- Over a mapped buffer and whole packets, with room for every waiting packet and a byte to spare, and a
-- frame for every frame query, one call of devctrl_fillBuffer returns and serves every query: none is left, as many frames have gone as
-- there were frame queries, the flows are all gone if there was a flow query, and the bytes written
-- are those of the packets that went.
pub fill_buffer-drains :
    (d : Driver)
    → IsReady d
    → count nf_datalink_packet d.query ≤ length d.datalink
    → sizes d.datalink + sizes d.flows < d.in_buf.buffer_length
    → (off : ℕ) × (d' : Driver) × (fill_buffer d ≡ some (off, d'))
      × (d'.query ≡ [])
      × (length d.datalink ≡ length d'.datalink + count nf_datalink_packet d.query)
      × ((count nf_flowctx_packet d.query ≡ 0) ⊎ (d'.flows ≡ []))
      × (off + sizes d'.datalink + sizes d'.flows ≡ sizes d.datalink + sizes d.flows)
unfolding fill_buffer Drains
fill_buffer-drains d r c h =
    let (off, d', e, t) = fill_loop-Drains d.query 0 d r c (omega arith) in
    (off, d', e, t.query, t.frames, t.flows, omega (arith, t.fits))
