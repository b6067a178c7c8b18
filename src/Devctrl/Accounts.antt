-- ===== src/Devctrl/Accounts.antt =====
-- No frame entry and no query entry of the driver is lost, whatever events come one
-- after the other.
use wfpdriver.Shared.{
  ℕ, ◌-◌, ◌≡◌, refl, ap, sym, ◌∙◌, inl, inr, false, Bool-cases, Option, none, some, Option-cases,
  List, [], ◌∷◌, length, ltb, sub64, add64, ℤ, arith,
}
use wfpdriver.Nt.{Status, success, no_memory, nt_success, nf_flowctx_packet}
use wfpdriver.State.{Driver, Packet, Irp}
use wfpdriver.Packets.Alloc.{Alloc}
use wfpdriver.Packets.Datalink
use wfpdriver.Packets.Established
use wfpdriver.Packets.DatalinkLaws
use wfpdriver.Packets.EstablishedLaws
use wfpdriver.Devctrl.Pop.{
  Popped, data_size, put_data, finish_flow, finish_data_link, pop_first_data_link,
  pop_data_link_data, pop_flows, pop_flowestablished_data,
}
use wfpdriver.Devctrl.Fill.{pop_by_code, fill_loop, fill_buffer}
use wfpdriver.Devctrl.Push.{set_event}
use wfpdriver.Devctrl.Reads.{
  read1, finish_read, try_pend, pend, complete, cancel_read, take_pending, answer_read,
  service_reads, io_thread_round,
}
use wfpdriver.Devctrl.Events.{
  Event, read, cancel_begins, cancel_runs, frame, flow, io_round, after, step, run,
}

-- The entries out of the lookaside lists of frames and of queries are those that wait.
abbrev pub Accounts : Driver → Type 0
Accounts d = (d.datalink_live ≡ length d.datalink) × (d.query_live ≡ length d.query)

abbrev AccountsIf : Option Driver → Type 0
AccountsIf none = Unit {0}
AccountsIf (some d) = Accounts d

pushdata-Accounts :
    (packet : Option (List ℕ)) (lens : ℤ) (a : Alloc) (d : Driver)
    → Accounts d
    → AccountsIf (after (Datalink.pushdata packet lens a d))
pushdata-Accounts packet lens a d h = elim (Option-cases (Datalink.pushdata packet lens a d)) [
  | inl e ↦ rw e tt
  | inr ((status, d'), e) ↦
      let p = rw e at (DatalinkLaws.pushdata-Pushed packet lens a d) in
      rw e (omega (arith, h, p.entries), omega (arith, h, p.queries))
]

pushflow-Accounts :
    (packet : Option (List ℕ)) (lens : ℤ) (a : Alloc) (d : Driver)
    → Accounts d
    → AccountsIf (after (Established.pushflowestablishedctx packet lens a d))
pushflow-Accounts packet lens a d h =
    elim (Option-cases (Established.pushflowestablishedctx packet lens a d)) [
      | inl e ↦ rw e tt
      | inr ((status, d'), e) ↦
          let p = rw e at (EstablishedLaws.pushflowestablishedctx-Pushed packet lens a d) in
          rw e (p.other_live ∙ h.0 ∙ ap length (sym p.other_list), omega (arith, h, p.queries))
    ]

-- A pop keeps the account of the frames, and leaves the queries.
abbrev PopAccounts : ℕ → Popped → Type 0
PopAccounts n none = Unit {0}
PopAccounts n (some (status, off, d)) = (d.datalink_live ≡ length d.datalink) × (d.query_live ≡ n)

pop_first-Accounts :
    (ps : List Packet) (off : ℕ) (d : Driver)
    → d.datalink ≡ ps
    → d.datalink_live ≡ length d.datalink
    → PopAccounts d.query_live (pop_first_data_link ps off d)
unfolding pop_first_data_link finish_data_link Datalink.packfree
pop_first-Accounts [] off d e h = (h, refl)
pop_first-Accounts (p ∷ ps) off d e h = ground (arith, e, h)

finish_flow-Accounts :
    (last : Option Packet) (status : Status) (off : ℕ) (d : Driver)
    → d.datalink_live ≡ length d.datalink
    → PopAccounts d.query_live (some (finish_flow last (status, off, d)))
unfolding finish_flow Established.packfree
finish_flow-Accounts none status off d h = (h, refl)
finish_flow-Accounts (some p) status off d h = ground (arith, h)

pop_flows-Accounts :
    (ps : List Packet) (last : Option Packet) (off : ℕ) (d : Driver)
    → d.datalink_live ≡ length d.datalink
    → PopAccounts d.query_live (pop_flows ps last off d)
unfolding pop_flows
pop_flows-Accounts [] last off d h =
    finish_flow-Accounts last success off (record d { flows = [] }) h
pop_flows-Accounts (p ∷ rest) last off d h =
    elim (Bool-cases (ltb (sub64 (sub64 d.in_buf.buffer_length off) 1) (data_size p))) [
      | inl full ↦
          rw full (finish_flow-Accounts (some p) no_memory off (record d { flows = rest }) h)
      | inr room ↦ elim (Option-cases (put_data nf_flowctx_packet 520 p off d.in_buf)) [
        | inl n ↦ rw (room, n) tt
        | inr (s, q) ↦
            rw (room, q)
              (pop_flows-Accounts rest (some p) (add64 off (data_size p))
                (record d { flows = rest; in_buf = s }) h)
      ]
    ]

pop_by_code-Accounts :
    (code off : ℕ) (d : Driver)
    → d.datalink_live ≡ length d.datalink
    → PopAccounts d.query_live (pop_by_code code off d)
unfolding pop_by_code pop_data_link_data pop_flowestablished_data
pop_by_code-Accounts code off d h =
    ground (
      arith,
      h,
      pop_first-Accounts d.datalink off d refl h,
      pop_flows-Accounts d.flows none off d h,
    )

abbrev FillAccounts : Option (ℕ × Driver) → Type 0
FillAccounts none = Unit {0}
FillAccounts (some (off, d)) = Accounts d

fill_loop-Accounts :
    (codes : List ℕ) (off : ℕ) (d : Driver)
    → d.datalink_live ≡ length d.datalink
    → d.query_live ≡ length codes
    → FillAccounts (fill_loop codes off d)
unfolding fill_loop
fill_loop-Accounts [] off d h q = (h, q)
fill_loop-Accounts (code ∷ codes) off d h q =
    elim (Option-cases (pop_by_code code off (record d { query = codes }))) [
      | inl n ↦ rw (n, fill_loop) tt
      | inr ((status, off', d'), e) ↦
          let k : PopAccounts d.query_live (some (status, off', d')) =
            rw e at (pop_by_code-Accounts code off (record d { query = codes }) h) in
          elim (Bool-cases (nt_success status)) [
            | inl good ↦
                rw (e, fill_loop, good)
                  (fill_loop-Accounts codes off' (record d' { query_live = d'.query_live - 1 }) k.0
                    (omega (arith, k.1, q)))
            | inr bad ↦ rw (e, fill_loop, bad) (k.0, k.1 ∙ q)
          ]
    ]

answer_read-Accounts : (irp : Irp) (d : Driver) → Accounts d → AccountsIf (answer_read irp d)
unfolding answer_read complete fill_buffer
answer_read-Accounts irp d h = ground (arith, h, fill_loop-Accounts d.query 0 d h.0 h.1)

io_thread_round-Accounts : (d : Driver) → Accounts d → AccountsIf (after (io_thread_round d))
unfolding io_thread_round service_reads
io_thread_round-Accounts d h = elim (Option-cases (take_pending d.pended)) [
  | inl n ↦ ground (arith, n, h)
  | inr ((irp, rest), e) ↦
      ground
        (arith, e, h, answer_read-Accounts irp (record d { io_event = false; pended = rest }) h)
]

step-Accounts : (e : Event) (d : Driver) → Accounts d → AccountsIf (step e d)
unfolding step read1 finish_read try_pend pend complete set_event cancel_read
step-Accounts (read raced irp) d h = ground (arith, h)
step-Accounts (cancel_begins id) d h = h
step-Accounts (cancel_runs id) d h = ground (arith, h)
step-Accounts (frame packet lens a) d h = pushdata-Accounts packet lens a d h
step-Accounts (flow packet lens a) d h = pushflow-Accounts packet lens a d h
step-Accounts io_round d h = io_thread_round-Accounts d h

-- If the entries out of the lookaside lists of frames and of queries are those that wait, they still are
-- after any reads, cancellations, captured packets, failed allocations and rounds of the thread in
-- whatever order, as long as none of them faults: no such entry leaks.
pub run-Accounts : (es : List Event) (d d' : Driver) → run es d ≡ some d' → Accounts d → Accounts d'
unfolding run
run-Accounts [] d d' e h = ground (arith, h)
run-Accounts (x ∷ es) d d' e h = elim (Option-cases (step x d)) [
  | inl n ↦ ground (arith, n)
  | inr (m, s) ↦ run-Accounts es m d' (rw (s, run) at e) (rw s at (step-Accounts x d h))
]
