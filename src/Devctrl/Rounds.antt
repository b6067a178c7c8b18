-- ===== src/Devctrl/Rounds.antt =====
-- A round of devctrl_ioThread of devctrl.c that finds a read to answer.
use wfpdriver.Shared.{
  ℕ, ◌+◌, ◌<◌, ◌≤◌, ◌≡◌, refl, ap, ◌∙◌, ◌⊎◌, Bool, true, false, Option, some, List, [], ◌∷◌, ◌++◌,
  length, All, if◌then◌else◌, arith,
}
use mathlib.Core.Path.{subst}
use wfpdriver.Nt.{success, sizeof_nf_read_result, nf_datalink_packet, nf_flowctx_packet}
use wfpdriver.State.{Driver, Irp, Completion}
use wfpdriver.Devctrl.Moved.{IsReady, sizes}
use wfpdriver.Devctrl.Serves.{count}
use wfpdriver.Devctrl.Drains.{fill_buffer-drains}
use wfpdriver.Devctrl.Keeps.{KeepsFill, fill_buffer-Keeps}
use wfpdriver.Devctrl.Reads.{
  complete, take_pending, answer_read, is_empty, service_reads, io_thread_round,
}

-- The cancel routine of a read is gone: its cancellation is on the way.
abbrev pub IsCancelling : Irp → Type 0
IsCancelling i = i.cancel_routine ≡ false

take_pending_lem :
    (before : List Irp) (irp : Irp) (rest : List Irp)
    → All IsCancelling before
    → irp.cancel_routine ≡ true
    → take_pending (before ++ irp ∷ rest)
      ≡ some (record irp { cancel_routine = false }, before ++ rest)
unfolding take_pending
take_pending_lem [] irp rest v h = rw h refl
take_pending_lem (i ∷ is) irp rest v h = ground (arith, v.0, take_pending_lem is irp rest v.1 h)

not_empty :
    (before : List Irp) (irp : Irp) (rest : List Irp) → is_empty (before ++ irp ∷ rest) ≡ false
unfolding is_empty
not_empty [] irp rest = refl
not_empty (i ∷ is) irp rest = refl

-- The answer to a read: NF_READ_RESULT holds how much of the shared buffer is filled.
abbrev pub read_answer : ℕ → ℕ → Completion
read_answer id off = record {
  irp_id = id;
  status = success;
  information = sizeof_nf_read_result;
  length = off;
}

-- What a round leaves that answers a read with all that is asked for.
pub record Answers (id : ℕ) (others : List Irp) (d : Driver) (off : ℕ) (d' : Driver) : Type 0 where
  pub pended : d'.pended ≡ others
  pub completed : d'.completed ≡ read_answer id off ∷ d.completed
  pub query : d'.query ≡ []
  pub frames : length d.datalink ≡ length d'.datalink + count nf_datalink_packet d.query
  pub flows : (count nf_flowctx_packet d.query ≡ 0) ⊎ (d'.flows ≡ [])
  pub filled : off + sizes d'.datalink + sizes d'.flows ≡ sizes d.datalink + sizes d.flows

answer_read-Answers :
    (irp : Irp) (others : List Irp) (d : Driver)
    → irp.system_address ≡ true
    → d.pended ≡ others
    → IsReady d
    → count nf_datalink_packet d.query ≤ length d.datalink
    → sizes d.datalink + sizes d.flows < d.in_buf.buffer_length
    → (off : ℕ) × (d' : Driver) × (answer_read irp d ≡ some d') × Answers irp.id others d off d'
unfolding answer_read complete
answer_read-Answers irp others d s p r c h =
    let (off, e, filled, q, f, g, z) = fill_buffer-drains d r c h in
    let k : KeepsFill d (some (off, e)) = subst (KeepsFill d) filled (fill_buffer-Keeps d) in
    (
      off,
      complete irp.id success sizeof_nf_read_result off e,
      rw s (rw (filled, answer_read) refl),
      record {
        pended = k.0 ∙ p;
        completed = ap (◌∷◌ (read_answer irp.id off)) k.1;
        query = q;
        frames = f;
        flows = g;
        filled = z;
      },
    )

service_reads_lem :
    (d : Driver) (before : List Irp) (irp : Irp) (rest : List Irp) (code : ℕ) (codes : List ℕ)
    → d.pended ≡ before ++ irp ∷ rest
    → All IsCancelling before
    → irp.cancel_routine ≡ true
    → d.query ≡ code ∷ codes
    → service_reads d
      ≡ answer_read (record irp { cancel_routine = false }) (record d { pended = before ++ rest })
unfolding service_reads is_empty
service_reads_lem d before irp rest code codes p b a q =
    let some_reads : is_empty d.pended ≡ false = ap is_empty p ∙ not_empty before irp rest in
    let some_queries : is_empty d.query ≡ false = ap is_empty q in
    rw some_reads
      (rw some_queries (rw (ap take_pending p ∙ take_pending_lem before irp rest b a) refl))

round_lem :
    (d x : Driver)
    → d.shutdown ≡ false
    → service_reads (record d { io_event = false }) ≡ some x
    → io_thread_round d ≡ some (true, x)
unfolding io_thread_round
round_lem d x run e = rw e (if_false (some (false, record d { io_event = false })) run)
  where
    if_false :
        {b : Bool} {v : Option (Bool × Driver)} (u : Option (Bool × Driver))
        → b ≡ false
        → (if b then u else v) ≡ v
    if_false u h = rw h refl

-- If a read waits whose cancellation has not begun and whose result can be addressed, a packet is asked
-- for, the packets are whole, the shared buffer is mapped and has room for all packets and a byte to spare, and there is a frame for every frame query, then a round of the I/O
-- thread, unless it shuts down, completes the first such read with the number of bytes that it put into
-- the buffer, leaves the other reads, and serves every query.
pub io_thread_round-Answers :
    (d : Driver) (before : List Irp) (irp : Irp) (rest : List Irp) (code : ℕ) (codes : List ℕ)
    → d.shutdown ≡ false
    → d.pended ≡ before ++ irp ∷ rest
    → All IsCancelling before
    → irp.cancel_routine ≡ true
    → irp.system_address ≡ true
    → d.query ≡ code ∷ codes
    → IsReady d
    → count nf_datalink_packet d.query ≤ length d.datalink
    → sizes d.datalink + sizes d.flows < d.in_buf.buffer_length
    → (off : ℕ) × (d' : Driver) × (io_thread_round d ≡ some (true, d'))
      × Answers irp.id (before ++ rest) d off d'
unfolding io_thread_round
io_thread_round-Answers d before irp rest code codes run p b a s q r c h =
    let others = before ++ rest in
    let e : Driver = record d { io_event = false; pended = others } in
    let taken : Irp = record irp { cancel_routine = false } in
    let (off, d', answer, done) =
      answer_read-Answers taken others e s refl
        (record { mapped = r.mapped; frames = r.frames; flows = r.flows }) c h in
    (
      off,
      d',
      round_lem d d' run (
          service_reads_lem (record d { io_event = false }) before irp rest code codes p b a q
          ∙ answer),
      record {
        pended = done.pended;
        completed = done.completed;
        query = done.query;
        frames = done.frames;
        flows = done.flows;
        filled = done.filled;
      },
    )
