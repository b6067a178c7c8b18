-- ===== src/Packets/DatalinkLaws.antt =====
-- What a push of datalinkctx.c leaves in the driver, on every branch.
use wfpdriver.Shared.{
  ℕ, suc, ◌+◌, ◌-◌, ◌≤◌, ◌≡◌, ◌∙◌, ◌⊎◌, inl, inr, Bool, true, false, Option, none, some,
  Option-cases, Memory, List, [], ◌∷◌, take, length, ℤ, pos, negsuc, region, arith, ◌<◌, refl,
  as_ulong,
}
use wfpdriver.Nt.{Status, success, nf_datalink_packet}
use wfpdriver.State.{Driver, Packet}
use wfpdriver.Packets.Alloc.{
  Alloc, data_block, fill_packet, fill_packet-data_block, fill_packet_faults,
}
use wfpdriver.Packets.Datalink.{push_filled, pushdata, clean_all, clean}

-- Every entry that is out of the lookaside lists is on its list, and nothing else changed but the
-- event.
pub record Pushed (d d' : Driver) : Type 0 where
  pub entries : d'.datalink_live + length d.datalink ≡ d.datalink_live + length d'.datalink
  pub queries : d'.query_live + length d.query ≡ d.query_live + length d'.query
  pub pended : d'.pended ≡ d.pended
  pub completed : d'.completed ≡ d.completed
  pub monitor : d'.monitor_flag ≡ d.monitor_flag
  pub other_list : d'.flows ≡ d.flows
  pub other_live : d'.flow_live ≡ d.flow_live
  pub in_buf : d'.in_buf ≡ d.in_buf
  pub out_buf : d'.out_buf ≡ d.out_buf
  pub mm : d'.mm ≡ d.mm
  pub shutdown : d'.shutdown ≡ d.shutdown

pub Pushed-refl : (d : Driver) → Pushed d d
Pushed-refl d = record {
  entries = refl;
  queries = refl;
  pended = refl;
  completed = refl;
  monitor = refl;
  other_list = refl;
  other_live = refl;
  in_buf = refl;
  out_buf = refl;
  mm = refl;
  shutdown = refl;
}

-- A fault is an access behind the end of the caller's region: it has fewer bytes than the push is
-- asked for.
abbrev pub PushedIf : ℕ → ℕ → Driver → Option (Status × Driver) → Type 0
PushedIf have want d none = have < want
PushedIf have want d (some (status, d')) = Pushed d d'

push_filled-Pushed :
    (have want : ℕ) (query : Bool) (p : Option Packet) (d : Driver) (n : ℕ) (ps : List Packet)
    → (p ≡ none → have < want)
    → PushedIf have want
        (record d { datalink_live = n; datalink = ps })
        (push_filled query p (record d { datalink_live = n + 1; datalink = ps }))
unfolding push_filled
push_filled-Pushed have want query none d n ps h = h refl
push_filled-Pushed have want query (some p) d n ps h = ground arith

-- Whichever allocation fails, a push of a packet with at least `lens` readable bytes returns, the
-- count of entries out of the lookaside lists moves with the two lists, and nothing else changes but
-- the event. It faults only if the region is shorter than `lens`.
pub pushdata-Pushed :
    (packet : Option (List ℕ)) (lens : ℤ) (a : Alloc) (d : Driver)
    → PushedIf (length (region packet)) (as_ulong lens) d (pushdata packet lens a d)
unfolding pushdata
pushdata-Pushed packet (negsuc n) a d = ground arith
pushdata-Pushed packet (pos n) a d = elim (Option-cases (data_block n a.buffer)) [
  | inl e ↦ ground (arith, e)
  | inr (b, e) ↦ ground (
    arith,
    e,
    push_filled-Pushed (length (region packet)) n a.query
        (fill_packet (region packet) n (record { data_buffer = b; data_length = 0 })) d
        d.datalink_live d.datalink (fill_packet_faults (region packet) n a.buffer b e),
  )
]

-- With memory for everything, a push of a readable packet puts a copy of its first bytes at the
-- head of the list, its code at the head of the queries, and wakes the thread.
pub pushdata_lem :
    (bytes : List ℕ) (n : ℕ) (a : Alloc) (stale : Memory) (d : Driver)
    → a.entry ≡ true
    → a.buffer ≡ some stale
    → a.query ≡ true
    → suc n ≤ length bytes
    → pushdata (some bytes) (pos (suc n)) a d
      ≡ some (
        success,
        record d {
          datalink =
              record { data_buffer = some (take (suc n) bytes); data_length = suc n } ∷ d.datalink;
          datalink_live = d.datalink_live + 1;
          query = nf_datalink_packet ∷ d.query;
          query_live = d.query_live + 1;
          io_event = true;
        },
      )
unfolding pushdata data_block
pushdata_lem bytes n a stale d e b q h =
    ground (arith, e, b, q, fill_packet-data_block bytes n stale h)

-- Without memory for the entry or for its data the packet is dropped, with this status.
pub pushdata_drops :
    (bytes : List ℕ) (n : ℕ) (a : Alloc) (d : Driver)
    → (a.entry ≡ false) ⊎ (a.buffer ≡ none)
    → pushdata (some bytes) (pos (suc n)) a d ≡ some (success, d)
unfolding pushdata data_block
pushdata_drops bytes n a d h = ground arith

clean_all_lem :
    (ps : List Packet) (d : Driver)
    → clean_all ps d ≡ record d { datalink = []; datalink_live = d.datalink_live - length ps }
unfolding clean_all
clean_all_lem [] d = ground arith
clean_all_lem (p ∷ ps) d =
    clean_all_lem ps (record d { datalink = ps; datalink_live = d.datalink_live - 1 })
    ∙ ground arith

-- Cleaning empties the list and gives back as many entries as it held.
pub clean_lem :
    (d : Driver)
    → clean d ≡ record d { datalink = []; datalink_live = d.datalink_live - length d.datalink }
unfolding clean
clean_lem d = clean_all_lem d.datalink d
