-- ===== src/Tests/Tools.antt =====
-- The theorems on wfptools/devctrl.cpp at a batch of two records.
use wfpdriver.Shared.{
  ◌≡◌, refl, inl, inr, Bool, false, ◌||◌, some, List, [], ◌∷◌, Memory, All, map, read_bytes, arith,
}
use wfpdriver.Devctrl.Delivery.{Framed, Entry, IsEntry, place_all, place_all-Framed}
use wfpdriver.Devctrl.Room.{datalink_entry, flow_entry}
use wfpdriver.Tools.WorkThread.{Call, datalink_packet, aborts, process_read}
use wfpdriver.Tools.Batch.{IsDriverEntry, call_of, process_read-first}
use wfpdriver.Tools.ReadLoop.{Outcome, completed, work_thread}
use wfpdriver.Tools.ReadLaws.{Answered, outcome_of, work_thread-firsts, work_thread_total}
use wfpdriver.Tests.Data.{frame_packet, flow_packet, buffer}

abbrev batch : List Entry
batch = datalink_entry frame_packet ∷ flow_entry flow_packet ∷ []

-- The shared buffer as the driver leaves it.
abbrev filled : Memory
filled = (place_all batch 0 buffer).bytes

batch-IsEntry : All IsEntry batch
batch-IsEntry = ((refl, omega arith), ((refl, omega arith), tt))

batch-IsDriverEntry : All IsDriverEntry batch
batch-IsDriverEntry = (
  record { kind = inl (refl, refl); odd_length = omega arith; small = omega arith },
  (record { kind = inr (refl, refl); odd_length = omega arith; small = omega arith }, tt),
)

process_read-first_example :
    (process_read 35 64 filled
      ≡ some (call_of (datalink_entry frame_packet) 0 ∷ [], aborts filled 0 || false))
    × (read_bytes filled 12 3 ≡ 1 ∷ 2 ∷ 3 ∷ [])
process_read-first_example =
    process_read-first (datalink_entry frame_packet) (flow_entry flow_packet ∷ []) 64 filled
      batch-IsDriverEntry (place_all-Framed batch 0 buffer batch-IsEntry) (omega arith)
      (omega arith)

-- The batch read twice, the second time after a timeout.
abbrev answered : List Answered
answered =
    record {
      timeouts = 0;
      first = datalink_entry frame_packet;
      others = flow_entry flow_packet ∷ [];
      memory = filled;
    }
    ∷ record {
      timeouts = 1;
      first = datalink_entry frame_packet;
      others = flow_entry flow_packet ∷ [];
      memory = filled;
    }
    ∷ []

batch-Framed : Framed filled 0 batch
batch-Framed = place_all-Framed batch 0 buffer batch-IsEntry

work_thread-firsts_example :
    work_thread 64 (map outcome_of answered)
    ≡ some (datalink_packet 12 3 ∷ datalink_packet 12 3 ∷ [], false)
work_thread-firsts_example = work_thread-firsts answered 64 (
  record {
    entries = batch-IsDriverEntry;
    framed = batch-Framed;
    small = omega arith;
    inside = omega arith;
  },
  (
    record {
      entries = batch-IsDriverEntry;
      framed = batch-Framed;
      small = omega arith;
      inside = omega arith;
    },
    tt,
  ),
)

work_thread_total_example :
    (r : List Call × Bool) × (work_thread 64 (completed 0 35 filled ∷ Outcome.failed ∷ []) ≡ some r)
work_thread_total_example = work_thread_total (completed 0 35 filled ∷ Outcome.failed ∷ []) 64
