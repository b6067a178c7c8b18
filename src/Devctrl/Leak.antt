-- ===== src/Devctrl/Leak.antt =====
-- devtrl_popFlowestablishedData of devctrl.c gives back the last entry that it took off the list, and
-- no other.
use wfpdriver.Shared.{
  ℕ, ◌+◌, ◌-◌, ◌≤◌, ◌<◌, ◌≡◌, ap, some, List, [], ◌∷◌, length, length-append, ltb, false,
  le→not-ltb, All, arith,
}
use wfpdriver.Nt.{Status}
use wfpdriver.State.{Driver, Packet}
use wfpdriver.Packets.Alloc.{IsPacket}
use wfpdriver.Devctrl.Pop.{data_size, pop_flowestablished_data}
use wfpdriver.Devctrl.Frame.{IsMapped}
use wfpdriver.Devctrl.Room.{sent, left, sent-append-left}
use wfpdriver.Devctrl.Popping.{flow_result, flow_freed, pop_flowestablished_data_lem}

left-le : (len off : ℕ) (ps : List Packet) → length (left len off ps) ≤ length ps
left-le len off ps = omega (
  arith,
  length-append (sent len off ps) (left len off ps),
  ap length (sent-append-left len off ps),
)

-- Of two or more entries taken at most one is given back.
freed_one : (ps qs : List Packet) → flow_freed ps qs ≤ 1
freed_one [] qs = omega arith
freed_one (p ∷ ps) [] = omega arith
freed_one (p ∷ ps) (q ∷ qs) = omega arith

two_left :
    (len off : ℕ) (p q : Packet) (rest : List Packet)
    → off + data_size p + data_size q < len
    → length (left len off (p ∷ q ∷ rest)) ≤ length rest
two_left len off p q rest h =
    let a : ltb (len - off - 1) (data_size p) ≡ false = le→not-ltb _ _ (omega arith) in
    let b : ltb (len - (off + data_size p) - 1) (data_size q) ≡ false =
      le→not-ltb _ _ (omega arith) in
    rw (a, b) (left-le len (off + data_size p + data_size q) rest)

-- If the packets are whole, the first two flows fit behind an offset of the mapped buffer with a byte to
-- spare, and the count of entries out of
-- the lookaside list is that of the list of flows, then after the pop, which returns, the count is
-- larger than the list: an entry is neither waiting nor given back.
pub pop_flowestablished_data_leaks :
    (d : Driver) (off : ℕ) (p q : Packet) (rest : List Packet)
    → d.flows ≡ p ∷ q ∷ rest
    → All IsPacket d.flows
    → IsMapped d.in_buf
    → off + data_size p + data_size q < d.in_buf.buffer_length
    → d.flow_live ≡ length d.flows
    → (status : Status) × (off' : ℕ) × (d' : Driver) × (pop_flowestablished_data off d
        ≡ some (status, off', d'))
      × (length d'.flows < d'.flow_live)
pop_flowestablished_data_leaks d off p q rest e v m h live = (
  (flow_result done waiting off d).0,
  (flow_result done waiting off d).1,
  (flow_result done waiting off d).2,
  pop_flowestablished_data_lem d off v m (omega arith),
  omega (arith, live, ap length e, freed_one done waiting, short),
)
  where
    done : List Packet
    done = sent d.in_buf.buffer_length off d.flows

    waiting : List Packet
    waiting = left d.in_buf.buffer_length off d.flows

    short : length waiting ≤ length rest
    short = rw e (two_left d.in_buf.buffer_length off p q rest h)
