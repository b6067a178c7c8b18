-- ===== src/Alpc/PortLaws.antt =====
-- What the driver's end of the port sends: wfpdriver/HlprDriverAlpc.c.
use wfpdriver.Shared.{
  ℕ, ◌+◌, ◌-◌, ◌^◌, ◌≤◌, ◌<◌, ◌≡◌, ap, true, some, List, ◌∷◌, ◌++◌, length, take, pos, add64,
  if◌then◌else◌, arith,
}
use wfpdriver.Nt.{unsuccessful}
use wfpdriver.Alpc.Message.{as_cshort, cshort_size, message_header, create_msg_mem}
use wfpdriver.Alpc.Port.{AlpcDriver, AlpcAnswers, can_send, send_mem, alpc_send}

create_msg_mem_lem :
    (header : List ℕ) (n : ℕ) (message : List ℕ)
    → n < 2 ^ 63
    → n ≤ length message
    → create_msg_mem true header n message ≡ some (header ++ take n message)
unfolding create_msg_mem add64
create_msg_mem_lem header n message h k = ground arith

as_cshort_lem : (n : ℕ) → n < 2 ^ 15 → as_cshort n ≡ n
unfolding as_cshort
as_cshort_lem n h = omega arith

cshort_size_lem : (n : ℕ) → n < 2 ^ 15 → cshort_size n ≡ n
unfolding cshort_size
cshort_size_lem n h = ground arith

sent_or_freed :
    (a : AlpcAnswers) (mem : List ℕ) (d : AlpcDriver)
    → send_mem a mem (record d { live = d.live + 1 })
      ≡ (if can_send d then (a.send, record d { sent = mem ∷ d.sent }) else (unsuccessful, d))
unfolding send_mem can_send
sent_or_freed a mem d = let e : d.live + 1 - 1 ≡ d.live = omega arith in ground (arith, e)

-- If the pool has a block and the packet has as many readable bytes as it says, fewer than 32768,
-- AlpcSendflowEstablishedMsg and AlpcSendDataLinkStructMsg return and leave no block allocated. They
-- send the header with that length and the packet's bytes, once, if the port is open and the routine
-- known, and return what the port answers; else they send nothing and return an error.
pub alpc_send_lem :
    (a : AlpcAnswers) (packet : List ℕ) (n : ℕ) (d : AlpcDriver)
    → a.pool ≡ true
    → n < 2 ^ 15
    → n ≤ length packet
    → alpc_send a packet (pos n) d
      ≡ some (
          if can_send d
          then (a.send, record d { sent = (message_header n 0 ++ take n packet) ∷ d.sent })
          else (unsuccessful, d))
unfolding alpc_send send_mem
alpc_send_lem a packet n d p h k =
    rw
      (
        p,
        as_cshort_lem n h,
        cshort_size_lem n h,
        create_msg_mem_lem (message_header n 0) n packet (omega arith) k,
      )
      (ap some (sent_or_freed a (message_header n 0 ++ take n packet) d))
