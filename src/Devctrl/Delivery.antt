-- ===== src/Devctrl/Delivery.antt =====
-- Sequences of records in the shared buffer of devctrl.c, and how many of a list fit.
use wfpdriver.Shared.{
  ℕ, ◌+◌, ◌≤◌, ◌≡◌, refl, ap, ◌∙◌, List, [], ◌∷◌, ◌++◌, Memory, read_bytes, All, arith,
}
use wfpdriver.State.{Packet, SharedMemory}
use wfpdriver.Packets.Alloc.{IsPacket}
use wfpdriver.Devctrl.Pop.{data_size}
use wfpdriver.Devctrl.Frame.{frame, placed, IsMapped, read_bytes-placed, read_bytes-placed_below}

-- A packet on its way to the reader, with the code and id of its header.
pub record Entry : Type 0 where
  pub code : ℕ
  pub id : ℕ
  pub packet : Packet

abbrev pub total_size : List Entry → ℕ
total_size [] = 0
total_size (e ∷ es) = data_size e.packet + total_size es

-- The buffer after the records have been written one after the other.
abbrev pub place_all : List Entry → ℕ → SharedMemory → SharedMemory
place_all [] off s = s
place_all (e ∷ es) off s =
    place_all es (off + data_size e.packet) (placed e.code e.id e.packet off s)

-- From `off` on the memory holds the records, each as far as it is written.
abbrev pub Framed : Memory → ℕ → List Entry → Type 0
Framed m off [] = Unit {0}
Framed m off (e ∷ es) =
    (read_bytes m off (12 + e.packet.data_length) ≡ frame e.code e.id e.packet)
    × Framed m (off + data_size e.packet) es

abbrev pub IsEntry : Entry → Type 0
IsEntry e = IsPacket e.packet

pub place_all_below :
    (es : List Entry) (off : ℕ) (s : SharedMemory) (at n : ℕ)
    → at + n ≤ off
    → read_bytes (place_all es off s).bytes at n ≡ read_bytes s.bytes at n
place_all_below [] off s at n h = refl
place_all_below (e ∷ es) off s at n h =
    place_all_below es (off + data_size e.packet) (placed e.code e.id e.packet off s) at n
      (omega arith)
    ∙ read_bytes-placed_below e.code e.id e.packet off s at n h

pub place_all-Framed :
    (es : List Entry) (off : ℕ) (s : SharedMemory)
    → All IsEntry es
    → Framed (place_all es off s).bytes off es
place_all-Framed [] off s v = tt
place_all-Framed (e ∷ es) off s v = (
  place_all_below es (off + data_size e.packet) (placed e.code e.id e.packet off s) off
        (12 + e.packet.data_length) (omega arith)
      ∙ read_bytes-placed e.code e.id e.packet off s v.0,
  place_all-Framed es (off + data_size e.packet) (placed e.code e.id e.packet off s) v.1,
)

pub place_all-mapped :
    (es : List Entry) (off : ℕ) (s : SharedMemory)
    → ((place_all es off s).mapped ≡ s.mapped)
      × ((place_all es off s).buffer_length ≡ s.buffer_length)
place_all-mapped [] off s = (refl, refl)
place_all-mapped (e ∷ es) off s =
    place_all-mapped es (off + data_size e.packet) (placed e.code e.id e.packet off s)

pub place_all-IsMapped :
    (es : List Entry) (off : ℕ) (s : SharedMemory) → IsMapped s → IsMapped (place_all es off s)
place_all-IsMapped es off s v = omega (arith, place_all-mapped es off s)

pub place_all-append :
    (es fs : List Entry) (off : ℕ) (s : SharedMemory)
    → place_all (es ++ fs) off s ≡ place_all fs (off + total_size es) (place_all es off s)
place_all-append [] fs off s = ap (λ o. place_all fs o s) (omega arith)
place_all-append (e ∷ es) fs off s =
    place_all-append es fs (off + data_size e.packet) (placed e.code e.id e.packet off s)
    ∙ ap
        (λ o.
          place_all fs o
            (place_all es (off + data_size e.packet) (placed e.code e.id e.packet off s)))
        (omega arith)

pub total_size-append : (es fs : List Entry) → total_size (es ++ fs) ≡ total_size es + total_size fs
total_size-append [] fs = omega arith
total_size-append (e ∷ es) fs = omega (arith, total_size-append es fs)
