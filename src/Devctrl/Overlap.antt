-- ===== src/Devctrl/Overlap.antt =====
-- devtrl_popDataLinkData of wfpdriver/devctrl.c in the two halves between which it holds no lock, and a
-- frame captured in between.
use wfpdriver.Shared.{
  ◌≡◌, refl, ap, Option, none, some, Option-cases, Bool-cases, ◌>>=◌, List, [], ◌∷◌, ◌++◌, ℕ, ℤ,
  ltb, inl, inr, true, if◌then◌else◌, sub64, add64,
}
use wfpdriver.Nt.{Status, success, unsuccessful, no_memory, nf_datalink_packet, nt_success}
use wfpdriver.State.{Driver, Packet, SharedMemory}
use wfpdriver.Packets.Alloc.{Alloc}
use wfpdriver.Packets.Datalink
use wfpdriver.Devctrl.Pop.{
  Popped, data_size, put_data, pop_first_data_link, finish_data_link, pop_data_link_data,
}
use wfpdriver.Devctrl.Channel.{accepted}
use wfpdriver.Devctrl.Capture.{IsInt, FramesIf, pushdata-Frames}

-- pEntry, status, the offset, and the driver.
abbrev pub Taken : Type 0
Taken = Option Packet × (Status × ℕ × Driver)

unfoldable pub taken_put : Packet → List Packet → ℕ → Driver → Option SharedMemory → Option Taken
taken_put p rest off d none = none
taken_put p rest off d (some s) =
    some (some p, (success, add64 off (data_size p), record d { datalink = rest; in_buf = s }))

unfoldable pub take_first : List Packet → ℕ → Driver → Option Taken
take_first [] off d = some (none, (unsuccessful, off, d))
take_first (p ∷ rest) off d =
    if ltb (sub64 d.in_buf.buffer_length off) (data_size p)
    then some (some p, (no_memory, off, record d { datalink = rest }))
    else taken_put p rest off d (put_data nf_datalink_packet 0 p off d.in_buf)

-- Up to the first sl_unlock.
unfoldable pub take_data_link : ℕ → Driver → Option Taken
take_data_link off d = take_first d.datalink off d

-- What follows it: the entry is freed, or inserted at the head again.
unfoldable pub return_data_link : Taken → Status × ℕ × Driver
return_data_link (none, r) = r
return_data_link (some p, (status, off, d)) =
    if nt_success status
    then (status, off, Datalink.packfree p d)
    else (status, off, record d { datalink = p ∷ d.datalink })

-- The two halves one after the other are the whole pop.
returned-first :
    (ps : List Packet) (off : ℕ) (d : Driver)
    → (take_first ps off d >>= λ t. some (return_data_link t)) ≡ pop_first_data_link ps off d
unfolding take_first taken_put return_data_link pop_first_data_link finish_data_link
returned-first [] off d = refl
returned-first (p ∷ rest) off d =
    elim (Bool-cases (ltb (sub64 d.in_buf.buffer_length off) (data_size p))) [
      | inl full ↦ rw full refl
      | inr room ↦ elim (Option-cases (put_data nf_datalink_packet 0 p off d.in_buf)) [
        | inl e ↦ rw (room, e) refl
        | inr (s, e) ↦ rw (room, e) refl
      ]
    ]

-- A pop whose halves have a captured frame between them.
unfoldable pub pop_around : Option (List ℕ) → ℤ → Alloc → ℕ → Driver → Popped
pop_around packet lens a off d = do
  (entry, (status, off', d1)) ← take_data_link off d
  (pushed, d2) ← Datalink.pushdata packet lens a d1
  some (return_data_link (entry, (status, off', d2)))

taken_full :
    (p : Packet) (rest : List Packet) (off : ℕ) (d : Driver)
    → d.datalink ≡ p ∷ rest
    → ltb (sub64 d.in_buf.buffer_length off) (data_size p) ≡ true
    → take_data_link off d ≡ some (some p, (no_memory, off, record d { datalink = rest }))
unfolding take_data_link take_first
taken_full p rest off d e full = rw e (rw full refl)

-- The two halves of a pop with nothing between them are the pop. But if the frame on top does not fit
-- and another is captured between the halves, and nothing faults, then the older frame stands on top of
-- the newer one.
pub pop_around-overtakes :
    (packet : Option (List ℕ)) (lens : ℤ) (a : Alloc) (off : ℕ) (d : Driver) (p : Packet)
    (rest : List Packet) (pushed : Status) (d2 : Driver)
    → IsInt lens
    → d.datalink ≡ p ∷ rest
    → ltb (sub64 d.in_buf.buffer_length off) (data_size p) ≡ true
    → Datalink.pushdata packet lens a (record d { datalink = rest }) ≡ some (pushed, d2)
    → ((take_data_link off d >>= λ t. some (return_data_link t)) ≡ pop_data_link_data off d)
      × (pop_around packet lens a off d
          ≡ some (no_memory, off, record d2 { datalink = p ∷ accepted packet lens a ++ rest }))
unfolding pop_around return_data_link take_data_link pop_data_link_data
pop_around-overtakes packet lens a off d p rest pushed d2 int e full push =
    let f : FramesIf (accepted packet lens a) rest (some (pushed, d2)) =
      rw push at (pushdata-Frames packet lens a (record d { datalink = rest }) int) in
    (
      returned-first d.datalink off d,
      rw (taken_full p rest off d e full)
          (rw push (ap (λ ps. some (no_memory, off, record d2 { datalink = p ∷ ps })) f.0)),
    )
