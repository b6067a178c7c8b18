-- ===== src/Devctrl/Moved.antt =====
-- How a sequence of pops of devctrl.c changes the packet lists and the shared buffer.
use wfpdriver.Shared.{
  ℕ, ◌+◌, ◌≤◌, ◌≡◌, refl, sym, ap, ◌∙◌, List, [], ◌∷◌, ◌++◌, map, if◌then◌else◌, ◌==◌, All, arith,
}
use mathlib.Core.List.{append_assoc}
use wfpdriver.Nt.{nf_datalink_packet, nf_flowctx_packet}
use wfpdriver.State.{Driver, Packet}
use wfpdriver.Packets.Alloc.{IsPacket}
use wfpdriver.Devctrl.Pop.{data_size}
use wfpdriver.Devctrl.Frame.{IsMapped}
use wfpdriver.Devctrl.Delivery.{
  Entry, IsEntry, place_all, total_size, place_all-append, total_size-append,
}
use wfpdriver.Devctrl.Room.{flow_entry}

-- The packets of a sequence of records that come from the one list and from the other.
abbrev pub frames_of : List Entry → List Packet
frames_of [] = []
frames_of (e ∷ es) = if e.code == nf_datalink_packet then e.packet ∷ frames_of es else frames_of es

abbrev pub flows_of : List Entry → List Packet
flows_of [] = []
flows_of (e ∷ es) = if e.code == nf_flowctx_packet then e.packet ∷ flows_of es else flows_of es

-- What the packets of a list take up as records.
abbrev pub sizes : List Packet → ℕ
sizes [] = 0
sizes (p ∷ ps) = data_size p + sizes ps

-- The shared buffer is mapped in full, and every waiting packet is whole.
pub record IsReady (d : Driver) : Type 0 where
  pub mapped : IsMapped d.in_buf
  pub frames : All IsPacket d.datalink
  pub flows : All IsPacket d.flows

-- The records `es` went from the heads of the lists to the buffer from `off` on.
pub record Moved (es : List Entry) (off : ℕ) (d : Driver) (off' : ℕ) (d' : Driver) : Type 0 where
  pub offset : off' ≡ off + total_size es
  pub inside : off' ≤ d'.in_buf.buffer_length
  pub buffer : d'.in_buf ≡ place_all es off d.in_buf
  pub frames : d.datalink ≡ frames_of es ++ d'.datalink
  pub flows : d.flows ≡ flows_of es ++ d'.flows
  pub whole : All IsEntry es
  pub sized : total_size es ≡ sizes (frames_of es) + sizes (flows_of es)
  pub ready : IsReady d'
  pub pended : d'.pended ≡ d.pended
  pub completed : d'.completed ≡ d.completed

frames_of-append : (es fs : List Entry) → frames_of (es ++ fs) ≡ frames_of es ++ frames_of fs
frames_of-append [] fs = refl
frames_of-append (e ∷ es) fs = ground (arith, frames_of-append es fs)

flows_of-append : (es fs : List Entry) → flows_of (es ++ fs) ≡ flows_of es ++ flows_of fs
flows_of-append [] fs = refl
flows_of-append (e ∷ es) fs = ground (arith, flows_of-append es fs)

pub sizes-append : (ps qs : List Packet) → sizes (ps ++ qs) ≡ sizes ps + sizes qs
sizes-append [] qs = omega arith
sizes-append (p ∷ ps) qs = omega (arith, sizes-append ps qs)

pub total_size-map : (ps : List Packet) → total_size (map flow_entry ps) ≡ sizes ps
total_size-map [] = refl
total_size-map (p ∷ ps) = omega (arith, total_size-map ps)

pub flows_of-map : (ps : List Packet) → flows_of (map flow_entry ps) ≡ ps
flows_of-map [] = refl
flows_of-map (p ∷ ps) = ap (◌∷◌ p) (flows_of-map ps)

pub frames_of-map : (ps : List Packet) → frames_of (map flow_entry ps) ≡ []
frames_of-map [] = refl
frames_of-map (p ∷ ps) = frames_of-map ps

pub All-append {ℓ κ} :
    {A : Type ℓ} (P : A → Type κ) (xs ys : List A) → All P xs → All P ys → All P (xs ++ ys)
All-append P [] ys hx hy = hy
All-append P (x ∷ xs) ys hx hy = (hx.0, All-append P xs ys hx.1 hy)

pub Moved-refl :
    (off : ℕ) (d : Driver) → IsReady d → off ≤ d.in_buf.buffer_length → Moved [] off d off d
Moved-refl off d r h = record {
  offset = omega arith;
  inside = h;
  buffer = refl;
  frames = refl;
  flows = refl;
  whole = tt;
  sized = refl;
  ready = r;
  pended = refl;
  completed = refl;
}

pub Moved-trans :
    (es fs : List Entry) (off off' off'' : ℕ) (d d' d'' : Driver)
    → Moved es off d off' d'
    → Moved fs off' d' off'' d''
    → Moved (es ++ fs) off d off'' d''
Moved-trans es fs off off' off'' d d' d'' a b = record {
  offset = omega (arith, a.offset, b.offset, total_size-append es fs);
  inside = b.inside;
  buffer = b.buffer ∙ rw (a.buffer, a.offset) (sym (place_all-append es fs off d.in_buf));
  frames =
      a.frames
      ∙ rw (b.frames, frames_of-append es fs)
          (sym (append_assoc (frames_of es) (frames_of fs) d''.datalink));
  flows =
      a.flows
      ∙ rw (b.flows, flows_of-append es fs)
          (sym (append_assoc (flows_of es) (flows_of fs) d''.flows));
  whole = All-append IsEntry es fs a.whole b.whole;
  sized =
      rw (frames_of-append es fs, flows_of-append es fs)
        (omega (
          arith,
          a.sized,
          b.sized,
          total_size-append es fs,
          sizes-append (frames_of es) (frames_of fs),
          sizes-append (flows_of es) (flows_of fs),
        ));
  ready = b.ready;
  pended = b.pended ∙ a.pended;
  completed = b.completed ∙ a.completed;
}
