-- ===== src/Devctrl/Channel.antt =====
-- What wfpdriver/devctrl.c with its packet lists promises: two stacks of packets, from whose tops a
-- round of the I/O thread takes what it delivers in the shared buffer.
use wfpdriver.Shared.{
  ℕ, zero, suc, ◌≤◌, ◌≡◌, Bool, not, ◌&&◌, Option, none, some, List, [], ◌∷◌, ◌++◌, take, All,
  if◌then◌else◌, ℤ, pos, negsuc,
}
use wfpdriver.Nt.{success}
use wfpdriver.State.{Driver, Packet, SharedMemory, Irp, Completion}
use wfpdriver.Packets.Alloc.{Alloc, is_null}
use wfpdriver.Devctrl.Delivery.{Entry, IsEntry, total_size, place_all}
use wfpdriver.Devctrl.Moved.{frames_of, flows_of}
use wfpdriver.Devctrl.Events.{Event, read, cancel_begins, cancel_runs, frame, flow, io_round}

-- `replies` are the lengths that the successful reads were answered with, the last one first.
pub record Channel : Type 0 where
  pub frames : List Packet
  pub flows : List Packet
  pub buffer : SharedMemory
  pub replies : List ℕ

-- The packet that a capture puts on a stack: the first `lens` bytes, if there is memory.
abbrev pub accepted : Option (List ℕ) → ℤ → Alloc → List Packet
accepted none lens a = []
accepted (some bytes) (negsuc n) a = []
accepted (some bytes) (pos zero) a =
    if a.entry then record { data_buffer = none; data_length = 0 } ∷ [] else []
accepted (some bytes) (pos (suc n)) a =
    if a.entry && not (is_null a.buffer)
    then record { data_buffer = some (take (suc n) bytes); data_length = suc n } ∷ []
    else []

-- All is as before.
pub record Same (c c' : Channel) : Type 0 where
  pub frames : c'.frames ≡ c.frames
  pub flows : c'.flows ≡ c.flows
  pub buffer : c'.buffer ≡ c.buffer
  pub replies : c'.replies ≡ c.replies

-- The packets `ps` stand on top of the frames, or of the flows.
pub record OnFrames (ps : List Packet) (c c' : Channel) : Type 0 where
  pub frames : c'.frames ≡ ps ++ c.frames
  pub flows : c'.flows ≡ c.flows
  pub buffer : c'.buffer ≡ c.buffer
  pub replies : c'.replies ≡ c.replies

pub record OnFlows (ps : List Packet) (c c' : Channel) : Type 0 where
  pub frames : c'.frames ≡ c.frames
  pub flows : c'.flows ≡ ps ++ c.flows
  pub buffer : c'.buffer ≡ c.buffer
  pub replies : c'.replies ≡ c.replies

-- Whole packets came off the tops, their records fill the buffer from its start, and a read was
-- answered with the number of their bytes.
pub record Delivered (es : List Entry) (c c' : Channel) : Type 0 where
  pub frames : c.frames ≡ frames_of es ++ c'.frames
  pub flows : c.flows ≡ flows_of es ++ c'.flows
  pub buffer : c'.buffer ≡ place_all es 0 c.buffer
  pub replies : c'.replies ≡ total_size es ∷ c.replies
  pub whole : All IsEntry es
  pub fits : total_size es ≤ c.buffer.buffer_length

pub data ChannelStep : Event → Channel → Channel → Type 0 where
  reads :
      {raced : Bool} {irp : Irp} {c c' : Channel} → Same c c' → ChannelStep (read raced irp) c c'
  begins : {id : ℕ} {c c' : Channel} → Same c c' → ChannelStep (cancel_begins id) c c'
  cancels : {id : ℕ} {c c' : Channel} → Same c c' → ChannelStep (cancel_runs id) c c'
  captures_frame :
      {packet : Option (List ℕ)} {lens : ℤ} {a : Alloc} {c c' : Channel}
      → OnFrames (accepted packet lens a) c c'
      → ChannelStep (frame packet lens a) c c'
  captures_flow :
      {packet : Option (List ℕ)} {lens : ℤ} {a : Alloc} {c c' : Channel}
      → OnFlows (accepted packet lens a) c c'
      → ChannelStep (flow packet lens a) c c'
  idles : {c c' : Channel} → Same c c' → ChannelStep io_round c c'
  delivers : (es : List Entry) {c c' : Channel} → Delivered es c c' → ChannelStep io_round c c'

pub data ChannelSteps : List Event → Channel → Channel → Type 0 where
  here : {c : Channel} → ChannelSteps [] c c
  next :
      {e : Event} {es : List Event} {a b c : Channel}
      → ChannelStep e a b
      → ChannelSteps es b c
      → ChannelSteps (e ∷ es) a c

-- The lengths in the successful completions.
abbrev pub replies_of : List Completion → List ℕ
replies_of [] = []
replies_of (c ∷ cs) = elim (c.status) [ success ↦ c.length ∷ replies_of cs | _ ↦ replies_of cs ]

-- What of the driver's state the promise is about.
abbrev pub view : Driver → Channel
view d = record {
  frames = d.datalink;
  flows = d.flows;
  buffer = d.in_buf;
  replies = replies_of d.completed;
}
