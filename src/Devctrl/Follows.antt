-- ===== src/Devctrl/Follows.antt =====
-- What a step of the driver of wfpdriver/devctrl.c is for Channel: the captures, and what the channel
-- does not see.
use wfpdriver.Shared.{
  ℕ, ◌≡◌, refl, ap, Bool, Option, none, some, List, Option-cases, ℤ, inl, inr, arith,
}
use wfpdriver.Nt.{insufficient_resources}
use wfpdriver.State.{Driver, Irp}
use wfpdriver.Packets.Alloc.{Alloc, IsPacket}
use wfpdriver.Packets.Datalink
use wfpdriver.Packets.Established
use wfpdriver.Packets.DatalinkLaws
use wfpdriver.Packets.EstablishedLaws
use wfpdriver.Devctrl.Push.{set_event}
use wfpdriver.Devctrl.Moved.{IsReady, All-append}
use wfpdriver.Devctrl.Reads.{read1, finish_read, try_pend, pend, complete, cancel_read}
use wfpdriver.Devctrl.Events.{Event, frame, flow, after}
use wfpdriver.Devctrl.Channel.{
  accepted, Same, ChannelStep, captures_frame, captures_flow, view, replies_of,
}
use wfpdriver.Devctrl.Capture.{IsInt, FramesIf, FlowsIf, pushdata-Frames, pushflow-Flows}

-- A captured packet's length is an int.
abbrev pub IsCapture : Event → Type 0
IsCapture (frame packet lens a) = IsInt lens
IsCapture (flow packet lens a) = IsInt lens
IsCapture _ = Unit {0}

-- A step that returns is one of the channel, and leaves the buffer mapped and the packets whole.
abbrev pub Follows : Event → Driver → Option Driver → Type 0
Follows e d none = Unit {0}
Follows e d (some d') = ChannelStep e (view d) (view d') × IsReady d'

pub frame-Follows :
    (packet : Option (List ℕ)) (lens : ℤ) (a : Alloc) (d : Driver)
    → IsInt lens
    → IsReady d
    → Follows (frame packet lens a) d (after (Datalink.pushdata packet lens a d))
frame-Follows packet lens a d h r = elim (Option-cases (Datalink.pushdata packet lens a d)) [
  | inl e ↦ rw e tt
  | inr ((status, d'), e) ↦
      let p = rw e at (DatalinkLaws.pushdata-Pushed packet lens a d) in
      let f : FramesIf (accepted packet lens a) d.datalink (some (status, d')) =
        rw e at (pushdata-Frames packet lens a d h) in
      rw e (
        captures_frame (record {
          frames = f.0;
          flows = p.other_list;
          buffer = p.in_buf;
          replies = ap replies_of p.completed;
        }),
        record {
          mapped = rw p.in_buf r.mapped;
          frames = rw f.0 (All-append IsPacket (accepted packet lens a) d.datalink f.1 r.frames);
          flows = rw p.other_list r.flows;
        },
      )
]

pub flow-Follows :
    (packet : Option (List ℕ)) (lens : ℤ) (a : Alloc) (d : Driver)
    → IsInt lens
    → IsReady d
    → Follows (flow packet lens a) d (after (Established.pushflowestablishedctx packet lens a d))
flow-Follows packet lens a d h r =
    elim (Option-cases (Established.pushflowestablishedctx packet lens a d)) [
      | inl e ↦ rw e tt
      | inr ((status, d'), e) ↦
          let p = rw e at (EstablishedLaws.pushflowestablishedctx-Pushed packet lens a d) in
          let f : FlowsIf (accepted packet lens a) d.flows (some (status, d')) =
            rw e at (pushflow-Flows packet lens a d h) in
          rw e (
            captures_flow (record {
              frames = p.other_list;
              flows = f.0;
              buffer = p.in_buf;
              replies = ap replies_of p.completed;
            }),
            record {
              mapped = rw p.in_buf r.mapped;
              frames = rw p.other_list r.frames;
              flows = rw f.0 (All-append IsPacket (accepted packet lens a) d.flows f.1 r.flows);
            },
          )
    ]

-- Nothing that the channel sees has changed.
pub record Kept (d d' : Driver) : Type 0 where
  pub datalink : d'.datalink ≡ d.datalink
  pub flows : d'.flows ≡ d.flows
  pub in_buf : d'.in_buf ≡ d.in_buf
  pub replies : replies_of d'.completed ≡ replies_of d.completed

pub Kept-Same : (d d' : Driver) → Kept d d' → Same (view d) (view d')
Kept-Same d d' k = record {
  frames = k.datalink;
  flows = k.flows;
  buffer = k.in_buf;
  replies = k.replies;
}

pub Kept-IsReady : (d d' : Driver) → Kept d d' → IsReady d → IsReady d'
Kept-IsReady d d' k r = record {
  mapped = rw k.in_buf r.mapped;
  frames = rw k.datalink r.frames;
  flows = rw k.flows r.flows;
}

pub read1-Kept : (raced : Bool) (irp : Irp) (d : Driver) → Kept d (read1 raced irp d).1
unfolding read1 finish_read try_pend pend complete set_event
read1-Kept raced irp d = record {
  datalink = ground arith;
  flows = ground arith;
  in_buf = ground arith;
  replies = ground arith;
}

pub cancel_read-Kept : (id : ℕ) (d : Driver) → Kept d (cancel_read id d)
unfolding cancel_read complete
cancel_read-Kept id d = record {
  datalink = ground arith;
  flows = ground arith;
  in_buf = ground arith;
  replies = ground arith;
}

pub refused-Kept : (irp : Irp) (d : Driver) → Kept d (complete irp.id insufficient_resources 0 0 d)
unfolding complete
refused-Kept irp d = record { datalink = refl; flows = refl; in_buf = refl; replies = refl }
