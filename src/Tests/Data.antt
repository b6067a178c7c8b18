-- ===== src/Tests/Data.antt =====
-- Concrete states of the driver, of wfpdriver/devctrl.c and callouts.c.
use wfpdriver.Shared.{true, false, some, [], ◌∷◌, arith, refl}
use wfpdriver.State.{Packet, SharedMemory, Irp, Driver, started}
use wfpdriver.Packets.Alloc.{Alloc}
use wfpdriver.Devctrl.SharedMem.{MmAnswers, va}
use wfpdriver.Devctrl.Moved.{IsReady}
use wfpdriver.Devctrl.MemoryLaws.{IsBalanced, IsWhole, IsSound}
use wfpdriver.State.{no_shared_memory}

abbrev pub frame_packet : Packet
frame_packet = record { data_buffer = some (1 ∷ 2 ∷ 3 ∷ []); data_length = 3 }

abbrev pub flow_packet : Packet
flow_packet = record { data_buffer = some (4 ∷ 5 ∷ []); data_length = 2 }

abbrev pub buffer : SharedMemory
buffer = record {
  mdl = 1;
  user_va = 4096;
  kernel_va = 8192;
  buffer_length = 64;
  mapped = 64;
  bytes = λ _. 0;
}

-- One frame and one flow wait, and the buffer for the reader is mapped.
abbrev pub busy : Driver
busy = record started {
  monitor_flag = 1;
  query = 2 ∷ 1 ∷ [];
  query_live = 2;
  datalink = frame_packet ∷ [];
  datalink_live = 1;
  flows = flow_packet ∷ [];
  flow_live = 1;
  in_buf = buffer;
  mm = record {
    mdls = 3;
    freed_mdls = 2;
    kernel_maps = 2;
    kernel_unmaps = 1;
    user_maps = 1;
    user_unmaps = 0;
  };
}

pub busy-IsReady : IsReady busy
busy-IsReady = record {
  mapped = record { covers = refl; small = omega arith };
  frames = ((refl, omega arith), tt);
  flows = ((refl, omega arith), tt);
}

buffer-IsWhole : IsWhole buffer
buffer-IsWhole = record {
  parts = λ h. (omega arith, omega arith);
  absent = λ h. absurd (omega (arith, h));
  covers = refl;
}

no_buffer-IsWhole : IsWhole no_shared_memory
no_buffer-IsWhole = record {
  parts = λ h. absurd (h refl);
  absent = λ h. (refl, refl, refl);
  covers = refl;
}

pub busy-IsBalanced : IsBalanced busy
busy-IsBalanced = record {
  in_whole = buffer-IsWhole;
  out_whole = no_buffer-IsWhole;
  mdls = refl;
  kernel_maps = refl;
  user_maps = refl;
}

abbrev pub answers : MmAnswers
answers = record {
  pages = some 128;
  mdl = 2;
  kernel = some 12288;
  user = va 16384;
  contents = λ _. 0;
}

pub answers-IsSound : IsSound answers
answers-IsSound = record { mdl = omega arith; kernel = ground arith; user = ground arith }

abbrev pub plenty : Alloc
plenty = record { entry = true; buffer = some (λ _. 204); query = true }

abbrev pub request : Irp
request = record {
  id = 7;
  mdl_address = true;
  system_address = true;
  read_length = 8;
  cancel = false;
  cancel_routine = false;
}
