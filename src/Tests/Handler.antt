-- ===== src/Tests/Handler.antt =====
-- wfptools/main.cpp at a concrete flow: a process on drive C with the path \D1\a, at TCP port 80.
use wfpdriver.Shared.{
  ◌≤◌, ◌≡◌, refl, ap, ◌∙◌, sym, true, false, inl, inr, Option, none, some, ◌>>=◌, List, [], ◌∷◌,
  ◌++◌, length, ◌==◌, Memory, write, read_bytes, read_bytes-write, arith,
}
use wfpdriver.Callouts.Info.{
  FlowInfo, ipv4, flow_bytes, sizeof_flow_info, FlowValues, Wdk, Classify, unset,
  flow_established_v4,
}
use wfpdriver.Callouts.Layout.{length-flow_bytes}
use wfpdriver.Callouts.Flow.{class_fn_flow_established}
use wfpdriver.State.{Driver, started}
use wfpdriver.Tools.Paths.{Wide, SameLetter, Drive, device_dos_path_to_nt_path}
use wfpdriver.Tools.PathLaws.{IsReflexive, device_dos_path_to_nt_path-first}
use wfpdriver.Tools.Handler.{handle_established, get_process_info, found}
use wfpdriver.Tools.FieldLaws.{wide_bytes}
use wfpdriver.Tools.HandlerLaws.{IsFlow, handled-get_process_info, handled_others}
use wfpdriver.EndToEnd.{Reports, IsIdle, read_and_find, class_fn_flow_established-found}
use wfpdriver.Tests.Data.{buffer, plenty}

abbrev exactly : SameLetter
exactly a b = a == b

exactly-IsReflexive : IsReflexive exactly
exactly-IsReflexive c = ground arith

abbrev device : Wide
device = 92 ∷ 68 ∷ 49 ∷ []

abbrev image : Wide
image = 92 ∷ 68 ∷ 49 ∷ 92 ∷ 97 ∷ []

abbrev floppy : Drive
floppy = record { letter = 65; device = none }

abbrev drive_c : Drive
drive_c = record { letter = 67; device = some device }

abbrev drives : Option (List Drive)
drives = some (floppy ∷ drive_c ∷ [])

abbrev flow : FlowInfo
flow = record {
  address_family = 2;
  local_addr = ipv4 16777343;
  to_local_port = 80;
  protocol = 6;
  flow_id = 11;
  layer_id = 80;
  callout_id = 4096;
  remote_addr = ipv4 16777343;
  to_remote_port = 5000;
  process_path = wide_bytes image ++ 0 ∷ 0 ∷ [];
  process_path_size = 12;
  process_id = 4;
  ref_count = 1;
}

flow-IsFlow : IsFlow flow image
flow-IsFlow = record {
  port = omega arith;
  protocol = omega arith;
  process = omega arith;
  tail = 0 ∷ 0 ∷ [];
  bytes = refl;
  ends = (refl, refl);
  characters = (
    (omega arith, omega arith),
    (
      (omega arith, omega arith),
      ((omega arith, omega arith), ((omega arith, omega arith), ((omega arith, omega arith), tt))),
    ),
  );
  fits = omega arith;
}

-- A memory with the record at its start.
abbrev memory : Memory
memory = write (λ _. 0) 0 (flow_bytes flow)

memory_lem : read_bytes memory 0 sizeof_flow_info ≡ flow_bytes flow
memory_lem =
    ap (read_bytes memory 0) (sym (length-flow_bytes flow))
    ∙ read_bytes-write (λ _. 0) 0 (flow_bytes flow)

image_lem : device_dos_path_to_nt_path exactly drives image ≡ (true, 67 ∷ 58 ∷ 92 ∷ 97 ∷ [])
unfolding device_dos_path_to_nt_path
image_lem = refl

short_path : length (device_dos_path_to_nt_path exactly drives image).1 ≤ 259
short_path = rw image_lem (omega arith)

handled-get_process_info_example :
    (handle_established memory 0 sizeof_flow_info []
      >>= get_process_info exactly drives true 80 6 true)
    ≡ some (found 4 (device_dos_path_to_nt_path exactly drives image).1)
handled-get_process_info_example =
    handled-get_process_info exactly drives memory 0 flow image [] flow-IsFlow memory_lem short_path

handled_others_example :
    (handle_established memory 0 sizeof_flow_info []
      >>= get_process_info exactly drives true 80 17 true)
    ≡ get_process_info exactly drives true 80 17 true []
handled_others_example =
    handled_others exactly drives memory 0 flow [] true true 80 17 (omega arith) (inl refl)
      memory_lem (omega arith) (inr refl) (inr (omega arith))

device_dos_path_to_nt_path-first_example :
    device_dos_path_to_nt_path exactly drives image ≡ (true, 67 ∷ 58 ∷ 92 ∷ 97 ∷ [])
device_dos_path_to_nt_path-first_example =
    device_dos_path_to_nt_path-first exactly (floppy ∷ []) [] drive_c device (92 ∷ 97 ∷ [])
      exactly-IsReflexive (inl refl, tt) refl refl

abbrev values : FlowValues
values = record {
  layer = flow_established_v4;
  local_address = 16777343;
  remote_address = 16777343;
  local_address16 = [];
  remote_address16 = [];
  protocol = 6;
  local_port = 80;
  remote_port = 5000;
  flow_handle = 11;
  process_id = 4;
  process_path = some (wide_bytes image ++ 0 ∷ 0 ∷ []);
}

values-Reports : Reports values (wide_bytes image ++ 0 ∷ 0 ∷ []) image
values-Reports = record {
  reported = refl;
  short = omega arith;
  port = omega arith;
  protocol = omega arith;
  process = omega arith;
  tail = 0 ∷ 0 ∷ [];
  encoded = refl;
  ends = (refl, refl);
  characters = flow-IsFlow.characters;
  fits = omega arith;
}

-- A driver that monitors, with a buffer of 2048 bytes.
abbrev idle : Driver
idle = record started {
  monitor_flag = 1;
  in_buf = record buffer { buffer_length = 2048; mapped = 2048 };
}

idle-IsIdle : IsIdle idle
idle-IsIdle = record {
  monitor = omega arith;
  query = refl;
  flows = refl;
  mapped = record { covers = refl; small = omega arith };
  room = omega arith;
}

abbrev wdk : Wdk
wdk = record {
  ulong_byte_swap = λ a. a;
  right_action_write = 0;
  flag_absorb = 1;
  layer_outbound_mac_frame_ethernet = 80;
  layer_ale_connect_redirect_v4 = 60;
  callout_id_outbound_mac_etherent = 4096;
  callout_guid_ale_connectredirect_v4 = 8192;
}

abbrev asked : Classify
asked = record {
  out = record { action_type = unset 0; rights = λ _. true; flags = λ _. false };
  driver = idle;
  live = 0;
}

class_fn_flow_established-found_example :
    (class_fn_flow_established wdk values true true plenty asked >>= λ k.
    read_and_find exactly drives 80 6 [] k.driver)
    ≡ some (found 4 (device_dos_path_to_nt_path exactly drives image).1)
class_fn_flow_established-found_example =
    class_fn_flow_established-found exactly drives wdk values true plenty (λ _. 204)
      (wide_bytes image ++ 0 ∷ 0 ∷ []) image asked []
      (record { entry = refl; buffer = refl; query = refl }) idle-IsIdle values-Reports short_path
