-- ===== src/Setup/Program.antt =====
-- wfptools_nf/main.cpp: the program that loads the library and calls it. `none` is a fault, a write
-- outside of a local variable among them.
use wfpdriver.Shared.{
  ℕ, ◌≡◌, refl, ap, ◌∙◌, Bool, true, ◌&&◌, Option, some, ◌>>=◌, List, ◌∷◌, inl, inr, if◌then◌else◌,
  ℤ, pos, none, Option-cases, Bool-cases, ◌⊎◌, leb, ltb, length, ◌+◌,
}
use wfpdriver.Tools.Paths.{SameLetter, Drive, device_dos_path_to_nt_path}
use wfpdriver.Tools.Handler.{
  FlowMap, process_path_of, process_id_of, ProcessInfo, refused, not_found, found, find, key_of,
  answer_found, get_process_info, ipproto_tcp,
}
use wfpdriver.Setup.Scm.{Text, ScmLog, Windows}
use wfpdriver.Setup.Device.{
  DeviceAnswers, Device, handle, is_null_handle, enable_monitor, disentable_monitor, open_sharemem,
  nf_monitor, monitor_code, shared_answered,
}
use wfpdriver.Setup.Init.{nf_init, prepare_service}
use wfpdriver.Setup.InitLaws.{goes_on, set_up_with, Ends, set_up_device-Ends, nf_init-ready}

-- LoadLibrary and the three calls of GetProcAddress.
pub record Library : Type 0 where
  pub loaded : Bool
  pub has_init : Bool
  pub has_get_process_info : Bool
  pub has_monitor : Bool

unfoldable pub is_whole : Library → Bool
is_whole b = b.loaded && (b.has_init && (b.has_get_process_info && b.has_monitor))

-- What the library answers with: Windows, the driver, the drives, and the flows that EventHandler has put
-- into the map while the program paused.
pub record Surroundings : Type 0 where
  pub windows : Windows
  pub device : DeviceAnswers
  pub module_path : Text
  pub link_name : Text
  pub same_letter : SameLetter
  pub drives : Option (List Drive)
  pub flows : FlowMap

-- nf_monitor(0) and nf_monitor(1), whose results are not looked at.
unfoldable pub monitor_off_on : DeviceAnswers → Device → Device
monitor_off_on a d = (nf_monitor a (pos 1) (nf_monitor a (pos 0) d).1).1

-- sizeof(PROCESS_INFO) of the program, 260 characters and a UINT64.
abbrev pub sizeof_process_info : ℕ
sizeof_process_info = 528

-- The offset of processId in the library's PROCESS_INFO, behind MAX_PATH * 2 characters.
abbrev pub offset_process_id : ℕ
offset_process_id = 1040

-- The answer stored in the program's structure: the library stores processId where its own structure
-- has it, if a process is found.
unfoldable pub store_answer : ProcessInfo → Option ProcessInfo
store_answer refused = some refused
store_answer not_found = some not_found
store_answer (found id path) =
    if leb (offset_process_id + 8) sizeof_process_info then some (found id path) else none

-- nf_getprocessinfo for TCP port 53, with both pointers.
unfoldable pub ask_process : Surroundings → Option ProcessInfo
ask_process s =
    get_process_info s.same_letter s.drives true 53 ipproto_tcp true s.flows >>= store_answer

-- What follows the three addresses; the result of nf_init is not looked at.
unfoldable pub use_library : Surroundings → ScmLog × Device → Option (ScmLog × Device)
use_library s r = do
  (status, (l, d)) ← nf_init s.windows s.device s.module_path s.link_name r
  info ← ask_process s
  some (l, monitor_off_on s.device d)

-- main
unfoldable pub program_main : Library → Surroundings → ScmLog × Device → Option (ScmLog × Device)
program_main b s r = let used = use_library s r in if is_whole b then used else some r

monitored_off_on :
    (a : DeviceAnswers) (h : ℕ) (d : Device)
    → d.g_device_handle ≡ handle h
    → (monitor_off_on a d).sent
      ≡ (handle h, enable_monitor) ∷ (handle h, disentable_monitor) ∷ d.sent
unfolding monitor_off_on nf_monitor monitor_code is_null_handle
monitored_off_on a h d e = rw e refl

after_set_up :
    (s : Surroundings) (h : ℕ) (l : ScmLog) (d d1 : Device) (i : ProcessInfo)
    → nf_init s.windows s.device s.module_path s.link_name (l, d)
      ≡ some (pos 1, ((prepare_service s.windows s.module_path l).1, d1))
    → ask_process s ≡ some i
    → use_library s (l, d)
      ≡ some ((prepare_service s.windows s.module_path l).1, monitor_off_on s.device d1)
unfolding use_library
after_set_up s h l d d1 i e f = rw (e, f) refl

-- The set-up succeeded: with its handle, the answers being what they are.
set_up_good :
    (a : DeviceAnswers) (h : ℕ) (d : Device) (r : ℤ × Device)
    → a.create_file ≡ some h
    → shared_answered a && a.control ≡ true
    → Ends a d r
    → (r.0 ≡ pos 1) × (r.1 ≡ set_up_with a h d)
set_up_good a h d r f g (inl (k, file, good, status, same)) =
    let e : k ≡ h = cc in (status, same ∙ ap (λ n. set_up_with a n d) e)
set_up_good a h d r f g (inr (inl file, status, same)) = cc
set_up_good a h d r f g (inr (inr bad, status, same)) = cc

-- No flow is known for TCP port 53.
ask_process-not_found :
    (s : Surroundings)
    → find (key_of 53 ipproto_tcp) s.flows ≡ none
    → ask_process s ≡ some not_found
unfolding ask_process get_process_info store_answer
ask_process-not_found s h = rw h refl

store_found :
    (r : Option ProcessInfo)
    → ((i : ℕ) × (p : List ℕ) × (r ≡ some (found i p))) ⊎ (r ≡ none)
    → (r >>= store_answer) ≡ none
unfolding store_answer
store_found r (inl (i, p, e)) = rw e refl
store_found r (inr e) = rw e refl

answer_found-found :
    (same : SameLetter) (drives : Option (List Drive)) (info : List ℕ)
    → ((i : ℕ) × (p : List ℕ) × (answer_found same drives info ≡ some (found i p)))
      ⊎ (answer_found same drives info ≡ none)
unfolding answer_found
answer_found-found same drives info =
    elim (Bool-cases
      (ltb 259 (length (device_dos_path_to_nt_path same drives (process_path_of info)).1))) [
        | inl long ↦ inr (rw long refl)
        | inr short ↦ inl (
          process_id_of info,
          (device_dos_path_to_nt_path same drives (process_path_of info)).1,
          rw short refl,
        )
      ]

-- A flow that is known for it makes nf_getprocessinfo write behind the program's structure.
ask_process_faults :
    (s : Surroundings) (info : List ℕ)
    → find (key_of 53 ipproto_tcp) s.flows ≡ some info
    → ask_process s ≡ none
unfolding ask_process get_process_info
ask_process_faults s info h = rw h (
    store_found (answer_found s.same_letter s.drives info)
      (answer_found-found s.same_letter s.drives info))

after_fault :
    (s : Surroundings) (l l1 : ScmLog) (d d1 : Device)
    → nf_init s.windows s.device s.module_path s.link_name (l, d) ≡ some (pos 1, (l1, d1))
    → ask_process s ≡ none
    → use_library s (l, d) ≡ none
unfolding use_library
after_fault s l l1 d d1 e f = rw (e, f) refl

-- What the program comes to, by whether a flow is known for TCP port 53.
abbrev pub ProgramRuns : Option (List ℕ) → ℕ → ScmLog → Device → Option (ScmLog × Device) → Type 0
ProgramRuns (some info) h l d r = r ≡ none
ProgramRuns none h l d r =
    (d' : Device) × (r ≡ some (l, d'))
    × (d'.sent
        ≡ (handle h, enable_monitor)
          ∷ (handle h, disentable_monitor)
          ∷ (handle h, enable_monitor)
          ∷ (handle h, open_sharemem)
          ∷ d.sent)

-- If the library is whole, nf_init goes on, the device opens, and the driver gives its buffers and takes
-- the requests, then it depends on the flows that are known when nf_getprocessinfo is called. If none is
-- known for TCP port 53, the program returns, and over the one handle that it opened it has asked for
-- the buffers, switched the monitor on, off and on again, in this order. If one is known, the program
-- faults, as the process id is written behind its PROCESS_INFO.
pub program_main-monitors :
    (b : Library) (s : Surroundings) (h : ℕ) (l : ScmLog) (d : Device)
    → is_whole b ≡ true
    → goes_on s.windows l ≡ true
    → s.device.create_file ≡ some h
    → shared_answered s.device && s.device.control ≡ true
    → ProgramRuns
        (find (key_of 53 ipproto_tcp) s.flows)
        h
        (prepare_service s.windows s.module_path l).1
        d
        (program_main b s (l, d))
unfolding program_main
program_main-monitors b s h l d whole ready file good =
    let a = s.device in
    let l1 = (prepare_service s.windows s.module_path l).1 in
    let (r, e, ends) = set_up_device-Ends a s.link_name d in
    let (status, same) = set_up_good a h d r file good ends in
    let init : nf_init s.windows a s.module_path s.link_name (l, d) ≡ some (pos 1, (l1, r.1)) =
      nf_init-ready s.windows a s.module_path s.link_name l d r ready e
      ∙ ap (λ st. some (st, (l1, r.1))) status in
    rw whole (elim (Option-cases (find (key_of 53 ipproto_tcp) s.flows)) [
      | inl unknown ↦ rw unknown (
        monitor_off_on a r.1,
        after_set_up s h l d r.1 not_found init (ask_process-not_found s unknown),
        monitored_off_on a h r.1 (ap (λ x. x.g_device_handle) same)
            ∙ ap (λ x. (handle h, enable_monitor) ∷ (handle h, disentable_monitor) ∷ x.sent) same,
      )
      | inr (info, known) ↦
          rw known (after_fault s l l1 d r.1 init (ask_process_faults s info known))
    ])
