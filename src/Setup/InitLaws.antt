-- ===== src/Setup/InitLaws.antt =====
-- What nf_init of wfptools/main.cpp makes of the answers of Windows.
use wfpdriver.Shared.{
  ℕ, ◌≤◌, ◌+◌, ◌≡◌, refl, ◌∙◌, ap, Bool, true, false, not, ◌&&◌, ◌||◌, none, some, ◌∷◌, Bool-cases,
  Option-cases, ◌⊎◌, inl, inr, ℤ, pos, negsuc, arith,
}
use wfpdriver.Setup.Scm.{Text, ScmLog, Windows, slept}
use wfpdriver.Setup.Service.{failure, is_negative, get_services_status}
use wfpdriver.Setup.Install.{nf_driver_install}
use wfpdriver.Setup.Device.{
  DeviceAnswers, Device, handle, attach, open_sharemem, enable_monitor, device_init, opened_device,
  device_open, device_workthread, device_initshare_mem, share_attached, shared_answered,
  device_sendioct, device_on_monitor, set_event_handler, is_null_handle, handle_or_null,
}
use wfpdriver.Setup.Init.{
  runs, is_installed, is_zero_int, start_by_sc, install_new, prepare_service, unless_negative,
  monitored, after_open, set_up_device, nf_init,
}
use wfpdriver.Setup.SleepLaws.{slept-prepare_service}

-- Whether the service is not known to be stopped, or `sc start` brought it to run.
abbrev pub goes_on : Windows → ScmLog → Bool
goes_on w l =
    let (state, l1) = get_services_status w l in not (is_installed state) || (start_by_sc w l1).0

-- nf_driverInstall returns 1 or -1, which `!` does not tell apart.
install_new_goes_on : (w : Windows) (path : Text) (l : ScmLog) → (install_new w path l).0 ≡ true
unfolding install_new nf_driver_install is_zero_int
install_new_goes_on w path l = ground arith

runs_not_installed : (n : ℤ) → runs n ≡ true → is_installed n ≡ false
unfolding runs is_installed
runs_not_installed (pos n) h = ground arith
runs_not_installed (negsuc n) h = refl

-- Whether nf_init goes on does not depend on the installation.
prepare_service_lem :
    (w : Windows) (path : Text) (l : ScmLog) → (prepare_service w path l).0 ≡ goes_on w l
unfolding prepare_service
prepare_service_lem w path l =
    let r = get_services_status w l in
    elim (Bool-cases (runs r.0)) [
      | inl good ↦ rw (good, runs_not_installed r.0 good) refl
      | inr bad ↦ elim (Bool-cases (is_installed r.0)) [
        | inl there ↦ rw (bad, there) refl
        | inr absent ↦ rw (bad, absent) (install_new_goes_on w path r.1)
      ]
    ]

-- The device with its handle, the buffers asked for and the monitor switched on.
abbrev pub set_up_with : DeviceAnswers → ℕ → Device → Device
set_up_with a h d = record {
  m_devhandler = handle h;
  m_threadobjhandler = handle_or_null a.create_thread;
  g_device_handle = handle h;
  g_h_device = attach (handle h) ∷ d.g_h_device;
  g_event_handler = true;
  sent = (handle h, enable_monitor) ∷ (handle h, open_sharemem) ∷ d.sent;
}

-- What comes of the device: all is set up; or something failed, and the handler is as before.
abbrev pub Ends : DeviceAnswers → Device → ℤ × Device → Type 0
Ends a d (status, d1) =
    ((h : ℕ) × (a.create_file ≡ some h)
      × (shared_answered a && a.control ≡ true)
      × (status ≡ pos 1)
      × (d1 ≡ set_up_with a h d))
    ⊎ (((a.create_file ≡ none) ⊎ (shared_answered a && a.control ≡ false))
        × (is_negative status ≡ true)
        × (d1.g_event_handler ≡ d.g_event_handler))

no_file-Ends :
    (a : DeviceAnswers) (d : Device)
    → a.create_file ≡ none
    → Ends a d (after_open a (opened_device none (device_init d)))
unfolding opened_device after_open unless_negative monitored is_negative device_init
no_file-Ends a d h = inr (inl h, refl, refl)

shared-Ends :
    (a : DeviceAnswers) (h : ℕ) (d : Device)
    → a.create_file ≡ some h
    → Ends a d (after_open a (opened_device (some h) (device_init d)))
unfolding after_open unless_negative monitored is_negative device_init opened_device
    device_initshare_mem share_attached device_workthread device_on_monitor device_sendioct
    is_null_handle set_event_handler handle_or_null
shared-Ends a h d e = elim (Bool-cases (shared_answered a)) [
  | inl shared ↦ elim (Option-cases a.create_thread) [
    | inl no_thread ↦ elim (Bool-cases a.control) [
      | inl good ↦ rw (shared, no_thread, good) (inl (h, e, refl, refl, refl))
      | inr bad ↦ rw (shared, no_thread, bad) (inr (inr refl, refl, refl))
    ]
    | inr (t, thread) ↦ elim (Bool-cases a.control) [
      | inl good ↦ rw (shared, thread, good) (inl (h, e, refl, refl, refl))
      | inr bad ↦ rw (shared, thread, bad) (inr (inr refl, refl, refl))
    ]
  ]
  | inr bad ↦ rw bad (inr (inr refl, refl, refl))
]

pub set_up_device-Ends :
    (a : DeviceAnswers) (name : Text) (d : Device)
    → (r : ℤ × Device) × (set_up_device a name d ≡ some r) × Ends a d r
unfolding set_up_device device_open
set_up_device-Ends a name d = elim (Option-cases a.create_file) [
  | inl no_file ↦ (
    after_open a (opened_device none (device_init d)),
    ap (λ f. some (after_open a (opened_device f (device_init d)))) no_file,
    no_file-Ends a d no_file,
  )
  | inr (h, file) ↦ (
    after_open a (opened_device (some h) (device_init d)),
    ap (λ f. some (after_open a (opened_device f (device_init d)))) file,
    shared-Ends a h d file,
  )
]

-- What nf_init leaves.
abbrev pub Initialises : Windows → DeviceAnswers → ScmLog × Device → ℤ × (ScmLog × Device) → Type 0
Initialises w a (l, d) (status, (l1, d1)) =
    (slept l1 ≤ slept l + 80000)
    × (((goes_on w l ≡ true) × Ends a d (status, d1))
        ⊎ ((goes_on w l ≡ false) × (status ≡ failure) × (d1 ≡ d)))

pub nf_init-ready :
    (w : Windows) (a : DeviceAnswers) (path name : Text) (l : ScmLog) (d : Device) (r : ℤ × Device)
    → goes_on w l ≡ true
    → set_up_device a name d ≡ some r
    → nf_init w a path name (l, d) ≡ some (r.0, ((prepare_service w path l).1, r.1))
unfolding nf_init
nf_init-ready w a path name l d r g e = rw (prepare_service_lem w path l ∙ g, e) refl

nf_init_stops :
    (w : Windows) (a : DeviceAnswers) (path name : Text) (l : ScmLog) (d : Device)
    → goes_on w l ≡ false
    → nf_init w a path name (l, d) ≡ some (failure, ((prepare_service w path l).1, d))
unfolding nf_init
nf_init_stops w a path name l d g = rw (prepare_service_lem w path l ∙ g) refl

-- Whatever Windows answers, nf_init returns and sleeps at most 80 seconds. It returns 1 exactly if the
-- service is not known to be stopped or `sc start` brought it to run, the device opens, the driver
-- gives its buffers and the monitor is switched on, and then the handles, the requests sent and the
-- event handler are set up, whether or not the driver was installed and the thread was made; else it
-- returns an error with the event handler as before.
pub nf_init-Initialises :
    (w : Windows) (a : DeviceAnswers) (path name : Text) (l : ScmLog) (d : Device)
    → (r : ℤ × (ScmLog × Device)) × (nf_init w a path name (l, d) ≡ some r)
      × Initialises w a (l, d) r
nf_init-Initialises w a path name l d =
    let l1 = (prepare_service w path l).1 in
    let k = slept-prepare_service w path l in
    elim (Bool-cases (goes_on w l)) [
      | inl ready ↦
          let (r, e, ends) = set_up_device-Ends a name d in
          ((r.0, (l1, r.1)), nf_init-ready w a path name l d r ready e, (k, inl (ready, ends)))
      | inr stopped ↦ (
        (failure, (l1, d)),
        nf_init_stops w a path name l d stopped,
        (k, inr (stopped, refl, refl)),
      )
    ]
