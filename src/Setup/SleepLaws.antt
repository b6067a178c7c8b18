-- ===== src/Setup/SleepLaws.antt =====
-- How long the service functions of wfptools/main.cpp sleep.
use wfpdriver.Shared.{
  ℕ, zero, suc, ◌+◌, ◌*◌, ◌≤◌, ◌≡◌, refl, Bool, true, false, ◌++◌, ◌∷◌, Option, none, some,
  Bool-cases, inl, inr, if◌then◌else◌, arith,
}
use wfpdriver.Setup.Scm.{
  Text, open_manager, open_service, create_service, interrogate, stop, start, query_status,
  copy_file, create_process, sleep, Answer, ScmLog, Windows, ask, tell, slept,
}
use wfpdriver.Setup.Service.{
  ServiceResult, failure, is_negative, close_both, is_stopped, is_running, wait_for, stop_and_wait,
  stop_running, close_stopped, create_new, create_opened, create_driver, start_and_wait,
  start_opened, from_manager, with_service, start_driver, stop_opened, query_opened,
  get_services_status, service_name, lg_sleep_time,
}
use wfpdriver.Setup.Install.{nf_driver_install, driver_path, before_last, file_name, is_true}
use wfpdriver.Setup.Init.{prepare_service, start_by_sc, install_new, runs, is_installed}

-- A function that sleeps no longer than this.
abbrev Sleeps : ℕ → (ScmLog → ServiceResult) → Type 0
Sleeps n f = (l : ScmLog) → slept (f l).1 ≤ slept l + n

module _ (w : Windows) where
  slept-close_both : (l : ScmLog) → slept (close_both w l) ≡ slept l
  unfolding close_both tell
  slept-close_both l = refl

  slept-wait_for :
      (done : Answer → Bool) (n : ℕ) (l : ScmLog)
      → slept (wait_for done w n l).1 ≤ slept l + 4000 * n
  unfolding wait_for ask tell
  slept-wait_for done zero l = omega arith
  slept-wait_for done (suc n) l =
      let l1 = (interrogate, w l interrogate) ∷ l in
      let k = slept-wait_for done n (tell w (sleep lg_sleep_time) l1) in
      elim (Bool-cases (done (w l interrogate))) [
        | inl good ↦ rw good (omega arith)
        | inr bad ↦ rw bad (omega (arith, k))
      ]

  slept-stop_and_wait : (l : ScmLog) → slept (stop_and_wait w l).1 ≤ slept l + 40000
  unfolding stop_and_wait ask
  slept-stop_and_wait l = elim (Bool-cases (w l stop).good) [
    | inl good ↦ rw good (slept-wait_for is_stopped 10 _)
    | inr bad ↦ rw bad (omega arith)
  ]

  slept-stop_running : (l : ScmLog) → slept (stop_running w l).1 ≤ slept l + 40000
  unfolding stop_running ask
  slept-stop_running l = elim (Bool-cases (is_stopped (w l interrogate))) [
    | inl good ↦ rw good (omega arith)
    | inr bad ↦ rw bad (slept-stop_and_wait _)
  ]

  stop_opened-Sleeps : Sleeps 40000 (stop_opened w)
  unfolding stop_opened close_stopped
  stop_opened-Sleeps l = omega (arith, slept-close_both (stop_running w l).1, slept-stop_running l)

  create_new-Sleeps : (name path : Text) → Sleeps 0 (create_new w name path)
  unfolding create_new ask tell close_both
  create_new-Sleeps name path l = elim (Bool-cases (w l (create_service name path)).good) [
    | inl good ↦ rw good (omega arith)
    | inr bad ↦ rw bad (omega arith)
  ]

  create_opened-Sleeps : (name path : Text) → Sleeps 40000 (create_opened w name path)
  unfolding create_opened ask stop_opened
  create_opened-Sleeps name path l = elim (Bool-cases (w l (open_service name)).good) [
    | inl good ↦ rw good (stop_opened-Sleeps _)
    | inr bad ↦ rw bad (omega (arith, create_new-Sleeps name path _))
  ]

  create_driver-Sleeps : (name path : Option Text) → Sleeps 40000 (create_driver w name path)
  unfolding create_driver ask
  create_driver-Sleeps none path l = omega arith
  create_driver-Sleeps (some name) none l = omega arith
  create_driver-Sleeps (some name) (some path) l = elim (Bool-cases (w l open_manager).good) [
    | inl good ↦ rw good (create_opened-Sleeps name path _)
    | inr bad ↦ rw bad (omega arith)
  ]

  start_and_wait-Sleeps : Sleeps 40000 (start_and_wait w)
  unfolding start_and_wait ask close_both tell
  start_and_wait-Sleeps l = elim (Bool-cases (w l start).good) [
    | inl good ↦ rw good (slept-wait_for is_running 10 _)
    | inr bad ↦ rw bad (omega arith)
  ]

  start_or_close-Sleeps :
      (b : Bool) → Sleeps 40000 (λ l. if b then start_and_wait w l else (failure, close_both w l))
  start_or_close-Sleeps true l = start_and_wait-Sleeps l
  start_or_close-Sleeps false l = omega (arith, slept-close_both l)

  start_opened-Sleeps : Sleeps 40000 (start_opened w)
  unfolding start_opened ask
  start_opened-Sleeps l = elim (Bool-cases (is_running (w l interrogate))) [
    | inl good ↦ rw good (omega (arith, slept-close_both _))
    | inr bad ↦ rw bad (start_or_close-Sleeps _ _)
  ]

  from_manager-Sleeps :
      (name : Text) (n : ℕ) (f : ScmLog → ServiceResult)
      → Sleeps n f
      → Sleeps n (from_manager w name f)
  unfolding from_manager ask tell
  from_manager-Sleeps name n f h l = elim (Bool-cases (w l (open_service name)).good) [
    | inl good ↦ rw good (h _)
    | inr bad ↦ rw bad (omega arith)
  ]

  with_service-Sleeps :
      (name : Text) (n : ℕ) (f : ScmLog → ServiceResult)
      → Sleeps n f
      → Sleeps n (with_service w name f)
  unfolding with_service ask
  with_service-Sleeps name n f h l = elim (Bool-cases (w l open_manager).good) [
    | inl good ↦ rw good (from_manager-Sleeps name n f h _)
    | inr bad ↦ rw bad (omega arith)
  ]

  start_driver-Sleeps : (name path : Option Text) → Sleeps 80000 (start_driver w name path)
  unfolding start_driver
  start_driver-Sleeps none path l = omega arith
  start_driver-Sleeps (some name) path l =
      let r = create_driver w (some name) path l in
      let k = create_driver-Sleeps (some name) path l in
      let s = with_service-Sleeps name 40000 (start_opened w) start_opened-Sleeps r.1 in
      elim (Bool-cases (is_negative r.0)) [
        | inl bad ↦ rw bad (omega (arith, k))
        | inr good ↦ rw good (omega (arith, k, s))
      ]

  query_opened-Sleeps : Sleeps 0 (query_opened w)
  unfolding query_opened ask close_both tell
  query_opened-Sleeps l = elim (Bool-cases (w l query_status).good) [
    | inl good ↦ rw good (omega arith)
    | inr bad ↦ rw bad (omega arith)
  ]

  get_services_status-Sleeps : Sleeps 0 (get_services_status w)
  unfolding get_services_status
  get_services_status-Sleeps =
      with_service-Sleeps service_name 0 (query_opened w) query_opened-Sleeps

  slept-install :
      (path : Text) (l : ScmLog) → slept (nf_driver_install w path l).1 ≤ slept l + 80000
  unfolding nf_driver_install tell
  slept-install path l =
      let copied = tell w (copy_file (before_last path ++ file_name) driver_path) l in
      let r = start_driver w (some service_name) (some driver_path) copied in
      let k = start_driver-Sleeps (some service_name) (some driver_path) copied in
      elim (Bool-cases (is_true r.0)) [
        | inl good ↦ rw good (omega (arith, k))
        | inr bad ↦ rw bad (omega (arith, k))
      ]

  slept-start_by_sc : (l : ScmLog) → slept (start_by_sc w l).1 ≤ slept l + 3000
  unfolding start_by_sc tell
  slept-start_by_sc l =
      let l1 = tell w (sleep 3000) (tell w create_process l) in
      omega (arith, get_services_status-Sleeps l1)

  pub slept-prepare_service :
      (path : Text) (l : ScmLog) → slept (prepare_service w path l).1 ≤ slept l + 80000
  unfolding prepare_service install_new
  slept-prepare_service path l =
      let r = get_services_status w l in
      let k = get_services_status-Sleeps l in
      elim (Bool-cases (runs r.0)) [
        | inl good ↦ rw good (omega (arith, k))
        | inr bad ↦ elim (Bool-cases (is_installed r.0)) [
          | inl there ↦ rw (bad, there) (omega (arith, k, slept-start_by_sc r.1))
          | inr absent ↦ rw (bad, absent) (omega (arith, k, slept-install path r.1))
        ]
      ]
