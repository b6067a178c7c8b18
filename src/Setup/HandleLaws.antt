-- ===== src/Setup/HandleLaws.antt =====
-- The handles that the service functions of wfptools/main.cpp hold, whatever Windows answers.
use wfpdriver.Shared.{
  ℕ, zero, suc, ◌≡◌, refl, Bool, true, false, Option, none, some, Bool-cases, ◌⊎◌, inl, inr, arith,
  if◌then◌else◌,
}
use wfpdriver.Setup.Scm.{
  Text, interrogate, stop, start, query_status, Answer, ScmLog, Windows, ask, tell, held,
  states_read, open_manager, open_service, create_service,
}
use wfpdriver.Setup.Service.{
  ServiceResult, close_both, is_stopped, is_running, wait_for, stop_and_wait, stop_running,
  close_stopped, create_new, create_opened, create_driver, start_and_wait, start_opened,
  from_manager, with_service, start_driver, stop_opened, stop_driver, is_negative, query_opened,
  get_services_status, failure, service_name,
}

-- The handles held, and the service states read, after a sequence of calls that uses no handle that it
-- does not hold.
abbrev pub Has : ℕ → ℕ → ℕ → ScmLog → Type 0
Has m s k l = (held l ≡ some (m, s)) × (states_read l ≡ k)

-- A function that gives back what it takes, and uses nothing that it does not hold.
abbrev pub Keeps : (ScmLog → ServiceResult) → Type 0
Keeps f = (l : ScmLog) (m s k : ℕ) → Has m s k l → Has m s k (f l).1

-- A function that closes a manager and a service.
abbrev pub Closes : (ScmLog → ServiceResult) → Type 0
Closes f = (l : ScmLog) (m s k : ℕ) → Has (suc m) (suc s) k l → Has m s k (f l).1

module _ (w : Windows) where
  held-close_both : (l : ScmLog) (m s k : ℕ) → Has (suc m) (suc s) k l → Has m s k (close_both w l)
  unfolding close_both tell
  held-close_both l m s k h = (rw h.0 refl, h.1)

  held-wait_for :
      (done : Answer → Bool) (n : ℕ) (l : ScmLog) (m s k : ℕ)
      → Has m (suc s) k l
      → Has m (suc s) k (wait_for done w n l).1
  unfolding wait_for ask tell
  held-wait_for done zero l m s k h = h
  held-wait_for done (suc n) l m s k h = elim (Bool-cases (done (w l interrogate))) [
    | inl good ↦ rw good (rw h.0 refl, h.1)
    | inr bad ↦ rw bad (held-wait_for done n _ m s k (rw h.0 refl, h.1))
  ]

  held-stop_and_wait :
      (l : ScmLog) (m s k : ℕ) → Has m (suc s) k l → Has m (suc s) k (stop_and_wait w l).1
  unfolding stop_and_wait ask
  held-stop_and_wait l m s k h = elim (Bool-cases (w l stop).good) [
    | inl good ↦ rw good (held-wait_for is_stopped 10 _ m s k (rw h.0 refl, h.1))
    | inr bad ↦ rw bad (rw h.0 refl, h.1)
  ]

  held-stop_running :
      (l : ScmLog) (m s k : ℕ) → Has m (suc s) k l → Has m (suc s) k (stop_running w l).1
  unfolding stop_running ask
  held-stop_running l m s k h = elim (Bool-cases (is_stopped (w l interrogate))) [
    | inl good ↦ rw good (rw h.0 refl, h.1)
    | inr bad ↦ rw bad (held-stop_and_wait _ m s k (rw h.0 refl, h.1))
  ]

  stop_opened-Closes : Closes (stop_opened w)
  unfolding stop_opened close_stopped
  stop_opened-Closes l m s k h =
      held-close_both (stop_running w l).1 m s k (held-stop_running l (suc m) s k h)

  create_new-Closes :
      (name path : Text) (l : ScmLog) (m s k : ℕ)
      → Has (suc m) s k l
      → Has m s k (create_new w name path l).1
  unfolding create_new ask tell
  create_new-Closes name path l m s k h = elim (Bool-cases (w l (create_service name path)).good) [
    | inl good ↦ rw good (held-close_both _ m s k (rw h.0 refl, h.1))
    | inr bad ↦ rw bad (rw h.0 refl, h.1)
  ]

  create_opened-Keeps :
      (name path : Text) (l : ScmLog) (m s k : ℕ)
      → Has (suc m) s k l
      → Has m s k (create_opened w name path l).1
  unfolding create_opened ask stop_opened
  create_opened-Keeps name path l m s k h = elim (Bool-cases (w l (open_service name)).good) [
    | inl good ↦ rw good (stop_opened-Closes _ m s k (rw h.0 refl, h.1))
    | inr bad ↦ rw bad (create_new-Closes name path _ m s k (rw h.0 refl, h.1))
  ]

  pub create_driver-Keeps : (name path : Option Text) → Keeps (create_driver w name path)
  unfolding create_driver ask
  create_driver-Keeps none path l m s k h = h
  create_driver-Keeps (some name) none l m s k h = h
  create_driver-Keeps (some name) (some path) l m s k h =
      elim (Bool-cases (w l open_manager).good) [
        | inl good ↦ rw good (create_opened-Keeps name path _ m s k (rw h.0 refl, h.1))
        | inr bad ↦ rw bad (rw h.0 refl, h.1)
      ]

  start_and_wait-Closes : Closes (start_and_wait w)
  unfolding start_and_wait ask
  start_and_wait-Closes l m s k h = elim (Bool-cases (w l start).good) [
    | inl good ↦
        rw good
          (held-close_both _ m s k (held-wait_for is_running 10 _ (suc m) s k (rw h.0 refl, h.1)))
    | inr bad ↦ rw bad (held-close_both _ m s k (rw h.0 refl, h.1))
  ]

  start_or_close-Closes :
      (b : Bool) → Closes (λ l. if b then start_and_wait w l else (failure, close_both w l))
  start_or_close-Closes true l m s k h = start_and_wait-Closes l m s k h
  start_or_close-Closes false l m s k h = held-close_both l m s k h

  start_opened-Closes : Closes (start_opened w)
  unfolding start_opened ask
  start_opened-Closes l m s k h = elim (Bool-cases (is_running (w l interrogate))) [
    | inl good ↦ rw good (held-close_both _ m s k (rw h.0 refl, h.1))
    | inr bad ↦ rw bad (start_or_close-Closes _ _ m s k (rw h.0 refl, h.1))
  ]

  -- What holds after f with the service open, and after a failure to open it, holds after both.
  from_manager-ends :
      (P : ScmLog → Type 0) (name : Text) (f : ScmLog → ServiceResult) (m s k : ℕ)
      → ((l : ScmLog) → Has (suc m) (suc s) k l → P (f l).1)
      → ((l : ScmLog) → Has m s k l → P l)
      → (l : ScmLog) → Has (suc m) s k l
      → P (from_manager w name f l).1
  unfolding from_manager ask tell
  from_manager-ends P name f m s k good_end bad_end l h =
      elim (Bool-cases (w l (open_service name)).good) [
        | inl good ↦ rw good (good_end _ (rw h.0 refl, h.1))
        | inr bad ↦ rw bad (bad_end _ (rw h.0 refl, h.1))
      ]

  with_service-ends :
      (P : ScmLog → Type 0) (name : Text) (f : ScmLog → ServiceResult) (m s k : ℕ)
      → ((l : ScmLog) → Has (suc m) (suc s) k l → P (f l).1)
      → ((l : ScmLog) → Has m s k l → P l)
      → (l : ScmLog) → Has m s k l
      → P (with_service w name f l).1
  unfolding with_service ask
  with_service-ends P name f m s k good_end bad_end l h =
      elim (Bool-cases (w l open_manager).good) [
        | inl good ↦
            rw good (from_manager-ends P name f m s k good_end bad_end _ (rw h.0 refl, h.1))
        | inr bad ↦ rw bad (bad_end _ (rw h.0 refl, h.1))
      ]

  with_service-Keeps :
      (name : Text) (f : ScmLog → ServiceResult) → Closes f → Keeps (with_service w name f)
  with_service-Keeps name f c l m s k h =
      with_service-ends (Has m s k) name f m s k (λ l1. c l1 m s k) (λ l1 g. g) l h

  pub start_driver-Keeps : (name path : Option Text) → Keeps (start_driver w name path)
  unfolding start_driver
  start_driver-Keeps none path l m s k h = h
  start_driver-Keeps (some name) path l m s k h =
      let r = create_driver w (some name) path l in
      elim (Bool-cases (is_negative r.0)) [
        | inl bad ↦ rw bad (create_driver-Keeps (some name) path l m s k h)
        | inr good ↦ rw good (
            with_service-Keeps name (start_opened w) start_opened-Closes r.1 m s k
              (create_driver-Keeps (some name) path l m s k h))
      ]

  pub stop_driver-Keeps : (name : Text) → Keeps (stop_driver w name)
  unfolding stop_driver
  stop_driver-Keeps name = with_service-Keeps name (stop_opened w) stop_opened-Closes

  query_opened_lem :
      (l : ScmLog) (m s k : ℕ)
      → Has (suc m) (suc s) k l
      → Has m s k (query_opened w l).1 ⊎ Has (suc m) (suc s) (suc k) (query_opened w l).1
  unfolding query_opened ask
  query_opened_lem l m s k h = elim (Bool-cases (w l query_status).good) [
    | inl good ↦ rw good (inr (rw h.0 refl, omega (arith, h.1)))
    | inr bad ↦ rw bad (inl (held-close_both _ m s k (rw h.0 refl, omega (arith, h.1))))
  ]

  -- GetServicesStatus leaves the handles it opened if it reads a state, and else nothing.
  pub get_services_status_lem :
      (l : ScmLog) (m s k : ℕ)
      → Has m s k l
      → Has m s k (get_services_status w l).1
        ⊎ Has (suc m) (suc s) (suc k) (get_services_status w l).1
  unfolding get_services_status
  get_services_status_lem l m s k h =
      with_service-ends (λ l1. Has m s k l1 ⊎ Has (suc m) (suc s) (suc k) l1) service_name
        (query_opened w) m s k (λ l1. query_opened_lem l1 m s k) (λ l1. inl) l h
