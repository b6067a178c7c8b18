-- ===== src/Setup/ResultLaws.antt =====
-- What the results of StartDriver and StopDriver in wfptools/main.cpp mean.
use wfpdriver.Shared.{
  ℕ, zero, suc, ◌≡◌, refl, Bool, true, false, pos, Option, none, some, Bool-cases, inl, inr,
  if◌then◌else◌,
}
use wfpdriver.Setup.Scm.{
  Text, open_manager, open_service, interrogate, stop, start, Answer, ScmLog, Windows, ask, tell,
  last_interrogation,
}
use wfpdriver.Setup.Service.{
  ServiceResult, failure, is_negative, close_both, is_stopped, is_running, wait_for, stop_and_wait,
  stop_running, close_stopped, create_driver, start_and_wait, start_opened, from_manager,
  with_service, start_driver, stop_opened, stop_driver,
}

-- The last interrogation had an answer with the property.
abbrev pub Finds : (Answer → Bool) → ScmLog → Type 0
Finds done l = (a : Answer) × (last_interrogation l ≡ some a) × (done a ≡ true)

-- A result that is not negative is backed by the last interrogation.
abbrev Backed : (Answer → Bool) → ServiceResult → Type 0
Backed done r = is_negative r.0 ≡ false → Finds done r.1

-- A failure is negative.
no_failure {ℓ} : {A : Type ℓ} → is_negative failure ≡ false → A
unfolding is_negative
no_failure h = cc

module _ (w : Windows) where
  wait_for-Finds :
      (done : Answer → Bool) (n : ℕ) (l : ScmLog)
      → (wait_for done w n l).0 ≡ true
      → Finds done (wait_for done w n l).1
  unfolding wait_for ask
  wait_for-Finds done zero l = λ h. cc
  wait_for-Finds done (suc n) l = elim (Bool-cases (done (w l interrogate))) [
    | inl good ↦ rw good (λ h. (w l interrogate, refl, good))
    | inr bad ↦ rw bad (wait_for-Finds done n _)
  ]

  close_both-Finds :
      (done : Answer → Bool) (l : ScmLog) → Finds done l → Finds done (close_both w l)
  unfolding close_both tell
  close_both-Finds done l h = h

  stop_and_wait-Finds :
      (l : ScmLog) → (stop_and_wait w l).0 ≡ true → Finds is_stopped (stop_and_wait w l).1
  unfolding stop_and_wait ask
  stop_and_wait-Finds l = elim (Bool-cases (w l stop).good) [
    | inl good ↦ rw good (wait_for-Finds is_stopped 10 _)
    | inr bad ↦ rw bad (λ h. cc)
  ]

  stop_running-Finds :
      (l : ScmLog) → (stop_running w l).0 ≡ true → Finds is_stopped (stop_running w l).1
  unfolding stop_running ask
  stop_running-Finds l = elim (Bool-cases (is_stopped (w l interrogate))) [
    | inl good ↦ rw good (λ h. (w l interrogate, refl, good))
    | inr bad ↦ rw bad (stop_and_wait-Finds _)
  ]

  close_stopped-Backed :
      (stopped : Bool) (l : ScmLog)
      → (stopped ≡ true → Finds is_stopped l)
      → Backed is_stopped (close_stopped w (stopped, l))
  unfolding close_stopped is_negative
  close_stopped-Backed true l h _ = close_both-Finds is_stopped l (h refl)
  close_stopped-Backed false l h k = cc

  stop_opened-Backed : (l : ScmLog) → Backed is_stopped (stop_opened w l)
  unfolding stop_opened
  stop_opened-Backed l =
      close_stopped-Backed (stop_running w l).0 (stop_running w l).1 (stop_running-Finds l)

  close_started-Backed :
      (started : Bool) (l : ScmLog)
      → (started ≡ true → Finds is_running l)
      → Backed is_running ((if started then pos 1 else failure), close_both w l)
  unfolding is_negative
  close_started-Backed true l h _ = close_both-Finds is_running l (h refl)
  close_started-Backed false l h k = cc

  start_and_wait-Backed : (l : ScmLog) → Backed is_running (start_and_wait w l)
  unfolding start_and_wait ask
  start_and_wait-Backed l = elim (Bool-cases (w l start).good) [
    | inl good ↦ rw good (close_started-Backed _ _ (wait_for-Finds is_running 10 _))
    | inr bad ↦ rw bad no_failure
  ]

  started_or_failed :
      (b : Bool) (l : ScmLog)
      → Backed is_running (if b then start_and_wait w l else (failure, close_both w l))
  started_or_failed true l = start_and_wait-Backed l
  started_or_failed false l = no_failure

  start_opened-Backed : (l : ScmLog) → Backed is_running (start_opened w l)
  unfolding start_opened ask
  start_opened-Backed l = elim (Bool-cases (is_running (w l interrogate))) [
    | inl good ↦ rw good (λ h. close_both-Finds is_running _ (w l interrogate, refl, good))
    | inr bad ↦ rw bad (started_or_failed _ _)
  ]

  from_manager-Backed :
      (done : Answer → Bool) (name : Text) (f : ScmLog → ServiceResult)
      → ((l : ScmLog) → Backed done (f l))
      → (l : ScmLog) → Backed done (from_manager w name f l)
  unfolding from_manager ask
  from_manager-Backed done name f h l = elim (Bool-cases (w l (open_service name)).good) [
    | inl good ↦ rw good (h _)
    | inr bad ↦ rw bad no_failure
  ]

  with_service-Backed :
      (done : Answer → Bool) (name : Text) (f : ScmLog → ServiceResult)
      → ((l : ScmLog) → Backed done (f l))
      → (l : ScmLog) → Backed done (with_service w name f l)
  unfolding with_service ask
  with_service-Backed done name f h l = elim (Bool-cases (w l open_manager).good) [
    | inl good ↦ rw good (from_manager-Backed done name f h _)
    | inr bad ↦ rw bad no_failure
  ]

  start_driver-Backed :
      (name path : Option Text) (l : ScmLog) → Backed is_running (start_driver w name path l)
  unfolding start_driver
  start_driver-Backed none path l = no_failure
  start_driver-Backed (some name) path l =
      elim (Bool-cases (is_negative (create_driver w (some name) path l).0)) [
        | inl bad ↦ rw bad no_failure
        | inr good ↦
            rw good (with_service-Backed is_running name (start_opened w) start_opened-Backed _)
      ]

-- If StartDriver does not return an error, the last interrogation of the service succeeded and found
-- it running.
pub start_driver-running :
    (w : Windows) (name path : Option Text) (l : ScmLog)
    → is_negative (start_driver w name path l).0 ≡ false
    → Finds is_running (start_driver w name path l).1
start_driver-running w name path l h = start_driver-Backed w name path l h

-- If StopDriver does not return an error, the last interrogation of the service failed or found it
-- stopped.
pub stop_driver-stopped :
    (w : Windows) (name : Text) (l : ScmLog)
    → is_negative (stop_driver w name l).0 ≡ false
    → Finds is_stopped (stop_driver w name l).1
unfolding stop_driver
stop_driver-stopped w name l h =
    with_service-Backed w is_stopped name (stop_opened w) (stop_opened-Backed w) l h
