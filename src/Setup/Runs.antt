-- ===== src/Setup/Runs.antt =====
-- The service operations of wfptools/main.cpp in any order, and the handles that they leave.
use wfpdriver.Shared.{ℕ, suc, ◌≡◌, refl, Bool-cases, inl, inr, Option, some, List, [], ◌∷◌, ◌++◌}
use wfpdriver.Setup.Scm.{Text, copy_file, ScmLog, Windows, tell, held, states_read}
use wfpdriver.Setup.Service.{
  create_driver, start_driver, stop_driver, get_services_status, service_name,
}
use wfpdriver.Setup.Install.{nf_driver_install, driver_path, before_last, file_name, is_true}
use wfpdriver.Setup.Init.{prepare_service, start_by_sc, install_new, runs, is_installed}
use wfpdriver.Setup.HandleLaws.{
  Has, create_driver-Keeps, start_driver-Keeps, stop_driver-Keeps, get_services_status_lem,
}

-- The operations; `initialise` is what nf_init does to the service.
pub data Operation : Type 0 where
  create start : Option Text → Option Text → Operation
  stop : Text → Operation
  get_status : Operation
  install initialise : Text → Operation

unfoldable pub operate : Windows → Operation → ScmLog → ScmLog
operate w (create name path) l = (create_driver w name path l).1
operate w (start name path) l = (start_driver w name path l).1
operate w (stop name) l = (stop_driver w name l).1
operate w get_status l = (get_services_status w l).1
operate w (install path) l = (nf_driver_install w path l).1
operate w (initialise path) l = (prepare_service w path l).1

unfoldable pub operate_all : Windows → List Operation → ScmLog → ScmLog
operate_all w [] l = l
operate_all w (op ∷ ops) l = operate_all w ops (operate w op l)

-- As many managers and services are held as states were read.
abbrev IsAccounted : ScmLog → Type 0
IsAccounted l = (n : ℕ) × Has n n n l

module _ (w : Windows) where
  tell-Has :
      (from to : Text) (l : ScmLog) (n : ℕ) → Has n n n l → Has n n n (tell w (copy_file from to) l)
  unfolding tell
  tell-Has from to l n h = (rw h.0 refl, h.1)

  install-IsAccounted :
      (path : Text) (l : ScmLog) → IsAccounted l → IsAccounted (nf_driver_install w path l).1
  unfolding nf_driver_install
  install-IsAccounted path l (n, h) =
      let copied = tell w (copy_file (before_last path ++ file_name) driver_path) l in
      let r = start_driver w (some service_name) (some driver_path) copied in
      let k =
        start_driver-Keeps w (some service_name) (some driver_path) copied n n n
          (tell-Has (before_last path ++ file_name) driver_path l n h) in
      elim (Bool-cases (is_true r.0)) [ inl good ↦ rw good (n, k) | inr bad ↦ rw bad (n, k) ]

  status-IsAccounted : (l : ScmLog) → IsAccounted l → IsAccounted (get_services_status w l).1
  status-IsAccounted l (n, h) = elim (get_services_status_lem w l n n n h) [
    | inl k ↦ (n, k)
    | inr k ↦ (suc n, k)
  ]

  start_by_sc-IsAccounted : (l : ScmLog) → IsAccounted l → IsAccounted (start_by_sc w l).1
  unfolding start_by_sc tell
  start_by_sc-IsAccounted l (n, h) = status-IsAccounted _ (n, (rw h.0 refl, h.1))

  prepare-IsAccounted :
      (path : Text) (l : ScmLog) → IsAccounted l → IsAccounted (prepare_service w path l).1
  unfolding prepare_service install_new
  prepare-IsAccounted path l h =
      let r = get_services_status w l in
      let k = status-IsAccounted l h in
      elim (Bool-cases (runs r.0)) [
        | inl good ↦ rw good k
        | inr bad ↦ elim (Bool-cases (is_installed r.0)) [
          | inl there ↦ rw (bad, there) (start_by_sc-IsAccounted r.1 k)
          | inr absent ↦ rw (bad, absent) (install-IsAccounted path r.1 k)
        ]
      ]

  operate-IsAccounted : (op : Operation) (l : ScmLog) → IsAccounted l → IsAccounted (operate w op l)
  unfolding operate
  operate-IsAccounted (create name path) l (n, h) = (n, create_driver-Keeps w name path l n n n h)
  operate-IsAccounted (start name path) l (n, h) = (n, start_driver-Keeps w name path l n n n h)
  operate-IsAccounted (stop name) l (n, h) = (n, stop_driver-Keeps w name l n n n h)
  operate-IsAccounted get_status l h = status-IsAccounted l h
  operate-IsAccounted (install path) l h = install-IsAccounted path l h
  operate-IsAccounted (initialise path) l h = prepare-IsAccounted path l h

  all-IsAccounted :
      (ops : List Operation) (l : ScmLog) → IsAccounted l → IsAccounted (operate_all w ops l)
  unfolding operate_all
  all-IsAccounted [] l h = h
  all-IsAccounted (op ∷ ops) l h = all-IsAccounted ops (operate w op l) (operate-IsAccounted op l h)

Has-held : (n : ℕ) (l : ScmLog) → Has n n n l → held l ≡ some (states_read l, states_read l)
Has-held n l h = rw (h.1, h.0) refl

-- Whatever Windows answers to any sequence of the service operations, no handle is used or closed that
-- is not held, and at the end exactly one manager and one service are held for each time that
-- GetServicesStatus read a state: it leaks the two, and nothing else leaks.
pub operate_all-held :
    (w : Windows) (ops : List Operation)
    → let l = operate_all w ops [] in held l ≡ some (states_read l, states_read l)
operate_all-held w ops =
    let (n, h) = all-IsAccounted w ops [] (0, (refl, refl)) in Has-held n (operate_all w ops []) h
