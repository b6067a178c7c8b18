-- ===== src/Lifecycle/EntryFails.antt =====
-- DriverEntry of wfpdriver/driver.c when the device, its link or the I/O thread fails.
use wfpdriver.Shared.{
  ◌≡◌, ◌≢◌, refl, ◌∙◌, sym, Bool, true, false, not, ◌&&◌, Bool-cases, inl, inr, some, if◌then◌else◌,
}
use wfpdriver.Nt.{Status, nt_success}
use wfpdriver.State.{started}
use wfpdriver.Devctrl.SharedMem.{free_buffers, free_shared_memory}
use wfpdriver.Devctrl.Dispatch.{clean_queries, clean}
use wfpdriver.Devctrl.CloseLaws.{IsClosed}
use wfpdriver.Lifecycle.Engine.{Oracle, ready, deleted, delete_list}
use wfpdriver.Lifecycle.Loading.{
  Loaded, not_loaded, LoadAnswers, link_device, driver_init, devctrl_init,
}
use wfpdriver.Lifecycle.Freeing.{delete_device, devctrl_free}
use wfpdriver.Lifecycle.Entry.{Entry, undo_devctrl, init_devctrl, driver_entry}
use wfpdriver.Lifecycle.EntryLaws.{linked, driver_init_lem, entry_after_init}

-- What DriverEntry leaves when the device, its link or the thread cannot be made.
pub record Fails (a : LoadAnswers) (e : Entry) : Type 0 where
  pub status : Status
  pub after : Loaded
  pub result : e ≡ some (status, after)
  pub failure : nt_success status ≡ false
  pub devices :
      after.devices
      ≡ (if nt_success a.create_device && not (nt_success a.create_link) then 1 else 0)
  pub links : after.links ≡ 0
  pub thread :
      after.thread
      ≡ (nt_success a.create_device && nt_success a.create_link && nt_success a.create_thread)
  pub driver : IsClosed started after.driver

started-IsClosed : IsClosed started started
started-IsClosed = record {
  monitor = refl;
  query = refl;
  datalink = refl;
  flows = refl;
  query_live = refl;
  datalink_live = refl;
  flow_live = refl;
  in_buf = refl;
  out_buf = refl;
  mm = record { mdls = refl; kernel_maps = refl; user_maps = refl };
  pended = refl;
}

clean-started : clean started ≡ started
unfolding clean clean_queries free_buffers free_shared_memory
clean-started = refl

half_started : Bool → Loaded
half_started t = record linked { thread = t; query_list = ready }

undone : Bool → Loaded
undone t = record not_loaded { thread = t; query_list = deleted; driver = clean started }

undo_devctrl_lem : (st : Status) (t : Bool) → undo_devctrl st (half_started t) ≡ some (st, undone t)
unfolding undo_devctrl delete_device devctrl_free delete_list half_started undone
undo_devctrl_lem st t = refl

init_failed :
    (o : Oracle) (a : LoadAnswers) (st : Status) (t : Bool)
    → nt_success st ≡ false
    → devctrl_init a linked ≡ (st, half_started t)
    → init_devctrl o a (devctrl_init a linked) ≡ some (st, undone t)
unfolding init_devctrl
init_failed o a st t h e = rw e (rw h (undo_devctrl_lem st t))

thread_failed :
    (a : LoadAnswers)
    → nt_success a.create_thread ≡ false
    → devctrl_init a linked ≡ (a.create_thread, half_started false)
unfolding devctrl_init half_started
thread_failed a h = rw h refl

reference_failed :
    (a : LoadAnswers)
    → nt_success a.create_thread ≡ true
    → nt_success a.reference_thread ≡ false
    → devctrl_init a linked ≡ (a.reference_thread, half_started true)
unfolding devctrl_init half_started
reference_failed a h k = rw h (rw k refl)

undone-IsClosed : (t : Bool) → IsClosed started (undone t).driver
unfolding undone
undone-IsClosed t = rw clean-started started-IsClosed

-- The device, its link and the I/O thread are made, and the thread can be waited for.
abbrev pub all_made : LoadAnswers → Bool
all_made a =
    nt_success a.create_device
    && nt_success a.create_link
    && nt_success a.create_thread
    && nt_success a.reference_thread

no_device-Fails :
    (o : Oracle) (a : LoadAnswers)
    → nt_success a.create_device ≡ false
    → Fails a (driver_entry o a not_loaded)
unfolding driver_entry driver_init
no_device-Fails o a d = record {
  status = a.create_device;
  after = not_loaded;
  result = rw d (rw d refl);
  failure = d;
  devices = rw d refl;
  links = refl;
  thread = rw d refl;
  driver = started-IsClosed;
}

no_link-Fails :
    (o : Oracle) (a : LoadAnswers)
    → nt_success a.create_device ≡ true
    → nt_success a.create_link ≡ false
    → Fails a (driver_entry o a not_loaded)
unfolding driver_entry driver_init link_device
no_link-Fails o a d k = record {
  status = a.create_link;
  after = record not_loaded { device = true; devices = 1 };
  result = rw d (rw k refl);
  failure = k;
  devices = rw d (rw k refl);
  links = refl;
  thread = rw d (rw k refl);
  driver = started-IsClosed;
}

not_started-Fails :
    (o : Oracle) (a : LoadAnswers) (st : Status) (t : Bool)
    → nt_success a.create_device ≡ true
    → nt_success a.create_link ≡ true
    → nt_success a.create_thread ≡ t
    → nt_success st ≡ false
    → devctrl_init a linked ≡ (st, half_started t)
    → Fails a (driver_entry o a not_loaded)
unfolding undone
not_started-Fails o a st t d k c h e = record {
  status = st;
  after = undone t;
  result =
      entry_after_init o a (a.create_link, linked) k (driver_init_lem a d k)
      ∙ init_failed o a st t h e;
  failure = h;
  devices = rw d (rw k refl);
  links = refl;
  thread = rw d (rw k (sym c));
  driver = undone-IsClosed t;
}

not_all_made :
    (a : LoadAnswers)
    → nt_success a.create_device ≡ true
    → nt_success a.create_link ≡ true
    → nt_success a.create_thread ≡ true
    → nt_success a.reference_thread ≡ true
    → all_made a ≢ false
not_all_made a d k c r h = cc

-- If the device, its link or the I/O thread cannot be made, or the thread not be referenced,
-- DriverEntry returns an error, has no link left and nothing that waits or is allocated; but the device
-- is left if it was the link that failed, and the thread runs on if only its reference failed.
pub driver_entry-Fails :
    (o : Oracle) (a : LoadAnswers) → all_made a ≡ false → Fails a (driver_entry o a not_loaded)
driver_entry-Fails o a h = elim (Bool-cases (nt_success a.create_device)) [
  | inr d ↦ no_device-Fails o a d
  | inl d ↦ elim (Bool-cases (nt_success a.create_link)) [
    | inr k ↦ no_link-Fails o a d k
    | inl k ↦ elim (Bool-cases (nt_success a.create_thread)) [
      | inr c ↦ not_started-Fails o a a.create_thread false d k c c (thread_failed a c)
      | inl c ↦ elim (Bool-cases (nt_success a.reference_thread)) [
        | inr r ↦ not_started-Fails o a a.reference_thread true d k c r (reference_failed a c r)
        | inl r ↦ absurd (not_all_made a d k c r h)
      ]
    ]
  ]
]
