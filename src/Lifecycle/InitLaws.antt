-- ===== src/Lifecycle/InitLaws.antt =====
-- callout_init of wfpdriver/callouts.c, whatever the engine answers.
use wfpdriver.Shared.{
  ◌≡◌, refl, ◌∙◌, sym, ap, true, false, Bool-cases, ◌⊎◌, inl, inr, if◌then◌else◌, Option, some,
  arith,
}
use wfpdriver.Nt.{Status, nt_success, as_boolean}
use wfpdriver.Lifecycle.Engine.{DevicePointer, Oracle, Callouts, ready, deleted, call, engine_open}
use wfpdriver.Lifecycle.Registration.{
  Result, callout_init_body, free_failed, open_engine, callout_init,
}
use wfpdriver.Lifecycle.BalanceLaws.{IsSettled}
use wfpdriver.Lifecycle.ReadyLaws.{Lists, count, Ready, callout_init_body-Ready}
use wfpdriver.Lifecycle.FreedLaws.{callout_free-IsFreed}

-- A BOOLEAN keeps the low byte of an NTSTATUS, so no error code is left in it.
pub nt_success-as_boolean : (s : Status) → nt_success (as_boolean s) ≡ true
unfolding as_boolean
nt_success-as_boolean s = ground arith

-- What callout_init returns: a status that is never an error, all settled, and either the engine with
-- both lists in use, or no engine and the lists both in use or both deleted.
pub record Initialises (r : Option Result) : Type 0 where
  pub status : Status
  pub after : Callouts
  pub result : r ≡ some (status, after)
  pub success : nt_success status ≡ true
  pub settled : IsSettled after
  pub outcome :
      ((after.engine ≡ true) × Lists ready after)
      ⊎ ((after.engine ≡ false) × (Lists ready after ⊎ Lists deleted after))

free_failed-Initialises : (o : Oracle) (r : Result) → Ready r → Initialises (free_failed o r)
unfolding free_failed
free_failed-Initialises o (status, s) h = elim (Bool-cases (nt_success status)) [
  | inl good ↦ rw good (record {
    status = as_boolean status;
    after = s;
    result = refl;
    success = nt_success-as_boolean status;
    settled = h.settled;
    outcome = inl (h.engine good, h.lists);
  })
  | inr bad ↦
      let f = callout_free-IsFreed o s h.settled h.lists in
      rw bad (
        rw f.1 (record {
          status = as_boolean status;
          after = f.0;
          result = refl;
          success = nt_success-as_boolean status;
          settled = f.2.settled;
          outcome = inr (f.2.engine, inr f.2.lists);
        }))
]

opened_engine-IsSettled :
    (o : Oracle) (s : Callouts)
    → s.engine ≡ false
    → IsSettled s
    → nt_success (o s.log engine_open) ≡ true
    → IsSettled (record ((call o engine_open s).1) { engine = true })
unfolding call
opened_engine-IsSettled o s e h good = record {
  transactions = h.transactions;
  handle = omega (arith, h.handle, ap count e, ap count good);
}

unopened_engine-IsSettled :
    (o : Oracle) (s : Callouts)
    → s.engine ≡ false
    → IsSettled s
    → nt_success (o s.log engine_open) ≡ false
    → IsSettled (call o engine_open s).1
unfolding call
unopened_engine-IsSettled o s e h bad = record {
  transactions = h.transactions;
  handle = omega (arith, h.handle, ap count e, ap count bad);
}

-- What FwpmEngineOpen leaves.
record Opens (r : Result) : Type 0 where
  settled : IsSettled r.1
  engine : r.1.engine ≡ nt_success r.0
  lists : Lists ready r.1

open_engine-Opens :
    (o : Oracle) (s : Callouts)
    → s.engine ≡ false
    → IsSettled s
    → Lists ready s
    → Opens (open_engine o s)
unfolding open_engine call
open_engine-Opens o s e h l = elim (Bool-cases (nt_success (o s.log engine_open))) [
  | inl good ↦ rw good (record {
    settled = opened_engine-IsSettled o s e h good;
    engine = sym good;
    lists = record { flow_list = l.flow_list; datalink_list = l.datalink_list };
  })
  | inr bad ↦ rw bad (record {
    settled = unopened_engine-IsSettled o s e h bad;
    engine = e ∙ sym bad;
    lists = record { flow_list = l.flow_list; datalink_list = l.datalink_list };
  })
]

after_open-Initialises :
    (o : Oracle) (p : DevicePointer) (r : Result)
    → Opens r
    → Initialises (
        if nt_success r.0
        then free_failed o (callout_init_body o p r.1)
        else some (as_boolean r.0, r.1))
after_open-Initialises o p (status, s) h = elim (Bool-cases (nt_success status)) [
  | inl good ↦ rw good (
      free_failed-Initialises o (callout_init_body o p s)
        (callout_init_body-Ready o p s (h.engine ∙ good) h.settled h.lists))
  | inr bad ↦ rw bad (record {
    status = as_boolean status;
    after = s;
    result = refl;
    success = nt_success-as_boolean status;
    settled = h.settled;
    outcome = inr (h.engine ∙ bad, inl h.lists);
  })
]

-- Whatever the filter engine answers to each call, and whatever pointer to the device it is passed,
-- callout_init started without an engine handle returns: it leaves no transaction open and no handle but
-- the stored one, it either keeps the engine with both lookaside lists in use, or has no engine and the
-- lists are both in use or both deleted, and the value it returns is never an error.
pub callout_init-Initialises :
    (o : Oracle) (p : DevicePointer) (s : Callouts)
    → s.engine ≡ false
    → IsSettled s
    → Initialises (callout_init o p s)
unfolding callout_init
callout_init-Initialises o p s e h =
    let t : Callouts = record s { flow_list = ready; datalink_list = ready } in
    after_open-Initialises o p (open_engine o t) (
      open_engine-Opens o t e (record { transactions = h.transactions; handle = h.handle })
        (record { flow_list = refl; datalink_list = refl }))
