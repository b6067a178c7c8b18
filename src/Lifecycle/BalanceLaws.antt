-- ===== src/Lifecycle/BalanceLaws.antt =====
-- The transactions and the handle of wfpdriver/callouts.c: callouts_addFilters and
-- callouts_registerCallouts.
use wfpdriver.Shared.{
  ℕ, ◌+◌, ◌≡◌, refl, ◌∙◌, sym, Bool, true, false, Bool-cases, inl, inr, if◌then◌else◌, arith,
}
use wfpdriver.Nt.{nt_success}
use wfpdriver.Lifecycle.Engine.{
  DevicePointer, flow_v4, flow_v6, transaction_begin, CalloutKey, Oracle, Callouts, call,
  close_engine, began, ended, opened, closed,
}
use wfpdriver.Lifecycle.Registration.{
  Result, register_callout, add_filters_body, abort_failed, add_filters, register_body,
  close_failed, register_callouts,
}
use wfpdriver.Lifecycle.EngineLaws.{
  handles, Same, Same-trans, Commits, commit-Commits, add_filters_body-Commits,
}

-- No transaction is open, and of the handles opened only the stored one is not closed.
pub record IsSettled (s : Callouts) : Type 0 where
  pub transactions : began s.log ≡ ended s.log
  pub handle : opened s.log ≡ closed s.log + handles s

-- A transaction begun and ended, and nothing else.
pub record Settles (s s' : Callouts) : Type 0 where
  pub transactions : began s'.log ≡ ended s'.log
  pub opened_same : opened s'.log ≡ opened s.log
  pub closed_same : closed s'.log ≡ closed s.log
  pub engine : s'.engine ≡ s.engine
  pub flow_list : s'.flow_list ≡ s.flow_list
  pub datalink_list : s'.datalink_list ≡ s.datalink_list

abbrev count : Bool → ℕ
count b = if b then 1 else 0

good_is_one : (b : Bool) → b ≡ true → count b ≡ 1
good_is_one b h = rw h refl

bad_is_none : (b : Bool) → b ≡ false → count b ≡ 0
bad_is_none b h = rw h refl

abort_failed-Settles :
    (o : Oracle) (s : Callouts) (r : Result)
    → Commits s r
    → began s.log ≡ ended s.log + 1
    → Settles s (abort_failed o r).1
unfolding abort_failed call
abort_failed-Settles o s (status, t) h b = elim (Bool-cases (nt_success status)) [
  | inl good ↦ rw good (record {
    transactions =
        omega (arith, b, h.began_same, h.ended_more, good_is_one (nt_success status) good);
    opened_same = h.opened_same;
    closed_same = h.closed_same;
    engine = h.engine;
    flow_list = h.flow_list;
    datalink_list = h.datalink_list;
  })
  | inr bad ↦ rw bad (record {
    transactions =
        omega (arith, b, h.began_same, h.ended_more, bad_is_none (nt_success status) bad);
    opened_same = h.opened_same;
    closed_same = h.closed_same;
    engine = h.engine;
    flow_list = h.flow_list;
    datalink_list = h.datalink_list;
  })
]

begun :
    (o : Oracle) (s : Callouts)
    → nt_success (o s.log transaction_begin) ≡ true
    → began s.log ≡ ended s.log
    → began (call o transaction_begin s).1.log ≡ ended (call o transaction_begin s).1.log + 1
unfolding call
begun o s good b = omega (arith, b, good_is_one (nt_success (o s.log transaction_begin)) good)

not_begun :
    (o : Oracle) (s : Callouts)
    → nt_success (o s.log transaction_begin) ≡ false
    → began s.log ≡ ended s.log
    → began (call o transaction_begin s).1.log ≡ ended (call o transaction_begin s).1.log
unfolding call
not_begun o s bad b = omega (arith, b, bad_is_none (nt_success (o s.log transaction_begin)) bad)

Settles-from-begin :
    (o : Oracle) (s t : Callouts) → Settles (call o transaction_begin s).1 t → Settles s t
unfolding call
Settles-from-begin o s t h = record {
  transactions = h.transactions;
  opened_same = h.opened_same;
  closed_same = h.closed_same;
  engine = h.engine;
  flow_list = h.flow_list;
  datalink_list = h.datalink_list;
}

-- callouts_addFilters ends the transaction it begins, whatever fails.
pub add_filters-Settles :
    (o : Oracle) (s : Callouts) → began s.log ≡ ended s.log → Settles s (add_filters o s).1
unfolding add_filters call
add_filters-Settles o s b = elim (Bool-cases (nt_success (o s.log transaction_begin))) [
  | inl good ↦
      let t = (call o transaction_begin s).1 in
      rw good (
        Settles-from-begin o s (abort_failed o (add_filters_body o t)).1 (
          abort_failed-Settles o t (add_filters_body o t) (add_filters_body-Commits o t)
            (begun o s good b)))
  | inr bad ↦ rw bad (record {
    transactions = not_begun o s bad b;
    opened_same = refl;
    closed_same = refl;
    engine = refl;
    flow_list = refl;
    datalink_list = refl;
  })
]

-- What callouts_registerCallouts leaves: on an error, the engine closed.
pub record Registers (s : Callouts) (r : Result) : Type 0 where
  pub transactions : began r.1.log ≡ ended r.1.log
  pub opened_same : opened r.1.log ≡ opened s.log
  pub closed_count : closed r.1.log + (if nt_success r.0 then 1 else 0) ≡ closed s.log + 1
  pub engine : r.1.engine ≡ nt_success r.0
  pub flow_list : r.1.flow_list ≡ s.flow_list
  pub datalink_list : r.1.datalink_list ≡ s.datalink_list

register_callout-Same :
    (o : Oracle) (p : DevicePointer) (k : CalloutKey) (s : Callouts)
    → Same s (register_callout o p k s).1
unfolding register_callout call
register_callout-Same o p k s = record {
  began_same = refl;
  ended_same = refl;
  opened_same = refl;
  closed_same = refl;
  engine = refl;
  flow_list = refl;
  datalink_list = refl;
}

register_body-Commits :
    (o : Oracle) (p : DevicePointer) (s : Callouts) → Commits s (register_body o p s)
unfolding register_body
register_body-Commits o p s =
    let s4 = (register_callout o p flow_v4 s).1 in
    let s6 = (register_callout o p flow_v6 s4).1 in
    commit-Commits o s s6 (
      Same-trans s s4 s6 (register_callout-Same o p flow_v4 s)
        (register_callout-Same o p flow_v6 s4))

close_failed-Registers :
    (o : Oracle) (s : Callouts) (r : Result)
    → s.engine ≡ true
    → Commits s r
    → began s.log ≡ ended s.log + 1
    → Registers s (close_failed o r)
unfolding close_failed close_engine call
close_failed-Registers o s (status, t) e h b = elim (Bool-cases (nt_success status)) [
  | inl good ↦ rw good (record {
    transactions =
        omega (arith, b, h.began_same, h.ended_more, good_is_one (nt_success status) good);
    opened_same = h.opened_same;
    closed_count = omega (arith, h.closed_same, good_is_one (nt_success status) good);
    engine = h.engine ∙ e ∙ sym good;
    flow_list = h.flow_list;
    datalink_list = h.datalink_list;
  })
  | inr bad ↦ rw bad (record {
    transactions =
        omega (arith, b, h.began_same, h.ended_more, bad_is_none (nt_success status) bad);
    opened_same = h.opened_same;
    closed_count = omega (arith, h.closed_same, bad_is_none (nt_success status) bad);
    engine = sym bad;
    flow_list = h.flow_list;
    datalink_list = h.datalink_list;
  })
]

Registers-from-begin :
    (o : Oracle) (s : Callouts) (r : Result)
    → Registers (call o transaction_begin s).1 r
    → Registers s r
unfolding call
Registers-from-begin o s r h = record {
  transactions = h.transactions;
  opened_same = h.opened_same;
  closed_count = h.closed_count;
  engine = h.engine;
  flow_list = h.flow_list;
  datalink_list = h.datalink_list;
}

begin_failed-Registers :
    (o : Oracle) (s : Callouts)
    → nt_success (o s.log transaction_begin) ≡ false
    → began s.log ≡ ended s.log
    → Registers s (o s.log transaction_begin, close_engine o (call o transaction_begin s).1)
unfolding close_engine call
begin_failed-Registers o s bad b = record {
  transactions = not_begun o s bad b;
  opened_same = refl;
  closed_count = omega (arith, bad_is_none (nt_success (o s.log transaction_begin)) bad);
  engine = sym bad;
  flow_list = refl;
  datalink_list = refl;
}

pub register_callouts-Registers :
    (o : Oracle) (p : DevicePointer) (s : Callouts)
    → s.engine ≡ true
    → began s.log ≡ ended s.log
    → Registers s (register_callouts o p s)
unfolding register_callouts call
register_callouts-Registers o p s e b = elim (Bool-cases (nt_success (o s.log transaction_begin))) [
  | inl good ↦
      let t = (call o transaction_begin s).1 in
      rw good (
        Registers-from-begin o s (close_failed o (register_body o p t)) (
          close_failed-Registers o t (register_body o p t) e (register_body-Commits o p t)
            (begun o s good b)))
  | inr bad ↦ rw bad (begin_failed-Registers o s bad b)
]
