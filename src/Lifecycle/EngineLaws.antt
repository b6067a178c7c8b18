-- ===== src/Lifecycle/EngineLaws.antt =====
-- What the calls of callouts.c leave open at the filter engine, whatever it answers.
use wfpdriver.Shared.{ℕ, ◌+◌, ◌≡◌, refl, ◌∙◌, Bool-cases, inl, inr, [], ◌∷◌, if◌then◌else◌, arith}
use wfpdriver.Nt.{nt_success}
use wfpdriver.Lifecycle.Engine.{
  CalloutKey, flow_v4, flow_v6, transaction_commit, sublayer_add, filter_add, callout_add,
  ip_protocol, Oracle, Callouts, call, began, ended, opened, closed,
}
use wfpdriver.Lifecycle.Registration.{
  Result, then_call, add_flow_established_filter, add_filters_body,
}

abbrev pub handles : Callouts → ℕ
handles s = if s.engine then 1 else 0

-- Calls that open and close nothing.
pub record Same (s s' : Callouts) : Type 0 where
  pub began_same : began s'.log ≡ began s.log
  pub ended_same : ended s'.log ≡ ended s.log
  pub opened_same : opened s'.log ≡ opened s.log
  pub closed_same : closed s'.log ≡ closed s.log
  pub engine : s'.engine ≡ s.engine
  pub flow_list : s'.flow_list ≡ s.flow_list
  pub datalink_list : s'.datalink_list ≡ s.datalink_list

pub Same-trans : (a b c : Callouts) → Same a b → Same b c → Same a c
Same-trans a b c p q = record {
  began_same = q.began_same ∙ p.began_same;
  ended_same = q.ended_same ∙ p.ended_same;
  opened_same = q.opened_same ∙ p.opened_same;
  closed_same = q.closed_same ∙ p.closed_same;
  engine = q.engine ∙ p.engine;
  flow_list = q.flow_list ∙ p.flow_list;
  datalink_list = q.datalink_list ∙ p.datalink_list;
}

then_call-Same :
    (s : Callouts) (next : Callouts → Result) (r : Result)
    → Same s r.1
    → ((t : Callouts) → Same t (next t).1)
    → Same s (then_call next r).1
unfolding then_call
then_call-Same s next (status, t) h k = elim (Bool-cases (nt_success status)) [
  | inl good ↦ rw good (Same-trans s t (next t).1 h (k t))
  | inr bad ↦ rw bad h
]

sublayer_add-Same : (o : Oracle) (s : Callouts) → Same s (call o sublayer_add s).1
unfolding call
sublayer_add-Same o s = record {
  began_same = refl;
  ended_same = refl;
  opened_same = refl;
  closed_same = refl;
  engine = refl;
  flow_list = refl;
  datalink_list = refl;
}

callout_add-Same :
    (o : Oracle) (k : CalloutKey) (s : Callouts) → Same s (call o (callout_add k) s).1
unfolding call
callout_add-Same o k s = record {
  began_same = refl;
  ended_same = refl;
  opened_same = refl;
  closed_same = refl;
  engine = refl;
  flow_list = refl;
  datalink_list = refl;
}

add_flow_established_filter-Same :
    (o : Oracle) (k : CalloutKey) (s : Callouts) → Same s (add_flow_established_filter o k s).1
unfolding add_flow_established_filter
add_flow_established_filter-Same o k s =
    then_call-Same s (call o (filter_add k (ip_protocol 6 ∷ ip_protocol 17 ∷ [])))
      (call o (callout_add k) s) (callout_add-Same o k s) filter_add-Same
  where
    filter_add-Same :
        (t : Callouts) → Same t (call o (filter_add k (ip_protocol 6 ∷ ip_protocol 17 ∷ [])) t).1
    filter_add-Same t = record {
      began_same = refl;
      ended_same = refl;
      opened_same = refl;
      closed_same = refl;
      engine = refl;
      flow_list = refl;
      datalink_list = refl;
    }

-- What a call sequence has done to the transaction it stands in.
pub record Closes (n : ℕ) (s s' : Callouts) : Type 0 where
  pub began_same : began s'.log ≡ began s.log
  pub ended_more : ended s'.log ≡ ended s.log + n
  pub opened_same : opened s'.log ≡ opened s.log
  pub closed_same : closed s'.log ≡ closed s.log
  pub engine : s'.engine ≡ s.engine
  pub flow_list : s'.flow_list ≡ s.flow_list
  pub datalink_list : s'.datalink_list ≡ s.datalink_list

abbrev pub Commits : Callouts → Result → Type 0
Commits s (status, t) = Closes (if nt_success status then 1 else 0) s t

pub commit-Commits :
    (o : Oracle) (s t : Callouts) → Same s t → Commits s (call o transaction_commit t)
unfolding call
commit-Commits o s t h = record {
  began_same = h.began_same;
  ended_more = omega (arith, h.ended_same);
  opened_same = h.opened_same;
  closed_same = h.closed_same;
  engine = h.engine;
  flow_list = h.flow_list;
  datalink_list = h.datalink_list;
}

then_commit-Commits :
    (o : Oracle) (s : Callouts) (r : Result)
    → Same s r.1
    → Commits s (then_call (call o transaction_commit) r)
unfolding then_call
then_commit-Commits o s (status, t) h = elim (Bool-cases (nt_success status)) [
  | inl good ↦ rw good (commit-Commits o s t h)
  | inr bad ↦ rw bad (
      rw bad (record {
        began_same = h.began_same;
        ended_more = omega (arith, h.ended_same);
        opened_same = h.opened_same;
        closed_same = h.closed_same;
        engine = h.engine;
        flow_list = h.flow_list;
        datalink_list = h.datalink_list;
      }))
]

pub add_filters_body-Commits : (o : Oracle) (s : Callouts) → Commits s (add_filters_body o s)
unfolding add_filters_body
add_filters_body-Commits o s = then_commit-Commits o s _ (
    then_call-Same s (add_flow_established_filter o flow_v6) _
      (then_call-Same s (add_flow_established_filter o flow_v4) (call o sublayer_add s)
        (sublayer_add-Same o s) (add_flow_established_filter-Same o flow_v4))
      (add_flow_established_filter-Same o flow_v6))
