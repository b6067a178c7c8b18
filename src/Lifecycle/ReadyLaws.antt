-- ===== src/Lifecycle/ReadyLaws.antt =====
-- The do block of callout_init of wfpdriver/callouts.c: what it leaves, whatever the engine answers.
use wfpdriver.Shared.{ℕ, ◌≡◌, ◌∙◌, ap, Bool, true, Bool-cases, inl, inr, if◌then◌else◌, arith}
use wfpdriver.Nt.{nt_success}
use wfpdriver.Lifecycle.Engine.{
  DevicePointer, Oracle, Callouts, Lookaside, ready, call, provider_add,
}
use wfpdriver.Lifecycle.Registration.{
  Result, then_call, add_filters, register_callouts, is_zero, callout_init_body,
}
use wfpdriver.Lifecycle.BalanceLaws.{
  IsSettled, Settles, add_filters-Settles, Registers, register_callouts-Registers,
}

-- Both lookaside lists in one state.
pub record Lists (l : Lookaside) (s : Callouts) : Type 0 where
  pub flow_list : s.flow_list ≡ l
  pub datalink_list : s.datalink_list ≡ l

-- Nothing begun is left, and the handle is stored exactly if the status is a success.
pub record Ready (r : Result) : Type 0 where
  pub settled : IsSettled r.1
  pub engine : nt_success r.0 ≡ true → r.1.engine ≡ true
  pub lists : Lists ready r.1

abbrev pub count : Bool → ℕ
count b = if b then 1 else 0

Registers-Ready :
    (s : Callouts) (r : Result)
    → s.engine ≡ true
    → IsSettled s
    → Lists ready s
    → Registers s r
    → Ready r
Registers-Ready s r e h l g = record {
  settled = record {
    transactions = g.transactions;
    handle = omega (arith, h.handle, g.opened_same, g.closed_count, ap count g.engine, ap count e);
  };
  engine = λ ok. g.engine ∙ ok;
  lists = record {
    flow_list = g.flow_list ∙ l.flow_list;
    datalink_list = g.datalink_list ∙ l.datalink_list;
  };
}

Settles-Ready :
    (s : Callouts) (r : Result)
    → s.engine ≡ true
    → IsSettled s
    → Lists ready s
    → Settles s r.1
    → Ready r
Settles-Ready s r e h l g = record {
  settled = record {
    transactions = g.transactions;
    handle = omega (arith, h.handle, g.opened_same, g.closed_same, ap count g.engine);
  };
  engine = λ _. g.engine ∙ e;
  lists = record {
    flow_list = g.flow_list ∙ l.flow_list;
    datalink_list = g.datalink_list ∙ l.datalink_list;
  };
}

then_add_filters-Ready : (o : Oracle) (r : Result) → Ready r → Ready (then_call (add_filters o) r)
unfolding then_call
then_add_filters-Ready o (status, s) h = elim (Bool-cases (nt_success status)) [
  | inl good ↦ rw good (
      Settles-Ready s (add_filters o s) (h.engine good) h.settled h.lists
        (add_filters-Settles o s (h.settled.transactions)))
  | inr bad ↦ rw bad h
]

provider_add-IsSettled :
    (o : Oracle) (s : Callouts) → IsSettled s → IsSettled (call o provider_add s).1
unfolding call
provider_add-IsSettled o s h = record { transactions = h.transactions; handle = h.handle }

pub callout_init_body-Ready :
    (o : Oracle) (p : DevicePointer) (s : Callouts)
    → s.engine ≡ true
    → IsSettled s
    → Lists ready s
    → Ready (callout_init_body o p s)
unfolding callout_init_body call
callout_init_body-Ready o p s e h l = elim (Bool-cases (is_zero (o s.log provider_add))) [
  | inl good ↦
      let t = (call o provider_add s).1 in
      let l' : Lists ready t = record {
        flow_list = l.flow_list;
        datalink_list = l.datalink_list;
      } in
      let h' = provider_add-IsSettled o s h in
      rw good (
        then_add_filters-Ready o (register_callouts o p t) (
          Registers-Ready t (register_callouts o p t) e h' l'
            (register_callouts-Registers o p t e (h'.transactions))))
  | inr bad ↦ rw bad (record {
    settled = provider_add-IsSettled o s h;
    engine = λ _. e;
    lists = record { flow_list = l.flow_list; datalink_list = l.datalink_list };
  })
]
