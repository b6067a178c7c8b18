-- ===== src/Lifecycle/DeviceLaws.antt =====
-- What the callouts of wfpdriver/callouts.c are registered with.
use wfpdriver.Shared.{
  ◌≡◌, refl, Bool, true, false, Option, none, some, Option-cases, inl, inr, [], ◌∷◌, if◌then◌else◌,
}
use wfpdriver.Nt.{unsuccessful, nt_success, as_boolean}
use wfpdriver.Lifecycle.Engine.{
  DevicePointer, CalloutKey, flow_v4, flow_v6, Log, Oracle, Callouts, callout_register,
  transaction_begin, transaction_commit, transaction_abort, engine_open, filter_add, callout_add,
  ip_protocol, sublayer_add, provider_add, call, close_engine, delete_list, ready,
}
use wfpdriver.Lifecycle.Registration.{
  Result, then_call, register_callout, add_flow_established_filter, add_filters_body, abort_failed,
  add_filters, register_body, close_failed, register_callouts, delete_lists, unregister_all,
  close_if_open, callout_free, is_zero, callout_init_body, free_failed, open_engine, callout_init,
}

-- Every callout in the log was registered with this pointer.
abbrev pub RegisteredWith : DevicePointer → Log → Type 0
RegisteredWith p [] = Unit {0}
RegisteredWith p ((callout_register q k, st) ∷ l) = (q ≡ p) × RegisteredWith p l
RegisteredWith p (_ ∷ l) = RegisteredWith p l

abbrev Via : DevicePointer → Result → Type 0
Via p r = RegisteredWith p r.1.log

if_either {ℓ κ} :
    {A : Type ℓ} (P : A → Type κ) (b : Bool) (x y : A) → P x → P y → P (if b then x else y)
if_either P true x y hx hy = hx
if_either P false x y hx hy = hy

then_call-Via :
    (p : DevicePointer) (f : Callouts → Result)
    → ((s : Callouts) → RegisteredWith p s.log → Via p (f s))
    → (r : Result) → Via p r
    → Via p (then_call f r)
unfolding then_call
then_call-Via p f h (st, s) v = if_either (Via p) (nt_success st) (f s) (st, s) (h s v) v

add_flow-Via :
    (p : DevicePointer) (o : Oracle) (k : CalloutKey) (s : Callouts)
    → RegisteredWith p s.log
    → Via p (add_flow_established_filter o k s)
unfolding add_flow_established_filter call
add_flow-Via p o k s v =
    then_call-Via p (call o (filter_add k (ip_protocol 6 ∷ ip_protocol 17 ∷ []))) (λ t w. w)
      (call o (callout_add k) s) v

add_filters_body-Via :
    (p : DevicePointer) (o : Oracle) (s : Callouts)
    → RegisteredWith p s.log
    → Via p (add_filters_body o s)
unfolding add_filters_body call
add_filters_body-Via p o s v =
    let v4 = then_call (add_flow_established_filter o flow_v4) (call o sublayer_add s) in
    then_call-Via p (call o transaction_commit) (λ t w. w)
      (then_call (add_flow_established_filter o flow_v6) v4)
      (then_call-Via p (add_flow_established_filter o flow_v6) (add_flow-Via p o flow_v6) v4 (
        then_call-Via p (add_flow_established_filter o flow_v4) (add_flow-Via p o flow_v4)
          (call o sublayer_add s) v))

abort_failed-Via :
    (p : DevicePointer) (o : Oracle) (r : Result) → Via p r → Via p (abort_failed o r)
unfolding abort_failed call
abort_failed-Via p o (st, s) v =
    if_either (Via p) (nt_success st) (st, s) (st, (call o transaction_abort s).1) v v

add_filters-Via :
    (p : DevicePointer) (o : Oracle) (s : Callouts)
    → RegisteredWith p s.log
    → Via p (add_filters o s)
unfolding add_filters call
add_filters-Via p o s v =
    let t = (call o transaction_begin s).1 in
    if_either (Via p) (nt_success (o s.log transaction_begin))
      (abort_failed o (add_filters_body o t)) (call o transaction_begin s)
      (abort_failed-Via p o (add_filters_body o t) (add_filters_body-Via p o t v)) v

close_failed-Via :
    (p : DevicePointer) (o : Oracle) (r : Result) → Via p r → Via p (close_failed o r)
unfolding close_failed close_engine call
close_failed-Via p o (st, s) v =
    if_either (Via p) (nt_success st) (st, s) (st, close_engine o (call o transaction_abort s).1) v
      v

register_callouts-Via :
    (p : DevicePointer) (o : Oracle) (s : Callouts)
    → RegisteredWith p s.log
    → Via p (register_callouts o p s)
unfolding register_callouts register_body register_callout close_engine call
register_callouts-Via p o s v =
    let t = (call o transaction_begin s).1 in
    if_either (Via p) (nt_success (o s.log transaction_begin))
      (close_failed o (register_body o p t)) (o s.log transaction_begin, close_engine o t)
      (close_failed-Via p o (register_body o p t) (refl, (refl, v))) v

-- Nothing to say of a fault.
abbrev ViaIf : DevicePointer → Option Callouts → Type 0
ViaIf p none = Unit {0}
ViaIf p (some s) = RegisteredWith p s.log

delete_lists-ViaIf :
    (p : DevicePointer) (s : Callouts) → RegisteredWith p s.log → ViaIf p (delete_lists s)
unfolding delete_lists
delete_lists-ViaIf p s v = elim (Option-cases (delete_list s.flow_list)) [
  | inl e ↦ rw (e, ViaIf) tt
  | inr (f, e) ↦ elim (Option-cases (delete_list s.datalink_list)) [
    | inl g ↦ rw (e, g, ViaIf) tt
    | inr (m, g) ↦ rw (e, g, ViaIf) v
  ]
]

closed-Via :
    (p : DevicePointer) (o : Oracle) (s : Callouts)
    → RegisteredWith p s.log
    → RegisteredWith p (close_if_open o (unregister_all o s)).log
unfolding close_if_open unregister_all close_engine call
closed-Via p o s v =
    let t = unregister_all o s in
    if_either (λ c. RegisteredWith p c.log) t.engine (close_engine o t) t v v

callout_free-ViaIf :
    (p : DevicePointer) (o : Oracle) (s : Callouts)
    → RegisteredWith p s.log
    → ViaIf p (callout_free o s)
unfolding callout_free
callout_free-ViaIf p o s v = elim (Option-cases (delete_lists s)) [
  | inl e ↦ rw (e, ViaIf) tt
  | inr (t, e) ↦
      let w : ViaIf p (some t) = rw e at (delete_lists-ViaIf p s v) in
      rw (e, ViaIf) (closed-Via p o t w)
]

callout_init_body-Via :
    (p : DevicePointer) (o : Oracle) (s : Callouts)
    → RegisteredWith p s.log
    → Via p (callout_init_body o p s)
unfolding callout_init_body call
callout_init_body-Via p o s v =
    let t = (call o provider_add s).1 in
    if_either (Via p) (is_zero (o s.log provider_add))
      (then_call (add_filters o) (register_callouts o p t)) (unsuccessful, t)
      (then_call-Via p (add_filters o) (add_filters-Via p o) (register_callouts o p t)
        (register_callouts-Via p o t v))
      v

abbrev InitVia : DevicePointer → Option Result → Type 0
InitVia p none = Unit {0}
InitVia p (some r) = Via p r

free_failed-InitVia :
    (p : DevicePointer) (o : Oracle) (r : Result) → Via p r → InitVia p (free_failed o r)
unfolding free_failed
free_failed-InitVia p o (st, s) v =
    if_either (InitVia p) (nt_success st) (some (as_boolean st, s))
      (elim (callout_free o s) [ none ↦ none | some s' ↦ some (as_boolean st, s') ]) v freed
  where
    freed : InitVia p (elim (callout_free o s) [ none ↦ none | some s' ↦ some (as_boolean st, s') ])
    freed = elim (Option-cases (callout_free o s)) [
      | inl e ↦ rw e tt
      | inr (t, e) ↦ let w : ViaIf p (some t) = rw e at (callout_free-ViaIf p o s v) in rw e w
    ]

open_engine-Via :
    (p : DevicePointer) (o : Oracle) (s : Callouts)
    → RegisteredWith p s.log
    → Via p (open_engine o s)
unfolding open_engine call
open_engine-Via p o s v =
    let r = call o engine_open s in
    if_either (Via p) (nt_success r.0) (r.0, record (r.1) { engine = true }) r v v

-- callout_init registers with the pointer that it is passed.
callout_init-InitVia :
    (p : DevicePointer) (o : Oracle) (s : Callouts)
    → RegisteredWith p s.log
    → InitVia p (callout_init o p s)
unfolding callout_init
callout_init-InitVia p o s v =
    let r = open_engine o (record s { flow_list = ready; datalink_list = ready }) in
    let w = open_engine-Via p o (record s { flow_list = ready; datalink_list = ready }) v in
    if_either (InitVia p) (nt_success r.0) (free_failed o (callout_init_body o p r.1))
      (some (as_boolean r.0, r.1))
      (free_failed-InitVia p o (callout_init_body o p r.1) (callout_init_body-Via p o r.1 w)) w

pub callout_init-RegisteredWith :
    (p : DevicePointer) (o : Oracle) (s : Callouts) (r : Result)
    → RegisteredWith p s.log
    → callout_init o p s ≡ some r
    → RegisteredWith p r.1.log
callout_init-RegisteredWith p o s r v e =
    let w : InitVia p (some r) = rw e at (callout_init-InitVia p o s v) in w
