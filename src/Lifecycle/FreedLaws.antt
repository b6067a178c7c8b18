-- ===== src/Lifecycle/FreedLaws.antt =====
-- callout_free of wfpdriver/callouts.c.
use wfpdriver.Shared.{◌≡◌, refl, ap, false, Bool-cases, inl, inr, some, arith}
use wfpdriver.Lifecycle.Engine.{Oracle, Callouts, ready, deleted, delete_list, call, close_engine}
use wfpdriver.Lifecycle.Registration.{delete_lists, unregister_all, close_if_open, callout_free}
use wfpdriver.Lifecycle.BalanceLaws.{IsSettled}
use wfpdriver.Lifecycle.ReadyLaws.{Lists, count}

dropped : Callouts → Callouts
dropped s = record s { flow_list = deleted; datalink_list = deleted }

callout_free-dropped :
    (o : Oracle) (s : Callouts)
    → Lists ready s
    → callout_free o s ≡ some (close_if_open o (unregister_all o (dropped s)))
unfolding callout_free delete_lists delete_list dropped
callout_free-dropped o s l = rw l.flow_list (rw l.datalink_list refl)

-- Everything given back: no transaction, no handle, no list.
pub record IsFreed (s : Callouts) : Type 0 where
  pub settled : IsSettled s
  pub engine : s.engine ≡ false
  pub lists : Lists deleted s

close_if_open-IsFreed :
    (o : Oracle) (s : Callouts)
    → IsSettled s
    → IsFreed (close_if_open o (unregister_all o (dropped s)))
unfolding close_if_open unregister_all dropped close_engine call
close_if_open-IsFreed o s h = elim (Bool-cases s.engine) [
  | inl is_open ↦ rw is_open (record {
    settled = record {
      transactions = h.transactions;
      handle = omega (arith, h.handle, ap count is_open);
    };
    engine = refl;
    lists = record { flow_list = refl; datalink_list = refl };
  })
  | inr is_closed ↦ rw is_closed (record {
    settled = record {
      transactions = h.transactions;
      handle = omega (arith, h.handle, ap count is_closed);
    };
    engine = refl;
    lists = record { flow_list = refl; datalink_list = refl };
  })
]

-- callout_free on lists that are in use gives everything back.
pub callout_free-IsFreed :
    (o : Oracle) (s : Callouts)
    → IsSettled s
    → Lists ready s
    → (s' : Callouts) × (callout_free o s ≡ some s') × IsFreed s'
callout_free-IsFreed o s h l = (
  close_if_open o (unregister_all o (dropped s)),
  callout_free-dropped o s l,
  close_if_open-IsFreed o s h,
)
