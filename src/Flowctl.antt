-- ===== src/Flowctl.antt =====
-- wfpdriver/flowctl.c: the list of flow controls, to which nothing is ever added. `none` is the deletion
-- of a lookaside list that is not in use.
use wfpdriver.Shared.{ℕ, zero, suc, ◌-◌, ◌≡◌, ap, ◌∙◌, Option, some, ◌>>=◌, arith}
use wfpdriver.Lifecycle.Engine.{Lookaside, ready, deleted, delete_list}

-- g_flowCtlLAList and the entries out of it, and the entries of g_lFlowCtl.
pub record FlowControls : Type 0 where
  pub lookaside : Lookaside
  pub live : ℕ
  pub entries : ℕ

-- flowctl_init
unfoldable pub flowctl_init : FlowControls → FlowControls
flowctl_init f = record f { lookaside = ready; entries = 0 }

-- The loop of flowctl_free over the entries that are left.
unfoldable pub free_entries : ℕ → FlowControls → FlowControls
free_entries zero f = record f { entries = 0 }
free_entries (suc n) f = free_entries n (record f { entries = n; live = f.live - 1 })

-- flowctl_free
unfoldable pub flowctl_free : FlowControls → Option FlowControls
flowctl_free f =
    let g = free_entries f.entries f in
    (do list ← delete_list g.lookaside; some (record g { lookaside = list }))

free_entries_lem :
    (n : ℕ) (f : FlowControls) → free_entries n f ≡ record f { entries = 0; live = f.live - n }
unfolding free_entries
free_entries_lem zero f =
    let e : f.live ≡ f.live - 0 = omega arith in ap (λ k. record f { entries = 0; live = k }) e
free_entries_lem (suc n) f =
    let e : f.live - 1 - n ≡ f.live - suc n = omega arith in
    free_entries_lem n (record f { entries = n; live = f.live - 1 })
    ∙ ap (λ k. record f { entries = 0; live = k }) e

-- After flowctl_init, with no entry out of the list, flowctl_free returns and deletes the list.
pub flowctl_free-init :
    (f : FlowControls)
    → f.live ≡ 0
    → flowctl_free (flowctl_init f) ≡ some (record { lookaside = deleted; live = 0; entries = 0 })
unfolding flowctl_free flowctl_init free_entries delete_list
flowctl_free-init f h = ap (λ k. some (record { lookaside = deleted; live = k; entries = 0 })) h
