-- ===== src/Alpc/ServerLaws.antt =====
-- The map that wfptools/HlprServerAlpc.cpp fills from its queue.
use wfpdriver.Shared.{
  ℕ, ◌≡◌, refl, ap, ◌∙◌, Bool-cases, inl, inr, Option, none, some, List, [], ◌∷◌, ◌==◌,
  if◌then◌else◌, arith,
}
use wfpdriver.Tools.Handler.{FlowMap, find, assign}
use wfpdriver.Tools.HandlerLaws.{find-assign, find-assign_other}
use wfpdriver.Alpc.Server.{Server, list_key, list_all, list_thread}

-- The record of the queue's last flow with a key.
abbrev pub last_with : ℕ → List (List ℕ) → Option (List ℕ)
last_with k [] = none
last_with k (info ∷ infos) = elim (last_with k infos) [
  | some found ↦ some found
  | none ↦ if k == list_key info then some info else none
]

abbrev pub or_else : Option (List ℕ) → Option (List ℕ) → Option (List ℕ)
or_else none o = o
or_else (some info) o = some info

find_assigned :
    (k : ℕ) (info : List ℕ) (flows : FlowMap)
    → find k (assign (list_key info) info flows)
      ≡ or_else (if k == list_key info then some info else none) (find k flows)
find_assigned k info flows = elim (Bool-cases (k == list_key info)) [
  | inl same ↦
      let e : k ≡ list_key info = ground (arith, same) in
      rw same (rw e (find-assign (list_key info) info flows))
  | inr other ↦
      rw other (find-assign_other k (list_key info) info flows (λ e. ground (arith, other, e)))
]

pub list_all_lem :
    (k : ℕ) (queue : List (List ℕ)) (flows : FlowMap)
    → find k (list_all queue flows) ≡ or_else (last_with k queue) (find k flows)
unfolding list_all
list_all_lem k [] flows = refl
list_all_lem k (info ∷ infos) flows =
    list_all_lem k infos (assign (list_key info) info flows)
    ∙ ap (or_else (last_with k infos)) (find_assigned k info flows)
    ∙ nested (last_with k infos)
  where
    nested :
        (o : Option (List ℕ))
        → or_else o (or_else (if k == list_key info then some info else none) (find k flows))
          ≡ or_else
              (elim o [
                | some found ↦ some found
                | none ↦ if k == list_key info then some info else none
              ])
              (find k flows)
    nested none = refl
    nested (some found) = refl

-- After a round of list_thread the queue is empty, and the map finds under each key the queue's last
-- flow with that key, or what it found before if there is none.
pub list_thread-find :
    (k : ℕ) (s : Server)
    → ((list_thread s).queue ≡ [])
      × (find k (list_thread s).flows ≡ or_else (last_with k s.queue) (find k s.flows))
unfolding list_thread
list_thread-find k s = (refl, list_all_lem k s.queue s.flows)
