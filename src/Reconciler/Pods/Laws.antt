-- ===== src/Reconciler/Pods/Laws.antt =====
-- One listing grouped by label gives every release the pods that a listing of its own would.
use nf_orchestrator.Prelude.{
  ◌≡◌, ◌≢◌, refl, ◌∙◌, ◌↔◌, ap, Bool, true, false, not, List, [], ◌∷◌, ◌++◌, some, arith, option,
  keep, map, all, is_none, if◌then◌else◌, Bool-cases, Option-cases, inl, inr,
}
use nf_orchestrator.Text.{Text, text_eq}
use nf_orchestrator.Text.Laws.{text_eq_iff}
use nf_orchestrator.Reconciler.Pods.{
  Item, parse_pod, parse_pods, Grouped, find, append_to, group_from, parse_groups,
}
use mathlib.Core.List.{append_assoc, append-nil}

-- `d.get(key, [])`
abbrev pub find_or_empty : {A : Type 0} → Text → Grouped A → List A
find_or_empty app g = option [] (λ items. items) (find app g)

-- What the selector `app=<name>` asks of a pod.
abbrev pub carries : Text → Item → Bool
carries app item = option false (λ label. text_eq label app) item.app

find-append_to :
    {A : Type 0} (app k : Text) (item : A) (g : Grouped A)
    → find_or_empty app (append_to k item g)
      ≡ (if text_eq k app then find_or_empty app g ++ item ∷ [] else find_or_empty app g)
unfolding find append_to
find-append_to app k item [] = ground arith
find-append_to app k item ((j, items) ∷ g) =
    ground
      (arith, find-append_to app k item g, text_eq_iff j k, text_eq_iff j app, text_eq_iff k app)

-- The pods of a release, once an item with the label `k` has been put away.
kept :
    (app k : Text) (item : Item) (g : Grouped Item) (items : List Item)
    → item.app ≡ some k
    → find_or_empty app (append_to k item g) ++ keep (carries app) items
      ≡ find_or_empty app g ++ keep (carries app) (item ∷ items)
kept app k item g items e = elim (Bool-cases (text_eq k app)) [
  | inl same ↦ ground (
    arith,
    find-append_to app k item g,
    append_assoc (find_or_empty app g) (item ∷ []) (keep (carries app) items),
  )
  | inr other ↦ ground (arith, find-append_to app k item g)
]

group_from-find :
    (app : Text) (grouped : Grouped Item) (items : List Item) (g : Grouped Item)
    → group_from grouped items ≡ some g
    → find_or_empty app g ≡ find_or_empty app grouped ++ keep (carries app) items
unfolding group_from
group_from-find app grouped [] g h = ground (arith, append-nil (find_or_empty app grouped))
group_from-find app grouped (item ∷ items) g h = elim (Option-cases item.app) [
  | inl e ↦ ground arith
  | inr (k, e) ↦
      let step = group_from-find app (append_to k item grouped) items g (ground arith) in
      step ∙ kept app k item grouped items e
]

find-parse_groups :
    (app : Text) (g : Grouped Item)
    → find_or_empty app (parse_groups g) ≡ parse_pods (find_or_empty app g)
unfolding find parse_groups parse_pods
find-parse_groups app [] = refl
find-parse_groups app ((k, items) ∷ g) = ground (arith, find-parse_groups app g)

-- The pods that one listing, grouped by its label, gives a release are those that parsing the
-- items with its label gives, in the same order; none where no item has the label.
pub parse_groups-find :
    (app : Text) (items : List Item) (g : Grouped Item)
    → group_from [] items ≡ some g
    → find_or_empty app (parse_groups g) ≡ parse_pods (keep (carries app) items)
unfolding find
parse_groups-find app items g h =
    find-parse_groups app g ∙ ap parse_pods (group_from-find app [] items g h)

-- Grouping succeeds exactly when every item has the label.
group_from-total :
    (grouped : Grouped Item) (items : List Item)
    → (is_none (group_from grouped items) ≡ false) ↔ (all (λ i. not (is_none i.app)) items ≡ true)
unfolding group_from
group_from-total grouped [] = (λ _. refl, λ _. refl)
group_from-total grouped (item ∷ items) = elim (Option-cases item.app) [
  | inl e ↦ ground arith
  | inr (k, e) ↦ ground (arith, group_from-total (append_to k item grouped) items)
]

parse_pods_lem :
    (items : List Item) → parse_pods items ≡ map parse_pod (keep (λ i. not i.is_deleting) items)
unfolding parse_pods
parse_pods_lem [] = refl
parse_pods_lem (i ∷ items) = ground (arith, parse_pods_lem items)

-- A pod counts as ready exactly when it has a container and every container is ready.
parse_pod-ready :
    (i : Item)
    → ((parse_pod i).ready ≡ true)
      ↔ ((i.containers ≢ []) × (all (λ c. c.ready) i.containers ≡ true))
unfolding parse_pod
parse_pod-ready i = ground arith
