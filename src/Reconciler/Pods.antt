-- ===== src/Reconciler/Pods.antt =====
-- The pods that kubectl lists: `parse_pods`, `pod_states` and `pods_by_release`.
pub mod Laws
use nf_orchestrator.Prelude.{
  ℕ, Bool, true, false, not, ◌&&◌, List, [], ◌∷◌, ◌++◌, Option, none, some, if◌then◌else◌, option,
  map, all, is_empty,
}
use nf_orchestrator.Text.{Text, text, text_eq}
use nf_orchestrator.Json.{Json, Fields, get, as_list, as_text, truthy, obj, end}
use nf_orchestrator.Host.{Host, State, Exec, pure, expect, ◌>>=◌}
use nf_orchestrator.Deploy.Run.{run_kubectl}
use nf_orchestrator.Reconciler.State.{Pod}
use nf_orchestrator.Reconciler.History.{decode_all}

-- An element of `containerStatuses`. `waiting` is there when `state.waiting` is true for Python,
-- and then holds its `reason`.
pub record Container : Type 0 where
  pub waiting : Option (Option Text)
  pub ready : Bool

-- An item of `kubectl get pods`, as far as `parse_pods` and `pods_by_release` look at it.
pub record Item : Type 0 where
  pub app : Option Text
  pub is_deleting : Bool
  pub phase : Option Text
  pub reason : Option Text
  pub containers : List Container

-- The reason of the first container that waits: the `for` loop with its `break`.
unfoldable waiting_reason : List Container → Option Text
waiting_reason [] = none
waiting_reason (c ∷ cs) = let rest = waiting_reason cs in option rest (λ reason. reason) c.waiting

abbrev or_pod_reason : Option Text → Option Text → Option Text
or_pod_reason (some r) _ = some r
or_pod_reason none reason = reason

unfoldable pub parse_pod : Item → Pod
unfolding waiting_reason
parse_pod item = record {
  phase = item.phase;
  reason = or_pod_reason (waiting_reason item.containers) item.reason;
  ready = not (is_empty item.containers) && all (λ c. c.ready) item.containers;
}

unfoldable pub parse_pods : List Item → List Pod
unfolding parse_pod
parse_pods [] = []
parse_pods (item ∷ items) =
    let rest = parse_pods items in if item.is_deleting then rest else parse_pod item ∷ rest

-- A dict of lists, in the order of its keys.
abbrev pub Grouped : Type 0 → Type 0
Grouped A = List (Text × List A)

module _ {A : Type 0} where
  -- `grouped.get(app)`
  unfoldable pub find : Text → Grouped A → Option (List A)
  find app [] = none
  find app ((k, items) ∷ g) = let rest = find app g in if text_eq k app then some items else rest

  -- `grouped.setdefault(app, []).append(item)`
  unfoldable pub append_to : Text → A → Grouped A → Grouped A
  append_to app item [] = (app, item ∷ []) ∷ []
  append_to app item ((k, items) ∷ g) =
      let rest = append_to app item g in
      if text_eq k app then (k, items ++ item ∷ []) ∷ g else (k, items) ∷ rest

-- The loop of `pods_by_release`; an item without the label is a `KeyError`.
unfoldable pub group_from : Grouped Item → List Item → Option (Grouped Item)
group_from grouped [] = some grouped
group_from grouped (item ∷ items) = elim item.app [
  | none ↦ none
  | some app ↦ group_from (append_to app item grouped) items
]

-- `{app: parse_pods(items) for app, items in grouped.items()}`
unfoldable pub parse_groups : Grouped Item → Grouped Pod
parse_groups = map (λ (app, items). (app, parse_pods items))

-- `d.get(key)` where the result is a text, and where the value is no text a refusal.
abbrev text_field : Text → Json → Option (Option Text)
text_field key j = elim (get key j) [
  | none ↦ some none
  | some Json.null ↦ some none
  | some (Json.str s) ↦ some (some s)
  | some _ ↦ none
]

abbrev flag_field : Text → Json → Bool
flag_field key j = option false truthy (get key j)

-- `container.get("state", {}).get("waiting")`, when it is true
abbrev waiting_of : Json → Option (Option Text)
waiting_of j = elim (get (text "state") j) [
  | none ↦ none
  | some state ↦ elim (get (text "waiting") state) [
    | none ↦ none
    | some w ↦ if truthy w then text_field (text "reason") w else none
  ]
]

unfoldable pub decode_container : Json → Option Container
decode_container j = some (record { waiting = waiting_of j; ready = flag_field (text "ready") j })

abbrev container_list : Option Json → Option (List Container)
container_list none = some []
container_list (some j) = elim (as_list j) [
  | none ↦ none
  | some js ↦ decode_all decode_container js
]

abbrev app_label : Json → Option Text
app_label metadata = elim (get (text "labels") metadata) [
  | none ↦ none
  | some labels ↦ elim (get (text "app") labels) [ none ↦ none | some app ↦ as_text app ]
]

abbrev build_item :
    Json → Option (Option Text) → Option (Option Text) → Option (List Container) → Option Item
build_item metadata (some phase) (some reason) (some containers) = some (record {
  app = app_label metadata;
  is_deleting = flag_field (text "deletionTimestamp") metadata;
  phase = phase;
  reason = reason;
  containers = containers;
})
build_item _ _ _ _ = none

unfoldable pub decode_item : Json → Option Item
unfolding decode_container
decode_item j = elim (get (text "metadata") j) [
  | none ↦ none
  | some metadata ↦ elim (get (text "status") j) [
    | none ↦ none
    | some status ↦
        build_item metadata (text_field (text "phase") status) (text_field (text "reason") status)
          (container_list (get (text "containerStatuses") status))
  ]
]

module _ (h : Host) where
  -- `run_kubectl(["get", "pods", "-l", selector, ...])`, as items
  unfoldable pub list_items : (selector : Text) → Exec (List Item)
  list_items selector = do
    output ←
        run_kubectl h
          (text "get" ∷ text "pods" ∷ text "-l" ∷ selector ∷ text "--output" ∷ text "json" ∷ [])
    document ← expect (h.loads output)
    field ← expect (get (text "items") document)
    items ← expect (as_list field)
    expect (decode_all decode_item items)

  unfoldable pub pod_states : Text → Exec (List Pod)
  pod_states name = do items ← list_items (text "app=" ++ name); pure (parse_pods items)

  unfoldable pub pods_by_release : Exec (Grouped Pod)
  pods_by_release = do
    items ← list_items (text "app")
    grouped ← expect (group_from [] items)
    pure (parse_groups grouped)
