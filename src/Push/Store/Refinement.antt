-- ===== src/Push/Store/Refinement.antt =====
-- The operations of push_notification_store.cpp against a map from tasks to lists of configs.
use a2a_cpp.Base.{
  ◌≡◌, ◌≢◌, refl, sym, ap, subst, ◌∙◌, false, Option, none, some, List, [], arith, if◌then◌else◌,
  Bool-cases, inl, inr, Option-cases, Bytes, bytes_eq, bytes_eq_iff, is_empty, is_empty_iff, ◌⊎◌,
  find, assign, erase, find-assign, find-erase,
}
use a2a_cpp.Core.Error.{Result, ok, err}
use a2a_cpp.Push.Store.{
  TaskConfigs, InMemoryPushNotificationStore, configs_or_new, default_config, validate_config,
  validate_lookup, put_config, create_or_update, get, config_at, remove_at, delete, delete_from,
  store_rest, task_config_not_found, config_not_found,
}
use a2a_cpp.Push.Store.Positions.{
  Config, position, find_config, replace_config, remove_config, find_config-position,
  remove_config-missing, replace_config-full,
}
use a2a_cpp.Push.Store.Shifting.{IsIndexed, IsIndexed-empty, remove_at-IsIndexed}
use a2a_cpp.Push.Store.Consistency.{
  IsConsistent, listed, view, put_config-IsIndexed, entry-IsIndexed, assign-IsConsistent,
  erase-IsConsistent,
}

-- What the store promises: for each task the list of its configs.
abbrev pub Book : Type 0
Book = Bytes → List Config

abbrev pub spec_create_or_update : Config → Book → Result Config × Book
spec_create_or_update config b = elim (validate_config config) [
  | err e ↦ (err e, b)
  | ok _ ↦ (ok config, λ t. if bytes_eq config.task_id t then replace_config config (b t) else b t)
]

abbrev pub spec_delete : Bytes → Bytes → Book → Result (Unit {0}) × Book
spec_delete task_id config_id b = elim (validate_lookup task_id config_id) [
  | err e ↦ (err e, b)
  | ok _ ↦ (ok tt, λ t. if bytes_eq task_id t then remove_config config_id (b t) else b t)
]

abbrev found_config : Option Config → Result Config
found_config none = err config_not_found
found_config (some c) = ok c

abbrev pub spec_get : Bytes → Bytes → Book → Result Config
spec_get task_id config_id b = elim (validate_lookup task_id config_id) [
  | err e ↦ err e
  | ok _ ↦
      if is_empty (b task_id)
      then err task_config_not_found
      else found_config (find_config config_id (b task_id))
]

pub record Simulates {A : Type 0} (p : Result A × InMemoryPushNotificationStore)
    (q : Result A × Book) : Type 0 where
  pub result : p.0 ≡ q.0
  pub shows : (t : Bytes) → view p.1 t ≡ q.1 t
  pub consistent : IsConsistent p.1

Validated-cases :
    (r : Result (Unit {0})) → ((e : a2a_cpp.Core.Error.Error) × (r ≡ err e)) ⊎ (r ≡ ok tt)
Validated-cases (err e) = inl (e, refl)
Validated-cases (ok u) = inr refl

view-assign :
    (s : InMemoryPushNotificationStore) (t u : Bytes) (c : TaskConfigs)
    → view (assign t c s) u ≡ (if bytes_eq t u then c.list_response else view s u)
view-assign s t u c =
    ap listed (find-assign t u c s)
    ∙ elim (Bool-cases (bytes_eq t u)) [ inl same ↦ rw same refl | inr other ↦ rw other refl ]

view-erase :
    (s : InMemoryPushNotificationStore) (t u : Bytes)
    → view (erase t s) u ≡ (if bytes_eq t u then [] else view s u)
view-erase s t u =
    ap listed (find-erase t u s)
    ∙ elim (Bool-cases (bytes_eq t u)) [ inl same ↦ rw same refl | inr other ↦ rw other refl ]

module _ (s : InMemoryPushNotificationStore) (v : IsConsistent s) where
  -- On a consistent store CreateOrUpdate returns a config with a task id, an id and a url, replaces
  -- the config of that id in the task's list, in its place, or adds it at the end, and leaves all
  -- other tasks; any other config is refused and nothing changes. The store stays consistent.
  pub create_or_update-Simulates_configs :
      (config : Config)
      → Simulates (create_or_update config s) (spec_create_or_update config (view s))
  unfolding create_or_update
  create_or_update-Simulates_configs config = elim (Validated-cases (validate_config config)) [
    | inl (e, refused) ↦
        rw (refused, create_or_update, spec_create_or_update)
          (record { result = refl; shows = λ t. refl; consistent = v })
    | inr valid ↦
        let old = configs_or_new (find config.task_id s) in
        let (indexed, same) = entry-IsIndexed s v (find config.task_id s) config.task_id refl in
        let (list, new) = put_config-IsIndexed config old indexed in
        rw (valid, create_or_update, spec_create_or_update)
          (record {
            result = refl;
            shows = λ t. elim (Bool-cases (bytes_eq config.task_id t)) [
              | inl here ↦
                  let task : config.task_id ≡ t = (bytes_eq_iff config.task_id t).0 here in
                  view-assign s config.task_id t (put_config config old)
                  ∙ rw here (list ∙ ap (replace_config config) (same ∙ ap (view s) task))
              | inr other ↦ view-assign s config.task_id t (put_config config old) ∙ rw other refl
            ];
            consistent =
                assign-IsConsistent s v config.task_id (put_config config old) new
                  (subst (λ l. l ≢ []) (sym list) (replace_config-full config old.list_response));
          })
  ]

  -- Nothing changes where nothing is found.
  unfound :
      (task_id config_id : Bytes)
      → remove_config config_id (view s task_id) ≡ view s task_id
      → (t : Bytes)
      → view s t ≡ (if bytes_eq task_id t then remove_config config_id (view s t) else view s t)
  unfound task_id config_id h t = elim (Bool-cases (bytes_eq task_id t)) [
    | inl here ↦
        let task : task_id ≡ t = (bytes_eq_iff task_id t).0 here in
        rw here (sym (subst (λ u. remove_config config_id (view s u) ≡ view s u) task h))
    | inr other ↦ rw other refl
  ]

  store_rest-view :
      (task_id config_id : Bytes) (c : TaskConfigs)
      → IsIndexed c.list_response c.config_indices
      → c.list_response ≡ remove_config config_id (view s task_id)
      → ((t : Bytes)
          → view (store_rest task_id c s) t
            ≡ (if bytes_eq task_id t then remove_config config_id (view s t) else view s t))
        × IsConsistent (store_rest task_id c s)
  store_rest-view task_id config_id c w list = elim (Bool-cases (is_empty c.config_indices)) [
    | inl empty ↦
        let gone : c.list_response ≡ [] =
          (IsIndexed-empty c.list_response c.config_indices w).0 empty in
        rw (empty, store_rest)
          (
            λ t. view-erase s task_id t ∙ elim (Bool-cases (bytes_eq task_id t)) [
              | inl here ↦
                  let task : task_id ≡ t = (bytes_eq_iff task_id t).0 here in
                  rw here (sym gone ∙ list ∙ ap (λ u. remove_config config_id (view s u)) task)
              | inr other ↦ rw other refl
            ],
            erase-IsConsistent s v task_id,
          )
    | inr full ↦
        let some_left : c.list_response ≢ [] =
          ground (arith, IsIndexed-empty c.list_response c.config_indices w, full) in
        rw (full, store_rest)
          (
            λ t. view-assign s task_id t c ∙ elim (Bool-cases (bytes_eq task_id t)) [
              | inl here ↦
                  let task : task_id ≡ t = (bytes_eq_iff task_id t).0 here in
                  rw here (list ∙ ap (λ u. remove_config config_id (view s u)) task)
              | inr other ↦ rw other refl
            ],
            assign-IsConsistent s v task_id c w some_left,
          )
  ]

  delete_from-view :
      (task_id config_id : Bytes) (o : Option TaskConfigs)
      → find task_id s ≡ o
      → ((t : Bytes)
          → view (delete_from task_id config_id o s) t
            ≡ (if bytes_eq task_id t then remove_config config_id (view s t) else view s t))
        × IsConsistent (delete_from task_id config_id o s)
  delete_from-view task_id config_id none e =
      let empty : view s task_id ≡ [] = ap listed e in
      (unfound task_id config_id (rw empty refl), v)
  delete_from-view task_id config_id (some c) e =
      let here : view s task_id ≡ c.list_response = ap listed e in
      let w = v.entries task_id c e in
      elim (Option-cases (find config_id c.config_indices)) [
        | inl missing ↦
            let absent =
              remove_config-missing config_id c.list_response
                (sym (w.indexed config_id) ∙ missing) in
            rw (missing, delete_from) (unfound task_id config_id (rw here absent), v)
        | inr (i, found) ↦
            let (list, indexed) =
              remove_at-IsIndexed config_id i c.list_response c.config_indices w found in
            rw (found, delete_from)
              (store_rest-view task_id config_id (remove_at config_id i c) indexed
                (list ∙ ap (remove_config config_id) (sym here)))
      ]

  -- On a consistent store Delete, given a task id and a config id, takes the config of that id out
  -- of the task's list, where there is one, keeps the order of the others, and leaves all other
  -- tasks; a call without one of the ids is refused and nothing changes. The store stays consistent.
  pub delete-Simulates :
      (task_id config_id : Bytes)
      → Simulates (delete task_id config_id s) (spec_delete task_id config_id (view s))
  unfolding delete
  delete-Simulates task_id config_id = elim (Validated-cases (validate_lookup task_id config_id)) [
    | inl (e, refused) ↦
        rw (refused, delete, spec_delete)
          (record { result = refl; shows = λ t. refl; consistent = v })
    | inr valid ↦
        let (shown, consistent) = delete_from-view task_id config_id (find task_id s) refl in
        rw (valid, delete, spec_delete)
          (record { result = refl; shows = shown; consistent = consistent })
  ]

  found_at :
      (config_id : Bytes) (c : TaskConfigs)
      → IsIndexed c.list_response c.config_indices
      → config_at c (find config_id c.config_indices)
        ≡ found_config (find_config config_id c.list_response)
  found_at config_id c w =
      let search = find_config-position config_id c.list_response default_config in
      elim (Option-cases (position config_id c.list_response)) [
        | inl missing ↦ rw (w.indexed config_id, search, missing) refl
        | inr (i, there) ↦ rw (w.indexed config_id, search, there) refl
      ]

  -- On a consistent store Get, given a task id and a config id, returns the config of that id in
  -- the task's list; it tells a task without configs from a config that is not there, and refuses a
  -- call without one of the ids.
  pub get-view_configs :
      (task_id config_id : Bytes) → get task_id config_id s ≡ spec_get task_id config_id (view s)
  unfolding get
  get-view_configs task_id config_id = elim (Validated-cases (validate_lookup task_id config_id)) [
    | inl (e, refused) ↦ rw (refused, get, spec_get) refl
    | inr valid ↦ elim (Option-cases (find task_id s)) [
      | inl missing ↦ rw (valid, missing, get, spec_get) refl
      | inr (c, found) ↦
          let full : is_empty c.list_response ≡ false =
            ground (arith, is_empty_iff c.list_response, v.filled task_id c found) in
          rw (valid, found, get, spec_get, full) (found_at config_id c (v.entries task_id c found))
    ]
  ]

-- A store as it is made.
pub empty-IsConsistent : IsConsistent []
empty-IsConsistent = record {
  entries = λ t c h. unfold find in absurd (cc h);
  filled = λ t c h. unfold find in absurd (cc h);
}
