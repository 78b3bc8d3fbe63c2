-- ===== src/Server/Authorization/Moves.antt =====
-- What an operation of task_authorization_service.cpp may do to a task, over the laws of a TaskStore
-- with conditional writes.
use a2a_cpp.Base.{
  ◌⊎◌, ℕ, ◌≡◌, refl, sym, ◌∙◌, subst, Bool, true, false, Option, none, some, [], ◌∷◌, ◌++◌,
  if◌then◌else◌, Bytes, bytes_eq, bytes_eq_iff, bytes_eq_refl, is_empty, Bool-cases, inl, inr,
}
use a2a_cpp.Core.Error.{Result, ok, err, Error}
use a2a_cpp.Core.Proto.{
  Task, Message, Part, SendMessageRequest, message_of, auth_required, working, completed, canceled,
  state_of, state_eq, is_terminal_task_state,
}
use a2a_cpp.Tasks.History.{Reason, dedup_by_message_id, find_history_dedupe_reason}
use a2a_cpp.Tasks.Lifecycle.{resolve_task_id_for_send_request}
use a2a_cpp.Tasks.Store.{TaskSnapshot, ConditionalWriteResult, updated, conflict}
use a2a_cpp.Server.Subscriptions.{publish_task_updated}
use a2a_cpp.Server.Authorization.{
  RevisionStore, AuthorizationState, is_authorization_task, fresh_task, requested, moved, persist,
  announced,
}

abbrev pub Shelf : Type 0
Shelf = Bytes → Option TaskSnapshot

-- The revision that a conditional write has to name; 0 where there is no task.
abbrev pub revision_of : Option TaskSnapshot → ℕ
revision_of none = 0
revision_of (some e) = e.revision

-- The outcome of a conditional write of `t` on what a store shows.
abbrev pub Wrote : Task → ℕ → Shelf → Result ConditionalWriteResult → Shelf → Type 0
Wrote t revision old (ok updated) new =
    (revision_of (old t.id) ≡ revision)
    × ((next : ℕ) × ((k : Bytes)
          → new k
            ≡ (if bytes_eq t.id k then some (record { task = t; revision = next }) else old k)))
Wrote t revision old _ new = (k : Bytes) → new k ≡ old k

-- What the service relies on: `Good` states of the store, and the snapshots that it shows.
pub record RevisionLaws {S : Type 0} (store : RevisionStore S) : Type 1 where
  pub Good : S → Type 0
  pub view : S → Shelf
  pub reads :
      (s : S)
      → Good s
      → (id : Bytes) (e : TaskSnapshot) → store.get_snapshot id s ≡ ok e
      → (view s id ≡ some e) × (e.task.id ≡ id)
  pub writes :
      (s : S)
      → Good s
      → (t : Task) (revision : ℕ)
      → let p = store.create_or_update_if_revision t revision s in
        Good p.1 × Wrote t revision (view s) p.0 (view p.1)

abbrev pub Validator : Type 0
Validator = Option (Task → Bytes → Bool)

abbrev pub accepts : Validator → Task → Bytes → Bool
accepts none t credential = false
accepts (some validator) t credential = validator t credential

-- The calls that answer with a task.
pub data TaskCall : Type 0 where
  requesting : SendMessageRequest → Result Bytes → Message → TaskCall
  receiving : SendMessageRequest → TaskCall
  authorizing : Bytes → Bytes → TaskCall
  completing cancelling : Bytes → TaskCall

-- What a call may make of the task with an id, and only of that one. A task whose revision is 0 is one
-- that is not stored.
pub data Move (validator : Validator)
    : TaskCall → Bytes → Option TaskSnapshot → Option TaskSnapshot → Type 0 where
  asks_new :
      (e : Option TaskSnapshot) (request : SendMessageRequest) (generated : Result Bytes)
      (explanation : Message) (id : Bytes) (next : ℕ)
      → is_empty (message_of request).task_id ≡ true
      → resolve_task_id_for_send_request request generated ≡ ok id
      → revision_of e ≡ 0
      → Move validator (requesting request generated explanation) id e (
          some (record {
            task = requested (message_of request) explanation (fresh_task id (message_of request));
            revision = next;
          }))
  asks :
      (e : TaskSnapshot) (request : SendMessageRequest) (generated : Result Bytes)
      (explanation : Message) (id : Bytes) (next : ℕ)
      → resolve_task_id_for_send_request request generated ≡ ok id
      → is_terminal_task_state (state_of e.task) ≡ false
      → Move validator (requesting request generated explanation) id (some e) (
          some
            (record { task = requested (message_of request) explanation e.task; revision = next }))
  tells :
      (e : TaskSnapshot) (request : SendMessageRequest) (next : ℕ)
      → is_authorization_task e.task ≡ true
      → state_eq (state_of e.task) auth_required ≡ true
      → Move validator (receiving request) (message_of request).task_id (some e) (
          some (record {
            task = record (e.task) { history = e.task.history ++ message_of request ∷ [] };
            revision = next;
          }))
  grants :
      (e : TaskSnapshot) (id credential : Bytes) (next : ℕ)
      → is_authorization_task e.task ≡ true
      → state_eq (state_of e.task) auth_required ≡ true
      → accepts validator e.task credential ≡ true
      → Move validator
          (authorizing id credential)
          id
          (some e)
          (some (record { task = moved working e.task; revision = next }))
  finishes :
      (e : TaskSnapshot) (id : Bytes) (next : ℕ)
      → is_authorization_task e.task ≡ true
      → state_eq (state_of e.task) working ≡ true
      → Move validator
          (completing id)
          id
          (some e)
          (some (record { task = moved completed e.task; revision = next }))
  cancels :
      (e : TaskSnapshot) (id : Bytes) (next : ℕ)
      → is_authorization_task e.task ≡ true
      → is_terminal_task_state (state_of e.task) ≡ false
      → Move validator
          (cancelling id)
          id
          (some e)
          (some (record { task = moved canceled e.task; revision = next }))

-- A message that the task has already, by its id.
abbrev pub Repeats : (Part → Bytes) → TaskCall → Task → Type 0
Repeats serialize (receiving request) t =
    (reason : Reason) × (find_history_dedupe_reason serialize t.history (message_of request)
        dedup_by_message_id
      ≡ some reason)
Repeats serialize _ t = ⊥

module _ {S : Type 0} (store : RevisionStore S) (laws : RevisionLaws store)
    (validator : Validator) where
  -- How an operation ended: with an error it changed nothing; with a task, that is what the store now
  -- shows under its id, and it was published, unless it is what the store had shown before.
  abbrev pub Ended : AuthorizationState S → Result Task → AuthorizationState S → Type 0
  Ended a (err e) b =
      ((k : Bytes) → laws.view b.tasks k ≡ laws.view a.tasks k)
      × (b.subscriptions ≡ a.subscriptions)
  Ended a (ok t) b =
      ((next : ℕ) × (laws.view b.tasks t.id ≡ some (record { task = t; revision = next })))
      × ((b.subscriptions ≡ publish_task_updated t a.subscriptions)
          ⊎ ((b.subscriptions ≡ a.subscriptions)
              × ((k : Bytes) → laws.view b.tasks k ≡ laws.view a.tasks k)))

module _ {S : Type 0} (store : RevisionStore S) (laws : RevisionLaws store) (validator : Validator)
    (serialize : Part → Bytes) (c : TaskCall) where
  -- A call that answers with a task has moved it, or had its message before.
  abbrev pub Answered : AuthorizationState S → Result Task → AuthorizationState S → Type 0
  Answered a (err e) b = Unit {0}
  Answered a (ok t) b =
      Move validator c t.id (laws.view a.tasks t.id) (laws.view b.tasks t.id)
      ⊎ Repeats serialize c t

  pub record Steps (a : AuthorizationState S) (p : Result Task × AuthorizationState S)
      : Type 0 where
    pub good : laws.Good p.1.tasks
    pub moves :
        (k : Bytes)
        → (laws.view p.1.tasks k ≡ laws.view a.tasks k)
          ⊎ Move validator c k (laws.view a.tasks k) (laws.view p.1.tasks k)
    pub outcome : Ended store laws validator a p.0 p.1
    pub answered : Answered a p.0 p.1

  pub refused-Steps :
      (a : AuthorizationState S) → laws.Good a.tasks → (e : Error) → Steps a (err e, a)
  refused-Steps a g e = record {
    good = g;
    moves = λ k. inl refl;
    outcome = (λ k. refl, refl);
    answered = tt;
  }

  announced-Steps :
      (a : AuthorizationState S) (t : Task) (revision : ℕ)
      → (revision_of (laws.view a.tasks t.id) ≡ revision
          → (next : ℕ)
          → Move validator c t.id
              (laws.view a.tasks t.id)
              (some (record { task = t; revision = next })))
      → (written : Result ConditionalWriteResult) (s : S) → laws.Good s
      → Wrote t revision (laws.view a.tasks) written (laws.view s)
      → Steps a (announced t a.subscriptions (written, s))
  announced-Steps a t revision move (err e) s g wrote = record {
    good = g;
    moves = λ k. inl (wrote k);
    outcome = (wrote, refl);
    answered = tt;
  }
  announced-Steps a t revision move (ok conflict) s g wrote = record {
    good = g;
    moves = λ k. inl (wrote k);
    outcome = (wrote, refl);
    answered = tt;
  }
  announced-Steps a t revision move (ok updated) s g wrote =
      let now = wrote.1.1 t.id ∙ rw (bytes_eq_refl t.id) refl in
      let made : Move validator c t.id (laws.view a.tasks t.id) (laws.view s t.id) =
        subst (Move validator c t.id (laws.view a.tasks t.id)) (sym now) (move wrote.0 wrote.1.0) in
      record {
        good = g;
        moves = λ k. elim (Bool-cases (bytes_eq t.id k)) [
          | inl same ↦
              let one : t.id ≡ k = (bytes_eq_iff t.id k).0 same in
              inr (subst (λ i. Move validator c i (laws.view a.tasks i) (laws.view s i)) one made)
          | inr other ↦ inl (wrote.1.1 k ∙ rw other refl)
        ];
        outcome = ((wrote.1.0, now), inl refl);
        answered = inl made;
      }

  pub persist-Steps :
      (a : AuthorizationState S)
      → laws.Good a.tasks
      → (t : Task) (revision : ℕ)
      → (revision_of (laws.view a.tasks t.id) ≡ revision
          → (next : ℕ)
          → Move validator c t.id
              (laws.view a.tasks t.id)
              (some (record { task = t; revision = next })))
      → Steps a (persist store t revision a)
  unfolding persist
  persist-Steps a g t revision move =
      let p : Result ConditionalWriteResult × S =
        store.create_or_update_if_revision t revision a.tasks in
      let law = laws.writes a.tasks g t revision in
      announced-Steps a t revision move p.0 p.1 law.0 law.1

  -- A write on a task that was read.
  pub persist_over-Steps :
      (a : AuthorizationState S)
      → laws.Good a.tasks
      → (id : Bytes) (e : TaskSnapshot) (t : Task) → laws.view a.tasks id ≡ some e
      → t.id ≡ id
      → ((next : ℕ) → Move validator c id (some e) (some (record { task = t; revision = next })))
      → Steps a (persist store t e.revision a)
  persist_over-Steps a g id e t shown same move = persist-Steps a g t e.revision (λ r next.
      subst
        (λ k.
          Move validator c k (laws.view a.tasks k) (some (record { task = t; revision = next })))
        (sym same)
        (subst (λ o. Move validator c id o (some (record { task = t; revision = next })))
          (sym shown) (move next)))
