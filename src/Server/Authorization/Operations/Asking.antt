-- ===== src/Server/Authorization/Operations/Asking.antt =====
-- RequestAuthorization and ReceiveMessage of task_authorization_service.cpp as moves of tasks.
use a2a_cpp.Base.{
  ◌≡◌, refl, sym, subst, inl, ap, ◌∙◌, arith, true, not, ◌||◌, Option, none, some, [], ◌∷◌, ◌++◌,
  if◌then◌else◌, Bytes, is_empty, inr,
}
use a2a_cpp.Core.Error.{Result, ok, err}
use a2a_cpp.Core.Proto.{
  Task, Message, Part, auth_required, agent, SendMessageRequest, message_of, state_of, state_eq,
  role_eq,
}
use a2a_cpp.Tasks.History.{Reason, dedup_by_message_id, find_history_dedupe_reason}
use a2a_cpp.Tasks.Lifecycle.{resolve_task_id_for_send_request, validate_task_for_send_request}
use a2a_cpp.Tasks.Lifecycle.Transitions.{validate_task_for_send_request_iff}
use a2a_cpp.Tasks.Store.{TaskSnapshot}
use a2a_cpp.Server.Authorization.{
  RevisionStore, AuthorizationState, invalid_explanation, authorization_not_pending,
  is_authorization_task, fresh_task, requested, persist, with_snapshot,
}
use a2a_cpp.Server.Authorization.Operations.{
  checked, request_snapshot, request_for, request_authorization, receive_snapshot, receive_message,
}
use a2a_cpp.Server.Authorization.Moves.{
  RevisionLaws, Validator, TaskCall, requesting, receiving, Move, asks_new, asks, tells,
  persist-Steps, persist_over-Steps,
}
use a2a_cpp.Server.Authorization.Operations.Steps.{
  Goes, refused, if-Steps, on_snapshot-Steps, requested_id,
}

fresh_id : (id : Bytes) (message : Message) → (fresh_task id message).id ≡ id
unfolding fresh_task
fresh_id id message = refl

module _ {S : Type 0} (store : RevisionStore S) (laws : RevisionLaws store) (validator : Validator)
    (serialize : Part → Bytes) (c : TaskCall) (a : AuthorizationState S)
    (g : laws.Good a.tasks) where
  checked-Steps :
      (r : Result (Unit {0})) (p : Result Task × AuthorizationState S)
      → (r ≡ ok tt → Goes store laws validator serialize c a p)
      → Goes store laws validator serialize c a (checked r p a)
  checked-Steps (err e) p next = refused store laws validator serialize c a g e
  checked-Steps (ok tt) p next = next refl

module _ {S : Type 0} (store : RevisionStore S) (laws : RevisionLaws store) (validator : Validator)
    (serialize : Part → Bytes) (a : AuthorizationState S) (g : laws.Good a.tasks) where
  module _ (request : SendMessageRequest) (generated : Result Bytes) (explanation : Message) where
    abbrev asking : TaskCall
    asking = requesting request generated explanation

    abbrev Asks : Result Task × AuthorizationState S → Type 0
    Asks p = Goes store laws validator serialize asking a p

    request_snapshot-Steps :
        (id : Bytes)
        → resolve_task_id_for_send_request request generated ≡ ok id
        → (e : TaskSnapshot) → e.task.id ≡ id
        → laws.view a.tasks id ≡ some e
        → Asks (request_snapshot request explanation store e a)
    unfolding request_snapshot
    request_snapshot-Steps id here e named shown =
        let t : Task = requested (message_of request) explanation e.task in
        checked-Steps store laws validator serialize asking a g
          (validate_task_for_send_request request e.task) (persist store t e.revision a)
          (λ valid.
            persist_over-Steps store laws validator serialize asking a g id e t shown
              (requested_id (message_of request) explanation e.task ∙ named)
              (λ next.
                asks e request generated explanation id next here
                  ((validate_task_for_send_request_iff request e.task).0 valid).3))

    request_for-Steps :
        (id : Result Bytes)
        → resolve_task_id_for_send_request request generated ≡ id
        → Asks (request_for store request explanation id a)
    unfolding request_for
    request_for-Steps (err e) here = refused store laws validator serialize asking a g e
    request_for-Steps (ok id) here =
        let fresh = fresh_task id (message_of request) in
        let t : Task = requested (message_of request) explanation fresh in
        let same : t.id ≡ id =
          requested_id (message_of request) explanation fresh ∙ fresh_id id (message_of request) in
        if-Steps store laws validator serialize asking a
          (not (is_empty (message_of request).task_id))
          (with_snapshot (request_snapshot request explanation) store
            (store.get_snapshot id a.tasks) a)
          (persist store t 0 a)
          (λ old.
            on_snapshot-Steps store laws validator serialize asking a
              (request_snapshot request explanation) id g (request_snapshot-Steps id here))
          (λ new. persist-Steps store laws validator serialize asking a g t 0 (λ free next.
            subst
              (λ k.
                Move validator asking k (laws.view a.tasks t.id)
                  (some (record { task = t; revision = next })))
              (sym same)
              (asks_new (laws.view a.tasks t.id) request generated explanation id next
                (ground (arith, new)) here free)))

    pub request-Steps : Asks (request_authorization (some store) request generated explanation a)
    unfolding request_authorization
    request-Steps =
        if-Steps store laws validator serialize asking a
          (not (role_eq explanation.role agent)
            || (is_empty explanation.message_id || is_empty explanation.parts))
          (err invalid_explanation, a)
          (request_for store request explanation
            (resolve_task_id_for_send_request request generated) a)
          (λ h. refused store laws validator serialize asking a g invalid_explanation)
          (λ h. request_for-Steps (resolve_task_id_for_send_request request generated) refl)

  module _ (request : SendMessageRequest) where
    abbrev telling : TaskCall
    telling = receiving request

    abbrev Tells : Result Task × AuthorizationState S → Type 0
    Tells p = Goes store laws validator serialize telling a p

    told-Steps :
        (e : TaskSnapshot)
        → e.task.id ≡ (message_of request).task_id
        → laws.view a.tasks (message_of request).task_id ≡ some e
        → is_authorization_task e.task ≡ true
        → state_eq (state_of e.task) auth_required ≡ true
        → (found : Option Reason)
        → find_history_dedupe_reason serialize e.task.history
            (message_of request)
            dedup_by_message_id
          ≡ found
        → Tells (elim found [
          | some reason ↦ (ok e.task, a)
          | none ↦
              persist store
                (record (e.task) { history = e.task.history ++ message_of request ∷ [] })
                e.revision
                a
        ])
    told-Steps e named shown marked waiting (some r) found = record {
      good = g;
      moves = λ k. inl refl;
      outcome = ((e.revision, ap (laws.view a.tasks) named ∙ shown), inr (refl, λ k. refl));
      answered = inr (r, found);
    }
    told-Steps e named shown marked waiting none found =
        persist_over-Steps store laws validator serialize telling a g (message_of request).task_id e
          (record (e.task) { history = e.task.history ++ message_of request ∷ [] }) shown named
          (λ next. tells e request next marked waiting)

    receive_snapshot-Steps :
        (e : TaskSnapshot)
        → e.task.id ≡ (message_of request).task_id
        → laws.view a.tasks (message_of request).task_id ≡ some e
        → Tells (receive_snapshot serialize request store e a)
    unfolding receive_snapshot
    receive_snapshot-Steps e named shown =
        let message : Message = message_of request in
        let rest : Result Task × AuthorizationState S =
          elim (find_history_dedupe_reason serialize e.task.history message dedup_by_message_id) [
            | some reason ↦ (ok e.task, a)
            | none ↦
                persist store (record (e.task) { history = e.task.history ++ message ∷ [] })
                  e.revision a
          ] in
        checked-Steps store laws validator serialize telling a g
          (validate_task_for_send_request request e.task)
          (if not (is_authorization_task e.task) || not (state_eq (state_of e.task) auth_required)
            then (err authorization_not_pending, a)
            else rest)
          (λ valid.
            if-Steps store laws validator serialize telling a
              (not (is_authorization_task e.task) || not (state_eq (state_of e.task) auth_required))
              (err authorization_not_pending, a) rest
              (λ h. refused store laws validator serialize telling a g authorization_not_pending)
              (λ h.
                told-Steps e named shown (ground (arith, h)) (ground (arith, h))
                  (find_history_dedupe_reason serialize e.task.history message dedup_by_message_id)
                  refl))

    pub receive-Steps : Tells (receive_message serialize (some store) request a)
    unfolding receive_message
    receive-Steps =
        on_snapshot-Steps store laws validator serialize telling a
          (receive_snapshot serialize request) (message_of request).task_id g receive_snapshot-Steps
