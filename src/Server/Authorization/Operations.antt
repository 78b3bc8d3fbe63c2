-- ===== src/Server/Authorization/Operations.antt =====
-- The operations of src/server/tasks/task_authorization_service.cpp.
pub mod Steps
pub mod Asking
pub mod Runs
mod Examples
use a2a_cpp.Base.{
  ℕ, Bool, true, false, not, ◌&&◌, ◌||◌, Option, none, some, List, [], ◌∷◌, ◌++◌, if◌then◌else◌,
  Bytes, bytes_eq, is_empty, codes, ℤ,
}
use a2a_cpp.Core.Error.{
  Result, ok, err, Error, validation_error, internal_error, unsupported_operation,
  unsupported_operation_default, task_not_cancelable, permission_denied,
}
use a2a_cpp.Core.Proto.{
  Task, Message, Part, Value, bool, Fields, end, field, TaskState, auth_required, working,
  completed, canceled, agent, SendMessageRequest, default_task, message_of, status_of, state_of,
  state_eq, role_eq, is_terminal_task_state,
}
use a2a_cpp.Tasks.History.{dedup_by_message_id, find_history_dedupe_reason}
use a2a_cpp.Tasks.Lifecycle.{resolve_task_id_for_send_request, validate_task_for_send_request}
use a2a_cpp.Tasks.Store.{
  InMemoryTaskStore, TaskSnapshot, ConditionalWriteResult, updated, conflict, get, get_snapshot,
  create_or_update_if_revision,
}
use a2a_cpp.Server.Subscriptions.{ServiceState, publish_task_updated, subscribe, shutdown}
use a2a_cpp.Server.Authorization.{
  RevisionStore, AuthorizationState, missing_task_store, invalid_explanation,
  authorization_not_pending, authorization_not_granted, is_authorization_task, fresh_task,
  requested, OnSnapshot, persist, transition, with_snapshot, on_snapshot,
}

-- `!validator_ || !validator_(task, credential)`
abbrev pub refuses : Option (Task → Bytes → Bool) → Task → Bytes → Bool
refuses none t credential = true
refuses (some validator) t credential = not (validator t credential)

module _ {S : Type 0} where
  authorize_snapshot : Option (Task → Bytes → Bool) → Bytes → OnSnapshot S
  unfolding transition is_authorization_task
  authorize_snapshot validator credential store snapshot a =
      let t = snapshot.task in
      if not (is_authorization_task t) || not (state_eq (state_of t) auth_required)
      then (err authorization_not_pending, a)
      else if refuses validator t credential
      then (err permission_denied, a)
      else transition store snapshot working a

  -- Authorize
  pub authorize :
      Option (RevisionStore S)
      → Option (Task → Bytes → Bool)
      → Bytes
      → Bytes
      → AuthorizationState S
      → Result Task × AuthorizationState S
  unfolding authorize_snapshot
  authorize store validator task_id credential a =
      on_snapshot store task_id (authorize_snapshot validator credential) a

  complete_snapshot : OnSnapshot S
  unfolding transition is_authorization_task
  complete_snapshot store snapshot a =
      let t = snapshot.task in
      if not (is_authorization_task t) || not (state_eq (state_of t) working)
      then (err authorization_not_granted, a)
      else transition store snapshot completed a

  -- Complete
  pub complete :
      Option (RevisionStore S) → Bytes → AuthorizationState S → Result Task × AuthorizationState S
  unfolding complete_snapshot
  complete store task_id a = on_snapshot store task_id complete_snapshot a

  cancel_snapshot : OnSnapshot S
  unfolding transition
  cancel_snapshot store snapshot a = transition store snapshot canceled a

  -- Cancel
  pub cancel :
      Option (RevisionStore S) → Bytes → AuthorizationState S → Result Task × AuthorizationState S
  unfolding cancel_snapshot
  cancel store task_id a = on_snapshot store task_id cancel_snapshot a

  -- An early return with the error of a check.
  abbrev pub checked :
      Result (Unit {0})
      → Result Task × AuthorizationState S
      → AuthorizationState S
      → Result Task × AuthorizationState S
  checked (err e) next a = (err e, a)
  checked (ok _) next a = next

  request_snapshot : SendMessageRequest → Message → OnSnapshot S
  unfolding requested persist
  request_snapshot request explanation store snapshot a =
      checked (validate_task_for_send_request request snapshot.task)
        (persist store (requested (message_of request) explanation snapshot.task) snapshot.revision
          a)
        a

  request_for :
      RevisionStore S
      → SendMessageRequest
      → Message
      → Result Bytes
      → AuthorizationState S
      → Result Task × AuthorizationState S
  unfolding request_snapshot fresh_task requested persist
  request_for store request explanation (err e) a = (err e, a)
  request_for store request explanation (ok id) a =
      if not (is_empty (message_of request).task_id)
      then with_snapshot (request_snapshot request explanation) store
          (store.get_snapshot id a.tasks) a
      else persist store
          (requested (message_of request) explanation (fresh_task id (message_of request))) 0 a

  -- RequestAuthorization; `generated` is what the generator of ids answers when it is asked.
  pub request_authorization :
      Option (RevisionStore S)
      → SendMessageRequest
      → Result Bytes
      → Message
      → AuthorizationState S
      → Result Task × AuthorizationState S
  unfolding request_for
  request_authorization none request generated explanation a = (err missing_task_store, a)
  request_authorization (some store) request generated explanation a =
      if not (role_eq explanation.role agent)
        || (is_empty explanation.message_id || is_empty explanation.parts)
      then (err invalid_explanation, a)
      else request_for store request explanation
          (resolve_task_id_for_send_request request generated) a

  -- A subscription to the task that a call returned.
  abbrev pub subscribed : Result Task × AuthorizationState S → Result ℕ × AuthorizationState S
  subscribed (err e, a) = (err e, a)
  subscribed (ok t, a) =
      let step = subscribe t a.subscriptions in (step.0, record a { subscriptions = step.1 })

  -- Subscribe
  pub subscribe_to :
      Option (RevisionStore S) → Bytes → AuthorizationState S → Result ℕ × AuthorizationState S
  subscribe_to none task_id a = (err missing_task_store, a)
  subscribe_to (some store) task_id a = subscribed (store.get task_id a.tasks, a)

  -- Shutdown
  pub shut_down : AuthorizationState S → AuthorizationState S
  shut_down a = record a { subscriptions = shutdown a.subscriptions }

-- `serialize` stands for protobuf's `SerializeAsString` of a part.
module _ {S : Type 0} (serialize : Part → Bytes) where
  receive_snapshot : SendMessageRequest → OnSnapshot S
  unfolding is_authorization_task persist
  receive_snapshot request store snapshot a =
      let t = snapshot.task in
      let message = message_of request in
      checked (validate_task_for_send_request request t)
        (if not (is_authorization_task t) || not (state_eq (state_of t) auth_required)
          then (err authorization_not_pending, a)
          else elim (find_history_dedupe_reason serialize t.history message dedup_by_message_id) [
            | some reason ↦ (ok t, a)
            | none ↦
                persist store (record t { history = t.history ++ message ∷ [] }) snapshot.revision a
          ])
        a

  -- ReceiveMessage
  pub receive_message :
      Option (RevisionStore S)
      → SendMessageRequest
      → AuthorizationState S
      → Result Task × AuthorizationState S
  unfolding receive_snapshot
  receive_message store request a =
      on_snapshot store (message_of request).task_id (receive_snapshot request) a

  -- SendStreamingMessage
  pub send_streaming_message :
      Option (RevisionStore S)
      → SendMessageRequest
      → Result Bytes
      → Message
      → AuthorizationState S
      → Result ℕ × AuthorizationState S
  unfolding request_authorization receive_message
  send_streaming_message store request generated explanation a = subscribed (
      if is_empty (message_of request).task_id
      then request_authorization store request generated explanation a
      else receive_message store request a)
