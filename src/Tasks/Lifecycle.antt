-- ===== src/Tasks/Lifecycle.antt =====
-- src/server/tasks/task_lifecycle_service.cpp, over the operations of a TaskStore that it calls.
pub mod Transitions
mod Examples
use a2a_cpp.Base.{
  ℕ, Bool, true, false, not, ◌&&◌, Option, none, some, List, [], ◌∷◌, if◌then◌else◌, Bytes,
  bytes_eq, is_empty, ℤ,
}
use a2a_cpp.Core.Error.{
  Result, ok, err, Error, validation_error, internal_error, unsupported_operation,
  task_not_cancelable,
}
use a2a_cpp.Core.Proto.{
  Task, Message, Part, TaskState, canceled, SendMessageRequest, message_of, state_of, state_eq,
  set_state, is_terminal_task_state,
}
use a2a_cpp.Tasks.History.{HistoryAppendPolicy}
use a2a_cpp.Tasks.Listing.{has_value}
use a2a_cpp.Tasks.Store.{InMemoryTaskStore, create_or_update, get, append_task_history}

-- The operations of a TaskStore with the state `S` that the service calls.
pub record TaskStore (S : Type 0) : Type 0 where
  pub create_or_update : Task → S → Result (Unit {0}) × S
  pub get : Bytes → S → Result Task
  pub append_task_history : Bytes → Message → HistoryAppendPolicy → S → Result Task × S

-- The in-memory store as such a store, while its clock reads `now`.
abbrev pub in_memory : (Part → Bytes) → ℤ → TaskStore InMemoryTaskStore
in_memory serialize now = record {
  create_or_update = λ task s. create_or_update task now s;
  get = get;
  append_task_history =
      λ id message policy s. append_task_history serialize id message policy now s;
}

abbrev pub store_not_configured : Error
store_not_configured = internal_error "TaskLifecycleService store is not configured"

abbrev pub already_terminal : Error
already_terminal = unsupported_operation "task is already terminal"

-- ResolveTaskIdForSendRequest; `generated` is what the generator answers when it is asked.
pub resolve_task_id_for_send_request : SendMessageRequest → Result Bytes → Result Bytes
resolve_task_id_for_send_request request generated =
    let message = message_of request in
    if not (has_value request.message)
    then err (validation_error "message is required")
    else if not (is_empty message.task_id)
    then ok message.task_id
    else if is_empty message.message_id
    then err (validation_error "message.messageId is required when message.taskId is absent")
    else generated

-- ValidateTaskForSendRequest
pub validate_task_for_send_request : SendMessageRequest → Task → Result (Unit {0})
validate_task_for_send_request request task =
    let message = message_of request in
    if not (has_value request.message)
    then err (validation_error "message is required")
    else if not (is_empty message.task_id) && not (bytes_eq task.id message.task_id)
    then err (validation_error "task snapshot does not match message.taskId")
    else if not (is_empty message.context_id)
        && (not (is_empty task.context_id) && not (bytes_eq message.context_id task.context_id))
    then err (unsupported_operation "contextId does not match task")
    else if is_terminal_task_state (state_of task)
    then err already_terminal
    else ok tt

module _ {S : Type 0} where
  -- A write whose success is answered with `task`.
  abbrev pub answered : Task → Result (Unit {0}) × S → Result Task × S
  answered task (err e, s) = (err e, s)
  answered task (ok _, s) = (ok task, s)

  -- The read that follows a successful write.
  abbrev read_back : TaskStore S → Bytes → Result (Unit {0}) × S → Result Task × S
  read_back store id (err e, s) = (err e, s)
  read_back store id (ok _, s) = (store.get id s, s)

  -- CreateOrUpdateTask; no store stands for the null pointer.
  pub create_or_update_task : Option (TaskStore S) → Task → S → Result Task × S
  create_or_update_task none task s = (err store_not_configured, s)
  create_or_update_task (some store) task s =
      read_back store task.id (store.create_or_update task s)

  transition_from : TaskStore S → TaskState → Result Task → S → Result Task × S
  transition_from store next_state (err e) s = (err e, s)
  transition_from store next_state (ok current) s =
      if is_terminal_task_state (state_of current)
      then (
        if state_eq next_state canceled then err task_not_cancelable else err already_terminal,
        s,
      )
      else answered (set_state next_state current)
          (store.create_or_update (set_state next_state current) s)

  -- TransitionTaskStatus
  pub transition_task_status : Option (TaskStore S) → Bytes → TaskState → S → Result Task × S
  unfolding transition_from
  transition_task_status none task_id next_state s = (err store_not_configured, s)
  transition_task_status (some store) task_id next_state s =
      transition_from store next_state (store.get task_id s) s

  -- AppendHistory
  pub append_history :
      Option (TaskStore S) → Bytes → Message → HistoryAppendPolicy → S → Result Task × S
  append_history none task_id message policy s = (err store_not_configured, s)
  append_history (some store) task_id message policy s =
      store.append_task_history task_id message policy s
