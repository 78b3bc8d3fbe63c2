-- ===== src/Server/Authorization.antt =====
-- src/server/tasks/task_authorization_service.cpp, over the operations of a TaskStore that it calls.
-- Each operation runs under the service's lock and is one step.
pub mod Operations
pub mod InMemory
pub mod Moves
use a2a_cpp.Base.{
  ℕ, Bool, true, false, not, ◌&&◌, ◌||◌, Option, none, some, List, [], ◌∷◌, ◌++◌, if◌then◌else◌,
  Bytes, bytes_eq, is_empty, codes, ℤ,
}
use a2a_cpp.Core.Error.{
  Result, ok, err, Error, validation_error, internal_error, unsupported_operation,
  unsupported_operation_default, task_not_cancelable, permission_denied,
}
use a2a_cpp.Core.Proto.{
  Task, Message, Part, Value, bool, Fields, end, field, TaskState, auth_required, working,
  completed, canceled, agent, SendMessageRequest, default_task, message_of, status_of, state_of,
  state_eq, role_eq, is_terminal_task_state,
}
use a2a_cpp.Tasks.History.{dedup_by_message_id, find_history_dedupe_reason}
use a2a_cpp.Tasks.Lifecycle.{resolve_task_id_for_send_request, validate_task_for_send_request}
use a2a_cpp.Tasks.Store.{
  InMemoryTaskStore, TaskSnapshot, ConditionalWriteResult, updated, conflict, get, get_snapshot,
  create_or_update_if_revision,
}
use a2a_cpp.Server.Subscriptions.{ServiceState, publish_task_updated, subscribe, shutdown}

-- The operations of a TaskStore with the state `S` that the service calls.
pub record RevisionStore (S : Type 0) : Type 0 where
  pub get : Bytes → S → Result Task
  pub get_snapshot : Bytes → S → Result TaskSnapshot
  pub create_or_update_if_revision : Task → ℕ → S → Result ConditionalWriteResult × S

-- The in-memory store as such a store, while its clock reads `now`.
abbrev pub revisions_in_memory : ℤ → RevisionStore InMemoryTaskStore
revisions_in_memory now = record {
  get = get;
  get_snapshot = get_snapshot;
  create_or_update_if_revision =
      λ task revision s. create_or_update_if_revision task revision now s;
}

-- The store and `subscriptions_`.
pub record AuthorizationState (S : Type 0) : Type 0 where
  pub tasks : S
  pub subscriptions : ServiceState

abbrev pub missing_task_store : Error
missing_task_store = internal_error "authorization task store is required"

abbrev pub authorization_task_marker : Bytes
authorization_task_marker = codes "a2a.authorization"

abbrev pub invalid_explanation : Error
invalid_explanation = validation_error "authorization requires an agent status message"

abbrev pub authorization_not_pending : Error
authorization_not_pending = unsupported_operation "task is not awaiting authorization"

abbrev pub task_changed : Error
task_changed =
    unsupported_operation "task changed while updating authorization; retry the operation"

abbrev pub authorization_not_granted : Error
authorization_not_granted = unsupported_operation "task authorization has not been granted"

abbrev pub not_authorization_task : Error
not_authorization_task = unsupported_operation "task does not belong to the authorization service"

-- `fields().find(name)` and `mutable_fields()[name] = value` on the map of a Struct.
pub find_field : Bytes → Fields → Option Value
find_field name end = none
find_field name (field k v rest) = if bytes_eq k name then some v else find_field name rest

pub set_field : Bytes → Value → Fields → Fields
set_field name value end = field name value end
set_field name value (field k v rest) =
    if bytes_eq k name then field k value rest else field k v (set_field name value rest)

-- `task.metadata()`
abbrev metadata_of : Task → Fields
metadata_of t = elim t.metadata [ none ↦ end | some f ↦ f ]

abbrev bool_value : Option Value → Bool
bool_value (some (bool b)) = b
bool_value _ = false

pub is_authorization_task : Task → Bool
unfolding find_field
is_authorization_task t = bool_value (find_field authorization_task_marker (metadata_of t))

-- The task that RequestAuthorization makes where the request names none.
pub fresh_task : Bytes → Message → Task
fresh_task id message = record default_task {
  id = id;
  context_id = if is_empty message.context_id then id else message.context_id;
}

-- What RequestAuthorization writes on a task.
pub requested : Message → Message → Task → Task
unfolding set_field
requested message explanation t = record t {
  metadata = some (set_field authorization_task_marker (bool true) (metadata_of t));
  status = some (record (status_of t) {
    state = auth_required;
    message = some (record explanation { task_id = t.id; context_id = t.context_id });
  });
  history = t.history ++ message ∷ [];
}

-- What Transition writes on a task.
pub moved : TaskState → Task → Task
moved state t = record t { status = some (record (status_of t) { state = state; message = none }) }

-- An operation on the snapshot of a task.
abbrev pub OnSnapshot : Type 0 → Type 0
OnSnapshot S =
    RevisionStore S → TaskSnapshot → AuthorizationState S → Result Task × AuthorizationState S

module _ {S : Type 0} where
  -- Persist behind the write.
  abbrev pub announced :
      Task → ServiceState → Result ConditionalWriteResult × S → Result Task × AuthorizationState S
  announced t v (err e, s) = (err e, record { tasks = s; subscriptions = v })
  announced t v (ok conflict, s) = (err task_changed, record { tasks = s; subscriptions = v })
  announced t v (ok updated, s) =
      (ok t, record { tasks = s; subscriptions = publish_task_updated t v })

  pub persist :
      RevisionStore S → Task → ℕ → AuthorizationState S → Result Task × AuthorizationState S
  persist store t revision a =
      announced t a.subscriptions (store.create_or_update_if_revision t revision a.tasks)

  pub transition :
      RevisionStore S
      → TaskSnapshot
      → TaskState
      → AuthorizationState S
      → Result Task × AuthorizationState S
  unfolding moved persist is_authorization_task
  transition store snapshot state a =
      if not (is_authorization_task snapshot.task)
      then (err not_authorization_task, a)
      else if is_terminal_task_state (state_of snapshot.task)
      then (
        if state_eq state canceled
            then err task_not_cancelable
            else err unsupported_operation_default,
        a,
      )
      else persist store (moved state snapshot.task) snapshot.revision a

  abbrev pub with_snapshot :
      OnSnapshot S
      → RevisionStore S
      → Result TaskSnapshot
      → AuthorizationState S
      → Result Task × AuthorizationState S
  with_snapshot step store (err e) a = (err e, a)
  with_snapshot step store (ok snapshot) a = step store snapshot a

  -- Snapshot, and what follows where it succeeds; no store stands for the null pointer.
  abbrev pub on_snapshot :
      Option (RevisionStore S)
      → Bytes
      → OnSnapshot S
      → AuthorizationState S
      → Result Task × AuthorizationState S
  on_snapshot none id step a = (err missing_task_store, a)
  on_snapshot (some store) id step a = with_snapshot step store (store.get_snapshot id a.tasks) a
