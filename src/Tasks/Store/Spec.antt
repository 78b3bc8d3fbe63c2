-- ===== src/Tasks/Store/Spec.antt =====
-- What a TaskStore with conditional writes promises (include/a2a/server/tasks/task_store.h): a map
-- from ids to entries, with no indices and no order.
use a2a_cpp.Base.{
  ℕ, ◌+◌, Option, none, some, [], ◌∷◌, ◌++◌, ◌==◌, if◌then◌else◌, max, Bytes, bytes_eq, is_empty,
  get_or, find, ℤ, pos_part, int64_max, ◌≡◌,
}
use a2a_cpp.Core.Error.{Result, ok, err, validation_error, task_not_cancelable}
use a2a_cpp.Core.Proto.{
  Task, Message, Part, canceled, default_task, state_of, set_state, is_terminal_task_state,
}
use a2a_cpp.Tasks.History.{HistoryAppendPolicy, find_history_dedupe_reason}
use a2a_cpp.Tasks.Store.{
  InMemoryTaskStore, TaskSnapshot, ConditionalWriteResult, updated, conflict, initial_task_revision,
  next_revision, update_time_exhausted, task_id_required, missing_task,
}
use a2a_cpp.Tasks.Store.Consistency.{IsConsistent}

pub record Entry : Type 0 where
  pub task : Task
  pub revision : ℕ
  pub updated_at : ℕ

abbrev pub Book : Type 0
Book = Bytes → Option Entry

abbrev pub stored_entry : InMemoryTaskStore → ℕ → Entry
stored_entry s i = record {
  task = get_or s.ordered_tasks i default_task;
  revision = get_or s.revisions i 0;
  updated_at = get_or s.updated_at i 0;
}

abbrev pub entry_at : InMemoryTaskStore → Option ℕ → Option Entry
entry_at s none = none
entry_at s (some i) = some (stored_entry s i)

-- The entry of an id in the store.
abbrev pub view : InMemoryTaskStore → Book
view s k = entry_at s (find k s.task_indices)

abbrev pub write : Bytes → Entry → Book → Book
write k e b j = if bytes_eq k j then some e else b j

abbrev pub created : Task → ℤ → Entry
created task now = record {
  task = task;
  revision = initial_task_revision;
  updated_at = pos_part now;
}

abbrev pub revised : Task → ℤ → Entry → Entry
revised task now e = record {
  task = task;
  revision = next_revision e.revision;
  updated_at = max (e.updated_at + 1) (pos_part now);
}

abbrev pub save_over : Option Entry → Task → ℤ → Book → Result (Unit {0}) × Book
save_over none task now b = (ok tt, write task.id (created task now) b)
save_over (some e) task now b =
    if e.updated_at == int64_max
    then (err update_time_exhausted, b)
    else (ok tt, write task.id (revised task now e) b)

-- A write: a new entry, or a revision of the old one at a later time, unless time is used up.
abbrev pub spec_save : Task → ℤ → Book → Result (Unit {0}) × Book
spec_save task now b = save_over (b task.id) task now b

abbrev pub giving {ℓ} : {A : Type ℓ} → A → Result (Unit {0}) × Book → Result A × Book
giving a (ok _, b) = (ok a, b)
giving a (err e, b) = (err e, b)

abbrev pub spec_create_or_update : Task → ℤ → Book → Result (Unit {0}) × Book
spec_create_or_update task now b =
    if is_empty task.id
    then (err (validation_error "Task.id is required"), b)
    else spec_save task now b

-- The revision that a conditional write has to name.
abbrev pub present_revision : Option Entry → ℕ
present_revision none = 0
present_revision (some e) = e.revision

abbrev pub spec_create_or_update_if_revision :
    Task → ℕ → ℤ → Book → Result ConditionalWriteResult × Book
spec_create_or_update_if_revision task expected now b =
    if is_empty task.id
    then (err (validation_error "Task.id is required"), b)
    else if present_revision (b task.id) == expected
    then giving updated (spec_save task now b)
    else (ok conflict, b)

abbrev pub snapshot_of : Option Entry → Result TaskSnapshot
snapshot_of none = err missing_task
snapshot_of (some e) = ok (record { task = e.task; revision = e.revision })

abbrev pub spec_get_snapshot : Bytes → Book → Result TaskSnapshot
spec_get_snapshot id b = if is_empty id then err task_id_required else snapshot_of (b id)

abbrev task_in : Option Entry → Result Task
task_in none = err missing_task
task_in (some e) = ok e.task

abbrev pub spec_get : Bytes → Book → Result Task
spec_get id b = if is_empty id then err task_id_required else task_in (b id)

abbrev pub cancel_over : Option Entry → ℤ → Book → Result Task × Book
cancel_over none now b = (err missing_task, b)
cancel_over (some e) now b =
    if is_terminal_task_state (state_of e.task)
    then (err task_not_cancelable, b)
    else giving (set_state canceled e.task) (spec_save (set_state canceled e.task) now b)

abbrev pub spec_cancel : Bytes → ℤ → Book → Result Task × Book
spec_cancel id now b = if is_empty id then (err task_id_required, b) else cancel_over (b id) now b

abbrev pub with_message : Task → Message → Task
with_message task message = record task { history = task.history ++ message ∷ [] }

module _ (serialize : Part → Bytes) where
  abbrev pub append_over :
      Option Entry → Message → HistoryAppendPolicy → ℤ → Book → Result Task × Book
  append_over none message policy now b = (err missing_task, b)
  append_over (some e) message policy now b =
      elim (find_history_dedupe_reason serialize e.task.history message policy) [
        | some reason ↦ (ok e.task, b)
        | none ↦
            giving (with_message e.task message) (spec_save (with_message e.task message) now b)
      ]

  abbrev pub spec_append_task_history :
      Bytes → Message → HistoryAppendPolicy → ℤ → Book → Result Task × Book
  spec_append_task_history id message policy now b =
      if is_empty id then (err task_id_required, b) else append_over (b id) message policy now b

-- A step of the store has the result of the promised step, shows the same map after it, and
-- leaves the store consistent.
pub record Simulates {A : Type 0} (p : Result A × InMemoryTaskStore) (q : Result A × Book)
    : Type 0 where
  pub result : p.0 ≡ q.0
  pub shows : (k : Bytes) → view p.1 k ≡ q.1 k
  pub consistent : IsConsistent p.1
