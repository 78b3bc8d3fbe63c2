-- ===== src/Tasks/Store.antt =====
-- src/server/tasks/in_memory_task_store.cpp. Each operation runs under the store's lock, so it is
-- one step on the whole state; `now` is the sample of the update clock, in microseconds.
pub mod UpdateOrder
pub mod NewestFirst
pub mod Consistency
pub mod Append
pub mod Spec
pub mod Saving
pub mod Refinement
pub mod Paging
pub mod Books
pub mod Reachable
pub mod Clients
mod Examples
use a2a_cpp.Base.{
  ℕ, ◌+◌, ◌-◌, ◌%◌, ◌^◌, Bool, true, false, not, ◌&&◌, Option, none, some, List, [], ◌∷◌, ◌++◌, leb,
  ◌==◌, if◌then◌else◌, max, Bytes, bytes_eq, length, get_elem?, get_or, set, pop_back, is_empty,
  Assoc, find, assign, erase, ℤ, pos_part, int64_max,
}
use a2a_cpp.Core.Error.{
  Result, ok, err, Error, validation_error, internal_error, task_not_found, task_not_cancelable,
}
use a2a_cpp.Core.Proto.{
  Task, Message, Part, TaskState, canceled, default_task, state_of, set_state,
  is_terminal_task_state,
}
use a2a_cpp.Tasks.History.{
  HistoryAppendPolicy, Reason, HistoryDedupeEvent, HistoryTelemetrySnapshot, update_dedupe_snapshot,
  find_history_dedupe_reason,
}
use a2a_cpp.Tasks.Cursor.{ListTaskCursor, list_cursor_precedes}
use a2a_cpp.Tasks.Store.UpdateOrder.{insert_cursor, extract_cursor}

-- `delivered` holds the events that the telemetry sink was given, newest first.
pub record InMemoryTaskStore : Type 0 where
  pub updated_at : List ℕ
  pub update_order : List ListTaskCursor
  pub has_telemetry_sink : Bool
  pub delivered : List HistoryDedupeEvent
  pub telemetry_snapshot : HistoryTelemetrySnapshot
  pub ordered_tasks : List Task
  pub revisions : List ℕ
  pub task_indices : Assoc ℕ

-- TaskStore::TaskSnapshot
pub record TaskSnapshot : Type 0 where
  pub task : Task
  pub revision : ℕ

-- TaskStore::ConditionalWriteResult
pub data ConditionalWriteResult : Type 0 where
  updated conflict : ConditionalWriteResult

abbrev pub initial_task_revision : ℕ
initial_task_revision = 1

-- `++revision` on a uint64_t.
abbrev pub next_revision : ℕ → ℕ
next_revision r = (r + 1) % 18446744073709551616

abbrev pub update_time_exhausted : Error
update_time_exhausted = internal_error "Task storage update timestamp cannot advance"

-- TouchTask
pub touch_task : ℕ → ℤ → InMemoryTaskStore → Result (Unit {0}) × InMemoryTaskStore
touch_task index now s =
    let id = (get_or s.ordered_tasks index default_task).id in
    let time = get_or s.updated_at index 0 in
    if index == length s.updated_at
    then (
      ok tt,
      record s {
        update_order =
            insert_cursor (record { updated_at = pos_part now; task_id = id }) s.update_order;
        updated_at = s.updated_at ++ pos_part now ∷ [];
      },
    )
    else if time == int64_max
    then (err update_time_exhausted, s)
    else let next_time = max (time + 1) (pos_part now) in
      (
        ok tt,
        record s {
          update_order =
              insert_cursor (record { updated_at = next_time; task_id = id })
                (extract_cursor (record { updated_at = time; task_id = id }) s.update_order);
          updated_at = set s.updated_at index next_time;
        },
      )

-- The writes that follow a successful touch of a task that is there.
overwrite_touched :
    ℕ → Task → Result (Unit {0}) × InMemoryTaskStore → Result (Unit {0}) × InMemoryTaskStore
overwrite_touched index task (err e, s) = (err e, s)
overwrite_touched index task (ok _, s) = (
  ok tt,
  record s {
    ordered_tasks = set s.ordered_tasks index task;
    revisions = set s.revisions index (next_revision (get_or s.revisions index 0));
  },
)

pub overwrite : ℕ → Task → ℤ → InMemoryTaskStore → Result (Unit {0}) × InMemoryTaskStore
unfolding touch_task overwrite_touched
overwrite index task now s = overwrite_touched index task (touch_task index now s)

-- What TaskAppendRollback undoes where it is not committed.
rollback : InMemoryTaskStore → InMemoryTaskStore
rollback s = record s { ordered_tasks = pop_back s.ordered_tasks; revisions = pop_back s.revisions }

append_touched :
    Task → Result (Unit {0}) × InMemoryTaskStore → Result (Unit {0}) × InMemoryTaskStore
append_touched task (err e, s) =
    (err e, rollback (record s { task_indices = erase task.id s.task_indices }))
append_touched task (ok _, s) = (ok tt, s)

-- `try_emplace` inserts only where the key is not there.
append_indexed : Task → ℤ → Option ℕ → InMemoryTaskStore → Result (Unit {0}) × InMemoryTaskStore
append_indexed task now (some i) s =
    (err (internal_error "Task index insertion failed"), rollback s)
append_indexed task now none s =
    let index = length s.ordered_tasks - 1 in
    append_touched task
      (touch_task index now (record s { task_indices = assign task.id index s.task_indices }))

-- The branch for an id that is not in the store.
pub append_task : Task → ℤ → InMemoryTaskStore → Result (Unit {0}) × InMemoryTaskStore
unfolding rollback append_touched append_indexed touch_task
append_task task now s = append_indexed task now (find task.id s.task_indices) (record s {
  ordered_tasks = s.ordered_tasks ++ task ∷ [];
  revisions = s.revisions ++ initial_task_revision ∷ [];
})

pub create_or_update : Task → ℤ → InMemoryTaskStore → Result (Unit {0}) × InMemoryTaskStore
create_or_update task now s =
    if is_empty task.id
    then (err (validation_error "Task.id is required"), s)
    else elim (find task.id s.task_indices) [
      | some index ↦ overwrite index task now s
      | none ↦ append_task task now s
    ]

abbrev pub task_id_required : Error
task_id_required = validation_error "Task id is required"

abbrev pub missing_task : Error
missing_task = task_not_found "Task not found"

pub get_snapshot : Bytes → InMemoryTaskStore → Result TaskSnapshot
get_snapshot id s = if is_empty id then err task_id_required else elim (find id s.task_indices) [
  | none ↦ err missing_task
  | some index ↦ ok (record {
    task = get_or s.ordered_tasks index default_task;
    revision = get_or s.revisions index 0;
  })
]

-- The outcome of a write whose result carries no value, as `kUpdated`.
abbrev as_updated :
    Result (Unit {0}) × InMemoryTaskStore → Result ConditionalWriteResult × InMemoryTaskStore
as_updated (ok _, s) = (ok updated, s)
as_updated (err e, s) = (err e, s)

pub create_or_update_if_revision :
    Task → ℕ → ℤ → InMemoryTaskStore → Result ConditionalWriteResult × InMemoryTaskStore
create_or_update_if_revision task expected_revision now s =
    if is_empty task.id
    then (err (validation_error "Task.id is required"), s)
    else elim (find task.id s.task_indices) [
      | none ↦
          if not (expected_revision == 0)
          then (ok conflict, s)
          else as_updated (append_task task now s)
      | some index ↦
          if not (get_or s.revisions index 0 == expected_revision)
          then (ok conflict, s)
          else as_updated (overwrite index task now s)
    ]

pub get : Bytes → InMemoryTaskStore → Result Task
get id s = if is_empty id then err task_id_required else elim (find id s.task_indices) [
  | none ↦ err missing_task
  | some index ↦ ok (get_or s.ordered_tasks index default_task)
]

-- The stored task after a write, as the value of the call.
abbrev returning : Task → Result (Unit {0}) × InMemoryTaskStore → Result Task × InMemoryTaskStore
returning task (ok _, s) = (ok task, s)
returning task (err e, s) = (err e, s)

cancel_at : ℕ → Task → ℤ → InMemoryTaskStore → Result Task × InMemoryTaskStore
cancel_at index task now s =
    if is_terminal_task_state (state_of task)
    then (err task_not_cancelable, s)
    else returning (set_state canceled task) (overwrite index (set_state canceled task) now s)

pub cancel : Bytes → ℤ → InMemoryTaskStore → Result Task × InMemoryTaskStore
unfolding cancel_at
cancel id now s = if is_empty id then (err task_id_required, s) else elim (find id s.task_indices) [
  | none ↦ (err missing_task, s)
  | some index ↦ cancel_at index (get_or s.ordered_tasks index default_task) now s
]

-- Counts a dropped message, and hands the event to the sink if there is one.
drop_duplicate : HistoryDedupeEvent → InMemoryTaskStore → InMemoryTaskStore
drop_duplicate event s = record s {
  telemetry_snapshot = update_dedupe_snapshot s.telemetry_snapshot event.reason;
  delivered = if s.has_telemetry_sink then event ∷ s.delivered else s.delivered;
}

module _ (serialize : Part → Bytes) where
  append_history_at :
      Bytes
      → ℕ
      → Task
      → Message
      → HistoryAppendPolicy
      → ℤ
      → InMemoryTaskStore
      → Result Task × InMemoryTaskStore
  append_history_at task_id index task message policy now s =
      let appended = record task { history = task.history ++ message ∷ [] } in
      elim (find_history_dedupe_reason serialize task.history message policy) [
        | some reason ↦ (
          ok task,
          drop_duplicate
              (record {
                task_id = task_id;
                message_id = message.message_id;
                policy = policy;
                reason = reason;
              })
              s,
        )
        | none ↦ returning appended (overwrite index appended now s)
      ]

  pub append_task_history :
      Bytes
      → Message
      → HistoryAppendPolicy
      → ℤ
      → InMemoryTaskStore
      → Result Task × InMemoryTaskStore
  unfolding append_history_at drop_duplicate
  append_task_history task_id message policy now s =
      if is_empty task_id then (err task_id_required, s) else elim (find task_id s.task_indices) [
        | none ↦ (err missing_task, s)
        | some index ↦
            append_history_at task_id index (get_or s.ordered_tasks index default_task) message
              policy now s
      ]
