-- ===== src/Tasks/Listing.antt =====
-- src/server/tasks/list_tasks.cpp and include/a2a/server/tasks/list_tasks.h: page sizes, filters
-- and the projection of listed tasks.
pub mod Projection
use a2a_cpp.Base.{
  ℕ, ◌-◌, Bool, true, false, not, ◌&&◌, ◌||◌, Option, none, some, List, [], ltb, if◌then◌else◌, min,
  Bytes, bytes_eq, length, drop, is_empty, ℤ, pos, negsuc, ltb_ℤ, ◌==ℤ◌, pos_part,
}
use a2a_cpp.Core.Error.{Result, ok, err, validation_error}
use a2a_cpp.Core.Proto.{Task, TaskState, Timestamp, state_eq, state_of, status_of}
use a2a_cpp.Tasks.Cursor.{ListTaskCursor}

abbrev pub default_list_tasks_page_size : ℕ
default_list_tasks_page_size = 50

abbrev pub max_list_tasks_page_size : ℕ
max_list_tasks_page_size = 100

-- A page size of 0 asks a store for everything.
pub record ListTasksRequest : Type 0 where
  pub page_size : ℕ
  pub page_token : Bytes
  pub context_id : Bytes
  pub status_filter : Option TaskState
  pub status_timestamp_after : Option Timestamp
  pub history_length : Option ℕ
  pub include_artifacts : Bool
  pub include_total_size : Bool

pub record ListTasksResponse : Type 0 where
  pub tasks : List Task
  pub page_size : ℕ
  pub total_size : ℕ
  pub next_page_token : Bytes
  pub task_cursors : List ListTaskCursor

-- NormalizeListTasksPageSize
pub normalize_list_tasks_page_size : Option ℤ → Result ℕ
normalize_list_tasks_page_size none = ok default_list_tasks_page_size
normalize_list_tasks_page_size (some page_size) =
    if ltb_ℤ page_size (pos 1) || ltb_ℤ (pos max_list_tasks_page_size) page_size
    then err (validation_error "ListTasksRequest.page_size must be between 1 and 100")
    else ok (pos_part page_size)

-- `ts >= cutoff`, by seconds and then by nanoseconds.
abbrev at_or_after : Timestamp → Timestamp → Bool
at_or_after ts cutoff =
    ltb_ℤ cutoff.seconds ts.seconds
    || (ts.seconds ==ℤ cutoff.seconds && not (ltb_ℤ ts.nanos cutoff.nanos))

-- HasStatusAfterCutoff
has_status_after_cutoff : Task → Timestamp → Bool
has_status_after_cutoff task cutoff = elim (status_of task).timestamp [
  | none ↦ false
  | some ts ↦ at_or_after ts cutoff
]

abbrev state_differs : Task → Option TaskState → Bool
state_differs task none = false
state_differs task (some state) = not (state_eq (state_of task) state)

abbrev before_cutoff : Task → Option Timestamp → Bool
before_cutoff task none = false
before_cutoff task (some cutoff) = not (has_status_after_cutoff task cutoff)

-- MatchesListFilters
pub matches_list_filters : Task → ListTasksRequest → Bool
unfolding has_status_after_cutoff
matches_list_filters task request =
    if not (is_empty request.context_id) && not (bytes_eq task.context_id request.context_id)
    then false
    else if state_differs task request.status_filter
    then false
    else if before_cutoff task request.status_timestamp_after
    then false
    else true

-- ApplyArtifactProjection
pub apply_artifact_projection : Task → Bool → Task
apply_artifact_projection task include_artifacts =
    if not include_artifacts then record task { artifacts = [] } else task

-- the part of ProjectTaskForList that builds a new task: a field left out keeps its default
projected_task : Task → Bool → Option ℕ → Task
projected_task task include_artifacts none = record {
  id = task.id;
  context_id = task.context_id;
  status = task.status;
  artifacts = if include_artifacts then task.artifacts else [];
  history = task.history;
  metadata = task.metadata;
  unknown_fields = task.unknown_fields;
}
projected_task task include_artifacts (some history_length) =
    let history_size = length task.history in
    let retained_history_size = min history_length history_size in
    let first_history_index = history_size - retained_history_size in
    record {
      id = task.id;
      context_id = task.context_id;
      status = task.status;
      artifacts = if include_artifacts then task.artifacts else [];
      history = drop first_history_index task.history;
      metadata = task.metadata;
      unknown_fields = task.unknown_fields;
    }

abbrev pub has_value {ℓ} : {A : Type ℓ} → Option A → Bool
has_value none = false
has_value (some a) = true

-- ProjectTaskForList
pub project_task_for_list : Task → Bool → Option ℕ → Task
unfolding projected_task
project_task_for_list task include_artifacts history_length =
    if include_artifacts && not (has_value history_length)
    then task
    else projected_task task include_artifacts history_length
