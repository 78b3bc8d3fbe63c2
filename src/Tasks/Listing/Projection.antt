-- ===== src/Tasks/Listing/Projection.antt =====
-- What list_tasks.cpp keeps of a listed task, and the page sizes that it lets through.
use a2a_cpp.Base.{
  ℕ, ◌-◌, ◌≤◌, ◌≡◌, refl, ◌↔◌, Bool, true, false, Option, none, some, length, arith, min, ℤ, pos,
  Bytes, [], ◌≢◌, ◌⊎◌, ltb_ℤ, ==ℤ_iff, is_empty_iff, bytes_eq_iff, subst,
}
use a2a_cpp.Core.Error.{ok}
use a2a_cpp.Core.Proto.{Task, TaskState, Timestamp, state_number, state_of, status_of}
use a2a_cpp.Tasks.History.{apply_history_retention}
use a2a_cpp.Tasks.History.Retention.{apply_history_retention-history}
use a2a_cpp.Tasks.Listing.{
  ListTasksRequest, matches_list_filters, apply_artifact_projection, project_task_for_list,
  normalize_list_tasks_page_size, state_differs, before_cutoff, has_status_after_cutoff,
  at_or_after,
}

skip_eq : (size n : ℕ) → size - min n size ≡ size - n
skip_eq size n = omega arith

-- Projecting a task for a list, which copies it field by field and copies no more than it keeps,
-- gives the task that retention of the history and then removal of the artifacts would give.
pub project-eq-retention :
    (task : Task) (include_artifacts : Bool) (history_length : Option ℕ)
    → project_task_for_list task include_artifacts history_length
      ≡ apply_artifact_projection (apply_history_retention task history_length) include_artifacts
unfolding project_task_for_list apply_artifact_projection
project-eq-retention task true none = unfold apply_history_retention in refl
project-eq-retention task false none = unfold apply_history_retention in refl
project-eq-retention task true (some n) =
    rw (apply_history_retention-history task n, skip_eq (length task.history) n) refl
project-eq-retention task false (some n) =
    rw (apply_history_retention-history task n, skip_eq (length task.history) n) refl

-- A requested page size is accepted, and unchanged, exactly when it lies between 1 and 100.
pub normalize_page_size_iff :
    (size : ℤ) (n : ℕ)
    → (normalize_list_tasks_page_size (some size) ≡ ok n) ↔ ((size ≡ pos n) × (1 ≤ n) × (n ≤ 100))
unfolding normalize_list_tasks_page_size
normalize_page_size_iff size n = ground arith

-- The page token is no filter.
pub matches_list_filters-page_token :
    (t : Task) (r : ListTasksRequest) (token : Bytes)
    → matches_list_filters t (record r { page_token = token }) ≡ matches_list_filters t r
unfolding matches_list_filters
matches_list_filters-page_token t r token = refl

-- A time is not before another one: its seconds are more, or they are as many and its nanoseconds
-- are no fewer.
abbrev pub NotBefore : Timestamp → Timestamp → Type 0
NotBefore ts cutoff =
    (ltb_ℤ cutoff.seconds ts.seconds ≡ true)
    ⊎ (cutoff.seconds ≡ ts.seconds) × (ltb_ℤ ts.nanos cutoff.nanos ≡ false)

-- What each filter of a request asks of a task.
abbrev pub IsSelected : Task → ListTasksRequest → Type 0
IsSelected task request =
    ((request.context_id ≢ []) → task.context_id ≡ request.context_id)
    × ((state : TaskState)
        → request.status_filter ≡ some state
        → state_number (state_of task) ≡ state_number state)
    × ((cutoff : Timestamp)
        → request.status_timestamp_after ≡ some cutoff
        → (ts : Timestamp) × ((status_of task).timestamp ≡ some ts) × NotBefore ts cutoff)

state_filter_iff :
    (task : Task) (o : Option TaskState)
    → (state_differs task o ≡ false)
      ↔ ((state : TaskState) → o ≡ some state → state_number (state_of task) ≡ state_number state)
state_filter_iff task none = ground arith
state_filter_iff task (some s) = (
  λ h state e.
      (==ℤ_iff (state_number (state_of task)) (state_number state)).0 (ground (arith, e, h)),
  λ f. ground (arith, (==ℤ_iff (state_number (state_of task)) (state_number s)).1 (f s refl)),
)

at_or_after_iff : (ts cutoff : Timestamp) → (at_or_after ts cutoff ≡ true) ↔ NotBefore ts cutoff
at_or_after_iff ts cutoff = ground (arith, ==ℤ_iff ts.seconds cutoff.seconds)

after_cutoff_iff :
    (task : Task) (cutoff : Timestamp) (o : Option Timestamp)
    → (status_of task).timestamp ≡ o
    → (has_status_after_cutoff task cutoff ≡ true)
      ↔ ((ts : Timestamp) × (o ≡ some ts) × NotBefore ts cutoff)
unfolding has_status_after_cutoff
after_cutoff_iff task cutoff none e = (λ h. cc (e, h), λ (ts, h, n). absurd (cc h))
after_cutoff_iff task cutoff (some t) e = (
  λ h. (t, refl, (at_or_after_iff t cutoff).0 (rw (e, has_status_after_cutoff) at h)),
  λ (ts, h, n).
      rw (e, has_status_after_cutoff)
        ((at_or_after_iff t cutoff).1
          (let same : ts ≡ t = ground (arith, h) in subst (λ x. NotBefore x cutoff) same n)),
)

cutoff_iff :
    (task : Task) (o : Option Timestamp)
    → (before_cutoff task o ≡ false) ↔ (
        (cutoff : Timestamp)
        → o ≡ some cutoff
        → (ts : Timestamp) × ((status_of task).timestamp ≡ some ts) × NotBefore ts cutoff)
cutoff_iff task none = ground arith
cutoff_iff task (some cutoff) =
    let here = after_cutoff_iff task cutoff (status_of task).timestamp refl in
    (
      λ h c e.
          subst (λ x. (ts : Timestamp) × ((status_of task).timestamp ≡ some ts) × NotBefore ts x)
            (let same : cutoff ≡ c = ground (arith, e) in same) (here.0 (ground (arith, h))),
      λ f. let after = here.1 (f cutoff refl) in ground (arith, after),
    )

all_filters_iff :
    (task : Task) (request : ListTasksRequest)
    → (matches_list_filters task request ≡ true) ↔ (
        ((request.context_id ≢ []) → task.context_id ≡ request.context_id)
        × (state_differs task request.status_filter ≡ false)
        × (before_cutoff task request.status_timestamp_after ≡ false))
unfolding matches_list_filters
all_filters_iff task request =
    ground (arith, is_empty_iff request.context_id, bytes_eq_iff task.context_id request.context_id)

-- A task matches a request exactly when each filter that the request sets admits it: the context id
-- and the status are equal, and the status has a time that is not before the cutoff.
pub matches_list_filters_iff :
    (task : Task) (request : ListTasksRequest)
    → (matches_list_filters task request ≡ true) ↔ IsSelected task request
matches_list_filters_iff task request =
    let all = all_filters_iff task request in
    let state = state_filter_iff task request.status_filter in
    let time = cutoff_iff task request.status_timestamp_after in
    (
      λ h. let (c, s, b) = all.0 h in (c, state.0 s, time.0 b),
      λ (c, s, b). all.1 (c, state.1 s, time.1 b),
    )
