-- ===== src/Tasks/Store/Paging.antt =====
-- `List` of src/server/tasks/in_memory_task_store.cpp.
pub mod Pages
pub mod Chain
use a2a_cpp.Base.{
  ℕ, zero, suc, ◌+◌, Bool, true, false, not, ◌&&◌, ◌||◌, Option, none, some, List, [], ◌∷◌, ◌++◌,
  ◌==◌, if◌then◌else◌, Bytes, length, get_or, is_empty, keep, find,
}
use a2a_cpp.Core.Error.{Result, ok, err, ◌>>=◌}
use a2a_cpp.Core.Proto.{Task, default_task}
use a2a_cpp.Tasks.Cursor.{ListTaskCursor, encode_list_page_token, parse_list_page_token}
use a2a_cpp.Tasks.Listing.{
  ListTasksRequest, ListTasksResponse, matches_list_filters, project_task_for_list, has_value,
}
use a2a_cpp.Tasks.Store.{InMemoryTaskStore}
use a2a_cpp.Tasks.Store.UpdateOrder.{upper_bound}

-- `ordered_tasks_[task_indices_.at(id)]`; in a consistent store the id is there.
abbrev task_at : InMemoryTaskStore → Option ℕ → Task
task_at s none = default_task
task_at s (some i) = get_or s.ordered_tasks i default_task

abbrev pub task_of : InMemoryTaskStore → ListTaskCursor → Task
task_of s c = task_at s (find c.task_id s.task_indices)

abbrev count_matches : ListTasksRequest → List Task → ℕ
count_matches request tasks = length (keep (λ t. matches_list_filters t request) tasks)

-- `total_size`
pub total_of : ListTasksRequest → InMemoryTaskStore → ℕ
total_of request s =
    let filtered =
      not (is_empty request.context_id)
      || has_value request.status_filter
      || has_value request.status_timestamp_after in
    if filtered && request.include_total_size
    then count_matches request s.ordered_tasks
    else if request.include_total_size
    then length s.ordered_tasks
    else 0

-- `task_cursors.back()`
unfoldable pub last_cursor : List ListTaskCursor → ListTaskCursor
last_cursor [] = record { updated_at = 0; task_id = [] }
last_cursor (c ∷ []) = c
last_cursor (c ∷ d ∷ cs) = last_cursor (d ∷ cs)

-- What the loop has collected, and the token that it leaves.
pub record Page : Type 0 where
  pub tasks : List Task
  pub cursors : List ListTaskCursor
  pub next_page_token : Bytes

-- the loop over the update order
pub page_loop :
    ListTasksRequest
    → InMemoryTaskStore
    → List ListTaskCursor
    → List Task
    → List ListTaskCursor
    → Page
page_loop request s [] tasks cursors = record {
  tasks = tasks;
  cursors = cursors;
  next_page_token = [];
}
page_loop request s (c ∷ cs) tasks cursors =
    let task = task_of s c in
    let skipped = page_loop request s cs tasks cursors in
    let longer =
      page_loop request s cs
        (tasks ++ project_task_for_list task request.include_artifacts request.history_length ∷ [])
        (cursors ++ c ∷ []) in
    if not (matches_list_filters task request)
    then skipped
    else if not (request.page_size == 0) && length tasks == request.page_size
    then record {
      tasks = tasks;
      cursors = cursors;
      next_page_token = encode_list_page_token (last_cursor cursors);
    }
    else longer

-- the part of the order that the loop runs over
pub order_after : Option ListTaskCursor → InMemoryTaskStore → List ListTaskCursor
order_after none s = s.update_order
order_after (some boundary) s = upper_bound boundary s.update_order

pub list_tasks : ListTasksRequest → InMemoryTaskStore → Result ListTasksResponse
unfolding page_loop total_of last_cursor
list_tasks request s = do
  cursor ← parse_list_page_token request.page_token
  let page = page_loop request s (order_after cursor s) [] []
  ok (record {
    tasks = page.tasks;
    page_size = length page.tasks;
    total_size = total_of request s;
    next_page_token = page.next_page_token;
    task_cursors = page.cursors;
  })
