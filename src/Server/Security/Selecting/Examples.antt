-- ===== src/Server/Security/Selecting/Examples.antt =====
-- Runs of ListTasks of src/server/security_policy.cpp.
use a2a_cpp.Base.{
  All, ◌≡◌, ap, arith, ◌+◌, ◌%◌, map, take, keep, ltb, if◌then◌else◌, true, false, none, some, List,
  [], ◌∷◌, Bytes, codes, length, pos,
}
use a2a_cpp.Core.Error.{ok}
use a2a_cpp.Core.Proto.{Task, Part, default_task}
use a2a_cpp.Tasks.Cursor.{ListTaskCursor, encode_list_page_token}
use a2a_cpp.Tasks.Cursor.RoundTrip.{parse-empty}
use a2a_cpp.Tasks.Listing.{ListTasksRequest, ListTasksResponse, project_task_for_list}
use a2a_cpp.Tasks.Store.{InMemoryTaskStore, create_or_update}
use a2a_cpp.Tasks.Store.Paging.{last_cursor}
use a2a_cpp.Tasks.Store.Paging.Pages.{selected, projected}
use a2a_cpp.Tasks.Cursor.Order.{IsNewer}
use a2a_cpp.Tasks.Store.NewestFirst.{IsNewestFirst}
use a2a_cpp.Tasks.Store.Reachable.{Reachable, empty_store, started, after_create_or_update}
use a2a_cpp.Server.Security.{
  RequestContext, SecurityPolicy, ReadStore, DispatchSecurity, get_authorized_task, authorized_task,
}
use a2a_cpp.Server.Security.Selecting.{
  list_tasks, list_checked, list_parsed, list_visible, respond_selected, respond, listed_tasks,
  select_task_ids, scan_pages, scan_page,
}
use a2a_cpp.Server.Security.Selecting.Scanning.{chosen, visible}
use a2a_cpp.Server.Security.Selecting.Exact.{reads_in_memory, first_query, select_task_ids-visible}
use a2a_cpp.Server.Security.Selecting.Listed.{AreVisible, list_tasks-visible}

abbrev one : Task
one = record default_task { id = codes "t" }

abbrev position : ListTaskCursor
position = record { updated_at = 5; task_id = codes "t" }

abbrev policy : SecurityPolicy
policy = record {
  authenticate = λ context. ok (codes "caller");
  authorize_operation = λ request context. true;
  can_access_task = λ t context. true;
  scope_task_list = λ query context. some query;
}

abbrev context : RequestContext
context = record {
  request_id = none;
  remote_address = none;
  auth_metadata = [];
  client_headers = [];
  protocol_version = [];
  principal = [];
}

abbrev request : ListTasksRequest
request = record {
  page_size = 2;
  page_token = [];
  context_id = [];
  status_filter = none;
  status_timestamp_after = none;
  history_length = none;
  include_artifacts = true;
  include_total_size = true;
}

abbrev no_bytes : Part → Bytes
no_bytes p = []

abbrev one_stored : InMemoryTaskStore
one_stored = (create_or_update one (pos 5) (empty_store false)).1

reached : Reachable no_bytes one_stored
reached =
    after_create_or_update (empty_store false) one (pos 5) (omega arith, tt) (omega arith)
      (started false)

abbrev matches : List ListTaskCursor
matches = keep (selected (first_query request) one_stored) one_stored.update_order

abbrev found : List ListTaskCursor
found = chosen policy context none 2 (projected (first_query request) one_stored) matches

select_task_ids-visible_example :
    (select_task_ids policy context none 2 reads_in_memory one_stored (length matches + 1) request
      ≡ some (
          ok (record {
            task_ids = map (λ c. (projected (first_query request) one_stored c).id) (take 2 found);
            total_size =
                length (
                  keep
                    (visible policy context none 2 (projected (first_query request) one_stored))
                    matches)
                % 18446744073709551616;
            next_page_token =
                if ltb 2 (length found)
                then encode_list_page_token (last_cursor (take 2 found))
                else [];
          })))
    × IsNewestFirst found
    × ((b : ListTaskCursor) → none ≡ some b → All (IsNewer b) found)
select_task_ids-visible_example =
    select_task_ids-visible no_bytes one_stored reached policy context none 2 request
      (length matches + 1) (omega arith)

-- A store with one task on one page.
abbrev store : ReadStore (Unit {0})
store = record {
  get = λ id s. ok one;
  list = λ query s. ok (record {
    tasks = one ∷ [];
    page_size = 1;
    total_size = 1;
    next_page_token = [];
    task_cursors = position ∷ [];
  });
}

abbrev answer : ListTasksResponse
answer = record {
  tasks = project_task_for_list one true none ∷ [];
  page_size = 2;
  total_size = 1;
  next_page_token = [];
  task_cursors = [];
}

abbrev security : DispatchSecurity (Unit {0})
security = record { policy = some policy; task_store = some store }

listed : list_tasks 1 security request context tt ≡ some (ok answer)
unfolding list_tasks list_checked list_parsed list_visible respond_selected respond listed_tasks
    select_task_ids scan_pages scan_page get_authorized_task authorized_task
listed = ap (λ r. list_parsed store policy context tt 1 request r) parse-empty

list_tasks-visible_example :
    (ids : List Bytes) × AreVisible store policy context tt request ids answer.tasks
list_tasks-visible_example = list_tasks-visible store policy context tt request 1 answer listed
