-- ===== src/Tasks/Store/Examples.antt =====
-- Runs of in_memory_task_store.cpp on small stores.
use a2a_cpp.Base.{
  ◌≡◌, ◌<◌, find, assign, bytes_eq, ◌&&◌, refl, ap, map, keep, take, length, length-keep-le, ltb,
  if◌then◌else◌, true, false, none, some, List, [], ◌∷◌, arith, Bytes, codes, pos, negsuc,
}
use a2a_cpp.Core.Error.{ok}
use a2a_cpp.Core.Proto.{Task, Message, Part, default_task, default_message}
use a2a_cpp.Tasks.History.{dedup_by_id_or_fingerprint}
use a2a_cpp.Tasks.Cursor.{ListTaskCursor, list_cursor_precedes, encode_list_page_token}
use a2a_cpp.Tasks.Listing.{ListTasksRequest}
use a2a_cpp.Tasks.Store.{
  InMemoryTaskStore, create_or_update, create_or_update_if_revision, cancel, append_task_history,
  append_task, append_indexed, append_touched, touch_task,
}
use a2a_cpp.Tasks.Store.UpdateOrder.{insert_cursor, contains}
use a2a_cpp.Tasks.Store.NewestFirst.{IsNewestFirst}
use a2a_cpp.Tasks.Store.Consistency.{IsConsistent, is_current}
use a2a_cpp.Tasks.Store.Spec.{
  view, spec_create_or_update, spec_create_or_update_if_revision, spec_cancel,
  spec_append_task_history, Simulates,
}
use a2a_cpp.Tasks.Store.Refinement.{
  create_or_update-Simulates, create_or_update_if_revision-Simulates, cancel-Simulates,
  append_task_history-Simulates,
}
use a2a_cpp.Tasks.Store.Books.{IsBook}
use a2a_cpp.Tasks.Store.Reachable.{
  empty_store, Reachable, started, after_create_or_update, Reachable-IsConsistent,
}
use a2a_cpp.Tasks.Store.Paging.Chain.{follow}
use a2a_cpp.Tasks.Store.Clients.{follow-all}
use a2a_cpp.Tasks.Store.Paging.Pages.{selected, projected, list_tasks-page}
use a2a_cpp.Tasks.Store.Paging.{list_tasks, total_of, last_cursor, order_after}
use a2a_cpp.Tasks.Cursor.RoundTrip.{parse-empty}

-- A serialization for the examples.
abbrev no_bytes : Part → Bytes
no_bytes p = []

abbrev task_a : Task
task_a = record default_task { id = codes "a"; context_id = codes "c" }

abbrev task_b : Task
task_b = record default_task { id = codes "b"; context_id = codes "c" }

abbrev hello : Message
hello = record default_message { message_id = codes "m" }

abbrev one_task : InMemoryTaskStore
one_task = (create_or_update task_a (pos 5) (empty_store true)).1

-- The clock has gone back to before its epoch.
abbrev two_tasks : InMemoryTaskStore
two_tasks = (create_or_update task_b (negsuc 2) one_task).1

abbrev two_tasks_made : Reachable no_bytes two_tasks
two_tasks_made =
    after_create_or_update one_task task_b (negsuc 2) (omega arith, tt) (omega arith)
      (after_create_or_update (empty_store true) task_a (pos 5) (omega arith, tt) (omega arith)
        (started true))

abbrev consistent : IsConsistent two_tasks
consistent = (Reachable-IsConsistent no_bytes two_tasks two_tasks_made).0

abbrev any_task : ListTasksRequest
any_task = record {
  page_size = 1;
  page_token = [];
  context_id = codes "c";
  status_filter = none;
  status_timestamp_after = none;
  history_length = some 0;
  include_artifacts = false;
  include_total_size = true;
}

two_tasks_order :
    two_tasks.update_order
    ≡ record { updated_at = 5; task_id = codes "a" }
      ∷ record { updated_at = 0; task_id = codes "b" }
      ∷ []
unfolding create_or_update append_task append_indexed append_touched touch_task insert_cursor
    list_cursor_precedes find assign bytes_eq
two_tasks_order = refl

create_or_update-Simulates_example :
    Simulates
      (create_or_update task_a (pos 3) two_tasks)
      (spec_create_or_update task_a (pos 3) (view two_tasks))
create_or_update-Simulates_example = create_or_update-Simulates two_tasks consistent task_a (pos 3)

create_or_update_if_revision-Simulates_example :
    Simulates
      (create_or_update_if_revision task_a 1 (pos 3) two_tasks)
      (spec_create_or_update_if_revision task_a 1 (pos 3) (view two_tasks))
create_or_update_if_revision-Simulates_example =
    create_or_update_if_revision-Simulates two_tasks consistent task_a 1 (pos 3)

cancel-Simulates_example :
    Simulates
      (cancel (codes "b") (pos 9) two_tasks)
      (spec_cancel (codes "b") (pos 9) (view two_tasks))
cancel-Simulates_example = cancel-Simulates two_tasks consistent (codes "b") (pos 9)

append_task_history-Simulates_example :
    Simulates
      (append_task_history no_bytes (codes "a") hello dedup_by_id_or_fingerprint (pos 9) two_tasks)
      (spec_append_task_history no_bytes
        (codes "a")
        hello
        dedup_by_id_or_fingerprint
        (pos 9)
        (view two_tasks))
append_task_history-Simulates_example =
    append_task_history-Simulates two_tasks consistent no_bytes (codes "a") hello
      dedup_by_id_or_fingerprint (pos 9)

Reachable-IsConsistent_example : IsConsistent two_tasks × IsBook (view two_tasks)
Reachable-IsConsistent_example = Reachable-IsConsistent no_bytes two_tasks two_tasks_made

abbrev matching : List ListTaskCursor
matching = keep (selected any_task two_tasks) (order_after none two_tasks)

list_tasks-page_example :
    list_tasks any_task two_tasks
    ≡ ok (record {
      tasks = map (projected any_task two_tasks) (take 1 matching);
      page_size = length (map (projected any_task two_tasks) (take 1 matching));
      total_size = total_of any_task two_tasks;
      next_page_token =
          if ltb 1 (length matching)
          then encode_list_page_token (last_cursor (take 1 matching))
          else [];
      task_cursors = take 1 matching;
    })
list_tasks-page_example = list_tasks-page any_task two_tasks (omega arith) none parse-empty

few_matches : length (keep (selected any_task two_tasks) two_tasks.update_order) < 3
few_matches =
    let few : length two_tasks.update_order ≡ 2 = ap length two_tasks_order in
    omega (arith, length-keep-le (selected any_task two_tasks) two_tasks.update_order, few)

follow-all_example :
    (follow 3 any_task two_tasks ≡ keep (selected any_task two_tasks) two_tasks.update_order)
    × IsNewestFirst (follow 3 any_task two_tasks)
    × ((c : ListTaskCursor)
        → contains c (follow 3 any_task two_tasks)
          ≡ (is_current two_tasks c && selected any_task two_tasks c))
follow-all_example =
    follow-all no_bytes two_tasks two_tasks_made any_task (omega arith) 3 few_matches
