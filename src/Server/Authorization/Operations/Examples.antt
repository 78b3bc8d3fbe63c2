-- ===== src/Server/Authorization/Operations/Examples.antt =====
-- Runs of task_authorization_service.cpp on the in-memory store.
use a2a_cpp.Base.{
  refl, subst, if◌then◌else◌, ◌==◌, ◌≡◌, ◌⊎◌, ap, ◌∙◌, true, false, some, List, [], ◌∷◌, Bytes,
  codes, bytes_eq, find, pos,
}
use a2a_cpp.Core.Error.{Result, ok}
use a2a_cpp.Core.Proto.{
  Task, Part, default_task, default_status, auth_required, working, field, end, bool,
}
use a2a_cpp.Tasks.Store.{
  InMemoryTaskStore, TaskSnapshot, create_or_update, create_or_update_if_revision, get_snapshot,
  updated, conflict,
}
use a2a_cpp.Tasks.Store.Consistency.{IsConsistent}
use a2a_cpp.Tasks.Store.Spec.{view, created, snapshot_of, present_revision, giving, save_over}
use a2a_cpp.Tasks.Store.Refinement.{
  create_or_update-Simulates, create_or_update_if_revision-Simulates, get-view,
}
use a2a_cpp.Tasks.Store.Reachable.{empty_store, started, Reachable-IsConsistent}
use a2a_cpp.Server.Subscriptions.{new_service}
use a2a_cpp.Server.Authorization.{
  RevisionStore, AuthorizationState, revisions_in_memory, authorization_task_marker, moved,
  is_authorization_task, find_field,
}
use a2a_cpp.Server.Authorization.Moves.{Validator, TaskCall, authorizing, Move, Ended, Answered}
use a2a_cpp.Server.Authorization.InMemory.{snapshot_in, in_memory-laws}
use a2a_cpp.Server.Authorization.Operations.Runs.{
  Call, on_task, answer, serve_all, is_granted, is_open, IsGrantedIn, answer-Ended, answer-Moves,
  serve_all-Granted,
}

abbrev no_bytes : Part → Bytes
no_bytes p = []

-- A task of the service that waits for an authorization, alone in a store.
abbrev waiting_task : Task
waiting_task = record default_task {
  id = codes "w";
  status = some (record default_status { state = auth_required });
  metadata = some (field authorization_task_marker (bool true) end);
}

empty_consistent : IsConsistent (empty_store false)
empty_consistent = (Reachable-IsConsistent no_bytes (empty_store false) (started false)).0

abbrev one_waiting : InMemoryTaskStore
one_waiting = (create_or_update waiting_task (pos 5) (empty_store false)).1

one_waiting_consistent : IsConsistent one_waiting
one_waiting_consistent =
    (create_or_update-Simulates (empty_store false) empty_consistent waiting_task
      (pos 5)).consistent

waiting_entry : view one_waiting (codes "w") ≡ some (created waiting_task (pos 5))
unfolding find bytes_eq
waiting_entry =
    (create_or_update-Simulates (empty_store false) empty_consistent waiting_task (pos 5)).shows
      (codes "w")

abbrev state : AuthorizationState InMemoryTaskStore
state = record { tasks = one_waiting; subscriptions = new_service }

abbrev password : Validator
password = some (λ t credential. bytes_eq credential (codes "secret"))

abbrev call : TaskCall
call = authorizing (codes "w") (codes "secret")

abbrev memory : RevisionStore InMemoryTaskStore
memory = revisions_in_memory (pos 9)

abbrev after_call : Result Task × AuthorizationState InMemoryTaskStore
after_call = answer no_bytes memory password call state

answer-Ended_example :
    Ended memory (in_memory-laws (pos 9)) password state after_call.0 after_call.1
answer-Ended_example =
    answer-Ended no_bytes memory (in_memory-laws (pos 9)) password call state one_waiting_consistent

answer-Moves_example :
    IsConsistent after_call.1.tasks
    × ((k : Bytes)
        → ((in_memory-laws (pos 9)).view after_call.1.tasks k
            ≡ (in_memory-laws (pos 9)).view one_waiting k)
          ⊎ Move password call k
              ((in_memory-laws (pos 9)).view one_waiting k)
              ((in_memory-laws (pos 9)).view after_call.1.tasks k))
    × Answered memory
        (in_memory-laws (pos 9))
        password
        no_bytes
        call
        state
        after_call.0
        after_call.1
    × ((e : TaskSnapshot)
        → get_snapshot (codes "w") one_waiting ≡ ok e
        → is_open password call e.task ≡ true
        → (memory.create_or_update_if_revision (moved working e.task) e.revision one_waiting).0
          ≡ ok updated
        → after_call.0 ≡ ok (moved working e.task))
answer-Moves_example =
    answer-Moves no_bytes memory (in_memory-laws (pos 9)) password call state one_waiting_consistent

waiting_read :
    get_snapshot (codes "w") one_waiting ≡ ok (record { task = waiting_task; revision = 1 })
waiting_read =
    (get-view one_waiting one_waiting_consistent (codes "w")).1 ∙ ap snapshot_of waiting_entry

call_open : is_open password call waiting_task ≡ true
unfolding is_authorization_task find_field bytes_eq
call_open = refl

abbrev granted_task : Task
granted_task = moved working waiting_task

written : (create_or_update_if_revision granted_task 1 (pos 9) one_waiting).0 ≡ ok updated
unfolding moved
written =
    (create_or_update_if_revision-Simulates one_waiting one_waiting_consistent granted_task 1
      (pos 9)).result
    ∙ ap
        (λ o.
          (if present_revision o == 1
            then giving updated (save_over o granted_task (pos 9) (view one_waiting))
            else (ok conflict, view one_waiting)).0)
        waiting_entry

-- The call sets the task to work.
granted : after_call.0 ≡ ok granted_task
granted =
    (answer-Moves no_bytes memory (in_memory-laws (pos 9)) password call state
        one_waiting_consistent).3
      (record { task = waiting_task; revision = 1 }) waiting_read call_open written

abbrev run : List Call
run = on_task call ∷ []

at_work :
    is_granted (
      (in_memory-laws (pos 9)).view
        (serve_all no_bytes memory password run state).tasks
        (codes "w"))
    ≡ true
unfolding moved
at_work =
    ap is_granted
      (subst (λ r. Ended memory (in_memory-laws (pos 9)) password state r after_call.1) granted
        (answer-Ended no_bytes memory (in_memory-laws (pos 9)) password call state
          one_waiting_consistent)).0.1

-- It was not at work before, so the run holds the call that granted it.
not_before : is_granted ((in_memory-laws (pos 9)).view one_waiting (codes "w")) ≡ false
not_before = ap (λ o. is_granted (snapshot_in o)) waiting_entry

serve_all-Granted_example :
    (is_granted ((in_memory-laws (pos 9)).view one_waiting (codes "w")) ≡ true)
    ⊎ IsGrantedIn no_bytes memory (in_memory-laws (pos 9)) password run state (codes "w")
serve_all-Granted_example =
    serve_all-Granted no_bytes memory (in_memory-laws (pos 9)) password run state
      one_waiting_consistent (codes "w") at_work
