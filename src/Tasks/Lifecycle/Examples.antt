-- ===== src/Tasks/Lifecycle/Examples.antt =====
-- Runs of task_lifecycle_service.cpp.
use a2a_cpp.Base.{◌≡◌, ◌↔◌, refl, false, some, [], Bytes, codes, find, bytes_eq, pos}
use a2a_cpp.Core.Error.{ok}
use a2a_cpp.Core.Proto.{
  Task, Part, SendMessageRequest, default_task, default_message, completed, working, set_state,
  is_terminal_task_state,
}
use a2a_cpp.Tasks.Store.{InMemoryTaskStore, create_or_update}
use a2a_cpp.Tasks.Store.Consistency.{IsConsistent}
use a2a_cpp.Tasks.Store.Spec.{view, created, Simulates}
use a2a_cpp.Tasks.Store.Refinement.{create_or_update-Simulates}
use a2a_cpp.Tasks.Store.Reachable.{empty_store, started, Reachable-IsConsistent}
use a2a_cpp.Tasks.Lifecycle.{in_memory, transition_task_status, validate_task_for_send_request}
use a2a_cpp.Tasks.Lifecycle.Transitions.{
  IsAccepted, spec_transition, validate_task_for_send_request_iff, transition_task_status-Simulates,
  transition_task_status-terminal,
}

abbrev no_bytes : Part → Bytes
no_bytes p = []

abbrev done_task : Task
done_task = set_state completed (record default_task { id = codes "d" })

abbrev request : SendMessageRequest
request = record { tenant = []; message = some (record default_message { message_id = codes "m" }) }

empty_consistent : IsConsistent (empty_store false)
empty_consistent = (Reachable-IsConsistent no_bytes (empty_store false) (started false)).0

abbrev one_done : InMemoryTaskStore
one_done = (create_or_update done_task (pos 5) (empty_store false)).1

one_done_consistent : IsConsistent one_done
one_done_consistent =
    (create_or_update-Simulates (empty_store false) empty_consistent done_task (pos 5)).consistent

done_entry : view one_done (codes "d") ≡ some (created done_task (pos 5))
unfolding find bytes_eq
done_entry =
    (create_or_update-Simulates (empty_store false) empty_consistent done_task (pos 5)).shows
      (codes "d")

validate_task_for_send_request_iff_example :
    (validate_task_for_send_request request done_task ≡ ok tt) ↔ IsAccepted request done_task
validate_task_for_send_request_iff_example = validate_task_for_send_request_iff request done_task

transition_task_status-Simulates_example :
    Simulates
      (transition_task_status (some (in_memory no_bytes (pos 9))) (codes "d") working one_done)
      (spec_transition (codes "d") working (pos 9) (view one_done))
transition_task_status-Simulates_example =
    transition_task_status-Simulates no_bytes one_done one_done_consistent (codes "d") working
      (pos 9)

transition_task_status-terminal_example :
    view
      (transition_task_status (some (in_memory no_bytes (pos 9))) (codes "d") working one_done).1
      (codes "d")
    ≡ some (created done_task (pos 5))
unfolding is_terminal_task_state
transition_task_status-terminal_example =
    transition_task_status-terminal no_bytes one_done one_done_consistent (codes "d") working
      (pos 9) (codes "d") (created done_task (pos 5)) done_entry refl
