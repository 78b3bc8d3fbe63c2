-- ===== src/Server/Subscriptions/Examples.antt =====
-- Runs of task_subscription_service.cpp.
use a2a_cpp.Base.{◌≡◌, true, List, [], ◌∷◌, codes}
use a2a_cpp.Core.Proto.{Task, default_task, working, set_state}
use a2a_cpp.Server.Subscriptions.{ServiceState, new_service, session, publish_task_updated}
use a2a_cpp.Server.Subscriptions.Registered.{IsService, published}
use a2a_cpp.Server.Subscriptions.Reachable.{
  Operation, subscribing, cancelling, perform_all, reachable-IsService, publish-reaches,
}

abbrev new_task : Task
new_task = record default_task { id = codes "t" }

abbrev operations : List Operation
operations = subscribing new_task ∷ subscribing new_task ∷ cancelling 0 ∷ []

abbrev after : ServiceState
after = perform_all operations new_service

reachable-IsService_example : IsService after
reachable-IsService_example = reachable-IsService operations

publish-reaches_example :
    (session (publish_task_updated (set_state working new_task) after) 1
      ≡ published (set_state working new_task) (session after 1))
    × ((session after 1).closed ≡ true
        → session (publish_task_updated (set_state working new_task) after) 1 ≡ session after 1)
publish-reaches_example = publish-reaches operations (set_state working new_task) 1
