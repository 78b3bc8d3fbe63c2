-- ===== src/Server/Subscriptions/Reachable.antt =====
-- The states that the operations of task_subscription_service.cpp make of a new service.
use a2a_cpp.Base.{ℕ, ◌≡◌, refl, ◌∙◌, arith, true, List, [], ◌∷◌, find}
use a2a_cpp.Core.Proto.{Task}
use a2a_cpp.Server.Subscriber.Owner.{deliver-closed}
use a2a_cpp.Server.Subscriptions.{
  ServiceState, new_service, session, subscribe, publish_task_updated, shutdown, cancel_session,
  destroy_session, next_of,
}
use a2a_cpp.Server.Subscriptions.Registered.{IsService, published, publish-session}
use a2a_cpp.Server.Subscriptions.Publishing.{publish-IsService}
use a2a_cpp.Server.Subscriptions.Keeping.{next_of-IsService}
use a2a_cpp.Server.Subscriptions.Ending.{
  no_session-IsSound, subscribe-IsService, cancel-IsService, destroy-IsService,
}
use a2a_cpp.Server.Subscriptions.Closing.{shutdown-IsService}

new-IsService : IsService new_service
unfolding find
new-IsService = record {
  sound = λ j. no_session-IsSound;
  in_range = λ id j found. absurd (cc found);
  once = λ id. refl;
  listed = λ j live there. absurd (cc live);
  over = λ off id. refl;
}

pub data Operation : Type 0 where
  subscribing publishing : Task → Operation
  reading cancelling destroying : ℕ → Operation
  shutting_down : Operation

abbrev pub perform : Operation → ServiceState → ServiceState
perform (subscribing t) v = (subscribe t v).1
perform (publishing t) v = publish_task_updated t v
perform (reading h) v = (next_of h v).1
perform (cancelling h) v = cancel_session h v
perform (destroying h) v = destroy_session h v
perform shutting_down v = shutdown v

abbrev pub perform_all : List Operation → ServiceState → ServiceState
perform_all [] v = v
perform_all (o ∷ os) v = perform_all os (perform o v)

perform-IsService : (o : Operation) (v : ServiceState) → IsService v → IsService (perform o v)
perform-IsService (subscribing t) v w = subscribe-IsService t v w
perform-IsService (publishing t) v w = publish-IsService t v w
perform-IsService (reading h) v w = next_of-IsService h v w
perform-IsService (cancelling h) v w = cancel-IsService h v w
perform-IsService (destroying h) v w = destroy-IsService h v w
perform-IsService shutting_down v w = shutdown-IsService v w

perform_all-IsService :
    (os : List Operation) (v : ServiceState) → IsService v → IsService (perform_all os v)
perform_all-IsService [] v w = w
perform_all-IsService (o ∷ os) v w =
    perform_all-IsService os (perform o v) (perform-IsService o v w)

-- In every state that the operations make of a new service, each subscription is sound, the lists of
-- a task hold only subscriptions of that task, each once, every open subscription whose session
-- lives is in the list of its task, and after the shutdown the lists are empty.
pub reachable-IsService : (os : List Operation) → IsService (perform_all os new_service)
reachable-IsService os = perform_all-IsService os new_service new-IsService

-- In every state that the operations make of a new service, PublishTaskUpdated hands the status of the
-- task, once, to exactly the subscriptions of the task whose session lives, and changes no other; a
-- subscription that is closed stays as it is.
pub publish-reaches :
    (os : List Operation) (t : Task) (j : ℕ)
    → let v = perform_all os new_service in
      (session (publish_task_updated t v) j ≡ published t (session v j))
      × ((session v j).closed ≡ true → session (publish_task_updated t v) j ≡ session v j)
publish-reaches os t j =
    let v : ServiceState = perform_all os new_service in
    let w : IsService v = reachable-IsService os in
    let step = publish-session t v w j in
    (step, λ shut. step ∙ ground (arith, deliver-closed t (session v j) (w.sound j) shut))
