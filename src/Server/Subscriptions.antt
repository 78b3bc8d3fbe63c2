-- ===== src/Server/Subscriptions.antt =====
-- src/server/task_subscription_service.cpp: the service. Its weak pointers are positions in
-- `sessions`, where every subscription that was made stays; one that is not alive is an expired
-- pointer. An operation is one step: the publication lock and the service lock are held in turn.
pub mod Sessions
pub mod Registered
pub mod Publishing
pub mod Keeping
pub mod Ending
pub mod Closing
pub mod Reachable
mod Examples
use a2a_cpp.Base.{
  ℕ, ◌+◌, Bool, true, false, not, ◌&&◌, ◌||◌, Option, none, some, List, [], ◌∷◌, ◌++◌, ◌==◌,
  if◌then◌else◌, Bytes, is_empty, length, get_or, set, keep, Assoc, find, assign, erase,
}
use a2a_cpp.Core.Error.{Result, ok, err, Error, internal_error, unsupported_operation}
use a2a_cpp.Core.Proto.{Task, TaskStatus, status_of, state_of, default_task, is_terminal_task_state}
use a2a_cpp.Server.Subscriber.{Subscription, opened, deliver, close, Outcome, next}

-- TaskSubscriptionService::LatestTaskState
pub record LatestTaskState : Type 0 where
  pub context_id : Bytes
  pub status : TaskStatus

-- TaskSubscriptionService::ServiceState, with the subscriptions.
pub record ServiceState : Type 0 where
  pub subscribers_by_task_id : Assoc (List ℕ)
  pub latest_task_states_by_id : Assoc LatestTaskState
  pub is_shutdown : Bool
  pub sessions : List Subscription

abbrev pub new_service : ServiceState
new_service = record {
  subscribers_by_task_id = [];
  latest_task_states_by_id = [];
  is_shutdown = false;
  sessions = [];
}

-- What a position out of range reads.
abbrev pub no_session : Subscription
no_session = record (opened default_task) { closed = true; alive = false }

abbrev pub session : ServiceState → ℕ → Subscription
session v h = get_or v.sessions h no_session

abbrev pub change : (Subscription → Subscription) → ServiceState → ℕ → ServiceState
change f v h = record v { sessions = set v.sessions h (f (session v h)) }

-- What `operator[]` reads.
abbrev pub held : Option (List ℕ) → List ℕ
held none = []
held (some hs) = hs

abbrev pub registered : Bytes → ServiceState → List ℕ
registered id v = held (find id v.subscribers_by_task_id)

abbrev pub service_is_shut_down : Error
service_is_shut_down = internal_error "task subscription service is shut down"

-- The task as its last publication left it.
pub up_to_date : Option LatestTaskState → Task → Task
up_to_date none t = t
up_to_date (some latest) t = record t {
  context_id = latest.context_id;
  status = some latest.status;
}

-- Subscribe; its value is the position of the session.
pub subscribe : Task → ServiceState → Result ℕ × ServiceState
unfolding up_to_date
subscribe t v =
    let current_task = up_to_date (find t.id v.latest_task_states_by_id) t in
    let h = length v.sessions in
    if v.is_shutdown
    then (err service_is_shut_down, v)
    else if is_terminal_task_state (state_of current_task)
    then (err (unsupported_operation "task is already terminal"), v)
    else (
      ok h,
      record v {
        subscribers_by_task_id = assign t.id (registered t.id v ++ h ∷ []) v.subscribers_by_task_id;
        sessions = v.sessions ++ opened current_task ∷ [];
      },
    )

-- The loops over the subscribers that were found.
pub for_each : (Subscription → Subscription) → List ℕ → ServiceState → ServiceState
for_each f [] v = v
for_each f (h ∷ hs) v = for_each f hs (change f v h)

-- `std::erase_if` with `weak_subscriber.lock()`.
abbrev pub lock_all : ServiceState → List ℕ → List ℕ
lock_all v hs = keep (λ h. (session v h).alive) hs

-- The part of PublishTaskUpdated under the service lock, for a task that has subscribers.
collect : Task → List ℕ → ServiceState → ServiceState
collect t locked v = record v {
  subscribers_by_task_id =
      if is_empty locked || is_terminal_task_state (state_of t)
      then erase t.id v.subscribers_by_task_id
      else assign t.id locked v.subscribers_by_task_id;
}

-- PublishTaskUpdated behind the look at the subscribers of the task.
publish_to : Task → Option (List ℕ) → ServiceState → ServiceState
unfolding collect for_each
publish_to t none v = v
publish_to t (some hs) v = for_each (deliver t) (lock_all v hs) (collect t (lock_all v hs) v)

abbrev with_latest : Task → ServiceState → ServiceState
with_latest t v = record v {
  latest_task_states_by_id =
      assign t.id (record { context_id = t.context_id; status = status_of t })
        v.latest_task_states_by_id;
}

-- PublishTaskUpdated
pub publish_task_updated : Task → ServiceState → ServiceState
unfolding publish_to
publish_task_updated t v =
    if v.is_shutdown then v else publish_to t (find t.id v.subscribers_by_task_id) (with_latest t v)

abbrev pub all_registered : Assoc (List ℕ) → List ℕ
all_registered [] = []
all_registered ((id, hs) ∷ m) = hs ++ all_registered m

-- Shutdown
pub shutdown : ServiceState → ServiceState
unfolding for_each
shutdown v =
    if v.is_shutdown
    then v
    else for_each close (lock_all v (all_registered v.subscribers_by_task_id)) (record v {
      is_shutdown = true;
      subscribers_by_task_id = [];
      latest_task_states_by_id = [];
    })

-- The second half of RemoveSubscriber, for the list that was found.
drop_from : ℕ → Bytes → Option (List ℕ) → ServiceState → ServiceState
drop_from h id none v = v
drop_from h id (some hs) v =
    let left = keep (λ j. (session v j).alive && not (j == h)) hs in
    record v {
      subscribers_by_task_id =
          if is_empty left
          then erase id v.subscribers_by_task_id
          else assign id left v.subscribers_by_task_id;
    }

pub unregister : ℕ → Bytes → ServiceState → ServiceState
unfolding drop_from
unregister h id v = drop_from h id (find id v.subscribers_by_task_id) v

-- RemoveSubscriber
pub remove_subscriber : ℕ → ServiceState → ServiceState
unfolding unregister
remove_subscriber h v = unregister h (session v h).task_id (change close v h)

-- SubscriptionSession::Cancel; no resumption is under way between two steps.
pub cancel_session : ℕ → ServiceState → ServiceState
unfolding remove_subscriber
cancel_session h v =
    if (session v h).cancelled
    then v
    else remove_subscriber h (change (λ s. record s { cancelled = true }) v h)

-- ~SubscriptionSession
pub destroy_session : ℕ → ServiceState → ServiceState
unfolding cancel_session
destroy_session h v = change (λ s. record s { alive = false }) (cancel_session h v) h

-- Next and NextFor of the session at a position.
pub next_of : ℕ → ServiceState → Outcome × ServiceState
next_of h v = ((next (session v h)).0, change (λ s. (next s).1) v h)
