-- ===== src/Server/Subscriber.antt =====
-- src/server/task_subscription_service.cpp: one subscription, that is a SubscriberState, the
-- coroutine RunSubscription that reads it and the session that drives the coroutine
-- (include/a2a/server/stream_response_coroutine.h). Each function is the work that is done under
-- the subscriber's lock together with the resumption that follows it. A call that would wait is
-- `blocked`, in the state it waits in; asked again, it goes on from there.
pub mod Order
pub mod Runs
pub mod Owner
pub mod Pending
mod Examples
use a2a_cpp.Base.{
  ℕ, ◌+◌, ◌-◌, ◌%◌, Bool, true, false, not, ◌&&◌, ◌||◌, Option, none, some, List, [], ◌∷◌, ◌++◌,
  ◌==◌, if◌then◌else◌, Bytes, is_empty,
}
use a2a_cpp.Core.Proto.{Task, status_of, state_of, is_terminal_task_state}
use a2a_cpp.Core.Stream.{StreamResponse, task, status_update, has_status_update, status_of_update}

-- Where RunSubscription stands; behind a yield it keeps `is_terminal`.
pub data Point : Type 0 where
  at_start : Point
  at_yield : Bool → Point
  at_await : Point
  at_end : Point

-- SubscriberState (`continuation` tells whether one is set), the coroutine's promise and the
-- session. `alive` is true until the session is destroyed, and with it the last owner.
pub record Subscription : Type 0 where
  pub task_id : Bytes
  pub current_task : Task
  pub events : List StreamResponse
  pub closed : Bool
  pub pending_delivery_count : ℕ
  pub continuation : Bool
  pub point : Point
  pub current_value : Option StreamResponse
  pub started : Bool
  pub resume_after_yield : Bool
  pub cancelled : Bool
  pub alive : Bool

-- `fetch_add(1)` and `fetch_sub(1)` on a size_t.
abbrev pub fetch_add : ℕ → ℕ
fetch_add n = (n + 1) % 18446744073709551616

abbrev pub fetch_sub : ℕ → ℕ
fetch_sub n = (n + 18446744073709551615) % 18446744073709551616

abbrev pub build_current_task_event : Task → StreamResponse
build_current_task_event t = task (record t { artifacts = []; history = [] })

abbrev pub build_status_update_event : Task → StreamResponse
build_status_update_event t = status_update (record {
  task_id = t.id;
  context_id = t.context_id;
  status = some (status_of t);
  metadata = none;
})

-- The test of RunSubscription on the event that it yields.
abbrev pub is_terminal : StreamResponse → Bool
is_terminal (status_update u) = is_terminal_task_state (status_of_update u).state
is_terminal _ = false

-- A session as Subscribe makes it.
abbrev pub opened : Task → Subscription
opened t = record {
  task_id = t.id;
  current_task = t;
  events = [];
  closed = false;
  pending_delivery_count = 0;
  continuation = false;
  point = at_start;
  current_value = none;
  started = false;
  resume_after_yield = false;
  cancelled = false;
  alive = true;
}

-- `await_resume`, and the coroutine up to its next yield or its end.
await_resume : Subscription → Subscription
await_resume s = elim s.events [
  | [] ↦ record s { point = at_end }
  | event ∷ rest ↦ record s {
    events = rest;
    current_value = some event;
    point = at_yield (is_terminal event);
  }
]

-- `co_await`: `await_ready`, and `await_suspend` where there is nothing to read.
await_event : Subscription → Subscription
unfolding await_resume
await_event s =
    if s.closed || not (is_empty s.events)
    then await_resume s
    else record s { point = at_await; continuation = true }

-- `handle.resume()` on RunSubscription.
pub resume : Subscription → Subscription
unfolding await_resume await_event
resume s = elim s.point [
  | at_start ↦ record s {
    current_value = some (build_current_task_event s.current_task);
    point = at_yield false;
  }
  | at_yield last ↦ if last then record s { point = at_end } else await_event s
  | at_await ↦ await_resume s
  | at_end ↦ s
]

pub signal_subscriber : Subscription → Subscription
unfolding resume
signal_subscriber s = if s.continuation then resume (record s { continuation = false }) else s

abbrev is_done : Subscription → Bool
is_done s = elim s.point [ at_end ↦ true | _ ↦ false ]

pub data Outcome : Type 0 where
  delivered : StreamResponse → Outcome
  ended blocked : Outcome

-- StreamResponseCoroutine::Start
start : Subscription → Subscription
unfolding resume
start s = if s.started then s else resume (record s { started = true })

resume_yielded : Subscription → Subscription
unfolding resume
resume_yielded s =
    if s.resume_after_yield then resume (record s { resume_after_yield = false }) else s

-- The end of WaitForNext, where the coroutine has a value, is done, or is waited for.
take_value : Subscription → Outcome × Subscription
take_value s = elim s.current_value [
  | some value ↦ (delivered value, record s { current_value = none; resume_after_yield = true })
  | none ↦ (if is_done s then ended else blocked, s)
]

-- StreamResponseCoroutine::WaitForNext
pub wait_for_next : Subscription → Outcome × Subscription
unfolding start resume_yielded take_value
wait_for_next s = take_value (resume_yielded (start s))

record_delivered_event : Outcome × Subscription → Outcome × Subscription
record_delivered_event (delivered event, s) = (
  delivered event,
  if has_status_update event
      then record s { pending_delivery_count = fetch_sub s.pending_delivery_count }
      else s,
)
record_delivered_event (outcome, s) = (outcome, s)

-- SubscriptionSession::Next and NextFor; NextFor turns `blocked` into an empty answer.
pub next : Subscription → Outcome × Subscription
unfolding wait_for_next record_delivered_event
next s = record_delivered_event (wait_for_next s)

-- SubscriptionSession::IsLive
pub is_live : Subscription → Bool
is_live s = not (is_done s) && (not s.closed || not (s.pending_delivery_count == 0))

enqueue : StreamResponse → Bool → Subscription → Subscription
enqueue event close_after_event s = if s.closed then s else record s {
  events = s.events ++ event ∷ [];
  pending_delivery_count = fetch_add s.pending_delivery_count;
  closed = close_after_event;
}

-- The body of the loop of PublishTaskUpdated, for one subscriber.
pub deliver : Task → Subscription → Subscription
unfolding enqueue signal_subscriber
deliver t s =
    signal_subscriber
      (enqueue (build_status_update_event t) (is_terminal_task_state (state_of t)) s)

-- The body of the loop of Shutdown, and the first half of RemoveSubscriber.
pub close : Subscription → Subscription
unfolding signal_subscriber
close s = signal_subscriber (record s { closed = true })
