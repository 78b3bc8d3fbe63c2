-- ===== src/Server/Subscriber/Owner.antt =====
-- What the steps of a subscription of task_subscription_service.cpp leave alone.
use a2a_cpp.Base.{ℕ, ◌≡◌, ◌∙◌, ap, arith, Bool, true, false, if◌then◌else◌}
use a2a_cpp.Core.Proto.{Task, state_of, is_terminal_task_state}
use a2a_cpp.Core.Stream.{StreamResponse, has_status_update}
use a2a_cpp.Server.Subscriber.{
  Subscription, Outcome, delivered, ended, blocked, fetch_sub, build_status_update_event, deliver,
  close, next, enqueue, signal_subscriber, resume, await_event, await_resume, wait_for_next, start,
  resume_yielded, take_value, record_delivered_event,
}
use a2a_cpp.Server.Subscriber.Order.{IsSound}

-- What no step of a subscription changes.
abbrev pub SameOwner : Subscription → Subscription → Type 0
SameOwner s t = (t.task_id ≡ s.task_id) × (t.alive ≡ s.alive) × (t.cancelled ≡ s.cancelled)

-- Nor do the coroutine and its reader change the count of deliveries.
abbrev pub SameCount : Subscription → Subscription → Type 0
SameCount s t = SameOwner s t × (t.pending_delivery_count ≡ s.pending_delivery_count)

resume-SameCount : (s : Subscription) → SameCount s (resume s)
unfolding resume await_event await_resume
resume-SameCount s = ground arith

signal_subscriber-SameCount : (s : Subscription) → SameCount s (signal_subscriber s)
unfolding signal_subscriber
signal_subscriber-SameCount s = ground (arith, resume-SameCount (record s { continuation = false }))

start-SameCount : (s : Subscription) → SameCount s (start s)
unfolding start
start-SameCount s = ground (arith, resume-SameCount (record s { started = true }))

resume_yielded-SameCount : (s : Subscription) → SameCount s (resume_yielded s)
unfolding resume_yielded
resume_yielded-SameCount s =
    ground (arith, resume-SameCount (record s { resume_after_yield = false }))

take_value-SameCount : (s : Subscription) → SameCount s (take_value s).1
unfolding take_value
take_value-SameCount s = ground arith

wait_for_next-SameCount : (s : Subscription) → SameCount s (wait_for_next s).1
unfolding wait_for_next
wait_for_next-SameCount s = ground (
  arith,
  start-SameCount s,
  resume_yielded-SameCount (start s),
  take_value-SameCount (resume_yielded (start s)),
)

enqueue-SameOwner :
    (e : StreamResponse) (last : Bool) (s : Subscription) → SameOwner s (enqueue e last s)
unfolding enqueue
enqueue-SameOwner e last s = ground arith

pub deliver-SameOwner : (t : Task) (s : Subscription) → SameOwner s (deliver t s)
unfolding deliver
deliver-SameOwner t s =
    let event = build_status_update_event t in
    let queued = enqueue event (is_terminal_task_state (state_of t)) s in
    ground (
      arith,
      signal_subscriber-SameCount queued,
      enqueue-SameOwner event (is_terminal_task_state (state_of t)) s,
    )

pub close-SameOwner : (s : Subscription) → SameOwner s (close s)
unfolding close
close-SameOwner s = ground (arith, signal_subscriber-SameCount (record s { closed = true }))

-- The count behind a read with this outcome.
abbrev pub count_after : Outcome → ℕ → ℕ
count_after (delivered event) n = if has_status_update event then fetch_sub n else n
count_after _ n = n

recorded-SameOwner :
    (o : Outcome) (s : Subscription)
    → let t = (record_delivered_event (o, s)).1 in
      SameOwner s t
      × (t.pending_delivery_count
          ≡ count_after (record_delivered_event (o, s)).0 s.pending_delivery_count)
unfolding record_delivered_event
recorded-SameOwner (delivered e) s = ground arith
recorded-SameOwner ended s = ground arith
recorded-SameOwner blocked s = ground arith

next_kept :
    (s : Subscription)
    → SameOwner s (next s).1
      × ((next s).1.pending_delivery_count ≡ count_after (next s).0 s.pending_delivery_count)
unfolding next
next_kept s =
    let p = wait_for_next s in
    let kept = wait_for_next-SameCount s in
    let told = recorded-SameOwner p.0 p.1 in
    (
      (told.0.0 ∙ kept.0.0, told.0.1 ∙ kept.0.1, told.0.2 ∙ kept.0.2),
      told.1 ∙ ap (count_after (record_delivered_event p).0) kept.1,
    )

pub next-SameOwner : (s : Subscription) → SameOwner s (next s).1
next-SameOwner s = (next_kept s).0

pub next_count :
    (s : Subscription)
    → (next s).1.pending_delivery_count ≡ count_after (next s).0 s.pending_delivery_count
next_count s = (next_kept s).1

-- A closed subscription takes no event.
pub deliver-closed : (t : Task) (s : Subscription) → IsSound s → s.closed ≡ true → deliver t s ≡ s
unfolding deliver enqueue signal_subscriber
deliver-closed t s h shut = ground arith
