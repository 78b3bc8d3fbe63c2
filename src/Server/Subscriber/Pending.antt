-- ===== src/Server/Subscriber/Pending.antt =====
-- The counter pending_delivery_count of task_subscription_service.cpp, and what IsLive reports.
use a2a_cpp.Base.{
  ℕ, ◌+◌, ◌%◌, ◌<◌, ◌≡◌, refl, ◌∙◌, arith, true, List, [], ◌∷◌, if◌then◌else◌, length, keep,
  keep-append, length-append, Bool-cases, inl, inr,
}
use a2a_cpp.Core.Proto.{Task}
use a2a_cpp.Core.Stream.{StreamResponse, has_status_update}
use a2a_cpp.Server.Subscriber.{
  Subscription, Outcome, delivered, ended, blocked, build_status_update_event, opened, next,
  deliver, close, resume, await_event, await_resume, enqueue, signal_subscriber, is_live,
}
use a2a_cpp.Server.Subscriber.Order.{
  IsSound, Hands, remaining, opened-IsSound, next-Hands, deliver-remaining, close-remaining,
}
use a2a_cpp.Server.Subscriber.Owner.{count_after, next_count}
use a2a_cpp.Server.Subscriber.Runs.{Action, publish, poll, shutdown, act, run}

-- The status updates that are still to be handed out.
abbrev pub outstanding : Subscription → ℕ
outstanding s = length (keep has_status_update (remaining s))

abbrev Counts : Subscription → Type 0
Counts s = s.pending_delivery_count ≡ outstanding s % 18446744073709551616

delivered_count :
    (e : StreamResponse) (n : ℕ) (before after : List StreamResponse)
    → before ≡ e ∷ after
    → n ≡ length (keep has_status_update before) % 18446744073709551616
    → count_after (delivered e) n ≡ length (keep has_status_update after) % 18446744073709551616
delivered_count e n before after h c = ground arith

handed-Counts :
    (s t : Subscription) (o : Outcome)
    → Hands s o t
    → t.pending_delivery_count ≡ count_after o s.pending_delivery_count
    → Counts s
    → Counts t
handed-Counts s t (delivered e) h kept c =
    kept ∙ delivered_count e s.pending_delivery_count (remaining s) (remaining t) h c
handed-Counts s t ended h kept c = kept ∙ c ∙ rw (h.0, h.1) refl
handed-Counts s t blocked h kept c = kept ∙ c ∙ rw (h.0, h.1) refl

next-Counts : (s : Subscription) → IsSound s → Counts s → Counts (next s).1
next-Counts s h c = handed-Counts s (next s).1 (next s).0 (next-Hands s h).0 (next_count s) c

deliver_count :
    (t : Task) (s : Subscription)
    → (deliver t s).pending_delivery_count ≡ (
        if s.closed
        then s.pending_delivery_count
        else (s.pending_delivery_count + 1) % 18446744073709551616)
unfolding deliver enqueue signal_subscriber resume await_event await_resume
deliver_count t s = ground arith

close_count : (s : Subscription) → (close s).pending_delivery_count ≡ s.pending_delivery_count
unfolding close signal_subscriber resume await_event await_resume
close_count s = ground arith

act-Counts :
    (a : Action) (s : Subscription)
    → IsSound s
    → Counts s
    → IsSound (act a s).1 × Counts (act a s).1
act-Counts (publish t) s h c =
    let step = deliver-remaining t s h in
    (
      step.0,
      deliver_count t s ∙ elim (Bool-cases s.closed) [
        | inl shut ↦ rw (step.1, shut) c
        | inr live ↦
            rw
              (
                step.1,
                live,
                keep-append has_status_update (remaining s) (build_status_update_event t ∷ []),
                length-append (keep has_status_update (remaining s))
                    (build_status_update_event t ∷ []),
              )
              (omega (arith, c))
      ],
    )
act-Counts poll s h c = ((next-Hands s h).1, next-Counts s h c)
act-Counts shutdown s h c =
    let step = close-remaining s h in (step.0, close_count s ∙ rw (step.1) c)

run-Counts :
    (acts : List Action) (s : Subscription)
    → IsSound s
    → Counts s
    → IsSound (run acts s).1 × Counts (run acts s).1
run-Counts [] s h c = (h, c)
run-Counts (a ∷ acts) s h c =
    let step = act-Counts a s h c in run-Counts acts (act a s).1 step.0 step.1

counted_live :
    (s : Subscription)
    → IsSound s
    → Counts s
    → 0 < outstanding s
    → outstanding s < 18446744073709551616
    → is_live s ≡ true
unfolding is_live
counted_live s h c some_left few = ground arith

-- After any run of a subscription that is opened on a task, IsLive is true as long as a status update
-- is still to be handed out, fewer of them than a size_t can count, even if the subscription is
-- closed.
pub run-is_live :
    (t : Task) (acts : List Action)
    → let s = (run acts (opened t)).1 in
      0 < outstanding s → outstanding s < 18446744073709551616 → is_live s ≡ true
run-is_live t acts some_left few =
    let reached = run-Counts acts (opened t) (opened-IsSound t) refl in
    counted_live (run acts (opened t)).1 reached.0 reached.1 some_left few
