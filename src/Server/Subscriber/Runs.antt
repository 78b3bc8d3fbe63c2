-- ===== src/Server/Subscriber/Runs.antt =====
-- Runs of a subscription of task_subscription_service.cpp: publications, reads and a shutdown in any
-- order.
use a2a_cpp.Base.{
  ℕ, zero, suc, ◌≡◌, refl, sym, ap, ◌∙◌, Bool, true, false, List, [], ◌∷◌, ◌++◌, append_assoc,
  append-nil, length, Bool-cases, inl, inr,
}
use a2a_cpp.Core.Proto.{Task, state_of, is_terminal_task_state}
use a2a_cpp.Core.Stream.{StreamResponse}
use a2a_cpp.Server.Subscriber.{
  Subscription, build_current_task_event, build_status_update_event, opened, Outcome, delivered,
  ended, blocked, next, deliver, close,
}
use a2a_cpp.Server.Subscriber.Order.{
  IsSound, remaining, Hands, opened-IsSound, next-Hands, deliver-remaining, close-remaining,
}

pub data Action : Type 0 where
  publish : Task → Action
  poll shutdown : Action

abbrev pub heard : Outcome → List StreamResponse
heard (delivered e) = e ∷ []
heard _ = []

abbrev pub act : Action → Subscription → List StreamResponse × Subscription
act (publish t) s = ([], deliver t s)
act poll s = let step = next s in (heard step.0, step.1)
act shutdown s = ([], close s)

-- What the reads of a run returned, and the state behind it.
abbrev pub run : List Action → Subscription → List StreamResponse × Subscription
run [] s = ([], s)
run (a ∷ acts) s = let step = act a s in let rest = run acts step.1 in (step.0 ++ rest.0, rest.1)

-- The updates that a queue takes in a run: those published up to the first terminal one, or to the
-- shutdown.
abbrev pub accepted : List Action → Bool → List StreamResponse
accepted [] closed = []
accepted (publish t ∷ acts) true = accepted acts true
accepted (publish t ∷ acts) false =
    build_status_update_event t ∷ accepted acts (is_terminal_task_state (state_of t))
accepted (poll ∷ acts) closed = accepted acts closed
accepted (shutdown ∷ acts) closed = accepted acts true

heard-Hands :
    (s : Subscription) (o : Outcome) (t : Subscription)
    → Hands s o t
    → heard o ++ remaining t ≡ remaining s
heard-Hands s (delivered e) t h = sym h
heard-Hands s ended t h = cc
heard-Hands s blocked t h = cc

pub run-remaining :
    (acts : List Action) (s : Subscription)
    → IsSound s
    → let after = run acts s in
      (after.0 ++ remaining after.1 ≡ remaining s ++ accepted acts s.closed) × IsSound after.1
run-remaining [] s h = (sym (append-nil (remaining s)), h)
run-remaining (publish t ∷ acts) s h =
    let step = deliver-remaining t s h in
    let rest = run-remaining acts (deliver t s) step.0 in
    (
      rest.0 ∙ elim (Bool-cases s.closed) [
        | inl shut ↦ rw (step.1, step.2, shut) refl
        | inr live ↦
            rw (step.1, step.2, live)
              (append_assoc (remaining s) (build_status_update_event t ∷ [])
                (accepted acts (is_terminal_task_state (state_of t))))
      ],
      rest.1,
    )
run-remaining (poll ∷ acts) s h =
    let step = next-Hands s h in
    let rest = run-remaining acts (next s).1 step.1 in
    (
      append_assoc (heard (next s).0) (run acts (next s).1).0 (remaining (run acts (next s).1).1)
          ∙ ap (λ l. heard (next s).0 ++ l) (rest.0)
          ∙ sym (
              append_assoc (heard (next s).0) (remaining (next s).1)
                (accepted acts (next s).1.closed))
          ∙ ap (λ l. l ++ accepted acts (next s).1.closed)
              (heard-Hands s (next s).0 (next s).1 step.0)
          ∙ ap (λ c. remaining s ++ accepted acts c) (step.2),
      rest.1,
    )
run-remaining (shutdown ∷ acts) s h =
    let step = close-remaining s h in
    let rest = run-remaining acts (close s) step.0 in (rest.0 ∙ rw (step.1, step.2) refl, rest.1)

-- Whatever is published and read on a subscription that is opened on a task, and whenever it is
-- shut, the reads have returned the task and then, each once and in the order of their publication,
-- the first of the updates that were published up to the first terminal one or the shutdown; the
-- others of these are those still to come.
pub run-order :
    (t : Task) (acts : List Action)
    → let after = run acts (opened t) in
      after.0 ++ remaining after.1 ≡ build_current_task_event t ∷ accepted acts false
run-order t acts = (run-remaining acts (opened t) (opened-IsSound t)).0

abbrev pub polls : ℕ → List Action
polls zero = []
polls (suc n) = poll ∷ polls n

Hands-ended :
    (s : Subscription) (o : Outcome) (t : Subscription)
    → Hands s o t
    → remaining s ≡ []
    → s.closed ≡ true
    → o ≡ ended
Hands-ended s (delivered e) t h none_left shut = cc
Hands-ended s ended t h none_left shut = refl
Hands-ended s blocked t h none_left shut = absurd (cc (h.2))

Hands-more :
    (s : Subscription) (o : Outcome) (t : Subscription)
    → Hands s o t
    → (e : StreamResponse) (es : List StreamResponse) → remaining s ≡ e ∷ es
    → (o ≡ delivered e) × (remaining t ≡ es)
Hands-more s (delivered d) t h e es more = (cc, cc)
Hands-more s ended t h e es more = absurd (cc (h.0))
Hands-more s blocked t h e es more = absurd (cc (h.0))

drain_lem :
    (es : List StreamResponse) (s : Subscription)
    → IsSound s
    → s.closed ≡ true
    → remaining s ≡ es
    → let after = run (polls (length es)) s in (after.0 ≡ es) × ((next after.1).0 ≡ ended)
drain_lem [] s h shut left =
    (refl, Hands-ended s (next s).0 (next s).1 (next-Hands s h).0 left shut)
drain_lem (e ∷ es) s h shut left =
    let step = next-Hands s h in
    let more = Hands-more s (next s).0 (next s).1 step.0 e es left in
    let rest = drain_lem es (next s).1 step.1 (step.2 ∙ shut) more.1 in
    (rw (more.0) (ap (λ l. e ∷ l) rest.0), rest.1)

-- Behind any run of a subscription that is opened on a task, and its shutdown, as many reads as there
-- are events still to come return these events, without waiting, and the next read reports the end of
-- the stream.
pub drain-ends :
    (t : Task) (acts : List Action)
    → let before = (run acts (opened t)).1 in
      let after = run (polls (length (remaining before))) (close before) in
      (after.0 ≡ remaining before) × ((next after.1).0 ≡ ended)
drain-ends t acts =
    let before = (run acts (opened t)).1 in
    let shut = close-remaining before ((run-remaining acts (opened t) (opened-IsSound t)).1) in
    drain_lem (remaining before) (close before) shut.0 shut.2 shut.1
