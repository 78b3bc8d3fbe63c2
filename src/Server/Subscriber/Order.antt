-- ===== src/Server/Subscriber/Order.antt =====
-- What a subscription of task_subscription_service.cpp hands out, and in which order.
use a2a_cpp.Base.{
  ◌≡◌, refl, ◌∙◌, sym, ℕ, arith, Bool, true, false, ◌&&◌, Option, none, some, List, [], ◌∷◌, ◌++◌,
  append-nil, append_assoc, if◌then◌else◌, is_empty,
}
use a2a_cpp.Core.Proto.{Task, state_of, is_terminal_task_state}
use a2a_cpp.Core.Stream.{StreamResponse, has_status_update}
use a2a_cpp.Server.Subscriber.{
  Point, at_start, at_yield, at_await, at_end, Subscription, build_current_task_event,
  build_status_update_event, is_terminal, opened, await_resume, await_event, resume,
  signal_subscriber, Outcome, delivered, ended, blocked, start, resume_yielded, take_value,
  fetch_sub, wait_for_next, record_delivered_event, next, enqueue, deliver, close,
}

-- A terminal event is the last of the queue, which is closed behind it.
abbrev pub terminal_last : List StreamResponse → Bool → Bool
terminal_last [] closed = true
terminal_last (e ∷ es) closed =
    if is_terminal e then is_empty es && closed else terminal_last es closed

abbrev is_none {ℓ} : {A : Type ℓ} → Option A → Bool
is_none none = true
is_none (some a) = false

-- What holds where the coroutine stands.
abbrev pub Standing : Point → Subscription → Type 0
Standing at_start s =
    (s.started ≡ false)
    × (s.continuation ≡ false)
    × (s.resume_after_yield ≡ false)
    × (s.current_value ≡ none)
Standing (at_yield last) s =
    (s.started ≡ true)
    × (s.continuation ≡ false)
    × (s.resume_after_yield ≡ is_none s.current_value)
    × (last ≡ true → (s.events ≡ []) × (s.closed ≡ true))
Standing at_await s =
    (s.started ≡ true)
    × (s.continuation ≡ true)
    × (s.resume_after_yield ≡ false)
    × (s.current_value ≡ none)
    × (s.events ≡ [])
    × (s.closed ≡ false)
Standing at_end s =
    (s.started ≡ true)
    × (s.continuation ≡ false)
    × (s.resume_after_yield ≡ false)
    × (s.current_value ≡ none)
    × (s.events ≡ [])
    × (s.closed ≡ true)

abbrev pub IsSound : Subscription → Type 0
IsSound s = (terminal_last s.events s.closed ≡ true) × Standing s.point s

abbrev staged : Option StreamResponse → List StreamResponse
staged none = []
staged (some e) = e ∷ []

abbrev opening : Point → Task → List StreamResponse
opening at_start t = build_current_task_event t ∷ []
opening _ t = []

-- The events that the session has still to hand out.
abbrev pub remaining : Subscription → List StreamResponse
remaining s = opening s.point s.current_task ++ staged s.current_value ++ s.events

-- What one call of Next does to them.
abbrev pub Hands : Subscription → Outcome → Subscription → Type 0
Hands s (delivered e) t = remaining s ≡ e ∷ remaining t
Hands s ended t = (remaining s ≡ []) × (remaining t ≡ []) × (s.closed ≡ true)
Hands s blocked t = (remaining s ≡ []) × (remaining t ≡ []) × (s.closed ≡ false)

pub opened-IsSound : (t : Task) → IsSound (opened t)
opened-IsSound t = (refl, (refl, refl, refl, refl))

-- What a started session keeps where its coroutine runs on.
abbrev Keeps : Subscription → Subscription → Type 0
Keeps s t = IsSound t × (remaining t ≡ remaining s) × (t.closed ≡ s.closed) × (t.started ≡ true)

start-Keeps : (s : Subscription) → IsSound s → Keeps s (start s)
unfolding start resume
start-Keeps s h = ground arith

await_event-IsSound :
    (s : Subscription)
    → terminal_last s.events s.closed ≡ true
    → s.started ≡ true
    → s.continuation ≡ false
    → s.resume_after_yield ≡ false
    → s.current_value ≡ none
    → let t = await_event s in IsSound t × (remaining t ≡ s.events) × (t.resume_after_yield ≡ false)
unfolding await_event await_resume
await_event-IsSound s last started running kept taken = ground arith

await_event-fields :
    (s : Subscription) → let t = await_event s in (t.closed ≡ s.closed) × (t.started ≡ s.started)
unfolding await_event await_resume
await_event-fields s = ground arith

resume_yielded-Keeps :
    (s : Subscription)
    → IsSound s
    → s.started ≡ true
    → let t = resume_yielded s in Keeps s t × (t.resume_after_yield ≡ false)
unfolding resume_yielded resume
resume_yielded-Keeps s h started =
    let r : Subscription = record s { resume_after_yield = false } in
    ground (arith, await_event-IsSound r, await_event-fields r)

take_value-Hands :
    (s : Subscription)
    → IsSound s
    → s.started ≡ true
    → s.resume_after_yield ≡ false
    → let p = take_value s in Hands s p.0 p.1 × IsSound p.1 × (p.1.closed ≡ s.closed)
unfolding take_value
take_value-Hands s h started running = ground arith

-- The count of deliveries does not matter to the order.
counted-IsSound :
    (s : Subscription) (count : ℕ)
    → IsSound s
    → IsSound (record s { pending_delivery_count = count })
counted-IsSound s count h = ground arith

recorded-Hands :
    (s : Subscription) (o : Outcome) (t : Subscription) (closed : Bool)
    → Hands s o t
    → IsSound t
    → t.closed ≡ closed
    → let p = record_delivered_event (o, t) in Hands s p.0 p.1 × IsSound p.1 × (p.1.closed ≡ closed)
unfolding record_delivered_event
recorded-Hands s (delivered e) t closed h sound same =
    let counted : Subscription = record t {
      pending_delivery_count = fetch_sub t.pending_delivery_count;
    } in
    elim (has_status_update e)
      as (λ b.
        let u = (if b then counted else t) in
        Hands s (delivered e) u × IsSound u × (u.closed ≡ closed)) [
          | true ↦ (h, counted-IsSound t counted.pending_delivery_count sound, same)
          | false ↦ (h, sound, same)
        ]
recorded-Hands s ended t closed h sound same = (h, sound, same)
recorded-Hands s blocked t closed h sound same = (h, sound, same)

rewound-Hands :
    (s r : Subscription) (o : Outcome) (t : Subscription)
    → remaining r ≡ remaining s
    → r.closed ≡ s.closed
    → Hands r o t
    → Hands s o t
rewound-Hands s r (delivered e) t here shut h = sym here ∙ h
rewound-Hands s r ended t here shut h = (sym here ∙ h.0, h.1, sym shut ∙ h.2)
rewound-Hands s r blocked t here shut h = (sym here ∙ h.0, h.1, sym shut ∙ h.2)

pub next-Hands :
    (s : Subscription)
    → IsSound s
    → Hands s (next s).0 (next s).1 × IsSound (next s).1 × ((next s).1.closed ≡ s.closed)
unfolding next wait_for_next
next-Hands s h =
    let begun = start-Keeps s h in
    let r = resume_yielded (start s) in
    let run = resume_yielded-Keeps (start s) begun.0 begun.3 in
    let taken = take_value-Hands r run.0.0 run.0.3 run.1 in
    let shut = run.0.2 ∙ begun.2 in
    recorded-Hands s (take_value r).0 (take_value r).1 s.closed
      (rewound-Hands s r (take_value r).0 (take_value r).1 (run.0.1 ∙ begun.1) shut taken.0)
      (taken.1) (taken.2 ∙ shut)

terminal_last-closed :
    (es : List StreamResponse) (closed : Bool)
    → terminal_last es closed ≡ true
    → terminal_last es true ≡ true
terminal_last-closed [] closed h = refl
terminal_last-closed (e ∷ es) closed h = ground (arith, terminal_last-closed es closed)

-- An open queue holds no terminal event, so that any event can follow.
terminal_last-snoc :
    (es : List StreamResponse) (e : StreamResponse)
    → terminal_last es false ≡ true
    → terminal_last (es ++ e ∷ []) (is_terminal e) ≡ true
terminal_last-snoc [] e h = ground arith
terminal_last-snoc (d ∷ es) e h = ground (arith, terminal_last-snoc es e)

pub deliver-remaining :
    (t : Task) (s : Subscription)
    → IsSound s
    → IsSound (deliver t s)
      × (remaining (deliver t s)
          ≡ (if s.closed then remaining s else remaining s ++ build_status_update_event t ∷ []))
      × ((deliver t s).closed ≡ (if s.closed then true else is_terminal_task_state (state_of t)))
unfolding deliver enqueue signal_subscriber resume await_event await_resume
deliver-remaining t s h = ground (
  arith,
  terminal_last-snoc s.events (build_status_update_event t),
  append_assoc (staged s.current_value) s.events (build_status_update_event t ∷ []),
  append-nil s.events,
)

pub close-remaining :
    (s : Subscription)
    → IsSound s
    → IsSound (close s) × (remaining (close s) ≡ remaining s) × ((close s).closed ≡ true)
unfolding close signal_subscriber resume await_event await_resume
close-remaining s h = ground (arith, terminal_last-closed s.events s.closed)
