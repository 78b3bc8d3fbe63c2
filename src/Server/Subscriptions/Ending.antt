-- ===== src/Server/Subscriptions/Ending.antt =====
-- Subscribe, Cancel and the end of a session in task_subscription_service.cpp.
use a2a_cpp.Base.{
  ℕ, zero, suc, ◌≡◌, refl, sym, ap, ◌∙◌, subst, arith, Bool, true, false, List, [], ◌∷◌, ◌++◌,
  Option, none, some, if◌then◌else◌, ltb, ◌==◌, ==_iff, occurs, distinct, occurs-append,
  distinct-snoc, find, assign, find-assign, Bytes, bytes_eq, bytes_eq_iff, length, length-append,
  get_or, get_or-snoc, Bool-cases, inl, inr,
}
use a2a_cpp.Core.Error.{Result, err, ok, unsupported_operation}
use a2a_cpp.Core.Proto.{Task, state_of, is_terminal_task_state}
use a2a_cpp.Server.Subscriber.{Subscription, opened, close}
use a2a_cpp.Server.Subscriber.Order.{IsSound, opened-IsSound, close-remaining}
use a2a_cpp.Server.Subscriptions.{
  ServiceState, LatestTaskState, service_is_shut_down, no_session, session, change, registered,
  subscribe, held, up_to_date, remove_subscriber, cancel_session, destroy_session,
}
use a2a_cpp.Server.Subscriptions.Sessions.{session-change}
use a2a_cpp.Server.Subscriptions.Registered.{IsService}
use a2a_cpp.Server.Subscriptions.Keeping.{
  IsStep, close-IsStep, change-IsService, unregister-IsService,
}

pub no_session-IsSound : IsSound no_session
no_session-IsSound = (refl, (refl, refl, refl, refl))

-- A write that ends a session does not reach a position out of range.
pub close_at-closed :
    (h : ℕ) (v : ServiceState)
    → IsSound (session v h)
    → (session (change close v h) h).closed ≡ true
close_at-closed h v sound = elim (Bool-cases (ltb h (length v.sessions))) [
  | inl inside ↦
      ap (λ s. s.closed) (session-change close v h h)
      ∙ ground (arith, inside, ==_iff h h, close-remaining (session v h) sound)
  | inr outside ↦
      ap (λ s. s.closed) (session-change close v h h)
      ∙ ground (arith, outside, out_of_range v.sessions h outside)
]
  where
    out_of_range :
        (ss : List Subscription) (i : ℕ)
        → ltb i (length ss) ≡ false
        → (get_or ss i no_session).closed ≡ true
    out_of_range [] i out = refl
    out_of_range (s ∷ ss) zero out = ground arith
    out_of_range (s ∷ ss) (suc i) out = out_of_range ss i (ground (arith, out))

cancelled-IsStep : (s : Subscription) → IsStep s (record s { cancelled = true })
cancelled-IsStep s = (λ h. ground (arith, h), refl, λ c. c, λ a. a)

destroyed-IsStep : (s : Subscription) → IsStep s (record s { alive = false })
destroyed-IsStep s = (λ h. ground (arith, h), refl, λ c. c, λ a. absurd (cc a))

pub cancel-IsService : (h : ℕ) (v : ServiceState) → IsService v → IsService (cancel_session h v)
unfolding cancel_session remove_subscriber
cancel-IsService h v w =
    let marked : ServiceState = change (λ s. record s { cancelled = true }) v h in
    let w1 : IsService marked =
      change-IsService (λ s. record s { cancelled = true }) v h w
        (cancelled-IsStep (session v h)) in
    let w2 : IsService (change close marked h) =
      change-IsService close marked h w1 (close-IsStep (session marked h) (w1.sound h)) in
    let shut = close_at-closed h marked (w1.sound h) in
    let done = unregister-IsService h (session marked h).task_id (change close marked h) w2 shut in
    elim (Bool-cases (session v h).cancelled) [
      | inl again ↦
          subst (λ b. IsService (if b then v else remove_subscriber h marked)) (sym again) w
      | inr first ↦
          subst (λ b. IsService (if b then v else remove_subscriber h marked)) (sym first) done
    ]

pub destroy-IsService : (h : ℕ) (v : ServiceState) → IsService v → IsService (destroy_session h v)
unfolding destroy_session
destroy-IsService h v w =
    change-IsService (λ s. record s { alive = false }) (cancel_session h v) h
      (cancel-IsService h v w) (destroyed-IsStep (session (cancel_session h v) h))

up_to_date_id : (o : Option LatestTaskState) (t : Task) → (up_to_date o t).id ≡ t.id
unfolding up_to_date
up_to_date_id none t = refl
up_to_date_id (some l) t = refl

module _ (t : Task) (c : Task) (same : c.id ≡ t.id) (v : ServiceState) (w : IsService v) where
  abbrev added : ServiceState
  added = record v {
    subscribers_by_task_id =
        assign t.id (registered t.id v ++ length v.sessions ∷ []) v.subscribers_by_task_id;
    sessions = v.sessions ++ opened c ∷ [];
  }

  added-session :
      (j : ℕ) → session added j ≡ (if j == length v.sessions then opened c else session v j)
  added-session j = get_or-snoc v.sessions j (opened c) no_session

  added-registered :
      (id : Bytes)
      → registered id added ≡ (
          if bytes_eq t.id id then registered t.id v ++ length v.sessions ∷ [] else registered id v)
  added-registered id =
      ap held
        (find-assign t.id id (registered t.id v ++ length v.sessions ∷ []) v.subscribers_by_task_id)
      ∙ ground arith

  new_unlisted : (id : Bytes) → occurs (length v.sessions) (registered id v) ≡ false
  new_unlisted id = elim (Bool-cases (occurs (length v.sessions) (registered id v))) [
    | inl found ↦ absurd (omega (arith, (w.in_range id (length v.sessions) found).0))
    | inr out ↦ out
  ]

  added-IsService : v.is_shutdown ≡ false → IsService added
  added-IsService on = record {
    sound = λ j. subst IsSound (sym (added-session j)) (elim (Bool-cases (j == length v.sessions)) [
      | inl new ↦
          subst (λ b. IsSound (if b then opened c else session v j)) (sym new) (opened-IsSound c)
      | inr old ↦ subst (λ b. IsSound (if b then opened c else session v j)) (sym old) (w.sound j)
    ]);
    in_range = λ id j found. ground (
      arith,
      ap (occurs j) (sym (added-registered id)) ∙ found,
      occurs-append j (registered t.id v) (length v.sessions ∷ []),
      w.in_range id j,
      bytes_eq_iff t.id id,
      ==_iff j (length v.sessions),
      ==_iff (length v.sessions) j,
      added-session j,
      same,
      length-append v.sessions (opened c ∷ []),
    );
    once = λ id.
        ap distinct (added-registered id)
        ∙ ground (
          arith,
          w.once id,
          w.once t.id,
          new_unlisted t.id,
          distinct-snoc (registered t.id v) (length v.sessions),
        );
    listed = λ j live there.
        ap (λ s. occurs j (registered s.task_id added)) (added-session j)
        ∙ elim (Bool-cases (j == length v.sessions)) [
          | inl new ↦
              ap (λ b. occurs j (registered (if b then opened c else session v j).task_id added))
                new
              ∙ ap (occurs j) (added-registered c.id)
              ∙ ground (
                arith,
                same,
                new,
                bytes_eq_iff t.id c.id,
                occurs-append j (registered t.id v) (length v.sessions ∷ []),
                ==_iff j (length v.sessions),
                ==_iff (length v.sessions) j,
              )
          | inr old ↦
              ap (λ b. occurs j (registered (if b then opened c else session v j).task_id added))
                old
              ∙ ap (occurs j) (added-registered (session v j).task_id)
              ∙ ground (
                arith,
                old,
                ap (λ s. s.closed) (sym (added-session j)) ∙ live,
                ap (λ s. s.alive) (sym (added-session j)) ∙ there,
                w.listed j,
                bytes_eq_iff t.id (session v j).task_id,
                occurs-append j (registered t.id v) (length v.sessions ∷ []),
              )
        ];
    over = λ off id. absurd (cc (on, off));
  }

pub subscribe-IsService : (t : Task) (v : ServiceState) → IsService v → IsService (subscribe t v).1
unfolding subscribe
subscribe-IsService t v w =
    let c : Task = up_to_date (find t.id v.latest_task_states_by_id) t in
    let same = up_to_date_id (find t.id v.latest_task_states_by_id) t in
    let added_to : ServiceState = added t c same v w in
    let terminal : Bool = is_terminal_task_state (state_of c) in
    let off_result : Result ℕ × ServiceState = (err service_is_shut_down, v) in
    let over_result : Result ℕ × ServiceState =
      (err (unsupported_operation "task is already terminal"), v) in
    let added_result : Result ℕ × ServiceState = (ok (length v.sessions), added_to) in
    elim (Bool-cases v.is_shutdown) [
      | inl off ↦
          subst
            (λ b.
              IsService
                (if b then off_result else if terminal then over_result else added_result).1)
            (sym off) w
      | inr on ↦
          subst
            (λ b.
              IsService
                (if b then off_result else if terminal then over_result else added_result).1)
            (sym on)
            (elim (Bool-cases terminal) [
              | inl over ↦
                  subst (λ b. IsService (if b then over_result else added_result).1) (sym over) w
              | inr live ↦
                  subst (λ b. IsService (if b then over_result else added_result).1) (sym live)
                    (added-IsService t c same v w on)
            ])
    ]
