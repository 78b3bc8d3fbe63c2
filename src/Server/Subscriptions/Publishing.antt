-- ===== src/Server/Subscriptions/Publishing.antt =====
-- PublishTaskUpdated of task_subscription_service.cpp: the lists of the subscribers behind it.
use a2a_cpp.Base.{
  ℕ, ◌<◌, ◌≡◌, refl, sym, ap, ◌∙◌, subst, arith, true, false, ◌||◌, List, [], Option, none, some,
  if◌then◌else◌, occurs, distinct, occurs-keep, distinct-keep, is_empty, is_empty_iff, find, assign,
  erase, find-assign, find-erase, Bytes, bytes_eq, bytes_eq_iff, length, Bool-cases, inl, inr,
}
use a2a_cpp.Core.Proto.{Task, state_of, is_terminal_task_state}
use a2a_cpp.Server.Subscriber.{Subscription, deliver}
use a2a_cpp.Server.Subscriber.Order.{IsSound, deliver-remaining}
use a2a_cpp.Server.Subscriber.Owner.{SameOwner, deliver-SameOwner}
use a2a_cpp.Server.Subscriptions.{
  ServiceState, session, registered, publish_task_updated, collect, lock_all, held, publish_to,
  with_latest,
}
use a2a_cpp.Server.Subscriptions.Sessions.{for_each-other}
use a2a_cpp.Server.Subscriptions.Registered.{IsService, published, publish-session}

-- The list of a task behind a publication.
abbrev left_over : Task → Bytes → ServiceState → List ℕ
left_over t id v =
    if bytes_eq t.id id
    then (if is_terminal_task_state (state_of t) then [] else lock_all v (registered t.id v))
    else registered id v

collect-registered :
    (t : Task) (locked : List ℕ) (v : ServiceState) (id : Bytes)
    → registered id (collect t locked v) ≡ (
        if bytes_eq t.id id
        then (if is_terminal_task_state (state_of t) then [] else locked)
        else registered id v)
unfolding collect
collect-registered t locked v id =
    elim (Bool-cases (is_empty locked || is_terminal_task_state (state_of t))) [
      | inl gone ↦
          ap
            (λ b. held (
              find id (
                if b
                then erase t.id v.subscribers_by_task_id
                else assign t.id locked v.subscribers_by_task_id)))
            gone
          ∙ ap held (find-erase t.id id v.subscribers_by_task_id)
          ∙ ground (arith, gone, is_empty_iff locked)
      | inr stays ↦
          ap
            (λ b. held (
              find id (
                if b
                then erase t.id v.subscribers_by_task_id
                else assign t.id locked v.subscribers_by_task_id)))
            stays
          ∙ ap held (find-assign t.id id locked v.subscribers_by_task_id)
          ∙ ground (arith, stays)
    ]

publish_to-registered :
    (t : Task) (v : ServiceState) (o : Option (List ℕ))
    → registered t.id v ≡ held o
    → (id : Bytes) → registered id (publish_to t o v) ≡ left_over t id v
unfolding publish_to
publish_to-registered t v none here id = ground (arith, here, bytes_eq_iff t.id id)
publish_to-registered t v (some hs) here id =
    ap (λ m. held (find id m))
      (for_each-other (deliver t) (lock_all v hs) (collect t (lock_all v hs) v)).1
    ∙ collect-registered t (lock_all v hs) v id
    ∙ ap
        (λ l.
          if bytes_eq t.id id
          then (if is_terminal_task_state (state_of t) then [] else lock_all v l)
          else registered id v)
        (sym here)

publish_to-other :
    (t : Task) (v : ServiceState) (o : Option (List ℕ))
    → (length (publish_to t o v).sessions ≡ length v.sessions)
      × ((publish_to t o v).is_shutdown ≡ v.is_shutdown)
unfolding publish_to collect
publish_to-other t v none = (refl, refl)
publish_to-other t v (some hs) =
    let rest = for_each-other (deliver t) (lock_all v hs) (collect t (lock_all v hs) v) in
    (rest.0, rest.2)

publish-registered :
    (t : Task) (v : ServiceState)
    → IsService v
    → (id : Bytes) → registered id (publish_task_updated t v) ≡ left_over t id v
unfolding publish_task_updated
publish-registered t v w id = elim (Bool-cases v.is_shutdown) [
  | inl off ↦
      ap
        (λ b.
          registered id
            (if b then v else publish_to t (find t.id v.subscribers_by_task_id) (with_latest t v)))
        off
      ∙ ground (arith, w.over off t.id, w.over off id)
  | inr on ↦
      ap
        (λ b.
          registered id
            (if b then v else publish_to t (find t.id v.subscribers_by_task_id) (with_latest t v)))
        on
      ∙ publish_to-registered t (with_latest t v) (find t.id v.subscribers_by_task_id) refl id
]

pub publish-other :
    (t : Task) (v : ServiceState)
    → (length (publish_task_updated t v).sessions ≡ length v.sessions)
      × ((publish_task_updated t v).is_shutdown ≡ v.is_shutdown)
unfolding publish_task_updated
publish-other t v = elim (Bool-cases v.is_shutdown) [
  | inl off ↦ ground (arith, off)
  | inr on ↦
      subst
        (λ b.
          (length
              (if b
                then v
                else publish_to t (find t.id v.subscribers_by_task_id) (with_latest t v)).sessions
            ≡ length v.sessions)
          × ((if b
                then v
                else publish_to t (find t.id v.subscribers_by_task_id)
                    (with_latest t v)).is_shutdown
              ≡ v.is_shutdown))
        (sym on) (publish_to-other t (with_latest t v) (find t.id v.subscribers_by_task_id))
]

-- What a publication leaves of a subscription.
published_lem :
    (t : Task) (s : Subscription)
    → IsSound s
    → IsSound (published t s)
      × SameOwner s (published t s)
      × ((published t s).closed ≡ false
          → (s.closed ≡ false)
            × (s.alive ≡ true → s.task_id ≡ t.id → is_terminal_task_state (state_of t) ≡ false))
published_lem t s h =
    ground (arith, deliver-remaining t s h, deliver-SameOwner t s, bytes_eq_iff s.task_id t.id)

module _ (t : Task) (v : ServiceState) (w : IsService v) where
  left_over-in_range :
      (id : Bytes) (j : ℕ)
      → occurs j (left_over t id v) ≡ true
      → (j < length v.sessions) × ((session v j).task_id ≡ id)
  left_over-in_range id j found = w.in_range id j (
      ground (
        arith,
        found,
        bytes_eq_iff t.id id,
        occurs-keep (λ j. (session v j).alive) j (registered t.id v),
      ))

  left_over-once : (id : Bytes) → distinct (left_over t id v) ≡ true
  left_over-once id =
      ground (
        arith,
        w.once id,
        distinct-keep (λ j. (session v j).alive) (registered t.id v),
        w.once t.id,
      )

  left_over-listed :
      (j : ℕ)
      → (published t (session v j)).closed ≡ false
      → (published t (session v j)).alive ≡ true
      → occurs j (left_over t (published t (session v j)).task_id v) ≡ true
  left_over-listed j live there =
      let kept = published_lem t (session v j) (w.sound j) in
      ap (λ id. occurs j (left_over t id v)) kept.1.0
      ∙ ground (
        arith,
        kept.2 live,
        sym kept.1.1 ∙ there,
        w.listed j,
        bytes_eq_iff t.id (session v j).task_id,
        occurs-keep (λ j. (session v j).alive) j (registered t.id v),
      )

  pub publish-IsService : IsService (publish_task_updated t v)
  publish-IsService =
      let v' : ServiceState = publish_task_updated t v in
      let lists : (id : Bytes) → registered id v' ≡ left_over t id v = publish-registered t v w in
      let at : (j : ℕ) → session v' j ≡ published t (session v j) = publish-session t v w in
      let other = publish-other t v in
      record {
        sound = λ j. subst IsSound (sym (at j)) (published_lem t (session v j) (w.sound j)).0;
        in_range = λ id j found.
            let old = left_over-in_range id j (ap (occurs j) (sym (lists id)) ∙ found) in
            (
              subst (λ n. j < n) (sym other.0) old.0,
              ap (λ s. s.task_id) (at j) ∙ (published_lem t (session v j) (w.sound j)).1.0 ∙ old.1,
            );
        once = λ id. ap distinct (lists id) ∙ left_over-once id;
        listed = λ j live there.
            ap (occurs j) (lists (session v' j).task_id)
            ∙ ap (λ s. occurs j (left_over t s.task_id v)) (at j)
            ∙ left_over-listed j (ap (λ s. s.closed) (sym (at j)) ∙ live)
                (ap (λ s. s.alive) (sym (at j)) ∙ there);
        over = λ off id.
            lists id
            ∙ ground (arith, w.over (sym other.1 ∙ off) t.id, w.over (sym other.1 ∙ off) id);
      }
