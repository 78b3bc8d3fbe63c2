-- ===== src/Server/Subscriptions/Registered.antt =====
-- Which subscriptions of task_subscription_service.cpp are registered, and what a publication does
-- to each.
use a2a_cpp.Base.{
  ℕ, ◌<◌, ◌≡◌, refl, sym, ap, ◌∙◌, arith, true, false, ◌&&◌, List, [], Option, none, some,
  if◌then◌else◌, occurs, distinct, occurs-keep, distinct-keep, find, Bytes, bytes_eq, bytes_eq_iff,
  length, Bool-cases, inl, inr,
}
use a2a_cpp.Core.Proto.{Task}
use a2a_cpp.Server.Subscriber.{Subscription, deliver}
use a2a_cpp.Server.Subscriber.Order.{IsSound}
use a2a_cpp.Server.Subscriber.Owner.{deliver-closed}
use a2a_cpp.Server.Subscriptions.{
  ServiceState, session, registered, publish_task_updated, collect, lock_all, held, publish_to,
  with_latest,
}
use a2a_cpp.Server.Subscriptions.Sessions.{for_each-session}

-- Every subscription is sound; the lists of a task hold subscriptions of that task, each once; and
-- every open subscription whose session lives is in the list of its task.
pub record IsService (v : ServiceState) : Type 0 where
  pub sound : (j : ℕ) → IsSound (session v j)
  pub in_range :
      (id : Bytes) (j : ℕ)
      → occurs j (registered id v) ≡ true
      → (j < length v.sessions) × ((session v j).task_id ≡ id)
  pub once : (id : Bytes) → distinct (registered id v) ≡ true
  pub listed :
      (j : ℕ)
      → (session v j).closed ≡ false
      → (session v j).alive ≡ true
      → occurs j (registered (session v j).task_id v) ≡ true
  pub over : v.is_shutdown ≡ true → (id : Bytes) → registered id v ≡ []

-- The effect of a publication on one subscription.
abbrev pub published : Task → Subscription → Subscription
published t s = if s.alive && bytes_eq s.task_id t.id then deliver t s else s

-- A subscription that is not in the list of a task takes no event of that task.
published-unlisted :
    (t : Task) (v : ServiceState) (w : IsService v) (j : ℕ)
    → occurs j (registered t.id v) ≡ false
    → published t (session v j) ≡ session v j
published-unlisted t v w j out = ground (
  arith,
  w.listed j,
  deliver-closed t (session v j) (w.sound j),
  bytes_eq_iff (session v j).task_id t.id,
)

registered-found :
    (id : Bytes) (v : ServiceState) {o : Option (List ℕ)}
    → find id v.subscribers_by_task_id ≡ o
    → registered id v ≡ held o
registered-found id v found = ap held found

lock-in_range :
    (v : ServiceState) (w : IsService v) (id : Bytes) (hs : List ℕ)
    → registered id v ≡ hs
    → (h : ℕ) → occurs h (lock_all v hs) ≡ true
    → h < length v.sessions
lock-in_range v w id hs here h found =
    (w.in_range id h
      (ap (occurs h) here ∙ ground (arith, occurs-keep (λ j. (session v j).alive) h hs, found))).0

publish_to-session :
    (t : Task) (v : ServiceState)
    → IsService v
    → (o : Option (List ℕ)) → registered t.id v ≡ held o
    → (j : ℕ) → session (publish_to t o v) j ≡ published t (session v j)
unfolding publish_to collect
publish_to-session t v w none here j = sym (published-unlisted t v w j (ap (occurs j) here))
publish_to-session t v w (some hs) here j =
    let locked = lock_all v hs in
    for_each-session (deliver t) locked (collect t locked v) j
      (distinct-keep (λ j. (session v j).alive) hs (sym (ap distinct here) ∙ w.once t.id))
      (lock-in_range v w t.id hs here)
    ∙ elim (Bool-cases (occurs j hs)) [
      | inl found ↦ ground (
        arith,
        occurs-keep (λ j. (session v j).alive) j hs,
        found,
        w.in_range t.id j (ap (occurs j) here ∙ found),
        bytes_eq_iff (session v j).task_id t.id,
      )
      | inr out ↦ ground (
        arith,
        occurs-keep (λ j. (session v j).alive) j hs,
        out,
        published-unlisted t v w j (ap (occurs j) here ∙ out),
      )
    ]

with_latest-IsService : (t : Task) (v : ServiceState) → IsService v → IsService (with_latest t v)
with_latest-IsService t v w = record {
  sound = w.sound;
  in_range = w.in_range;
  once = w.once;
  listed = w.listed;
  over = w.over;
}

pub publish-session :
    (t : Task) (v : ServiceState)
    → IsService v
    → (j : ℕ) → session (publish_task_updated t v) j ≡ published t (session v j)
unfolding publish_task_updated
publish-session t v w j = elim (Bool-cases v.is_shutdown) [
  | inl off ↦
      ap
        (λ b.
          session
            (if b then v else publish_to t (find t.id v.subscribers_by_task_id) (with_latest t v))
            j)
        off
      ∙ sym (published-unlisted t v w j (ap (occurs j) (w.over off t.id)))
  | inr on ↦
      ap
        (λ b.
          session
            (if b then v else publish_to t (find t.id v.subscribers_by_task_id) (with_latest t v))
            j)
        on
      ∙ publish_to-session t (with_latest t v) (with_latest-IsService t v w)
          (find t.id v.subscribers_by_task_id) refl j
]
