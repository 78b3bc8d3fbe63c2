-- ===== src/Server/Subscriptions/Keeping.antt =====
-- The other operations of task_subscription_service.cpp and the lists of subscribers.
use a2a_cpp.Base.{
  ℕ, ◌<◌, ◌≡◌, refl, sym, ap, ◌∙◌, subst, arith, true, false, not, ◌&&◌, List, Option, none, some,
  if◌then◌else◌, ltb, ◌==◌, ==_iff, occurs, distinct, occurs-keep, distinct-keep, is_empty,
  is_empty_iff, keep, find, assign, erase, find-assign, find-erase, Bytes, bytes_eq, bytes_eq_iff,
  length, length-set, get_or, Bool-cases, inl, inr,
}
use a2a_cpp.Server.Subscriber.{Subscription, close, next}
use a2a_cpp.Server.Subscriber.Order.{IsSound, next-Hands, close-remaining}
use a2a_cpp.Server.Subscriber.Owner.{close-SameOwner, next-SameOwner}
use a2a_cpp.Server.Subscriptions.{
  ServiceState, no_session, session, change, registered, held, drop_from, unregister, next_of,
}
use a2a_cpp.Server.Subscriptions.Sessions.{session-change}
use a2a_cpp.Server.Subscriptions.Registered.{IsService}

-- A step of one subscription that can only close it, or end its session.
abbrev pub IsStep : Subscription → Subscription → Type 0
IsStep s t =
    (IsSound s → IsSound t)
    × (t.task_id ≡ s.task_id)
    × (t.closed ≡ false → s.closed ≡ false)
    × (t.alive ≡ true → s.alive ≡ true)

pub next-IsStep : (s : Subscription) → IsSound s → IsStep s (next s).1
next-IsStep s h = (
  λ g. (next-Hands s g).1,
  (next-SameOwner s).0,
  λ c. sym (next-Hands s h).2 ∙ c,
  λ a. sym (next-SameOwner s).1 ∙ a,
)

pub close-IsStep : (s : Subscription) → IsSound s → IsStep s (close s)
close-IsStep s h = (
  λ g. (close-remaining s g).0,
  (close-SameOwner s).0,
  λ c. absurd (cc ((close-remaining s h).2)),
  λ a. sym (close-SameOwner s).1 ∙ a,
)

pub change-IsStep :
    (f : Subscription → Subscription) (v : ServiceState) (h : ℕ)
    → IsStep (session v h) (f (session v h))
    → (j : ℕ) → IsStep (session v j) (session (change f v h) j)
change-IsStep f v h step j =
    subst (λ s. IsStep (session v j) s) (sym (session-change f v h j))
      (elim (Bool-cases ((j == h) && ltb h (length v.sessions))) [
        | inl hit ↦
            subst (λ b. IsStep (session v j) (if b then f (session v j) else session v j)) (sym hit)
              (subst (λ i. IsStep (session v i) (f (session v i))) (ground (arith, hit, ==_iff j h))
                step)
        | inr miss ↦
            subst (λ b. IsStep (session v j) (if b then f (session v j) else session v j))
              (sym miss) (λ g. g, refl, λ c. c, λ a. a)
      ])

pub change-IsService :
    (f : Subscription → Subscription) (v : ServiceState) (h : ℕ)
    → IsService v
    → IsStep (session v h) (f (session v h))
    → IsService (change f v h)
change-IsService f v h w step =
    let kept : (j : ℕ) → IsStep (session v j) (session (change f v h) j) =
      change-IsStep f v h step in
    record {
      sound = λ j. (kept j).0 (w.sound j);
      in_range = λ id j found.
          let old = w.in_range id j found in
          (
            subst (λ n. j < n) (sym (length-set v.sessions h (f (session v h)))) old.0,
            (kept j).1 ∙ old.1,
          );
      once = w.once;
      listed = λ j live there.
          ap (λ id. occurs j (registered id v)) (kept j).1
          ∙ w.listed j ((kept j).2 live) ((kept j).3 there);
      over = w.over;
    }

pub next_of-IsService : (h : ℕ) (v : ServiceState) → IsService v → IsService (next_of h v).1
unfolding next_of
next_of-IsService h v w =
    change-IsService (λ s. (next s).1) v h w (next-IsStep (session v h) (w.sound h))

drop_from-registered :
    (h : ℕ) (k : Bytes) (o : Option (List ℕ)) (v : ServiceState)
    → registered k v ≡ held o
    → (id : Bytes)
    → registered id (drop_from h k o v) ≡ (
        if bytes_eq k id
        then keep (λ j. (session v j).alive && not (j == h)) (registered k v)
        else registered id v)
unfolding drop_from
drop_from-registered h k none v here id = ground (arith, here, bytes_eq_iff k id)
drop_from-registered h k (some hs) v here id =
    let left : List ℕ = keep (λ j. (session v j).alive && not (j == h)) hs in
    let step : registered id (drop_from h k (some hs) v)
        ≡ (if bytes_eq k id then left else registered id v) =
      elim (Bool-cases (is_empty left)) [
        | inl gone ↦
            ap
              (λ b. held (
                find id (
                  if b
                  then erase k v.subscribers_by_task_id
                  else assign k left v.subscribers_by_task_id)))
              gone
            ∙ ap held (find-erase k id v.subscribers_by_task_id)
            ∙ ground (arith, gone, is_empty_iff left)
        | inr stays ↦
            ap
              (λ b. held (
                find id (
                  if b
                  then erase k v.subscribers_by_task_id
                  else assign k left v.subscribers_by_task_id)))
              stays
            ∙ ap held (find-assign k id left v.subscribers_by_task_id)
            ∙ ground (arith, stays)
      ] in
    step
    ∙ ap
        (λ l.
          if bytes_eq k id
          then keep (λ j. (session v j).alive && not (j == h)) l
          else registered id v)
        (sym here)

drop_from-other :
    (h : ℕ) (k : Bytes) (o : Option (List ℕ)) (v : ServiceState)
    → ((drop_from h k o v).sessions ≡ v.sessions)
      × ((drop_from h k o v).is_shutdown ≡ v.is_shutdown)
unfolding drop_from
drop_from-other h k none v = (refl, refl)
drop_from-other h k (some hs) v = (refl, refl)

module _ (h : ℕ) (k : Bytes) (v : ServiceState) (w : IsService v)
    (shut : (session v h).closed ≡ true) where
  abbrev rest_of : Bytes → List ℕ
  rest_of id =
      if bytes_eq k id
      then keep (λ j. (session v j).alive && not (j == h)) (registered k v)
      else registered id v

  pub unregister-IsService : IsService (unregister h k v)
  unfolding unregister
  unregister-IsService =
      let v' : ServiceState = unregister h k v in
      let lists : (id : Bytes) → registered id v' ≡ rest_of id =
        drop_from-registered h k (find k v.subscribers_by_task_id) v refl in
      let other = drop_from-other h k (find k v.subscribers_by_task_id) v in
      let at : (j : ℕ) → session v' j ≡ session v j =
        λ j. ap (λ ss. get_or ss j no_session) other.0 in
      record {
        sound = λ j. subst IsSound (sym (at j)) (w.sound j);
        in_range = λ id j found.
            let old = w.in_range id j (
              ground (
                arith,
                ap (occurs j) (sym (lists id)) ∙ found,
                bytes_eq_iff k id,
                occurs-keep (λ j. (session v j).alive && not (j == h)) j (registered k v),
              )) in
            (
              subst (λ n. j < n) (sym (ap length other.0)) old.0,
              ap (λ s. s.task_id) (at j) ∙ old.1,
            );
        once = λ id.
            ap distinct (lists id)
            ∙ ground (
              arith,
              w.once id,
              distinct-keep (λ j. (session v j).alive && not (j == h)) (registered k v),
              w.once k,
            );
        listed = λ j live there.
            ap (occurs j) (lists (session v' j).task_id)
            ∙ ap (λ s. occurs j (rest_of s.task_id)) (at j)
            ∙ ground (
              arith,
              shut,
              ==_iff j h,
              ap (λ s. s.closed) (sym (at j)) ∙ live,
              ap (λ s. s.alive) (sym (at j)) ∙ there,
              w.listed j,
              bytes_eq_iff k (session v j).task_id,
              occurs-keep (λ j. (session v j).alive && not (j == h)) j (registered k v),
            );
        over = λ off id.
            lists id ∙ ground (arith, w.over (sym other.1 ∙ off) k, w.over (sym other.1 ∙ off) id);
      }
