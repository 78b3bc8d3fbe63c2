-- ===== src/Server/Subscriptions/Closing.antt =====
-- Shutdown of task_subscription_service.cpp.
use a2a_cpp.Base.{
  ℕ, ◌≡◌, refl, sym, ap, ◌∙◌, subst, arith, true, List, [], ◌∷◌, if◌then◌else◌, ==_iff, occurs,
  distinct, occurs-keep, occurs-append, find, Bytes, Assoc, Bool-cases, inl, inr,
}
use a2a_cpp.Server.Subscriber.{close}
use a2a_cpp.Server.Subscriber.Order.{IsSound}
use a2a_cpp.Server.Subscriptions.{
  ServiceState, session, change, for_each, registered, shutdown, lock_all, held, all_registered,
}
use a2a_cpp.Server.Subscriptions.Sessions.{for_each-other}
use a2a_cpp.Server.Subscriptions.Registered.{IsService}
use a2a_cpp.Server.Subscriptions.Keeping.{IsStep, close-IsStep, change-IsStep}
use a2a_cpp.Server.Subscriptions.Ending.{close_at-closed}

-- A step of for_each that ends every subscription it reaches.
for_each-close-IsStep :
    (hs : List ℕ) (v : ServiceState)
    → ((j : ℕ) → IsSound (session v j))
    → (j : ℕ)
    → IsStep (session v j) (session (for_each close hs v) j)
      × (occurs j hs ≡ true → (session (for_each close hs v) j).closed ≡ true)
unfolding for_each
for_each-close-IsStep [] v sound j = ((λ g. g, refl, λ c. c, λ a. a), λ found. absurd (cc found))
for_each-close-IsStep (h ∷ hs) v sound j =
    let one : (i : ℕ) → IsStep (session v i) (session (change close v h) i) =
      change-IsStep close v h (close-IsStep (session v h) (sound h)) in
    let rest = for_each-close-IsStep hs (change close v h) (λ i. (one i).0 (sound i)) j in
    let both = rest.0 in
    (
      (
        λ g. both.0 ((one j).0 g),
        both.1 ∙ (one j).1,
        λ c. (one j).2 (both.2 c),
        λ a. (one j).3 (both.3 a),
      ),
      λ found. elim (Bool-cases (occurs j hs)) [
        | inl later ↦ rest.1 later
        | inr now ↦
            let same : h ≡ j = ground (arith, found, now, ==_iff h j) in
            let shut =
              subst (λ i. (session (change close v h) i).closed ≡ true) same
                (close_at-closed h v (sound h)) in
            elim (Bool-cases (session (for_each close hs (change close v h)) j).closed) [
              | inl done ↦ done
              | inr live ↦ absurd (cc (both.2 live, shut))
            ]
      ],
    )

all-registered :
    (m : Assoc (List ℕ)) (id : Bytes) (j : ℕ)
    → occurs j (held (find id m)) ≡ true
    → occurs j (all_registered m) ≡ true
unfolding find
all-registered [] id j found = absurd (cc found)
all-registered ((k, hs) ∷ m) id j found =
    ground (arith, found, occurs-append j hs (all_registered m), all-registered m id j)

module _ (v : ServiceState) (w : IsService v) where
  abbrev emptied : ServiceState
  emptied = record v {
    is_shutdown = true;
    subscribers_by_task_id = [];
    latest_task_states_by_id = [];
  }

  abbrev reached : List ℕ
  reached = lock_all v (all_registered v.subscribers_by_task_id)

  shut_down-IsService : IsService (for_each close reached emptied)
  unfolding find
  shut_down-IsService =
      let v' : ServiceState = for_each close reached emptied in
      let kept = for_each-close-IsStep reached emptied w.sound in
      let other = for_each-other close reached emptied in
      let none_listed : (id : Bytes) → registered id v' ≡ [] =
        λ id. ap (λ m. held (find id m)) other.1 in
      record {
        sound = λ j. (kept j).0.0 (w.sound j);
        in_range = λ id j found. absurd (cc (found, none_listed id));
        once = λ id. ap distinct (none_listed id);
        listed = λ j live there.
            let was = w.listed j ((kept j).0.2 live) ((kept j).0.3 there) in
            let hit = all-registered v.subscribers_by_task_id (session v j).task_id j was in
            let shut = (kept j).1 (
              occurs-keep (λ j. (session v j).alive) j (all_registered v.subscribers_by_task_id)
              ∙ ground (arith, hit, (kept j).0.3 there)) in
            absurd (cc (live, shut));
        over = λ off id. none_listed id;
      }

pub shutdown-IsService : (v : ServiceState) → IsService v → IsService (shutdown v)
unfolding shutdown
shutdown-IsService v w = elim (Bool-cases v.is_shutdown) [
  | inl off ↦
      subst (λ b. IsService (if b then v else for_each close (reached v w) (emptied v w))) (sym off)
        w
  | inr on ↦
      subst (λ b. IsService (if b then v else for_each close (reached v w) (emptied v w))) (sym on)
        (shut_down-IsService v w)
]
