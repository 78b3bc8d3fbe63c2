-- ===== src/Server/Subscriptions/Sessions.antt =====
-- What the operations of task_subscription_service.cpp change of each subscription.
use a2a_cpp.Base.{
  ℕ, zero, suc, subst, ◌<◌, ◌≡◌, refl, sym, ap, ◌∙◌, arith, true, false, ◌&&◌, List, [], ◌∷◌,
  if◌then◌else◌, ltb, ◌==◌, ==_iff, occurs, distinct, length, length-set, get_or, get_or-set, set,
  Bool-cases, inl, inr, ltb→lt,
}
use a2a_cpp.Server.Subscriber.{Subscription}
use a2a_cpp.Server.Subscriptions.{ServiceState, session, no_session, change, for_each}

set-out_of_range :
    {A : Type 0} (xs : List A) (h : ℕ) (x : A) → ltb h (length xs) ≡ false → set xs h x ≡ xs
set-out_of_range [] h x out = refl
set-out_of_range (y ∷ ys) zero x out = ground arith
set-out_of_range (y ∷ ys) (suc h) x out = ground (arith, set-out_of_range ys h x)

pub session-change :
    (f : Subscription → Subscription) (v : ServiceState) (h j : ℕ)
    → session (change f v h) j
      ≡ (if (j == h) && ltb h (length v.sessions) then f (session v j) else session v j)
session-change f v h j = elim (Bool-cases (ltb h (length v.sessions))) [
  | inl inside ↦
      get_or-set v.sessions h j (f (session v h)) no_session (ltb→lt h (length v.sessions) inside)
      ∙ ground (arith, inside, ==_iff j h)
  | inr outside ↦
      ap (λ ss. get_or ss j no_session) (set-out_of_range v.sessions h (f (session v h)) outside)
      ∙ ground (arith, outside)
]

pub for_each-other :
    (f : Subscription → Subscription) (hs : List ℕ) (v : ServiceState)
    → (length (for_each f hs v).sessions ≡ length v.sessions)
      × ((for_each f hs v).subscribers_by_task_id ≡ v.subscribers_by_task_id)
      × ((for_each f hs v).is_shutdown ≡ v.is_shutdown)
unfolding for_each
for_each-other f [] v = (refl, refl, refl)
for_each-other f (h ∷ hs) v =
    let rest = for_each-other f hs (change f v h) in
    (rest.0 ∙ length-set v.sessions h (f (session v h)), rest.1, rest.2)

pub for_each-session :
    (f : Subscription → Subscription) (hs : List ℕ) (v : ServiceState) (j : ℕ)
    → distinct hs ≡ true
    → ((h : ℕ) → occurs h hs ≡ true → h < length v.sessions)
    → session (for_each f hs v) j ≡ (if occurs j hs then f (session v j) else session v j)
unfolding for_each
for_each-session f [] v j d range = refl
for_each-session f (h ∷ hs) v j d range =
    let there = range h (ground arith) in
    let rest = for_each-session f hs (change f v h) j (ground arith) (λ i found.
      subst (λ n. i < n) (sym (length-set v.sessions h (f (session v h))))
        (range i (ground arith))) in
    rest ∙ ground (arith, session-change f v h j, ==_iff j h, there)
