-- ===== src/Server/Security/Access.antt =====
-- What DispatchSecurity of src/server/security_policy.cpp lets through.
use a2a_cpp.Base.{
  ◌≡◌, ◌≢◌, ◌↔◌, refl, sym, ap, subst, arith, Bool, true, false, not, Option, none, some, [],
  if◌then◌else◌, Bytes, is_empty, is_empty_iff, Bool-cases, inl, inr,
}
use a2a_cpp.Core.Error.{Result, ok, err, ◌>>=◌, permission_denied}
use a2a_cpp.Core.Proto.{Task}
use a2a_cpp.Server.Security.{
  RequestContext, SecurityPolicy, ReadStore, DispatchSecurity, DispatchRequest, get_authorized_task,
  authorized_task, task_id_of, missing_security_configuration, configured, authorize_as, identified,
  authorize,
}

module _ {S : Type 0} (store : ReadStore S) (policy : SecurityPolicy) (context : RequestContext)
    (s : S) where
  -- A task that is stored under an id and visible to the caller.
  abbrev pub IsVisible : Bytes → Task → Type 0
  IsVisible id t = (store.get id s ≡ ok t) × (policy.can_access_task t context ≡ true)

  authorized_task_iff :
      (r : Result Task) (t : Task)
      → (authorized_task policy context r ≡ ok t)
        ↔ ((r ≡ ok t) × (policy.can_access_task t context ≡ true))
  unfolding authorized_task
  authorized_task_iff (err e) t = ground arith
  authorized_task_iff (ok u) t = ground arith

  pub get_authorized_task_iff :
      (id : Bytes) (t : Task)
      → (get_authorized_task store policy context s id ≡ ok t) ↔ IsVisible id t
  unfolding get_authorized_task
  get_authorized_task_iff id t = authorized_task_iff (store.get id s) t

  -- What Authorize asks of a request for an identity.
  abbrev pub IsAllowed : DispatchRequest → Type 0
  IsAllowed request =
      (task_id_of request.payload ≢ [] → (t : Task) × IsVisible (task_id_of request.payload) t)
      × (policy.authorize_operation request context ≡ true)

  continued :
      (r : Result Task) (b : Bool)
      → ((r >>= λ t. if not b then err permission_denied else ok (tt {0})) ≡ ok (tt {0}))
        ↔ (((t : Task) × (r ≡ ok t)) × (b ≡ true))
  continued (err e) b = ground arith
  continued (ok t) b = (λ h. ((t, refl), ground (arith, h)), λ h. ground (arith, h))

  authorize_as_iff :
      (request : DispatchRequest)
      → (authorize_as store policy request context s ≡ ok tt) ↔ IsAllowed request
  unfolding authorize_as
  authorize_as_iff request = elim (Bool-cases (is_empty (task_id_of request.payload))) [
    | inl none_named ↦
        rw (none_named, authorize_as) (ground (arith, is_empty_iff (task_id_of request.payload)))
    | inr named ↦
        let id : Bytes = task_id_of request.payload in
        let c =
          continued (get_authorized_task store policy context s id)
            (policy.authorize_operation request context) in
        let filled : id ≢ [] = λ e. absurd (cc (named, (is_empty_iff id).1 e)) in
        rw (named, authorize_as)
          (
            (λ h.
                let p = c.0 h in
                (λ some_id. (p.0.0, (get_authorized_task_iff id p.0.0).0 p.0.1), p.1)),
            (λ a. let p = a.0 filled in c.1 ((p.0, (get_authorized_task_iff id p.0).1 p.1), a.1)),
          )
  ]

module _ {S : Type 0} (s : S) where
  -- What lets a request through: a configuration, an identity that is not empty, and what it is allowed.
  abbrev pub IsAdmitted :
      DispatchSecurity S → DispatchRequest → RequestContext → RequestContext → Type 0
  IsAdmitted security request context named =
      (policy : SecurityPolicy) × (store : ReadStore S) × (identity : Bytes) × (security.policy
        ≡ some policy)
      × (security.task_store ≡ some store)
      × (policy.authenticate (record context { principal = [] }) ≡ ok identity)
      × (identity ≢ [])
      × (named ≡ record context { principal = identity })
      × IsAllowed store policy named s request

  pub if-other :
      {A : Type 0} (b : Bool) {x y z : A}
      → (if b then x else y) ≡ z
      → (x ≡ z → ⊥)
      → (b ≡ false) × (y ≡ z)
  if-other true h other = absurd (other h)
  if-other false h other = (refl, h)

  identified_sound :
      (store : ReadStore S) (policy : SecurityPolicy) (request : DispatchRequest)
      (context : RequestContext) (r : Result Bytes)
      → (named : RequestContext) → identified store policy request context s r ≡ (ok tt, named)
      → (identity : Bytes) × (r ≡ ok identity)
        × (identity ≢ [])
        × (named ≡ record context { principal = identity })
        × IsAllowed store policy named s request
  unfolding identified
  identified_sound store policy request context (err e) named h = absurd (cc (ap (λ p. p.0) h))
  identified_sound store policy request context (ok identity) named h =
      let named_so : RequestContext = record context { principal = identity } in
      let split = if-other (is_empty identity) h (λ e. absurd (cc (ap (λ p. p.0) e))) in
      let same : named_so ≡ named = ap (λ p. p.1) split.1 in
      let passed : authorize_as store policy request named_so s ≡ ok tt = ap (λ p. p.0) split.1 in
      (
        identity,
        refl,
        (λ e. absurd (cc (split.0, (is_empty_iff identity).1 e))),
        sym same,
        subst (λ c. IsAllowed store policy c s request) same
            ((authorize_as_iff store policy named_so s request).0 passed),
      )

  -- Authorize lets a request through only with a policy and a store, for an identity that the policy
  -- returned, not empty, which the context then names; if the request names a task, the task is
  -- stored and visible to that identity; and the policy allows the operation.
  pub authorize_sound :
      (security : DispatchSecurity S) (request : DispatchRequest) (context named : RequestContext)
      → authorize security request context s ≡ (ok tt, named)
      → IsAdmitted security request context named
  unfolding authorize
  authorize_sound security request context named h =
      configured_sound security.policy security.task_store refl refl h
    where
      configured_sound :
          (o : Option SecurityPolicy) (q : Option (ReadStore S))
          → security.policy ≡ o
          → security.task_store ≡ q
          → configured o q
              (err missing_security_configuration, record context { principal = [] })
              (λ policy store.
                identified store policy request
                  (record context { principal = [] })
                  s
                  (policy.authenticate (record context { principal = [] })))
            ≡ (ok tt, named)
          → IsAdmitted security request context named
      configured_sound none q a b g = absurd (cc (ap (λ p. p.0) g))
      configured_sound (some policy) none a b g = absurd (cc (ap (λ p. p.0) g))
      configured_sound (some policy) (some store) a b g =
          let r =
            identified_sound store policy request (record context { principal = [] })
              (policy.authenticate (record context { principal = [] })) named g in
          (policy, store, r.0, a, b, r.1, r.2, r.3, r.4)
