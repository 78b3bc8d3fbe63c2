-- ===== src/Server/Security/Responses.antt =====
-- The answers that AuthorizeResponse of src/server/security_policy.cpp lets out.
use a2a_cpp.Base.{
  Option, none, some, ap₂, subst, ◌≡◌, ◌≢◌, ◌↔◌, refl, arith, Bool, true, false, not, List, [], ◌∷◌,
  if◌then◌else◌, Bytes, is_empty, is_empty_iff, Bool-cases, inl, inr, All,
}
use a2a_cpp.Core.Error.{Result, ok, err, ◌>>=◌}
use a2a_cpp.Core.Proto.{Task, TaskPushNotificationConfig}
use a2a_cpp.Core.Requests.{SendMessageResponse, task, message}
use a2a_cpp.Server.Security.{
  RequestContext, SecurityPolicy, ReadStore, DispatchPayload, sent, one_task, config, config_list,
  stream, task_list, card, nothing, get_authorized_task, authorize_id, authorize_task,
  authorize_sent, authorize_configs, authorize_payload, authorize_response, DispatchSecurity,
  configured, missing_security_configuration,
}
use a2a_cpp.Server.Security.Access.{get_authorized_task_iff}
use a2a_cpp.Server.Security.Hiding.{Sees}

module _ {S : Type 0} (store : ReadStore S) (policy : SecurityPolicy) (context : RequestContext)
    (s : S) where
  abbrev pub Shown : Bytes → Type 0
  Shown id = (id ≢ []) × Sees store policy context s id

  -- What an answer may name.
  abbrev pub MayName : {Card X : Type 0} → DispatchPayload Card X → Type 0
  MayName (sent (task t)) = (t.id ≢ []) × (policy.can_access_task t context ≡ true)
  MayName (sent (message m)) = m.task_id ≢ [] → Sees store policy context s m.task_id
  MayName (one_task t) = (t.id ≢ []) × (policy.can_access_task t context ≡ true)
  MayName (config c) = Shown c.task_id
  MayName (config_list l) = All (λ c. Shown c.task_id) l.configs
  MayName _ = Unit {0}

  ended_iff : (r : Result Task) → ((r >>= λ t. ok (tt {0})) ≡ ok tt) ↔ ((t : Task) × (r ≡ ok t))
  ended_iff (err e) = ((λ h. absurd (cc h)), (λ h. absurd (cc (h.1))))
  ended_iff (ok t) = ((λ h. (t, refl)), (λ h. refl))

  authorize_id_iff : (id : Bytes) → (authorize_id store policy context s id ≡ ok tt) ↔ Shown id
  unfolding authorize_id
  authorize_id_iff id = elim (Bool-cases (is_empty id)) [
    | inl empty ↦
        rw (empty, authorize_id)
          ((λ h. absurd (cc h)), (λ h. absurd (h.0 ((is_empty_iff id).0 empty))))
    | inr filled ↦
        let e = ended_iff (get_authorized_task store policy context s id) in
        rw (filled, authorize_id)
          (
            (λ h.
                let found = e.0 h in
                (
                  (λ z. absurd (cc (filled, (is_empty_iff id).1 z))),
                  (found.0, (get_authorized_task_iff store policy context s id found.0).0 found.1),
                )),
            (λ h. e.1 (h.1.0, (get_authorized_task_iff store policy context s id h.1.0).1 h.1.1)),
          )
  ]

  authorize_task_iff :
      (t : Task)
      → (authorize_task store policy context s t ≡ ok tt)
        ↔ ((t.id ≢ []) × (policy.can_access_task t context ≡ true))
  unfolding authorize_task
  authorize_task_iff t = ground (arith, is_empty_iff t.id)

  first_iff :
      (id : Bytes) (r rest : Result (Unit {0})) (P : Type 0)
      → authorize_id store policy context s id ≡ r
      → (rest ≡ ok tt) ↔ P
      → ((r >>= λ _. rest) ≡ ok tt) ↔ (Shown id × P)
  first_iff id (err e) rest P here e_rest =
      ((λ h. absurd (cc h)), (λ h. absurd (cc (here, (authorize_id_iff id).1 h.0))))
  first_iff id (ok tt) rest P here e_rest =
      ((λ h. ((authorize_id_iff id).0 here, e_rest.0 h)), (λ h. e_rest.1 h.1))

  authorize_configs_iff :
      (cs : List TaskPushNotificationConfig)
      → (authorize_configs store policy context s cs ≡ ok tt) ↔ All (λ c. Shown c.task_id) cs
  unfolding authorize_configs
  authorize_configs_iff [] = ((λ h. tt), (λ h. refl))
  authorize_configs_iff (c ∷ cs) =
      first_iff c.task_id (authorize_id store policy context s c.task_id)
        (authorize_configs store policy context s cs) (All (λ d. Shown d.task_id) cs) refl
        (authorize_configs_iff cs)

  named_iff :
      (id : Bytes) (b : Bool)
      → is_empty id ≡ b
      → ((if not b then authorize_id store policy context s id else ok tt) ≡ ok tt)
        ↔ (id ≢ [] → Sees store policy context s id)
  named_iff id true empty = ((λ h f. absurd (f ((is_empty_iff id).0 empty))), (λ h. refl))
  named_iff id false filled =
      let e = authorize_id_iff id in
      let named : id ≢ [] = λ z. absurd (cc (filled, (is_empty_iff id).1 z)) in
      ((λ h f. (e.0 h).1), (λ h. e.1 (named, h named)))

  authorize_payload_iff :
      {Card X : Type 0} (response : DispatchPayload Card X)
      → (authorize_payload store policy context s response ≡ ok tt) ↔ MayName response
  unfolding authorize_payload authorize_sent
  authorize_payload_iff (sent SendMessageResponse.not_set) = ((λ h. tt), (λ h. refl))
  authorize_payload_iff (sent (task t)) = authorize_task_iff t
  authorize_payload_iff (sent (message m)) = named_iff m.task_id (is_empty m.task_id) refl
  authorize_payload_iff (stream x) = ((λ h. tt), (λ h. refl))
  authorize_payload_iff (one_task t) = authorize_task_iff t
  authorize_payload_iff (task_list l) = ((λ h. tt), (λ h. refl))
  authorize_payload_iff (config c) = authorize_id_iff c.task_id
  authorize_payload_iff (config_list l) = authorize_configs_iff l.configs
  authorize_payload_iff (card c) = ((λ h. tt), (λ h. refl))
  authorize_payload_iff nothing = ((λ h. tt), (λ h. refl))

some_injective : {A : Type 0} (x y : A) → some x ≡ some y → x ≡ y
some_injective x y h = cc h

pair_injective :
    {A B : Type 0} (x y : A) (u v : B)
    → some x ≡ some y
    → some u ≡ some v
    → ◌≡◌ {A = A × B} (x, u) (y, v)
pair_injective x y u v h k = ap₂ (λ a b. (a, b)) (some_injective x y h) (some_injective u v k)

configured_iff :
    {S Card X : Type 0} (p : Option SecurityPolicy) (t : Option (ReadStore S))
    (response : DispatchPayload Card X) (context : RequestContext) (s : S)
    → (configured p t
          (err missing_security_configuration)
          (λ policy store. authorize_payload store policy context s response)
        ≡ ok tt)
      ↔ ((policy : SecurityPolicy) × (store : ReadStore S) × (p ≡ some policy)
          × (t ≡ some store)
          × MayName store policy context s response)
configured_iff none t response context s = ((λ h. absurd (cc h)), (λ h. absurd (cc (h.2))))
configured_iff (some policy) none response context s =
    ((λ h. absurd (cc h)), (λ h. absurd (cc (h.3))))
configured_iff (some policy) (some store) response context s =
    let e = authorize_payload_iff store policy context s response in
    (
      (λ h. (policy, store, refl, refl, e.0 h)),
      (λ h.
          subst
            (λ q.
              MayName (q.1) (q.0) context s response
              → authorize_payload store policy context s response ≡ ok tt)
            (pair_injective policy h.0 store h.1 h.2 h.3) (e.1) h.4),
    )

-- AuthorizeResponse lets an answer out exactly if there are a policy and a store, each task that it
-- carries has an id and is visible to the caller, and each task that it names is stored and visible; a
-- message need not name a task, a configuration must. Lists of tasks, streams and cards need no task.
pub authorize_response_iff :
    {S Card X : Type 0} (security : DispatchSecurity S) (response : DispatchPayload Card X)
    (context : RequestContext) (s : S)
    → (authorize_response security response context s ≡ ok tt) ↔ (
        (policy : SecurityPolicy) × (store : ReadStore S) × (security.policy ≡ some policy)
        × (security.task_store ≡ some store)
        × MayName store policy context s response)
unfolding authorize_response
authorize_response_iff security response context s =
    configured_iff security.policy security.task_store response context s
