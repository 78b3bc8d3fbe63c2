-- ===== src/Server/Security/Hiding.antt =====
-- Tasks that a caller cannot see, before DispatchSecurity of src/server/security_policy.cpp and in its
-- answers.
use a2a_cpp.Base.{◌≡◌, ◌≢◌, refl, sym, ◌∙◌, true, false, some, [], Bytes}
use a2a_cpp.Core.Error.{Result, ok, err, Error}
use a2a_cpp.Core.Proto.{Task}
use a2a_cpp.Server.Security.{
  RequestContext, SecurityPolicy, ReadStore, DispatchSecurity, DispatchRequest, get_authorized_task,
  authorized_task, task_id_of, hidden_task, is_task_not_found, authorize_as, identified, authorize,
}
use a2a_cpp.Server.Security.Access.{IsVisible, get_authorized_task_iff}

module _ {S : Type 0} (store : ReadStore S) (policy : SecurityPolicy) where
  -- A task is hidden: it is there, and the caller cannot see it.
  abbrev pub IsHidden : RequestContext → Bytes → S → Type 0
  IsHidden context id s =
      (t : Task) × (store.get id s ≡ ok t) × (policy.can_access_task t context ≡ false)

  -- A task is missing: the store says so.
  abbrev pub IsMissing : Bytes → S → Type 0
  IsMissing id s = (e : Error) × (store.get id s ≡ err e) × (is_task_not_found e ≡ true)

  hidden_answer :
      (context : RequestContext) (id : Bytes) (s : S)
      → IsHidden context id s
      → get_authorized_task store policy context s id ≡ err hidden_task
  unfolding get_authorized_task authorized_task
  hidden_answer context id s h = rw (h.1, authorized_task, h.2) refl

  missing_answer :
      (context : RequestContext) (id : Bytes) (s : S)
      → IsMissing id s
      → get_authorized_task store policy context s id ≡ err hidden_task
  unfolding get_authorized_task authorized_task
  missing_answer context id s h = rw (h.1, authorized_task, h.2) refl

  identified_hidden :
      (request : DispatchRequest) (context : RequestContext) (r : Result Bytes) (s u : S)
      → task_id_of request.payload ≢ []
      → ((identity : Bytes)
          → r ≡ ok identity
          → IsHidden (record context { principal = identity }) (task_id_of request.payload) s)
      → IsMissing (task_id_of request.payload) u
      → identified store policy request context s r ≡ identified store policy request context u r
  unfolding identified authorize_as
  identified_hidden request context (err e) s u named hidden missing = refl
  identified_hidden request context (ok identity) s u named hidden missing =
      let c : RequestContext = record context { principal = identity } in
      let same =
        hidden_answer c (task_id_of request.payload) s (hidden identity refl)
        ∙ sym (missing_answer c (task_id_of request.payload) u missing) in
      rw (same, authorize_as) refl

  -- The answer to a request for a task that the caller cannot see is the same, in the same context,
  -- as for a task that is not there.
  pub authorize-hidden :
      (request : DispatchRequest) (context : RequestContext) (s u : S)
      → task_id_of request.payload ≢ []
      → ((identity : Bytes)
          → policy.authenticate (record context { principal = [] }) ≡ ok identity
          → IsHidden (record context { principal = identity }) (task_id_of request.payload) s)
      → IsMissing (task_id_of request.payload) u
      → let security : DispatchSecurity S = record {
        policy = some policy;
        task_store = some store;
      } in
        authorize security request context s ≡ authorize security request context u
  unfolding authorize
  authorize-hidden request context s u named hidden missing =
      identified_hidden request (record context { principal = [] })
        (policy.authenticate (record context { principal = [] })) s u named hidden missing

module _ {S : Type 0} (store : ReadStore S) (policy : SecurityPolicy) (context : RequestContext)
    (s : S) where
  abbrev pub Sees : Bytes → Type 0
  Sees id = (t : Task) × IsVisible store policy context s id t

  pub seen :
      (id : Bytes) (r : Result Task)
      → get_authorized_task store policy context s id ≡ r
      → (t : Task) → r ≡ ok t
      → Sees id
  seen id r here t good = (t, (get_authorized_task_iff store policy context s id t).0 (here ∙ good))
