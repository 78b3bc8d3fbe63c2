-- ===== src/Server/Security/Examples.antt =====
-- Runs of the checks of src/server/security_policy.cpp.
use a2a_cpp.Base.{◌≡◌, ◌≢◌, ◌↔◌, refl, Bool, true, false, if◌then◌else◌, some, none, [], codes, ℕ}
use a2a_cpp.Core.Error.{ok, err, task_not_found, internal_error}
use a2a_cpp.Core.Proto.{Task, default_task}
use a2a_cpp.Server.Security.{
  RequestContext, SecurityPolicy, ReadStore, DispatchSecurity, DispatchRequest, get_task, getting,
  DispatchPayload, one_task, authorize, identified, authorize_as, get_authorized_task,
  authorized_task, task_id_of, authorize_response,
}
use a2a_cpp.Server.Security.Access.{IsAdmitted, authorize_sound}
use a2a_cpp.Server.Security.Hiding.{authorize-hidden}
use a2a_cpp.Server.Security.Responses.{MayName, authorize_response_iff}

abbrev one : Task
one = record default_task { id = codes "t" }

-- A store that holds one task, or none.
abbrev store : ReadStore Bool
store = record {
  get = λ id there. if there then ok one else err (task_not_found "no such task");
  list = λ query there. err (internal_error "not listed");
}

-- A policy that knows one caller, who sees every task or none.
abbrev policy : Bool → SecurityPolicy
policy sees = record {
  authenticate = λ context. ok (codes "caller");
  authorize_operation = λ request context. true;
  can_access_task = λ t context. sees;
  scope_task_list = λ query context. some query;
}

abbrev request : DispatchRequest
request = record {
  operation = get_task;
  payload = getting (record { tenant = []; id = codes "t"; history_length = none });
}

abbrev context : RequestContext
context = record {
  request_id = none;
  remote_address = none;
  auth_metadata = [];
  client_headers = [];
  protocol_version = [];
  principal = [];
}

abbrev security : Bool → DispatchSecurity Bool
security sees = record { policy = some (policy sees); task_store = some store }

abbrev named : RequestContext
named = record context { principal = codes "caller" }

let_through : authorize (security true) request context true ≡ (ok tt, named)
unfolding authorize identified authorize_as get_authorized_task authorized_task task_id_of
let_through = refl

authorize_sound_example : IsAdmitted true (security true) request context named
authorize_sound_example = authorize_sound true (security true) request context named let_through

some_id : task_id_of request.payload ≢ []
unfolding task_id_of
some_id e = absurd (cc e)

authorize-hidden_example :
    authorize (security false) request context true
    ≡ authorize (security false) request context false
unfolding task_id_of
authorize-hidden_example =
    authorize-hidden store (policy false) request context true false some_id
      (λ identity known. (one, refl, refl)) (task_not_found "no such task", refl, refl)

abbrev response : DispatchPayload ℕ ℕ
response = one_task one

authorize_response_iff_example :
    (authorize_response (security true) response context true ≡ ok tt) ↔ (
      (p : SecurityPolicy) × (t : ReadStore Bool) × (some (policy true) ≡ some p)
      × (some store ≡ some t)
      × MayName t p context true response)
authorize_response_iff_example = authorize_response_iff (security true) response context true
