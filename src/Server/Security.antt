-- ===== src/Server/Security.antt =====
-- src/server/security_policy.cpp: the checks of DispatchSecurity before and behind an operation. The
-- SecurityPolicy is the embedder's, and an agent card has a type `Card` that is left open.
pub mod Streams
pub mod Selecting
pub mod Access
pub mod Hiding
pub mod Responses
mod Examples
use Prim.Native.Nat.{Ordering}
use Prim.Native.String.{compare}
use a2a_cpp.Base.{
  ℕ, Bool, true, false, not, ◌&&◌, Option, none, some, List, [], ◌∷◌, if◌then◌else◌, Bytes,
  is_empty, Assoc, String,
}
use a2a_cpp.Core.Error.{
  Result, ok, err, Error, remote_protocol, remote_protocol_error, with_http_status, internal_error,
  permission_denied, task_not_found, ◌>>=◌,
}
use a2a_cpp.Core.Proto.{Task, Message, SendMessageRequest, TaskPushNotificationConfig, message_of}
use a2a_cpp.Core.Requests.{
  GetTaskRequest, CancelTaskRequest, GetTaskPushNotificationConfigRequest,
  DeleteTaskPushNotificationConfigRequest, ListTaskPushNotificationConfigsRequest,
  GetExtendedAgentCardRequest, SendMessageResponse, task, message,
  ListTaskPushNotificationConfigsResponse,
}
use a2a_cpp.Tasks.Listing.{ListTasksRequest, ListTasksResponse}

-- include/a2a/server/request_context.h
pub record RequestContext : Type 0 where
  pub request_id : Option Bytes
  pub remote_address : Option Bytes
  pub auth_metadata : Assoc Bytes
  pub client_headers : Assoc Bytes
  pub protocol_version : Bytes
  pub principal : Bytes

pub data DispatcherOperation : Type 0 where
  send_message send_streaming_message get_task subscribe_task list_tasks cancel_task :
      DispatcherOperation
  create_task_push_notification_config get_task_push_notification_config : DispatcherOperation
  list_task_push_notification_configs delete_task_push_notification_config : DispatcherOperation
  get_extended_agent_card : DispatcherOperation

-- The variant of DispatchRequest.
pub data RequestPayload : Type 0 where
  sending : SendMessageRequest → RequestPayload
  getting : GetTaskRequest → RequestPayload
  listing : ListTasksRequest → RequestPayload
  cancelling : CancelTaskRequest → RequestPayload
  config_creating : TaskPushNotificationConfig → RequestPayload
  config_getting : GetTaskPushNotificationConfigRequest → RequestPayload
  config_listing : ListTaskPushNotificationConfigsRequest → RequestPayload
  config_deleting : DeleteTaskPushNotificationConfigRequest → RequestPayload
  card_getting : GetExtendedAgentCardRequest → RequestPayload

pub record DispatchRequest : Type 0 where
  pub operation : DispatcherOperation
  pub payload : RequestPayload

-- DispatchPayload; a stream is a pointer to a session of type `X`.
pub data DispatchPayload (Card X : Type 0) : Type 0 where
  sent : SendMessageResponse → DispatchPayload Card X
  stream : Option X → DispatchPayload Card X
  one_task : Task → DispatchPayload Card X
  task_list : ListTasksResponse → DispatchPayload Card X
  config : TaskPushNotificationConfig → DispatchPayload Card X
  config_list : ListTaskPushNotificationConfigsResponse → DispatchPayload Card X
  card : Card → DispatchPayload Card X
  nothing : DispatchPayload Card X

pub record SecurityPolicy : Type 0 where
  pub authenticate : RequestContext → Result Bytes
  pub authorize_operation : DispatchRequest → RequestContext → Bool
  pub can_access_task : Task → RequestContext → Bool
  pub scope_task_list : ListTasksRequest → RequestContext → Option ListTasksRequest

-- The operations of a TaskStore with the state `S` that are called here.
pub record ReadStore (S : Type 0) : Type 0 where
  pub get : Bytes → S → Result Task
  pub list : ListTasksRequest → S → Result ListTasksResponse

abbrev pub missing_security_configuration : Error
missing_security_configuration = internal_error "security policy and task store are required"

abbrev pub empty_identity : Error
empty_identity =
    with_http_status (remote_protocol_error "authentication returned an empty identity") 401

-- `TaskNotFound()`
abbrev pub hidden_task : Error
hidden_task = task_not_found "task not found"

abbrev pub string_eq : String → String → Bool
string_eq a b = elim (compare a b) [ Ordering.eq ↦ true | _ ↦ false ]

abbrev pub is_task_not_found : Error → Bool
is_task_not_found e = elim e.code [
  | remote_protocol ↦ elim e.protocol_code [ none ↦ false | some c ↦ string_eq c "-32001" ]
  | _ ↦ false
]

-- GetAuthorizedTask, on what the store returned.
authorized_task : SecurityPolicy → RequestContext → Result Task → Result Task
authorized_task policy context (err e) = if is_task_not_found e then err hidden_task else err e
authorized_task policy context (ok t) =
    if not (policy.can_access_task t context) then err hidden_task else ok t

module _ {S : Type 0} (store : ReadStore S) (policy : SecurityPolicy) (context : RequestContext)
    (s : S) where
  pub get_authorized_task : Bytes → Result Task
  unfolding authorized_task
  get_authorized_task id = authorized_task policy context (store.get id s)

  -- ResponseAuthorizer::AuthorizeId
  authorize_id : Bytes → Result (Unit {0})
  unfolding get_authorized_task
  authorize_id id = if is_empty id then err hidden_task else (get_authorized_task id >>= λ t. ok tt)

  -- ResponseAuthorizer on a task
  authorize_task : Task → Result (Unit {0})
  authorize_task t =
      if not (is_empty t.id) && policy.can_access_task t context then ok tt else err hidden_task

  authorize_sent : SendMessageResponse → Result (Unit {0})
  unfolding authorize_id authorize_task
  authorize_sent (task t) = authorize_task t
  authorize_sent (message m) = if not (is_empty m.task_id) then authorize_id m.task_id else ok tt
  authorize_sent SendMessageResponse.not_set = ok tt

  authorize_configs : List TaskPushNotificationConfig → Result (Unit {0})
  unfolding authorize_id
  authorize_configs [] = ok tt
  authorize_configs (c ∷ cs) = authorize_id c.task_id >>= λ _. authorize_configs cs

  -- `std::visit` of ResponseAuthorizer
  pub authorize_payload : {Card X : Type 0} → DispatchPayload Card X → Result (Unit {0})
  unfolding authorize_id authorize_task authorize_sent authorize_configs
  authorize_payload (sent response) = authorize_sent response
  authorize_payload (stream x) = ok tt
  authorize_payload (one_task t) = authorize_task t
  authorize_payload (task_list l) = ok tt
  authorize_payload (config c) = authorize_id c.task_id
  authorize_payload (config_list l) = authorize_configs l.configs
  authorize_payload (card c) = ok tt
  authorize_payload nothing = ok tt

-- TaskId
pub task_id_of : RequestPayload → Bytes
task_id_of (sending r) = (message_of r).task_id
task_id_of (getting r) = r.id
task_id_of (listing r) = []
task_id_of (cancelling r) = r.id
task_id_of (config_creating r) = r.task_id
task_id_of (config_getting r) = r.task_id
task_id_of (config_listing r) = r.task_id
task_id_of (config_deleting r) = r.task_id
task_id_of (card_getting r) = []

-- `policy_` and `task_store_`, either of which can be null.
pub record DispatchSecurity (S : Type 0) : Type 0 where
  pub policy : Option SecurityPolicy
  pub task_store : Option (ReadStore S)

-- What follows where neither pointer is null.
abbrev pub configured {ℓ} :
    {S : Type 0} {A : Type ℓ}
    → Option SecurityPolicy
    → Option (ReadStore S)
    → A
    → (SecurityPolicy → ReadStore S → A)
    → A
configured none store missing next = missing
configured (some policy) none missing next = missing
configured (some policy) (some store) missing next = next policy store

module _ {S : Type 0} where
  -- Authorize for an identity that the policy returned.
  authorize_as :
      ReadStore S → SecurityPolicy → DispatchRequest → RequestContext → S → Result (Unit {0})
  unfolding get_authorized_task task_id_of
  authorize_as store policy request context s =
      let id = task_id_of request.payload in
      let allowed =
        if not (policy.authorize_operation request context) then err permission_denied else ok tt in
      if not (is_empty id)
      then (get_authorized_task store policy context s id >>= λ t. allowed)
      else allowed

  identified :
      ReadStore S
      → SecurityPolicy
      → DispatchRequest
      → RequestContext
      → S
      → Result Bytes
      → Result (Unit {0}) × RequestContext
  unfolding authorize_as
  identified store policy request context s (err e) = (err e, context)
  identified store policy request context s (ok identity) =
      let named = record context { principal = identity } in
      if is_empty identity
      then (err empty_identity, context)
      else (authorize_as store policy request named s, named)

  -- Authorize; the context is an output too.
  pub authorize :
      DispatchSecurity S → DispatchRequest → RequestContext → S → Result (Unit {0}) × RequestContext
  unfolding identified
  authorize security request context s =
      let cleared = record context { principal = [] } in
      configured security.policy security.task_store (err missing_security_configuration, cleared)
        (λ policy store. identified store policy request cleared s (policy.authenticate cleared))

  -- AuthorizeResponse
  pub authorize_response :
      {Card X : Type 0}
      → DispatchSecurity S
      → DispatchPayload Card X
      → RequestContext
      → S
      → Result (Unit {0})
  unfolding authorize_payload
  authorize_response security response context s =
      configured security.policy security.task_store (err missing_security_configuration)
        (λ policy store. authorize_payload store policy context s response)
