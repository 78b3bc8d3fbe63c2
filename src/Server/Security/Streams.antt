-- ===== src/Server/Security/Streams.antt =====
-- AuthorizedStream and ProtectStream of src/server/security_policy.cpp. The wrapped session has a
-- state `X`, and `read` is its Next, or its NextFor with the time that is given. A read may wait, so the
-- store has a state `s` before it and a state `u` behind it.
pub mod Guard
mod Examples
use a2a_cpp.Base.{ℕ, Bool, true, false, not, Option, none, some, [], if◌then◌else◌, Bytes, is_empty}
use a2a_cpp.Core.Error.{Result, ok, err}
use a2a_cpp.Core.Proto.{Task}
use a2a_cpp.Core.Stream.{
  StreamResponse, task, message, status_update, artifact_update, has_message, message_of_event,
}
use a2a_cpp.Server.Security.{
  RequestContext, SecurityPolicy, ReadStore, DispatchSecurity, DispatchRequest, DispatchPayload,
  stream, get_authorized_task, task_id_of, hidden_task, missing_security_configuration, configured,
}

-- EventTaskId
pub event_task_id : StreamResponse → Bytes
event_task_id (task t) = t.id
event_task_id (status_update u) = u.task_id
event_task_id (artifact_update u) = u.task_id
event_task_id event = (message_of_event event).task_id

-- AuthorizedStream: the wrapped session and `task_id_`.
pub record AuthorizedStream (X : Type 0) : Type 0 where
  pub session : X
  pub task_id : Bytes

abbrev pub Read : Type 0 → Type 0
Read X = X → Result (Option StreamResponse) × X

module _ {S : Type 0} (store : ReadStore S) (policy : SecurityPolicy) (context : RequestContext)
    (u : S) {X : Type 0} where
  -- The event goes out if the task of `id` is there and visible, and the stream is bound to it.
  bound :
      Result Task
      → Bytes
      → StreamResponse
      → AuthorizedStream X
      → Result (Option StreamResponse) × AuthorizedStream X
  bound (err e) id event x = (err e, x)
  bound (ok t) id event x = (ok (some event), record x { task_id = id })

  -- The part of Read behind a read that gave an event.
  pub admit :
      StreamResponse → AuthorizedStream X → Result (Option StreamResponse) × AuthorizedStream X
  unfolding bound event_task_id
  admit event x =
      let id = event_task_id event in
      if not (is_empty id)
      then bound (get_authorized_task store policy context u id) id event x
      else if not (has_message event)
      then (err hidden_task, x)
      else if is_empty x.task_id
      then (ok (some event), x)
      else bound (get_authorized_task store policy context u x.task_id) x.task_id event x

  taken :
      Bytes
      → Result (Option StreamResponse) × X
      → Result (Option StreamResponse) × AuthorizedStream X
  unfolding admit
  taken id (err e, y) = (err e, record { session = y; task_id = id })
  taken id (ok none, y) = (ok none, record { session = y; task_id = id })
  taken id (ok (some event), y) = admit event (record { session = y; task_id = id })

module _ {S : Type 0} (store : ReadStore S) (policy : SecurityPolicy) (context : RequestContext)
    (s u : S) {X : Type 0} where
  guarded :
      Result Task
      → Read X
      → AuthorizedStream X
      → Result (Option StreamResponse) × AuthorizedStream X
  unfolding taken
  guarded (err e) read x = (err e, x)
  guarded (ok t) read x = taken store policy context u x.task_id (read x.session)

  -- AuthorizedStream::Read
  pub read_stream :
      Read X → AuthorizedStream X → Result (Option StreamResponse) × AuthorizedStream X
  unfolding guarded taken
  read_stream read x =
      if not (is_empty x.task_id)
      then guarded (get_authorized_task store policy context s x.task_id) read x
      else taken store policy context u x.task_id (read x.session)

-- What ProtectStream makes of the payload: the stream of a response is wrapped, all else is as it was.
pub data Protected (Card X : Type 0) : Type 0 where
  kept : DispatchPayload Card X → Protected Card X
  wrapped : AuthorizedStream X → Protected Card X

protect_payload : {Card X : Type 0} → Bytes → DispatchPayload Card X → Protected Card X
protect_payload id (stream (some x)) = wrapped (record { session = x; task_id = id })
protect_payload id payload = kept payload

-- ProtectStream
pub protect_stream :
    {S Card X : Type 0}
    → DispatchSecurity S
    → DispatchRequest
    → DispatchPayload Card X
    → Result (Protected Card X)
unfolding protect_payload task_id_of
protect_stream security request response =
    configured security.policy security.task_store (err missing_security_configuration)
      (λ policy store. ok (protect_payload (task_id_of request.payload) response))
