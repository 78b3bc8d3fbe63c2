-- ===== src/Server/Security/Streams/Examples.antt =====
-- Runs of the guarded stream of src/server/security_policy.cpp.
use a2a_cpp.Base.{◌≡◌, ◌≢◌, refl, Bool, true, false, if◌then◌else◌, none, some, [], codes, ℕ, suc}
use a2a_cpp.Core.Error.{ok, err, internal_error, task_not_found}
use a2a_cpp.Core.Proto.{Task, default_task, default_message}
use a2a_cpp.Core.Stream.{message}
use a2a_cpp.Server.Security.{
  RequestContext, SecurityPolicy, ReadStore, get_authorized_task, authorized_task, hidden_task,
}
use a2a_cpp.Server.Security.Hiding.{Sees}
use a2a_cpp.Server.Security.Streams.{
  AuthorizedStream, Read, event_task_id, bound, admit, taken, guarded, read_stream,
}
use a2a_cpp.Server.Security.Streams.Guard.{GoesOut, read_stream_sound}

abbrev one : Task
one = record default_task { id = codes "t" }

abbrev store : ReadStore Bool
store = record {
  get = λ id held. if held then ok one else err (task_not_found "t");
  list = λ query held. err (internal_error "not listed");
}

abbrev policy : SecurityPolicy
policy = record {
  authenticate = λ context. ok (codes "caller");
  authorize_operation = λ request context. true;
  can_access_task = λ t context. true;
  scope_task_list = λ query context. some query;
}

abbrev context : RequestContext
context = record {
  request_id = none;
  remote_address = none;
  auth_metadata = [];
  client_headers = [];
  protocol_version = [];
  principal = [];
}

-- A session that gives a message without a task and counts its reads.
abbrev read : Read ℕ
read n = (ok (some (message default_message)), suc n)

abbrev bound_to_one : ℕ → AuthorizedStream ℕ
bound_to_one n = record { session = n; task_id = codes "t" }

-- The task is there before and behind the read.
message_read :
    read_stream store policy context true true read (bound_to_one 0)
    ≡ (ok (some (message default_message)), bound_to_one 1)
unfolding read_stream taken admit bound guarded event_task_id get_authorized_task authorized_task
message_read = refl

-- The task is taken away while the read waits.
message_hidden :
    read_stream store policy context true false read (bound_to_one 0)
    ≡ (err hidden_task, bound_to_one 1)
unfolding read_stream taken admit bound guarded event_task_id get_authorized_task authorized_task
message_hidden = refl

read_stream_sound_example :
    GoesOut store policy context true (codes "t") (message default_message) (codes "t")
    × ((bound_to_one 0).task_id ≢ [] → Sees store policy context true (codes "t"))
read_stream_sound_example =
    read_stream_sound store policy context true true read (bound_to_one 0) (bound_to_one 1)
      (message default_message) message_read
