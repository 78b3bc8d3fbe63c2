-- ===== src/Core/Stream.antt =====
-- The stream messages of proto/a2a/v1/a2a.proto.
use a2a_cpp.Base.{Bool, true, false, Option, none, some, Bytes}
use a2a_cpp.Core.Proto.{
  Task, Message, Artifact, Fields, TaskStatus, default_message, default_status,
}

pub record TaskStatusUpdateEvent : Type 0 where
  pub task_id : Bytes
  pub context_id : Bytes
  pub status : Option TaskStatus
  pub metadata : Option Fields

pub record TaskArtifactUpdateEvent : Type 0 where
  pub task_id : Bytes
  pub context_id : Bytes
  pub artifact : Option Artifact
  pub append : Bool
  pub last_chunk : Bool
  pub metadata : Option Fields

-- The cases of `payload`.
pub data StreamResponse : Type 0 where
  not_set : StreamResponse
  task : Task → StreamResponse
  message : Message → StreamResponse
  status_update : TaskStatusUpdateEvent → StreamResponse
  artifact_update : TaskArtifactUpdateEvent → StreamResponse

abbrev pub has_status_update : StreamResponse → Bool
has_status_update (status_update u) = true
has_status_update _ = false

abbrev pub has_message : StreamResponse → Bool
has_message (message m) = true
has_message _ = false

-- `event.status_update().status()` where the event has a status update.
abbrev pub status_of_update : TaskStatusUpdateEvent → TaskStatus
status_of_update u = elim u.status [ none ↦ default_status | some s ↦ s ]

-- `event.message()`
abbrev pub message_of_event : StreamResponse → Message
message_of_event (message m) = m
message_of_event _ = default_message
