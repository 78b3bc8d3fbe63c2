-- ===== src/Core/Proto.antt =====
-- The messages of proto/a2a/v1/a2a.proto that the modelled components use, with the accessors of
-- the generated classes: an absent message field reads as its default value.
use a2a_cpp.Base.{ℕ, Bool, true, false, Option, none, some, List, [], Bytes, ℤ, pos, ◌==ℤ◌}

-- google.protobuf.Value and Struct; a double is kept as its 64 bits.
mutual
  pub data Value : Type 0 where
    null : Value
    number : ℕ → Value
    text : Bytes → Value
    bool : Bool → Value
    struct : Fields → Value
    items : Values → Value

  pub data Values : Type 0 where
    nil : Values
    cons : Value → Values → Values

  pub data Fields : Type 0 where
    end : Fields
    field : Bytes → Value → Fields → Fields

-- Proto3 enumerations are open: a number without a name is kept.
pub data TaskState : Type 0 where
  unspecified submitted working completed failed canceled input_required rejected : TaskState
  auth_required : TaskState
  unrecognized : ℤ → TaskState

pub data Role : Type 0 where
  unspecified user agent : Role
  unrecognized : ℤ → Role

pub record Timestamp : Type 0 where
  pub seconds : ℤ
  pub nanos : ℤ

pub data PartContent : Type 0 where
  not_set : PartContent
  text raw url : Bytes → PartContent
  value : Value → PartContent

pub record Part : Type 0 where
  pub content : PartContent
  pub metadata : Option Fields
  pub filename : Bytes
  pub media_type : Bytes

pub record Message : Type 0 where
  pub message_id : Bytes
  pub context_id : Bytes
  pub task_id : Bytes
  pub role : Role
  pub parts : List Part
  pub metadata : Option Fields
  pub extensions : List Bytes
  pub reference_task_ids : List Bytes

pub record TaskStatus : Type 0 where
  pub state : TaskState
  pub message : Option Message
  pub timestamp : Option Timestamp

pub record Artifact : Type 0 where
  pub artifact_id : Bytes
  pub name : Bytes
  pub description : Bytes
  pub parts : List Part
  pub metadata : Option Fields
  pub extensions : List Bytes

-- `unknown_fields` holds the wire bytes of the fields that the schema does not name.
pub record Task : Type 0 where
  pub id : Bytes
  pub context_id : Bytes
  pub status : Option TaskStatus
  pub artifacts : List Artifact
  pub history : List Message
  pub metadata : Option Fields
  pub unknown_fields : Bytes

pub record SendMessageRequest : Type 0 where
  pub tenant : Bytes
  pub message : Option Message

pub record AuthenticationInfo : Type 0 where
  pub scheme : Bytes
  pub credentials : Bytes

pub record TaskPushNotificationConfig : Type 0 where
  pub tenant : Bytes
  pub id : Bytes
  pub task_id : Bytes
  pub url : Bytes
  pub token : Bytes
  pub authentication : Option AuthenticationInfo

abbrev pub default_message : Message
default_message = record {
  message_id = [];
  context_id = [];
  task_id = [];
  role = Role.unspecified;
  parts = [];
  metadata = none;
  extensions = [];
  reference_task_ids = [];
}

abbrev pub default_status : TaskStatus
default_status = record { state = TaskState.unspecified; message = none; timestamp = none }

abbrev pub default_task : Task
default_task = record {
  id = [];
  context_id = [];
  status = none;
  artifacts = [];
  history = [];
  metadata = none;
  unknown_fields = [];
}

-- `task.status()` and `request.message()`.
abbrev pub status_of : Task → TaskStatus
status_of t = elim t.status [ none ↦ default_status | some s ↦ s ]

abbrev pub message_of : SendMessageRequest → Message
message_of r = elim r.message [ none ↦ default_message | some m ↦ m ]

abbrev pub state_of : Task → TaskState
state_of t = (status_of t).state

-- `task.mutable_status()->set_state(s)`.
abbrev pub set_state : TaskState → Task → Task
set_state s t = record t { status = some (record (status_of t) { state = s }) }

abbrev pub state_number : TaskState → ℤ
state_number TaskState.unspecified = pos 0
state_number submitted = pos 1
state_number working = pos 2
state_number completed = pos 3
state_number failed = pos 4
state_number canceled = pos 5
state_number input_required = pos 6
state_number rejected = pos 7
state_number auth_required = pos 8
state_number (TaskState.unrecognized n) = n

-- `==` of two enumeration values compares their numbers.
abbrev pub state_eq : TaskState → TaskState → Bool
state_eq a b = state_number a ==ℤ state_number b

abbrev pub role_number : Role → ℤ
role_number Role.unspecified = pos 0
role_number user = pos 1
role_number agent = pos 2
role_number (Role.unrecognized n) = n

abbrev pub role_eq : Role → Role → Bool
role_eq a b = role_number a ==ℤ role_number b

-- include/a2a/core/task_states.h
unfoldable pub is_terminal_task_state : TaskState → Bool
is_terminal_task_state completed = true
is_terminal_task_state failed = true
is_terminal_task_state canceled = true
is_terminal_task_state rejected = true
is_terminal_task_state _ = false
