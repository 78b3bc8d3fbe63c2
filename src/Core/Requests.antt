-- ===== src/Core/Requests.antt =====
-- The request and response messages of proto/a2a/v1/a2a.proto that the dispatcher carries.
use a2a_cpp.Base.{Option, List, Bytes, ℤ}
use a2a_cpp.Core.Proto.{Task, Message, Fields, TaskPushNotificationConfig}

pub record GetTaskRequest : Type 0 where
  pub tenant : Bytes
  pub id : Bytes
  pub history_length : Option ℤ

pub record CancelTaskRequest : Type 0 where
  pub tenant : Bytes
  pub id : Bytes
  pub metadata : Option Fields

pub record GetTaskPushNotificationConfigRequest : Type 0 where
  pub tenant : Bytes
  pub task_id : Bytes
  pub id : Bytes

pub record DeleteTaskPushNotificationConfigRequest : Type 0 where
  pub tenant : Bytes
  pub task_id : Bytes
  pub id : Bytes

pub record ListTaskPushNotificationConfigsRequest : Type 0 where
  pub tenant : Bytes
  pub task_id : Bytes
  pub page_size : ℤ
  pub page_token : Bytes

pub record GetExtendedAgentCardRequest : Type 0 where
  pub tenant : Bytes

-- The cases of `payload`.
pub data SendMessageResponse : Type 0 where
  not_set : SendMessageResponse
  task : Task → SendMessageResponse
  message : Message → SendMessageResponse

pub record ListTaskPushNotificationConfigsResponse : Type 0 where
  pub configs : List TaskPushNotificationConfig
  pub next_page_token : Bytes
