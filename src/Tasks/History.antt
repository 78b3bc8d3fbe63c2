-- ===== src/Tasks/History.antt =====
-- src/server/tasks/task_history.cpp: the retention limit and the detection of duplicates.
-- `serialize` stands for protobuf's `SerializeAsString` of a part.
pub mod Retention
pub mod Dedupe
use a2a_cpp.Base.{
  ℕ, ◌+◌, ◌-◌, Bool, true, false, not, ◌&&◌, Option, none, some, List, [], ◌∷◌, leb, ◌==◌,
  if◌then◌else◌, Bytes, bytes_eq, length, drop, is_empty,
}
use a2a_cpp.Core.Proto.{Task, Message, Part, role_eq}

-- TaskStore::HistoryAppendPolicy
pub data HistoryAppendPolicy : Type 0 where
  no_dedup dedup_by_message_id dedup_by_id_or_fingerprint : HistoryAppendPolicy

-- TaskStore::HistoryDedupeEvent::Reason
pub data Reason : Type 0 where
  duplicate_message_id_and_fingerprint duplicate_fingerprint_without_message_id : Reason

-- TaskStore::HistoryDedupeEvent
pub record HistoryDedupeEvent : Type 0 where
  pub task_id : Bytes
  pub message_id : Bytes
  pub policy : HistoryAppendPolicy
  pub reason : Reason

-- TaskStore::HistoryTelemetrySnapshot
pub record HistoryTelemetrySnapshot : Type 0 where
  pub dedupe_dropped_total : ℕ
  pub dedupe_dropped_by_message_id_and_fingerprint : ℕ
  pub dedupe_dropped_by_fingerprint_without_message_id : ℕ

-- ApplyHistoryLimit; `DeleteSubrange(0, n)` drops the first `n` messages.
unfoldable pub apply_history_limit : Task → ℕ → Task
apply_history_limit task keep_count =
    if keep_count == 0
    then record task { history = [] }
    else if leb (length task.history) keep_count
    then task
    else record task { history = drop (length task.history - keep_count) task.history }

-- ApplyHistoryRetention
unfoldable pub apply_history_retention : Task → Option ℕ → Task
apply_history_retention task none = task
apply_history_retention task (some history_length) = apply_history_limit task history_length

module _ (serialize : Part → Bytes) where
  -- the loop over the parts, after the test that the counts agree
  same_parts : List Part → List Part → Bool
  same_parts (p ∷ ps) (q ∷ qs) =
      let rest = same_parts ps qs in if bytes_eq (serialize p) (serialize q) then rest else false
  same_parts _ _ = true

  unfoldable pub has_same_message_fingerprint : Message → Message → Bool
  unfolding same_parts
  has_same_message_fingerprint existing message =
      if not (bytes_eq existing.task_id message.task_id)
      then false
      else if not (bytes_eq existing.context_id message.context_id)
      then false
      else if not (role_eq existing.role message.role)
      then false
      else if not (length existing.parts == length message.parts)
      then false
      else same_parts existing.parts message.parts

  unfoldable pub has_same_message_id_and_fingerprint : Message → Message → Bool
  has_same_message_id_and_fingerprint existing message =
      not (is_empty existing.message_id)
      && (bytes_eq existing.message_id message.message_id
          && has_same_message_fingerprint existing message)

  unfoldable pub find_message_id_dedupe_reason : List Message → Message → Option Reason
  find_message_id_dedupe_reason [] message = none
  find_message_id_dedupe_reason (existing ∷ history) message =
      if has_same_message_id_and_fingerprint existing message
      then some duplicate_message_id_and_fingerprint
      else find_message_id_dedupe_reason history message

  unfoldable pub find_id_or_fingerprint_dedupe_reason : List Message → Message → Option Reason
  find_id_or_fingerprint_dedupe_reason [] message = none
  find_id_or_fingerprint_dedupe_reason (existing ∷ history) message =
      let rest = find_id_or_fingerprint_dedupe_reason history message in
      let has_message_id = not (is_empty message.message_id) in
      if has_message_id && has_same_message_id_and_fingerprint existing message
      then some duplicate_message_id_and_fingerprint
      else if not has_message_id && has_same_message_fingerprint existing message
      then some duplicate_fingerprint_without_message_id
      else rest

  -- FindHistoryDedupeReason
  unfoldable pub find_history_dedupe_reason :
      List Message → Message → HistoryAppendPolicy → Option Reason
  find_history_dedupe_reason history message no_dedup = none
  find_history_dedupe_reason history message dedup_by_message_id =
      if not (is_empty message.message_id)
      then find_message_id_dedupe_reason history message
      else none
  find_history_dedupe_reason history message dedup_by_id_or_fingerprint =
      find_id_or_fingerprint_dedupe_reason history message

-- UpdateDedupeSnapshot
unfoldable pub update_dedupe_snapshot : HistoryTelemetrySnapshot → Reason → HistoryTelemetrySnapshot
update_dedupe_snapshot s duplicate_message_id_and_fingerprint = record s {
  dedupe_dropped_total = s.dedupe_dropped_total + 1;
  dedupe_dropped_by_message_id_and_fingerprint = s.dedupe_dropped_by_message_id_and_fingerprint + 1;
}
update_dedupe_snapshot s duplicate_fingerprint_without_message_id = record s {
  dedupe_dropped_total = s.dedupe_dropped_total + 1;
  dedupe_dropped_by_fingerprint_without_message_id =
      s.dedupe_dropped_by_fingerprint_without_message_id + 1;
}
