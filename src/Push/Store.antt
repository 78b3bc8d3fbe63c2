-- ===== src/Push/Store.antt =====
-- src/server/push_notifications/push_notification_store.cpp. Each operation runs under the store's
-- lock, so it is one step on the whole state.
pub mod Positions
pub mod Shifting
pub mod Consistency
pub mod Refinement
pub mod Paging
mod Examples
use a2a_cpp.Base.{
  ℕ, zero, suc, ◌+◌, ◌-◌, Bool, true, false, not, ◌&&◌, Option, none, some, List, [], ◌∷◌, ◌++◌,
  ltb, ◌==◌, if◌then◌else◌, min, Bytes, length, get_or, set, take, drop, pop_back, is_empty, Assoc,
  find, assign, erase, ℤ, pos, ltb_ℤ, ◌==ℤ◌, pos_part, size_max, to_decimal, from_chars_unsigned,
}
use a2a_cpp.Core.Error.{Result, ok, err, Error, validation_error, task_not_found, ◌>>=◌}
use a2a_cpp.Core.Proto.{TaskPushNotificationConfig}
use a2a_cpp.Core.Requests.{ListTaskPushNotificationConfigsResponse}

-- `list_response` only ever has its configs set.
pub record TaskConfigs : Type 0 where
  pub list_response : List TaskPushNotificationConfig
  pub config_indices : Assoc ℕ

abbrev pub InMemoryPushNotificationStore : Type 0
InMemoryPushNotificationStore = Assoc TaskConfigs

abbrev pub no_configs : TaskConfigs
no_configs = record { list_response = []; config_indices = [] }

-- What an index out of range would read; there is none in a consistent store.
abbrev pub default_config : TaskPushNotificationConfig
default_config = record {
  tenant = [];
  id = [];
  task_id = [];
  url = [];
  token = [];
  authentication = none;
}

abbrev pub task_id_required : Error
task_id_required = validation_error "push notification task_id is required"

abbrev pub config_id_required : Error
config_id_required = validation_error "push notification id is required"

abbrev pub config_url_required : Error
config_url_required = validation_error "push notification url is required"

abbrev pub task_config_not_found : Error
task_config_not_found = task_not_found "push notification task config not found"

abbrev pub config_not_found : Error
config_not_found = validation_error "push notification config not found"

abbrev pub page_size_invalid : Error
page_size_invalid =
    validation_error "ListTaskPushNotificationConfigsRequest.page_size must be non-negative"

abbrev pub page_token_invalid : Error
page_token_invalid =
    validation_error
      "ListTaskPushNotificationConfigsRequest.page_token must be a non-negative integer"

abbrev pub page_token_out_of_range : Error
page_token_out_of_range =
    validation_error
      "ListTaskPushNotificationConfigsRequest.page_token exceeds available config count"

-- ValidateConfig
abbrev pub validate_config : TaskPushNotificationConfig → Result (Unit {0})
validate_config config =
    if is_empty config.task_id
    then err task_id_required
    else if is_empty config.id
    then err config_id_required
    else if is_empty config.url
    then err config_url_required
    else ok tt

-- ValidateLookup
abbrev pub validate_lookup : Bytes → Bytes → Result (Unit {0})
validate_lookup task_id config_id =
    if is_empty task_id
    then err task_id_required
    else if is_empty config_id
    then err config_id_required
    else ok tt

abbrev token_value : Option (ℕ × Bytes) → Result ℕ
token_value none = err page_token_invalid
token_value (some (n, rest)) = if is_empty rest then ok n else err page_token_invalid

-- ParsePageToken
pub parse_page_token : Bytes → Result ℕ
parse_page_token page_token =
    if is_empty page_token then ok 0 else token_value (from_chars_unsigned size_max page_token)

-- ValidateListRequest
abbrev pub validate_list_request : Bytes → ℤ → Result (Unit {0})
validate_list_request task_id page_size =
    if is_empty task_id
    then err task_id_required
    else if ltb_ℤ page_size (pos 0)
    then err page_size_invalid
    else ok tt

-- `configs_.try_emplace(task_id)` gives the entry that is there, or a new one.
abbrev pub configs_or_new : Option TaskConfigs → TaskConfigs
configs_or_new none = no_configs
configs_or_new (some c) = c

-- the writes of CreateOrUpdate, on the entry of the task
pub put_config : TaskPushNotificationConfig → TaskConfigs → TaskConfigs
put_config config c = elim (find config.id c.config_indices) [
  | some index ↦ record c { list_response = set c.list_response index config }
  | none ↦ record {
    list_response = c.list_response ++ config ∷ [];
    config_indices = assign config.id (length c.list_response) c.config_indices;
  }
]

pub create_or_update :
    TaskPushNotificationConfig
    → InMemoryPushNotificationStore
    → Result TaskPushNotificationConfig × InMemoryPushNotificationStore
create_or_update config s = elim (validate_config config) [
  | err e ↦ (err e, s)
  | ok _ ↦ (
    ok config,
    assign config.task_id (put_config config (configs_or_new (find config.task_id s))) s,
  )
]

abbrev config_at : TaskConfigs → Option ℕ → Result TaskPushNotificationConfig
config_at c none = err config_not_found
config_at c (some index) = ok (get_or c.list_response index default_config)

pub get : Bytes → Bytes → InMemoryPushNotificationStore → Result TaskPushNotificationConfig
get task_id config_id s = do
  _ ← validate_lookup task_id config_id
  elim (find task_id s) [
    | none ↦ err task_config_not_found
    | some c ↦ config_at c (find config_id c.config_indices)
  ]

-- One page of the configs of a task.
pub page_of :
    ℤ → ℕ → List TaskPushNotificationConfig → Result ListTaskPushNotificationConfigsResponse
page_of page_size start source =
    let remaining = length source - start in
    let effective_page_size = if page_size ==ℤ pos 0 then remaining else pos_part page_size in
    let result_size = min effective_page_size remaining in
    if ltb (length source) start
    then err page_token_out_of_range
    else ok (record {
      configs =
          if start == 0 && result_size == length source
          then source
          else take result_size (drop start source);
      next_page_token = if ltb result_size remaining then to_decimal (start + result_size) else [];
    })

pub list_configs :
    Bytes
    → ℤ
    → Bytes
    → InMemoryPushNotificationStore
    → Result ListTaskPushNotificationConfigsResponse
list_configs task_id page_size page_token s = do
  _ ← validate_list_request task_id page_size
  start ← parse_page_token page_token
  elim (find task_id s) [
    | none ↦ ok (record { configs = []; next_page_token = [] })
    | some c ↦ page_of page_size start c.list_response
  ]

-- `SwapElements(index, index + 1)`
abbrev swap_next : ℕ → List TaskPushNotificationConfig → List TaskPushNotificationConfig
swap_next index cs =
    let moved = get_or cs (index + 1) default_config in
    let other = get_or cs index default_config in set (set cs index moved) (index + 1) other

-- The loop of Delete, `count` steps from `index` on.
pub shift_loop : ℕ → ℕ → TaskConfigs → TaskConfigs
shift_loop zero index c = c
shift_loop (suc count) index c =
    let swapped = swap_next index c.list_response in
    shift_loop count (index + 1) (record {
      list_response = swapped;
      config_indices = assign (get_or swapped index default_config).id index c.config_indices;
    })

-- Delete, on the entry of the task
pub remove_at : Bytes → ℕ → TaskConfigs → TaskConfigs
unfolding shift_loop
remove_at config_id config_index c =
    let last_index = length c.list_response - 1 in
    let shifted = shift_loop (last_index - config_index) config_index c in
    record {
      list_response = pop_back shifted.list_response;
      config_indices = erase config_id shifted.config_indices;
    }

-- A task whose last config is gone has no entry.
abbrev store_rest :
    Bytes → TaskConfigs → InMemoryPushNotificationStore → InMemoryPushNotificationStore
store_rest task_id c s = if is_empty c.config_indices then erase task_id s else assign task_id c s

abbrev delete_from :
    Bytes
    → Bytes
    → Option TaskConfigs
    → InMemoryPushNotificationStore
    → InMemoryPushNotificationStore
delete_from task_id config_id none s = s
delete_from task_id config_id (some c) s = elim (find config_id c.config_indices) [
  | none ↦ s
  | some index ↦ store_rest task_id (remove_at config_id index c) s
]

pub delete :
    Bytes
    → Bytes
    → InMemoryPushNotificationStore
    → Result (Unit {0}) × InMemoryPushNotificationStore
delete task_id config_id s = elim (validate_lookup task_id config_id) [
  | err e ↦ (err e, s)
  | ok _ ↦ (ok tt, delete_from task_id config_id (find task_id s) s)
]
