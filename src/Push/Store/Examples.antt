-- ===== src/Push/Store/Examples.antt =====
-- Runs of push_notification_store.cpp.
use a2a_cpp.Base.{find, bytes_eq, arith, pos, ◌≡◌, refl, [], ◌∷◌, codes, some}
use a2a_cpp.Push.Store.Paging.{collect, collect-all}
use a2a_cpp.Push.Store.{
  TaskConfigs, InMemoryPushNotificationStore, create_or_update, get, delete, default_config,
}
use a2a_cpp.Push.Store.Positions.{Config}
use a2a_cpp.Push.Store.Consistency.{IsConsistent, view}
use a2a_cpp.Push.Store.Refinement.{
  Simulates, spec_create_or_update, spec_delete, spec_get, create_or_update-Simulates_configs,
  delete-Simulates, get-view_configs, empty-IsConsistent,
}

abbrev config_a : Config
config_a = record default_config { task_id = codes "t"; id = codes "a"; url = codes "u" }

abbrev config_b : Config
config_b = record default_config { task_id = codes "t"; id = codes "b"; url = codes "u" }

abbrev one_config : InMemoryPushNotificationStore
one_config = (create_or_update config_a []).1

abbrev two_configs : InMemoryPushNotificationStore
two_configs = (create_or_update config_b one_config).1

abbrev one_consistent : IsConsistent one_config
one_consistent = (create_or_update-Simulates_configs [] empty-IsConsistent config_a).consistent

abbrev two_consistent : IsConsistent two_configs
two_consistent = (create_or_update-Simulates_configs one_config one_consistent config_b).consistent

create_or_update-Simulates_configs_example :
    Simulates
      (create_or_update config_a two_configs)
      (spec_create_or_update config_a (view two_configs))
create_or_update-Simulates_configs_example =
    create_or_update-Simulates_configs two_configs two_consistent config_a

delete-Simulates_example :
    Simulates
      (delete (codes "t") (codes "a") two_configs)
      (spec_delete (codes "t") (codes "a") (view two_configs))
delete-Simulates_example = delete-Simulates two_configs two_consistent (codes "t") (codes "a")

get-view_configs_example :
    get (codes "t") (codes "b") two_configs ≡ spec_get (codes "t") (codes "b") (view two_configs)
get-view_configs_example = get-view_configs two_configs two_consistent (codes "t") (codes "b")

abbrev configs_of_t : TaskConfigs
configs_of_t = record {
  list_response = config_a ∷ config_b ∷ [];
  config_indices = (codes "a", 0) ∷ (codes "b", 1) ∷ [];
}

abbrev listed_store : InMemoryPushNotificationStore
listed_store = (codes "t", configs_of_t) ∷ []

stored_under_t : find (codes "t") listed_store ≡ some configs_of_t
unfolding find bytes_eq
stored_under_t = refl

collect-all_example : collect 3 (codes "t") (pos 1) [] listed_store ≡ config_a ∷ config_b ∷ []
collect-all_example =
    collect-all listed_store (codes "t") configs_of_t 0 3 (ground arith) stored_under_t
      (omega arith) (omega arith)
