-- ===== src/Push/Store/Consistency.antt =====
-- The invariant of the containers in push_notification_store.cpp.
use a2a_cpp.Base.{
  ◌≡◌, ◌≢◌, refl, sym, subst, ◌∙◌, Option, none, some, List, [], ◌∷◌, arith, Bool-cases, inl, inr,
  Option-cases, Bytes, bytes_eq, bytes_eq_iff, length, find, assign, erase, find-assign, find-erase,
}
use a2a_cpp.Push.Store.{TaskConfigs, InMemoryPushNotificationStore, configs_or_new, put_config}
use a2a_cpp.Push.Store.Positions.{
  Config, position, position-append, position-replace, replace_config-new, IsDistinct-set,
  IsDistinct-new, replace_config,
}
use a2a_cpp.Push.Store.Shifting.{IsIndexed}

-- Every entry has its indices right and holds a config.
pub record IsConsistent (s : InMemoryPushNotificationStore) : Type 0 where
  pub entries :
      (t : Bytes) (c : TaskConfigs) → find t s ≡ some c → IsIndexed c.list_response c.config_indices
  pub filled : (t : Bytes) (c : TaskConfigs) → find t s ≡ some c → c.list_response ≢ []

abbrev pub listed : Option TaskConfigs → List Config
listed none = []
listed (some c) = c.list_response

-- The configs of each task.
abbrev pub view : InMemoryPushNotificationStore → Bytes → List Config
view s t = listed (find t s)

pub put_config-IsIndexed :
    (config : Config) (c : TaskConfigs)
    → IsIndexed c.list_response c.config_indices
    → ((put_config config c).list_response ≡ replace_config config c.list_response)
      × IsIndexed (put_config config c).list_response (put_config config c).config_indices
unfolding put_config position
put_config-IsIndexed config c v = elim (Option-cases (find config.id c.config_indices)) [
  | inr (i, found) ↦
      let here : position config.id c.list_response ≡ some i = sym (v.indexed config.id) ∙ found in
      rw (found, put_config)
        (
          (position-replace config config.id c.list_response i here).0,
          record {
            indexed = λ k. v.indexed k ∙ sym ((position-replace config k c.list_response i here).1);
            distinct = IsDistinct-set config c.list_response i here v.distinct;
          },
        )
  | inl missing ↦
      let new : position config.id c.list_response ≡ none = sym (v.indexed config.id) ∙ missing in
      rw (missing, put_config)
        (
          sym (replace_config-new config c.list_response new),
          record {
            indexed = λ k.
                find-assign config.id k (length c.list_response) c.config_indices
                ∙ ground (
                  arith,
                  v.indexed k,
                  position-append k c.list_response (config ∷ []),
                  new,
                  bytes_eq_iff config.id k,
                );
            distinct = IsDistinct-new config c.list_response new v.distinct;
          },
        )
]

no_configs-IsIndexed : IsIndexed [] []
no_configs-IsIndexed = record { indexed = λ k. unfold find position in refl; distinct = tt }

module _ (s : InMemoryPushNotificationStore) (v : IsConsistent s) where
  pub entry-IsIndexed :
      (o : Option TaskConfigs) (t : Bytes)
      → find t s ≡ o
      → IsIndexed (configs_or_new o).list_response (configs_or_new o).config_indices
        × ((configs_or_new o).list_response ≡ view s t)
  entry-IsIndexed none t e = (no_configs-IsIndexed, rw e refl)
  entry-IsIndexed (some c) t e = (v.entries t c e, rw e refl)

  -- Storing an entry that holds a config.
  pub assign-IsConsistent :
      (t : Bytes) (c : TaskConfigs)
      → IsIndexed c.list_response c.config_indices
      → c.list_response ≢ []
      → IsConsistent (assign t c s)
  assign-IsConsistent t c w full = record {
    entries = λ u d h. elim (Bool-cases (bytes_eq t u)) [
      | inl same ↦
          let this : c ≡ d = ground (arith, find-assign t u c s, h, same) in
          subst (λ x. IsIndexed x.list_response x.config_indices) this w
      | inr other ↦ v.entries u d (ground (arith, find-assign t u c s, h, other))
    ];
    filled = λ u d h. elim (Bool-cases (bytes_eq t u)) [
      | inl same ↦
          let this : c ≡ d = ground (arith, find-assign t u c s, h, same) in
          subst (λ x. x.list_response ≢ []) this full
      | inr other ↦ v.filled u d (ground (arith, find-assign t u c s, h, other))
    ];
  }

  pub erase-IsConsistent : (t : Bytes) → IsConsistent (erase t s)
  erase-IsConsistent t = record {
    entries = λ u d h. v.entries u d (ground (arith, find-erase t u s, h));
    filled = λ u d h. v.filled u d (ground (arith, find-erase t u s, h));
  }
