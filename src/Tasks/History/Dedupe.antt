-- ===== src/Tasks/History/Dedupe.antt =====
-- When task_history.cpp calls a message a duplicate.
use a2a_cpp.Base.{
  ◌≡◌, refl, ◌↔◌, true, none, List, [], ◌∷◌, arith, map, ◌⊎◌, ◌≢◌, All, length, Bytes,
  bytes_eq_refl, bytes_eq_iff, is_empty, is_empty_iff, Bool-cases, inl, inr, ==ℤ_iff,
}
use a2a_cpp.Core.Proto.{Message, Part, role_number}
use a2a_cpp.Tasks.History.{
  HistoryAppendPolicy, no_dedup, dedup_by_message_id, dedup_by_id_or_fingerprint, same_parts,
  has_same_message_fingerprint, has_same_message_id_and_fingerprint, find_message_id_dedupe_reason,
  find_id_or_fingerprint_dedupe_reason, find_history_dedupe_reason,
}

module _ (serialize : Part → Bytes) where
  same_parts_refl : (ps : List Part) → same_parts serialize ps ps ≡ true
  unfolding same_parts
  same_parts_refl [] = refl
  same_parts_refl (p ∷ ps) = rw (bytes_eq_refl (serialize p)) (same_parts_refl ps)

  pub fingerprint_refl : (m : Message) → has_same_message_fingerprint serialize m m ≡ true
  unfolding has_same_message_fingerprint
  fingerprint_refl m =
      ground (arith, bytes_eq_refl m.task_id, bytes_eq_refl m.context_id, same_parts_refl m.parts)

  -- Two messages with the same task, context, role and serialized parts.
  abbrev pub SameFingerprint : Message → Message → Type 0
  SameFingerprint a b =
      (a.task_id ≡ b.task_id)
      × (a.context_id ≡ b.context_id)
      × (role_number a.role ≡ role_number b.role)
      × (map serialize a.parts ≡ map serialize b.parts)

  -- The documented meaning of each policy.
  abbrev pub IsDuplicate : HistoryAppendPolicy → Message → Message → Type 0
  IsDuplicate no_dedup existing message = ⊥
  IsDuplicate dedup_by_message_id existing message =
      (message.message_id ≢ [])
      × (existing.message_id ≡ message.message_id)
      × SameFingerprint existing message
  IsDuplicate dedup_by_id_or_fingerprint existing message =
      ((message.message_id ≢ [])
        × (existing.message_id ≡ message.message_id)
        × SameFingerprint existing message)
      ⊎ (message.message_id ≡ []) × SameFingerprint existing message

  same_parts_iff :
      (ps qs : List Part)
      → length ps ≡ length qs
      → (same_parts serialize ps qs ≡ true) ↔ (map serialize ps ≡ map serialize qs)
  unfolding same_parts
  same_parts_iff [] [] h = ground arith
  same_parts_iff [] (q ∷ qs) h = absurd (omega arith)
  same_parts_iff (p ∷ ps) [] h = absurd (omega arith)
  same_parts_iff (p ∷ ps) (q ∷ qs) h =
      ground (arith, same_parts_iff ps qs, bytes_eq_iff (serialize p) (serialize q))

  length_of_serialized :
      (ps qs : List Part) → map serialize ps ≡ map serialize qs → length ps ≡ length qs
  length_of_serialized [] [] h = refl
  length_of_serialized [] (q ∷ qs) h = cc
  length_of_serialized (p ∷ ps) [] h = cc
  length_of_serialized (p ∷ ps) (q ∷ qs) h = ground (arith, length_of_serialized ps qs)

  fingerprint_iff :
      (a b : Message) → (has_same_message_fingerprint serialize a b ≡ true) ↔ SameFingerprint a b
  unfolding has_same_message_fingerprint
  fingerprint_iff a b = ground (
    arith,
    bytes_eq_iff a.task_id b.task_id,
    bytes_eq_iff a.context_id b.context_id,
    ==ℤ_iff (role_number a.role) (role_number b.role),
    same_parts_iff a.parts b.parts,
    length_of_serialized a.parts b.parts,
  )

  id_and_fingerprint_iff :
      (a b : Message)
      → (has_same_message_id_and_fingerprint serialize a b ≡ true)
        ↔ ((b.message_id ≢ []) × (a.message_id ≡ b.message_id) × SameFingerprint a b)
  unfolding has_same_message_id_and_fingerprint
  id_and_fingerprint_iff a b = ground (
    arith,
    is_empty_iff a.message_id,
    bytes_eq_iff a.message_id b.message_id,
    fingerprint_iff a b,
  )

  by_id_none_iff :
      (history : List Message) (m : Message)
      → m.message_id ≢ []
      → (find_message_id_dedupe_reason serialize history m ≡ none)
        ↔ All (λ e. ¬ IsDuplicate dedup_by_message_id e m) history
  unfolding find_message_id_dedupe_reason
  by_id_none_iff [] m h = ground arith
  by_id_none_iff (e ∷ history) m h =
      ground (arith, by_id_none_iff history m h, id_and_fingerprint_iff e m)

  by_id_none_of_empty :
      (history : List Message) (m : Message)
      → m.message_id ≡ []
      → All (λ e. ¬ IsDuplicate dedup_by_message_id e m) history
  by_id_none_of_empty [] m h = tt
  by_id_none_of_empty (e ∷ history) m h = (λ d. d.0 h, by_id_none_of_empty history m h)

  by_either_none_iff :
      (history : List Message) (m : Message)
      → (find_id_or_fingerprint_dedupe_reason serialize history m ≡ none)
        ↔ All (λ e. ¬ IsDuplicate dedup_by_id_or_fingerprint e m) history
  unfolding find_id_or_fingerprint_dedupe_reason
  by_either_none_iff [] m = ground arith
  by_either_none_iff (e ∷ history) m = ground (
    arith,
    by_either_none_iff history m,
    id_and_fingerprint_iff e m,
    fingerprint_iff e m,
    is_empty_iff m.message_id,
  )

  -- Under each policy a message is let through exactly when the history holds no duplicate of it
  -- in that policy's sense.
  pub find_history_dedupe_reason-none_iff :
      (policy : HistoryAppendPolicy) (history : List Message) (m : Message)
      → (find_history_dedupe_reason serialize history m policy ≡ none)
        ↔ All (λ e. ¬ IsDuplicate policy e m) history
  unfolding find_history_dedupe_reason
  find_history_dedupe_reason-none_iff no_dedup history m = (λ e. all_allowed history, λ a. refl)
    where
      all_allowed : (es : List Message) → All (λ e. ¬ ⊥) es
      all_allowed [] = tt
      all_allowed (e ∷ es) = (λ b. b, all_allowed es)
  find_history_dedupe_reason-none_iff dedup_by_message_id history m =
      elim (Bool-cases (is_empty m.message_id)) [
        | inl empty ↦ ground (arith, by_id_none_of_empty history m, is_empty_iff m.message_id)
        | inr full ↦ ground (arith, by_id_none_iff history m, is_empty_iff m.message_id)
      ]
  find_history_dedupe_reason-none_iff dedup_by_id_or_fingerprint history m =
      by_either_none_iff history m
