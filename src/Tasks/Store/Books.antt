-- ===== src/Tasks/Store/Books.antt =====
-- The entries that a store of in_memory_task_store.cpp can show.
use a2a_cpp.Base.{
  ℕ, ◌≤◌, ◌≡◌, ◌≢◌, refl, ◌∙◌, sym, subst, some, [], arith, Bool-cases, Option-cases, inl, inr,
  ◌==◌, if◌then◌else◌, Bytes, bytes_eq, bytes_eq_iff, IsByte, All, is_empty, is_empty_iff, ℤ,
  pos_part, int64_max,
}
use a2a_cpp.Core.Error.{Result, ok, err}
use a2a_cpp.Core.Proto.{Task, Message, Part, canceled, state_of, set_state, is_terminal_task_state}
use a2a_cpp.Tasks.History.{HistoryAppendPolicy, find_history_dedupe_reason}
use a2a_cpp.Tasks.Cursor.RoundTrip.{IsCursor}
use a2a_cpp.Tasks.Store.Spec.{
  Book, Entry, giving, spec_save, append_over, with_message, spec_create_or_update,
  spec_create_or_update_if_revision, spec_cancel, spec_append_task_history, present_revision,
  created, revised,
}

-- Every entry has the id that it stands under and a position that a page token can name.
abbrev pub IsBook : Book → Type 0
IsBook b =
    (k : Bytes) (e : Entry)
    → b k ≡ some e
    → (e.task.id ≡ k) × IsCursor (record { updated_at = e.updated_at; task_id = k })

IsCursor-at :
    (time : ℕ) (k : Bytes)
    → time ≤ int64_max
    → k ≢ []
    → All IsByte k
    → IsCursor (record { updated_at = time; task_id = k })
IsCursor-at time k fits named bytes = record { time = fits; named = named; bytes = bytes }

module _ (b : Book) (v : IsBook b) (now : ℤ) (fits : pos_part now ≤ int64_max) where
  write-IsBook :
      (e : Entry)
      → IsCursor (record { updated_at = e.updated_at; task_id = e.task.id })
      → IsBook (λ j. if bytes_eq e.task.id j then some e else b j)
  write-IsBook e c k d h = elim (Bool-cases (bytes_eq e.task.id k)) [
    | inl same ↦
        let one : e.task.id ≡ k = (bytes_eq_iff e.task.id k).0 same in
        let this : e ≡ d = ground (arith, h, same) in
        subst (λ x. (x.task.id ≡ k) × IsCursor (record { updated_at = x.updated_at; task_id = k }))
          this
          (one, subst (λ i. IsCursor (record { updated_at = e.updated_at; task_id = i })) one c)
    | inr other ↦ v k d (ground (arith, h, other))
  ]

  spec_save-IsBook :
      (task : Task) → task.id ≢ [] → All IsByte task.id → IsBook ((spec_save task now b).1)
  spec_save-IsBook task named bytes = elim (Option-cases (b task.id)) [
    | inl missing ↦
        rw missing
          (write-IsBook (created task now) (IsCursor-at (pos_part now) task.id fits named bytes))
    | inr (e, found) ↦ elim (Bool-cases (e.updated_at == int64_max)) [
      | inl last ↦ rw (found, last) v
      | inr before ↦
          let cursor = (v task.id e found).1 in
          rw (found, before)
            (write-IsBook (revised task now e)
              (IsCursor-at _ task.id (ground (arith, cursor.time)) named bytes))
    ]
  ]

  giving_after :
      {A : Type 0} (a : A) (p : Result (Unit {0}) × Book) → IsBook (p.1) → IsBook ((giving a p).1)
  giving_after a (ok _, c) h = h
  giving_after a (err e, c) h = h

  -- a write of a task that keeps the id of its entry
  resave-IsBook :
      (e : Entry) (k : Bytes) (t : Task)
      → b k ≡ some e
      → t.id ≡ e.task.id
      → IsBook ((giving t (spec_save t now b)).1)
  resave-IsBook e k t found same =
      let (id, cursor) = v k e found in
      let one : k ≡ t.id = sym (same ∙ id) in
      giving_after t (spec_save t now b) (
        spec_save-IsBook t (subst (λ i. i ≢ []) one cursor.named)
          (subst (λ i. All IsByte i) one cursor.bytes))

  pub create_or_update-IsBook :
      (task : Task) → All IsByte task.id → IsBook ((spec_create_or_update task now b).1)
  create_or_update-IsBook task bytes = elim (Bool-cases (is_empty task.id)) [
    | inl empty ↦ rw empty v
    | inr full ↦ rw full (spec_save-IsBook task (ground (arith, is_empty_iff task.id)) bytes)
  ]

  pub create_or_update_if_revision-IsBook :
      (task : Task) (expected : ℕ)
      → All IsByte task.id
      → IsBook ((spec_create_or_update_if_revision task expected now b).1)
  create_or_update_if_revision-IsBook task expected bytes = elim (Bool-cases (is_empty task.id)) [
    | inl empty ↦ rw empty v
    | inr full ↦ elim (Bool-cases (present_revision (b task.id) == expected)) [
      | inl same ↦
          rw (full, same)
            (giving_after _ (spec_save task now b)
              (spec_save-IsBook task (ground (arith, is_empty_iff task.id)) bytes))
      | inr other ↦ rw (full, other) v
    ]
  ]

  pub cancel-IsBook : (id : Bytes) → IsBook ((spec_cancel id now b).1)
  cancel-IsBook id = elim (Bool-cases (is_empty id)) [
    | inl empty ↦ rw empty v
    | inr full ↦ elim (Option-cases (b id)) [
      | inl missing ↦ rw (full, missing) v
      | inr (e, found) ↦ elim (Bool-cases (is_terminal_task_state (state_of e.task))) [
        | inl terminal ↦ rw (full, found, terminal) v
        | inr live ↦
            rw (full, found, live) (resave-IsBook e id (set_state canceled e.task) found refl)
      ]
    ]
  ]

  pub append_task_history-IsBook :
      (serialize : Part → Bytes) (id : Bytes) (message : Message) (policy : HistoryAppendPolicy)
      → IsBook ((spec_append_task_history serialize id message policy now b).1)
  append_task_history-IsBook serialize id message policy = elim (Bool-cases (is_empty id)) [
    | inl empty ↦ rw empty v
    | inr full ↦ elim (Option-cases (b id)) [
      | inl missing ↦ rw (full, missing) v
      | inr (e, found) ↦
          elim (Option-cases (find_history_dedupe_reason serialize e.task.history message policy)) [
            | inl fresh ↦
                rw (full, found, append_over, fresh)
                  (resave-IsBook e id (with_message e.task message) found refl)
            | inr (reason, duplicate) ↦ rw (full, found, append_over, duplicate) v
          ]
    ]
  ]
