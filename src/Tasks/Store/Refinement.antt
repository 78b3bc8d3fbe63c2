-- ===== src/Tasks/Store/Refinement.antt =====
-- The operations of in_memory_task_store.cpp against the steps of Tasks/Store/Spec.
use a2a_cpp.Base.{
  ◌∙◌, ap, ℕ, ◌≡◌, refl, true, false, some, arith, ◌==◌, Bool-cases, Option-cases, inl, inr, Bytes,
  is_empty, is_empty_iff, get_or, find, ℤ,
}
use a2a_cpp.Core.Error.{Result, ok, err}
use a2a_cpp.Core.Proto.{
  Task, Message, Part, canceled, default_task, state_of, set_state, is_terminal_task_state,
}
use a2a_cpp.Tasks.History.{HistoryAppendPolicy, HistoryDedupeEvent, find_history_dedupe_reason}
use a2a_cpp.Tasks.Store.{
  InMemoryTaskStore, updated, create_or_update, get_snapshot, create_or_update_if_revision, get,
  cancel, cancel_at, append_history_at, drop_duplicate, append_task_history, overwrite, as_updated,
  returning,
}
use a2a_cpp.Tasks.Store.Consistency.{IsConsistent, id-at}
use a2a_cpp.Tasks.Store.Spec.{
  Book, stored_entry, cancel_over, append_over, view, giving, spec_save, with_message,
  spec_create_or_update, spec_create_or_update_if_revision, spec_get_snapshot, spec_get,
  spec_cancel, spec_append_task_history, Simulates,
}
use a2a_cpp.Tasks.Store.Saving.{append_task-Simulates, overwrite-Simulates}

as_updated-Simulates :
    {p : Result (Unit {0}) × InMemoryTaskStore} {q : Result (Unit {0}) × Book}
    → Simulates p q
    → Simulates (as_updated p) (giving updated q)
as_updated-Simulates {p = (ok _, s)} {q = (ok _, b)} h = record {
  result = refl;
  shows = h.shows;
  consistent = h.consistent;
}
as_updated-Simulates {p = (ok _, s)} {q = (err e, b)} h = absurd (cc (h.result))
as_updated-Simulates {p = (err d, s)} {q = (ok _, b)} h = absurd (cc (h.result))
as_updated-Simulates {p = (err d, s)} {q = (err e, b)} h = record {
  result = cc (h.result);
  shows = h.shows;
  consistent = h.consistent;
}

returning-Simulates :
    (t : Task) {p : Result (Unit {0}) × InMemoryTaskStore} {q : Result (Unit {0}) × Book}
    → Simulates p q
    → Simulates (returning t p) (giving t q)
returning-Simulates t {p = (ok _, s)} {q = (ok _, b)} h = record {
  result = refl;
  shows = h.shows;
  consistent = h.consistent;
}
returning-Simulates t {p = (ok _, s)} {q = (err e, b)} h = absurd (cc (h.result))
returning-Simulates t {p = (err d, s)} {q = (ok _, b)} h = absurd (cc (h.result))
returning-Simulates t {p = (err d, s)} {q = (err e, b)} h = record {
  result = cc (h.result);
  shows = h.shows;
  consistent = h.consistent;
}

swapped : (n : ℕ) → (n == 0) ≡ true → (0 == n) ≡ true
swapped n h = ground arith

swapped_not : (n : ℕ) → (n == 0) ≡ false → (0 == n) ≡ false
swapped_not n h = ground arith

module _ (s : InMemoryTaskStore) (v : IsConsistent s) where
  unchanged : {A : Type 0} (r : Result A) → Simulates (r, s) (r, view s)
  unchanged r = record { result = refl; shows = λ k. refl; consistent = v }

  -- On a consistent store CreateOrUpdate is the promised step: an id is required; a new id gets revision 1 and the clock's time; an old one
  -- gets the next revision and a later time, or an error and no change if its time is the last.
  pub create_or_update-Simulates :
      (task : Task) (now : ℤ)
      → Simulates (create_or_update task now s) (spec_create_or_update task now (view s))
  unfolding create_or_update
  create_or_update-Simulates task now = elim (Bool-cases (is_empty task.id)) [
    | inl empty ↦ rw (empty, create_or_update) (unchanged _)
    | inr full ↦ elim (Option-cases (find task.id s.task_indices)) [
      | inl missing ↦
          rw (full, missing, create_or_update)
            (append_task-Simulates s v task now missing (ground (arith, is_empty_iff task.id)))
      | inr (i, found) ↦
          rw (full, found, create_or_update) (overwrite-Simulates s v task now i found)
    ]
  ]

  -- On a consistent store CreateOrUpdateIfRevision is the promised step: the write is made exactly when the expected revision is the present
  -- one (0 for an id that is not stored); otherwise the call reports a conflict, not an error, and
  -- nothing changes. An id is required, and a task whose time is the last int64_t is not written, which
  -- are errors without a change.
  pub create_or_update_if_revision-Simulates :
      (task : Task) (expected : ℕ) (now : ℤ)
      → Simulates
          (create_or_update_if_revision task expected now s)
          (spec_create_or_update_if_revision task expected now (view s))
  unfolding create_or_update_if_revision
  create_or_update_if_revision-Simulates task expected now = elim (Bool-cases (is_empty task.id)) [
    | inl empty ↦ rw (empty, create_or_update_if_revision) (unchanged _)
    | inr full ↦ elim (Option-cases (find task.id s.task_indices)) [
      | inl missing ↦ elim (Bool-cases (expected == 0)) [
        | inl zero_given ↦
            rw
              (full, missing, create_or_update_if_revision, zero_given, swapped expected zero_given)
              (as_updated-Simulates
                (append_task-Simulates s v task now missing (ground (arith, is_empty_iff task.id))))
        | inr other ↦
            rw (full, missing, create_or_update_if_revision, other, swapped_not expected other)
              (unchanged _)
      ]
      | inr (i, found) ↦ elim (Bool-cases (get_or s.revisions i 0 == expected)) [
        | inl same ↦
            rw (full, found, create_or_update_if_revision, same)
              (as_updated-Simulates (overwrite-Simulates s v task now i found))
        | inr other ↦ rw (full, found, create_or_update_if_revision, other) (unchanged _)
      ]
    ]
  ]

  -- On a consistent store GetSnapshot and Get return the entry that the map shows, and TaskNotFound for an id that it
  -- does not hold.
  pub get-view :
      (id : Bytes)
      → (get id s ≡ spec_get id (view s)) × (get_snapshot id s ≡ spec_get_snapshot id (view s))
  unfolding get get_snapshot
  get-view id = elim (Option-cases (find id s.task_indices)) [
    | inl missing ↦ (rw (missing, get) refl, rw (missing, get_snapshot) refl)
    | inr (i, found) ↦ (rw (found, get) refl, rw (found, get_snapshot) refl)
  ]

  -- A write of a task under the id of the stored one.
  rewrite-Simulates :
      (id : Bytes) (i : ℕ)
      → find id s.task_indices ≡ some i
      → (t : Task) (now : ℤ) → t.id ≡ (get_or s.ordered_tasks i default_task).id
      → Simulates (returning t (overwrite i t now s)) (giving t (spec_save t now (view s)))
  rewrite-Simulates id i found t now same =
      let there : find t.id s.task_indices ≡ some i =
        ap (λ k. find k s.task_indices) (same ∙ id-at s v id i found) ∙ found in
      rw there (returning-Simulates t (overwrite-Simulates s v t now i there))

  cancel_at-Simulates :
      (id : Bytes) (i : ℕ)
      → find id s.task_indices ≡ some i
      → (now : ℤ)
      → Simulates
          (cancel_at i (get_or s.ordered_tasks i default_task) now s)
          (cancel_over (some (stored_entry s i)) now (view s))
  unfolding cancel_at
  cancel_at-Simulates id i found now =
      let task = get_or s.ordered_tasks i default_task in
      elim (Bool-cases (is_terminal_task_state (state_of task))) [
        | inl terminal ↦ rw (terminal, cancel_at) (unchanged _)
        | inr live ↦
            rw (live, cancel_at) (rewrite-Simulates id i found (set_state canceled task) now refl)
      ]

  -- On a consistent store Cancel is the promised step: a task in a terminal state is refused and stays; any other becomes canceled by a write.
  pub cancel-Simulates :
      (id : Bytes) (now : ℤ) → Simulates (cancel id now s) (spec_cancel id now (view s))
  unfolding cancel
  cancel-Simulates id now = elim (Bool-cases (is_empty id)) [
    | inl empty ↦ rw (empty, cancel) (unchanged _)
    | inr full ↦ elim (Option-cases (find id s.task_indices)) [
      | inl missing ↦ rw (full, missing, cancel) (unchanged _)
      | inr (i, found) ↦ rw (full, found, cancel) (cancel_at-Simulates id i found now)
    ]
  ]

  drop_duplicate-IsConsistent : (event : HistoryDedupeEvent) → IsConsistent (drop_duplicate event s)
  unfolding drop_duplicate
  drop_duplicate-IsConsistent event = record {
    revisions_size = v.revisions_size;
    times_size = v.times_size;
    sorted = v.sorted;
    indexed = v.indexed;
    listed = v.listed;
    named = v.named;
    ordered = v.ordered;
  }

  module _ (serialize : Part → Bytes) where
    append_history_at-Simulates :
        (id : Bytes) (i : ℕ)
        → find id s.task_indices ≡ some i
        → (message : Message) (policy : HistoryAppendPolicy) (now : ℤ)
        → Simulates
            (append_history_at serialize id i
              (get_or s.ordered_tasks i default_task)
              message
              policy
              now
              s)
            (append_over serialize (some (stored_entry s i)) message policy now (view s))
    unfolding append_history_at
    append_history_at-Simulates id i found message policy now =
        let task = get_or s.ordered_tasks i default_task in
        elim (Option-cases (find_history_dedupe_reason serialize task.history message policy)) [
          | inl fresh ↦
              rw (fresh, append_history_at, append_over)
                (rewrite-Simulates id i found (with_message task message) now refl)
          | inr (reason, duplicate) ↦
              rw (duplicate, append_history_at, append_over)
                (record {
                  result = refl;
                  shows = λ k. unfold drop_duplicate in refl;
                  consistent = drop_duplicate-IsConsistent _;
                })
        ]

    -- On a consistent store AppendTaskHistory is the promised step: a message that the policy calls a duplicate of one in the history leaves
    -- every entry as it was; any other is added at the end by a write.
    pub append_task_history-Simulates :
        (id : Bytes) (message : Message) (policy : HistoryAppendPolicy) (now : ℤ)
        → Simulates
            (append_task_history serialize id message policy now s)
            (spec_append_task_history serialize id message policy now (view s))
    unfolding append_task_history
    append_task_history-Simulates id message policy now = elim (Bool-cases (is_empty id)) [
      | inl empty ↦ rw (empty, append_task_history) (unchanged _)
      | inr full ↦ elim (Option-cases (find id s.task_indices)) [
        | inl missing ↦ rw (full, missing, append_task_history) (unchanged _)
        | inr (i, found) ↦
            rw (full, found, append_task_history)
              (append_history_at-Simulates id i found message policy now)
      ]
    ]
