-- ===== src/Tasks/Store/Reachable.antt =====
-- The stores that in_memory_task_store.cpp can have: what its operations make of an empty store.
use a2a_cpp.Base.{
  ℕ, ◌≤◌, ◌≡◌, refl, ◌∙◌, sym, Bool, true, [], arith, Option-cases, inl, inr, Bytes, IsByte, All,
  find, ℤ, pos_part, int64_max,
}
use a2a_cpp.Core.Error.{Result}
use a2a_cpp.Core.Proto.{Task, Message, Part}
use a2a_cpp.Tasks.History.{HistoryAppendPolicy}
use a2a_cpp.Tasks.Cursor.{ListTaskCursor}
use a2a_cpp.Tasks.Cursor.RoundTrip.{IsCursor}
use a2a_cpp.Tasks.Store.{
  InMemoryTaskStore, create_or_update, create_or_update_if_revision, cancel, append_task_history,
}
use a2a_cpp.Tasks.Store.UpdateOrder.{contains, contains-empty}
use a2a_cpp.Tasks.Store.Consistency.{IsConsistent, is_current}
use a2a_cpp.Tasks.Store.Spec.{stored_entry, Book, view, Simulates}
use a2a_cpp.Tasks.Store.Refinement.{
  create_or_update-Simulates, create_or_update_if_revision-Simulates, cancel-Simulates,
  append_task_history-Simulates,
}
use a2a_cpp.Tasks.Store.Books.{
  IsBook, create_or_update-IsBook, create_or_update_if_revision-IsBook, cancel-IsBook,
  append_task_history-IsBook,
}

-- A store as it is made, with a telemetry sink or without.
abbrev pub empty_store : Bool → InMemoryTaskStore
empty_store sink = record {
  updated_at = [];
  update_order = [];
  has_telemetry_sink = sink;
  delivered = [];
  telemetry_snapshot = record {
    dedupe_dropped_total = 0;
    dedupe_dropped_by_message_id_and_fingerprint = 0;
    dedupe_dropped_by_fingerprint_without_message_id = 0;
  };
  ordered_tasks = [];
  revisions = [];
  task_indices = [];
}

-- The ids are byte strings, and the clock gives an int64_t.
pub data Reachable (serialize : Part → Bytes) : InMemoryTaskStore → Type 0 where
  started : (sink : Bool) → Reachable serialize (empty_store sink)
  after_create_or_update :
      (s : InMemoryTaskStore) (task : Task) (now : ℤ)
      → All IsByte task.id
      → pos_part now ≤ int64_max
      → Reachable serialize s
      → Reachable serialize ((create_or_update task now s).1)
  after_create_or_update_if_revision :
      (s : InMemoryTaskStore) (task : Task) (expected : ℕ) (now : ℤ)
      → All IsByte task.id
      → pos_part now ≤ int64_max
      → Reachable serialize s
      → Reachable serialize ((create_or_update_if_revision task expected now s).1)
  after_cancel :
      (s : InMemoryTaskStore) (id : Bytes) (now : ℤ)
      → pos_part now ≤ int64_max
      → Reachable serialize s
      → Reachable serialize ((cancel id now s).1)
  after_append_task_history :
      (s : InMemoryTaskStore) (id : Bytes) (message : Message) (policy : HistoryAppendPolicy)
      (now : ℤ)
      → pos_part now ≤ int64_max
      → Reachable serialize s
      → Reachable serialize ((append_task_history serialize id message policy now s).1)

-- The step of a store is that of its map.
shown-IsBook :
    {A : Type 0} {p : Result A × InMemoryTaskStore} {q : Result A × Book}
    → Simulates p q
    → IsBook (q.1)
    → IsConsistent (p.1) × IsBook (view (p.1))
shown-IsBook h v = (h.consistent, λ k e found. v k e (sym (h.shows k) ∙ found))

empty_store-IsConsistent : (sink : Bool) → IsConsistent (empty_store sink)
unfolding find
empty_store-IsConsistent sink = record {
  revisions_size = refl;
  times_size = refl;
  sorted = tt;
  indexed = λ k i h. absurd (cc h);
  listed = λ i t h. absurd (cc h);
  named = λ i t h. absurd (cc h);
  ordered = λ c. contains-empty c;
}

empty_store-IsBook : (sink : Bool) → IsBook (view (empty_store sink))
unfolding find
empty_store-IsBook sink k e h = absurd (cc h)

-- Every store that the operations make of an empty one is consistent, and each entry of it stands
-- under its own id, which is not empty, at a time that an int64_t holds.
pub Reachable-IsConsistent :
    (serialize : Part → Bytes) (s : InMemoryTaskStore)
    → Reachable serialize s
    → IsConsistent s × IsBook (view s)
Reachable-IsConsistent serialize s (started sink) =
    (empty_store-IsConsistent sink, empty_store-IsBook sink)
Reachable-IsConsistent serialize _ (after_create_or_update s task now bytes fits before) =
    let (v, w) = Reachable-IsConsistent serialize s before in
    shown-IsBook (create_or_update-Simulates s v task now)
      (create_or_update-IsBook (view s) w now fits task bytes)
Reachable-IsConsistent serialize _
      (after_create_or_update_if_revision s task expected now bytes fits before) =
    let (v, w) = Reachable-IsConsistent serialize s before in
    shown-IsBook (create_or_update_if_revision-Simulates s v task expected now)
      (create_or_update_if_revision-IsBook (view s) w now fits task expected bytes)
Reachable-IsConsistent serialize _ (after_cancel s id now fits before) =
    let (v, w) = Reachable-IsConsistent serialize s before in
    shown-IsBook (cancel-Simulates s v id now) (cancel-IsBook (view s) w now fits id)
Reachable-IsConsistent serialize _ (after_append_task_history s id message policy now fits before) =
    let (v, w) = Reachable-IsConsistent serialize s before in
    shown-IsBook (append_task_history-Simulates s v serialize id message policy now)
      (append_task_history-IsBook (view s) w now fits serialize id message policy)

-- The positions in the update order of such a store are all cursors that a token can name.
pub Reachable-IsCursor :
    (serialize : Part → Bytes) (s : InMemoryTaskStore)
    → Reachable serialize s
    → (c : ListTaskCursor) → contains c s.update_order ≡ true
    → IsCursor c
Reachable-IsCursor serialize s reached c there =
    let (v, w) = Reachable-IsConsistent serialize s reached in
    let current : is_current s c ≡ true = sym (v.ordered c) ∙ there in
    elim (Option-cases (find c.task_id s.task_indices)) [
      | inl missing ↦ absurd (ground (arith, missing, current))
      | inr (i, found) ↦
          let (id, cursor) = w c.task_id (stored_entry s i) (rw found refl) in
          record {
            time = ground (arith, found, current, cursor.time);
            named = cursor.named;
            bytes = cursor.bytes;
          }
    ]
