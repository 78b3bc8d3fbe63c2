-- ===== src/Tasks/Store/Append.antt =====
-- The branch of in_memory_task_store.cpp that stores a new id.
use a2a_cpp.Base.{
  ℕ, ◌-◌, ◌≡◌, ◌≢◌, refl, true, none, some, [], ◌∷◌, ◌++◌, arith, ◌==◌, Bool-cases, Option-cases,
  inl, inr, Bytes, bytes_eq, bytes_eq_iff, length, length-append, get_elem?, get_elem?-snoc,
  get_elem?-lt, get_or-snoc, find, assign, find-assign, ℤ, pos_part,
}
use a2a_cpp.Core.Error.{ok}
use a2a_cpp.Core.Proto.{Task, default_task}
use a2a_cpp.Tasks.Cursor.{ListTaskCursor}
use a2a_cpp.Tasks.Store.UpdateOrder.{
  insert_cursor, contains, insert_cursor-IsSorted, contains-insert,
}
use a2a_cpp.Tasks.Store.{InMemoryTaskStore, append_task, initial_task_revision}
use a2a_cpp.Tasks.Store.Consistency.{IsConsistent, is_current, index-lt}

-- The store with one more task.
abbrev pub appended : Task → ℤ → InMemoryTaskStore → InMemoryTaskStore
appended task now s = record s {
  updated_at = s.updated_at ++ pos_part now ∷ [];
  update_order =
      insert_cursor (record { updated_at = pos_part now; task_id = task.id }) s.update_order;
  ordered_tasks = s.ordered_tasks ++ task ∷ [];
  revisions = s.revisions ++ initial_task_revision ∷ [];
  task_indices = assign task.id (length s.ordered_tasks) s.task_indices;
}

module _ (s : InMemoryTaskStore) (v : IsConsistent s) (task : Task) (now : ℤ)
    (missing : find task.id s.task_indices ≡ none) where
  pub append_task-eq : append_task task now s ≡ (ok tt, appended task now s)
  unfolding append_task
  append_task-eq =
      let index : length (s.ordered_tasks ++ task ∷ []) - 1 ≡ length s.ordered_tasks =
        omega (arith, length-append s.ordered_tasks (task ∷ [])) in
      let last : (length s.ordered_tasks == length s.updated_at) ≡ true =
        ground (arith, v.times_size) in
      let self : (length s.ordered_tasks == length s.ordered_tasks) ≡ true = ground arith in
      rw
        (
          missing,
          append_task,
          index,
          last,
          get_or-snoc s.ordered_tasks (length s.ordered_tasks) task default_task,
          self,
        )
        refl

  appended_ordered :
      (c : ListTaskCursor)
      → contains c (appended task now s).update_order ≡ is_current (appended task now s) c
  appended_ordered c = elim (Option-cases (find c.task_id s.task_indices)) [
    | inl absent ↦
        simp (contains-insert, v.ordered c, find-assign)
          (rw absent (
            ground (
              arith,
              bytes_eq_iff task.id c.task_id,
              bytes_eq_iff c.task_id task.id,
              get_or-snoc s.updated_at (length s.ordered_tasks) (pos_part now) 0,
              v.times_size,
            )))
    | inr (j, there) ↦
        simp (contains-insert, v.ordered c, find-assign)
          (rw there (
            ground (
              arith,
              bytes_eq_iff task.id c.task_id,
              bytes_eq_iff c.task_id task.id,
              get_or-snoc s.updated_at j (pos_part now) 0,
              index-lt s v c.task_id j there,
              v.times_size,
            )))
  ]

  appended_indexed :
      (k : Bytes) (i : ℕ)
      → find k (appended task now s).task_indices ≡ some i
      → (t : Task) × (get_elem? (s.ordered_tasks ++ task ∷ []) i ≡ some t) × (t.id ≡ k)
  appended_indexed k i h = elim (Bool-cases (bytes_eq task.id k)) [
    | inl same ↦ (
      task,
      ground (
        arith,
        get_elem?-snoc s.ordered_tasks i task,
        find-assign task.id k (length s.ordered_tasks) s.task_indices,
      ),
      (bytes_eq_iff task.id k).0 same,
    )
    | inr other ↦
        let old : find k s.task_indices ≡ some i =
          ground (arith, find-assign task.id k (length s.ordered_tasks) s.task_indices) in
        let (t, there, named) = v.indexed k i old in
        (
          t,
          ground
              (arith, get_elem?-snoc s.ordered_tasks i task, get_elem?-lt s.ordered_tasks i there),
          named,
        )
  ]

  pub appended-IsConsistent : task.id ≢ [] → IsConsistent (appended task now s)
  appended-IsConsistent named = record {
    revisions_size = omega (
      arith,
      length-append s.revisions (initial_task_revision ∷ []),
      length-append s.ordered_tasks (task ∷ []),
      v.revisions_size,
    );
    times_size = omega (
      arith,
      length-append s.updated_at (pos_part now ∷ []),
      length-append s.ordered_tasks (task ∷ []),
      v.times_size,
    );
    sorted = insert_cursor-IsSorted _ s.update_order v.sorted;
    indexed = appended_indexed;
    listed = λ i t h. ground (
      arith,
      get_elem?-snoc s.ordered_tasks i task,
      find-assign task.id t.id (length s.ordered_tasks) s.task_indices,
      bytes_eq_iff task.id t.id,
      v.listed i t,
    );
    named = λ i t h. ground (arith, get_elem?-snoc s.ordered_tasks i task, v.named i t);
    ordered = appended_ordered;
  }
