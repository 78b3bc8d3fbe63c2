-- ===== src/Tasks/Store/Saving.antt =====
-- The two ways of in_memory_task_store.cpp to write a task, against the write of Tasks/Store/Spec.
use a2a_cpp.Base.{
  ap, ◌↔◌, ℕ, ◌+◌, ◌<◌, ◌≡◌, ◌≢◌, refl, true, none, some, [], arith, ◌==◌, Bool-cases, Option-cases,
  inl, inr, max, Bytes, bytes_eq, bytes_eq_iff, length, get_or, get_or-set, get_or-snoc, find,
  find-assign, ℤ, pos_part, int64_max,
}
use a2a_cpp.Core.Proto.{Task, default_task}
use a2a_cpp.Tasks.Store.{
  InMemoryTaskStore, overwrite, append_task, initial_task_revision, next_revision,
}
use a2a_cpp.Tasks.Store.Consistency.{
  IsConsistent, index-lt, index_injective, touched, touch_task-eq, touched-IsConsistent, written,
  written-IsConsistent,
}
use a2a_cpp.Tasks.Store.Append.{appended, append_task-eq, appended-IsConsistent}
use a2a_cpp.Tasks.Store.Spec.{stored_entry, view, write, created, revised, save_over, Simulates}

module _ (s : InMemoryTaskStore) (v : IsConsistent s) (task : Task) (now : ℤ) where
  view-appended :
      find task.id s.task_indices ≡ none
      → (k : Bytes) → view (appended task now s) k ≡ write task.id (created task now) (view s) k
  view-appended missing k = elim (Option-cases (find k s.task_indices)) [
    | inl absent ↦ simp find-assign (
        rw absent (
          ground (
            arith,
            get_or-snoc s.ordered_tasks (length s.ordered_tasks) task default_task,
            get_or-snoc s.revisions (length s.ordered_tasks) initial_task_revision 0,
            get_or-snoc s.updated_at (length s.ordered_tasks) (pos_part now) 0,
            v.times_size,
            v.revisions_size,
          )))
    | inr (j, there) ↦ simp find-assign (
        rw there (
          ground (
            arith,
            bytes_eq_iff task.id k,
            index-lt s v k j there,
            get_or-snoc s.ordered_tasks j task default_task,
            get_or-snoc s.revisions j initial_task_revision 0,
            get_or-snoc s.updated_at j (pos_part now) 0,
            v.times_size,
            v.revisions_size,
          )))
  ]

  pub append_task-Simulates :
      find task.id s.task_indices ≡ none
      → task.id ≢ []
      → Simulates (append_task task now s) (save_over none task now (view s))
  append_task-Simulates missing named = rw (append_task-eq s v task now missing) (record {
    result = refl;
    shows = view-appended missing;
    consistent = appended-IsConsistent s v task now missing named;
  })

module _ (s : InMemoryTaskStore) (v : IsConsistent s) (task : Task) (now : ℤ) (i : ℕ)
    (found : find task.id s.task_indices ≡ some i) where
  inside : i < length s.ordered_tasks
  inside = index-lt s v task.id i found

  index_of_other :
      (k : Bytes) (j : ℕ) → find k s.task_indices ≡ some j → (bytes_eq task.id k ≡ true) ↔ (j ≡ i)
  index_of_other k j there = (
    λ same.
        let e = (bytes_eq_iff task.id k).0 same in
        cc (found, there, ap (λ x. find x s.task_indices) e),
    λ e. (bytes_eq_iff task.id k).1 (index_injective s v task.id k i found (rw e at there)),
  )

  overwritten_view :
      (k : Bytes)
      → view (written i task (touched i task.id now s)) k
        ≡ write task.id (revised task now (stored_entry s i)) (view s) k
  overwritten_view k = elim (Option-cases (find k s.task_indices)) [
    | inl absent ↦ rw absent (ground (arith, bytes_eq_iff task.id k))
    | inr (j, there) ↦ rw there (
        ground (
          arith,
          bytes_eq_iff task.id k,
          index_of_other k j there,
          get_or-set s.ordered_tasks i j task default_task inside,
          get_or-set s.revisions i j (next_revision (get_or s.revisions i 0)) 0
              (omega (arith, inside, v.revisions_size)),
          get_or-set s.updated_at i j (max (get_or s.updated_at i 0 + 1) (pos_part now)) 0
              (omega (arith, inside, v.times_size)),
          found,
        ))
  ]

  pub overwrite-Simulates :
      Simulates (overwrite i task now s) (save_over (some (stored_entry s i)) task now (view s))
  unfolding overwrite
  overwrite-Simulates =
      rw (touch_task-eq s v task.id i found now)
        (elim (Bool-cases (get_or s.updated_at i 0 == int64_max)) [
          | inl exhausted ↦
              rw exhausted (record { result = refl; shows = λ k. refl; consistent = v })
          | inr advances ↦ rw advances (record {
            result = refl;
            shows = overwritten_view;
            consistent =
                written-IsConsistent (touched i task.id now s)
                  (touched-IsConsistent s v task.id i found now) task i found;
          })
        ])
