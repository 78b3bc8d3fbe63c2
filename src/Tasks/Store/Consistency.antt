-- ===== src/Tasks/Store/Consistency.antt =====
-- The invariant that ties the containers of in_memory_task_store.cpp together.
use a2a_cpp.Base.{
  ℕ, ◌+◌, ◌<◌, ◌≡◌, ◌≢◌, refl, Bool, false, Option, none, some, List, [], arith, ◌∙◌, Option-cases,
  ◌==◌, if◌then◌else◌, Bool-cases, inl, inr, max, Bytes, bytes_eq_iff, length, length-set,
  get_elem?, get_elem?-set, get_elem?-lt, get_or, get_or-eq, get_or-set, set, find, ℤ, pos_part,
  int64_max,
}
use a2a_cpp.Core.Error.{ok, err}
use a2a_cpp.Core.Proto.{Task, default_task}
use a2a_cpp.Tasks.Cursor.{ListTaskCursor}
use a2a_cpp.Tasks.Store.UpdateOrder.{
  insert_cursor, extract_cursor, IsSorted, contains, insert_cursor-IsSorted,
  extract_cursor-IsSorted, contains-insert, contains-extract,
}
use a2a_cpp.Tasks.Store.{InMemoryTaskStore, touch_task, overwrite, append_task, next_revision}

-- Whether a cursor is the present position of a stored task.
abbrev pub current_in : List ℕ → ℕ → Option ℕ → Bool
current_in times time none = false
current_in times time (some i) = get_or times i 0 == time

abbrev pub is_current : InMemoryTaskStore → ListTaskCursor → Bool
is_current s c = current_in s.updated_at c.updated_at (find c.task_id s.task_indices)

pub record IsConsistent (s : InMemoryTaskStore) : Type 0 where
  pub revisions_size : length s.revisions ≡ length s.ordered_tasks
  pub times_size : length s.updated_at ≡ length s.ordered_tasks
  pub sorted : IsSorted s.update_order
  pub indexed :
      (k : Bytes) (i : ℕ)
      → find k s.task_indices ≡ some i
      → (t : Task) × (get_elem? s.ordered_tasks i ≡ some t) × (t.id ≡ k)
  pub listed :
      (i : ℕ) (t : Task) → get_elem? s.ordered_tasks i ≡ some t → find t.id s.task_indices ≡ some i
  pub named : (i : ℕ) (t : Task) → get_elem? s.ordered_tasks i ≡ some t → t.id ≢ []
  pub ordered : (c : ListTaskCursor) → contains c s.update_order ≡ is_current s c

module _ (s : InMemoryTaskStore) (v : IsConsistent s) where
  -- An index of the map is in range, and its task has the key as its id.
  pub index-lt : (k : Bytes) (i : ℕ) → find k s.task_indices ≡ some i → i < length s.ordered_tasks
  index-lt k i h = let (t, there, same) = v.indexed k i h in get_elem?-lt s.ordered_tasks i there

  pub id-at :
      (k : Bytes) (i : ℕ)
      → find k s.task_indices ≡ some i
      → (get_or s.ordered_tasks i default_task).id ≡ k
  id-at k i h =
      let (t, there, same) = v.indexed k i h in
      rw (get_or-eq s.ordered_tasks i default_task there) same

  -- Two ids at one index are one id.
  pub index_injective :
      (k j : Bytes) (i : ℕ)
      → find k s.task_indices ≡ some i
      → find j s.task_indices ≡ some i
      → k ≡ j
  index_injective k j i h g = cc (id-at k i h, id-at j i g)

  pub found_named : (k : Bytes) (i : ℕ) → find k s.task_indices ≡ some i → k ≢ []
  found_named k i h = let (t, there, same) = v.indexed k i h in rw (← same) (v.named i t there)

-- What a touch of a stored task does.
abbrev pub touched : ℕ → Bytes → ℤ → InMemoryTaskStore → InMemoryTaskStore
touched i k now s =
    let time = get_or s.updated_at i 0 in
    let next_time = max (time + 1) (pos_part now) in
    record s {
      update_order =
          insert_cursor (record { updated_at = next_time; task_id = k })
            (extract_cursor (record { updated_at = time; task_id = k }) s.update_order);
      updated_at = set s.updated_at i next_time;
    }

module _ (s : InMemoryTaskStore) (v : IsConsistent s) (k : Bytes) (i : ℕ)
    (found : find k s.task_indices ≡ some i) (now : ℤ) where
  pub touch_task-eq : touch_task i now s ≡ (
      if get_or s.updated_at i 0 == int64_max
      then (err a2a_cpp.Tasks.Store.update_time_exhausted, s)
      else (ok tt, touched i k now s))
  unfolding touch_task
  touch_task-eq =
      let inside : (i == length s.updated_at) ≡ false =
        ground (arith, index-lt s v k i found, v.times_size) in
      rw (inside, id-at s v k i found, touch_task) refl

  touched_ordered-none :
      (c : ListTaskCursor)
      → find c.task_id s.task_indices ≡ none
      → contains c (touched i k now s).update_order ≡ false
  touched_ordered-none c missing =
      simp (contains-insert, contains-extract _ _ s.update_order v.sorted)
        (ground (arith, v.ordered c, bytes_eq_iff c.task_id k))

  touched_ordered-some :
      (c : ListTaskCursor) (j : ℕ)
      → find c.task_id s.task_indices ≡ some j
      → contains c (touched i k now s).update_order
        ≡ (get_or (touched i k now s).updated_at j 0 == c.updated_at)
  touched_ordered-some c j there =
      let inside : i < length s.updated_at = omega (arith, index-lt s v k i found, v.times_size) in
      simp
        (
          contains-insert,
          contains-extract _ _ s.update_order v.sorted,
          get_or-set s.updated_at i j (max (get_or s.updated_at i 0 + 1) (pos_part now)) 0 inside,
        )
        (ground (
          arith,
          v.ordered c,
          bytes_eq_iff c.task_id k,
          λ (e : j ≡ i). index_injective s v c.task_id k j there (rw e found),
        ))

  pub touched-IsConsistent : IsConsistent (touched i k now s)
  touched-IsConsistent = record {
    revisions_size = v.revisions_size;
    times_size = length-set s.updated_at i _ ∙ v.times_size;
    sorted = insert_cursor-IsSorted _ _ (extract_cursor-IsSorted _ s.update_order v.sorted);
    indexed = v.indexed;
    listed = v.listed;
    named = v.named;
    ordered = λ c. elim (Option-cases (find c.task_id s.task_indices)) [
      | inl missing ↦ rw missing (touched_ordered-none c missing)
      | inr (j, there) ↦ rw there (touched_ordered-some c j there)
    ];
  }

-- The two writes of an update.
abbrev pub written : ℕ → Task → InMemoryTaskStore → InMemoryTaskStore
written i task s = record s {
  ordered_tasks = set s.ordered_tasks i task;
  revisions = set s.revisions i (next_revision (get_or s.revisions i 0));
}

module _ (s : InMemoryTaskStore) (v : IsConsistent s) (task : Task) (i : ℕ)
    (found : find task.id s.task_indices ≡ some i) where
  pub written-IsConsistent : IsConsistent (written i task s)
  written-IsConsistent =
      let inside = index-lt s v task.id i found in
      record {
        revisions_size = omega (
          arith,
          length-set s.revisions i (next_revision (get_or s.revisions i 0)),
          length-set s.ordered_tasks i task,
          v.revisions_size,
        );
        times_size = omega (arith, length-set s.ordered_tasks i task, v.times_size);
        sorted = v.sorted;
        indexed = λ k j h. elim (Bool-cases (j == i)) [
          | inl same ↦ (
            task,
            rw (get_elem?-set s.ordered_tasks i j task inside, same) refl,
            index_injective s v task.id k i found (let e : j ≡ i = ground arith in rw e at h),
          )
          | inr other ↦
              let (t, there, named) = v.indexed k j h in
              (t, rw (get_elem?-set s.ordered_tasks i j task inside, other) there, named)
        ];
        listed = λ j t h.
            ground (arith, get_elem?-set s.ordered_tasks i j task inside, found, v.listed j t);
        named = λ j t h. ground (
          arith,
          get_elem?-set s.ordered_tasks i j task inside,
          found_named s v task.id i found,
          v.named j t,
        );
        ordered = v.ordered;
      }
