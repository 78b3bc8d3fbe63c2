-- ===== src/Tasks/Store/Paging/Pages.antt =====
-- What one call of `List` in in_memory_task_store.cpp returns.
use a2a_cpp.Base.{
  sym, ℕ, zero, suc, ◌+◌, ◌-◌, ◌<◌, ◌≤◌, ◌≡◌, refl, ◌∙◌, Bool, false, Option, List, [], ◌∷◌, ◌++◌,
  map, arith, ◌==◌, ltb, if◌then◌else◌, Bool-cases, inl, inr, length, length-append, take, keep,
  append-nil, append_assoc,
}
use a2a_cpp.Core.Error.{ok}
use a2a_cpp.Core.Proto.{Task}
use a2a_cpp.Tasks.Cursor.{ListTaskCursor, encode_list_page_token, parse_list_page_token}
use a2a_cpp.Tasks.Listing.{ListTasksRequest, matches_list_filters, project_task_for_list}
use a2a_cpp.Tasks.Store.{InMemoryTaskStore}
use a2a_cpp.Tasks.Store.Paging.{
  task_of, last_cursor, Page, page_loop, order_after, list_tasks, total_of,
}

take-nil {ℓ} : {A : Type ℓ} (n : ℕ) → take {A = A} n [] ≡ []
take-nil zero = refl
take-nil (suc n) = refl

module _ (r : ListTasksRequest) (s : InMemoryTaskStore) where
  -- The filter and the projection, by cursor.
  abbrev pub selected : ListTaskCursor → Bool
  selected c = matches_list_filters (task_of s c) r

  abbrev pub projected : ListTaskCursor → Task
  projected c = project_task_for_list (task_of s c) r.include_artifacts r.history_length

  -- The page of at most `room` more tasks out of the matching cursors `found`.
  abbrev pub page_of : ℕ → List Task → List ListTaskCursor → List ListTaskCursor → Page
  page_of room tasks cursors found = record {
    tasks = tasks ++ map projected (take room found);
    cursors = cursors ++ take room found;
    next_page_token =
        if ltb room (length found)
        then encode_list_page_token (last_cursor (cursors ++ take room found))
        else [];
  }

  page_of-full :
      (tasks : List Task) (cursors : List ListTaskCursor) (c : ListTaskCursor)
      (found : List ListTaskCursor)
      → page_of 0 tasks cursors (c ∷ found) ≡ record {
        tasks = tasks;
        cursors = cursors;
        next_page_token = encode_list_page_token (last_cursor cursors);
      }
  page_of-full tasks cursors c found = rw (append-nil tasks, append-nil cursors) (ground arith)

  page_of-longer :
      (room : ℕ) (tasks : List Task) (cursors : List ListTaskCursor) (c : ListTaskCursor)
      (found : List ListTaskCursor)
      → page_of room (tasks ++ projected c ∷ []) (cursors ++ c ∷ []) found
        ≡ page_of (suc room) tasks cursors (c ∷ found)
  page_of-longer room tasks cursors c found = simp append_assoc (ground arith)

  page_loop-bounded :
      0 < r.page_size
      → (cs : List ListTaskCursor) (tasks : List Task) (cursors : List ListTaskCursor)
      → length tasks ≤ r.page_size
      → page_loop r s cs tasks cursors
        ≡ page_of (r.page_size - length tasks) tasks cursors (keep selected cs)
  unfolding page_loop
  page_loop-bounded some_size [] tasks cursors fits =
      rw (take-nil (r.page_size - length tasks), append-nil tasks, append-nil cursors)
        (ground arith)
  page_loop-bounded some_size (c ∷ cs) tasks cursors fits = elim (Bool-cases (selected c)) [
    | inr other ↦ rw (other, page_loop) (page_loop-bounded some_size cs tasks cursors fits)
    | inl match ↦
        let some_test : (r.page_size == 0) ≡ false = ground arith in
        elim (Bool-cases (length tasks == r.page_size)) [
          | inl full ↦
              let no_room : r.page_size - length tasks ≡ 0 = ground arith in
              rw (match, page_loop, some_test, full, no_room)
                (sym (page_of-full tasks cursors c (keep selected cs)))
          | inr more ↦
              let one_more : length (tasks ++ projected c ∷ []) ≡ length tasks + 1 =
                length-append tasks (projected c ∷ []) in
              let room : r.page_size - length tasks ≡ suc (r.page_size - (length tasks + 1)) =
                ground arith in
              let ih =
                page_loop-bounded some_size cs (tasks ++ projected c ∷ []) (cursors ++ c ∷ [])
                  (ground arith) in
              rw (match, page_loop, some_test, more, room)
                ((rw one_more at ih)
                  ∙ page_of-longer (r.page_size - (length tasks + 1)) tasks cursors c
                      (keep selected cs))
        ]
  ]

  -- One page, for a positive page size: the first matching tasks behind the cursor, at most as many
  -- as the size, with the token of the last of them if more match.
  pub list_tasks-page :
      0 < r.page_size
      → (cursor : Option ListTaskCursor) → parse_list_page_token r.page_token ≡ ok cursor
      → let found = keep selected (order_after cursor s) in
        list_tasks r s
        ≡ ok (record {
          tasks = map projected (take r.page_size found);
          page_size = length (map projected (take r.page_size found));
          total_size = total_of r s;
          next_page_token =
              if ltb r.page_size (length found)
              then encode_list_page_token (last_cursor (take r.page_size found))
              else [];
          task_cursors = take r.page_size found;
        })
  unfolding list_tasks
  list_tasks-page some_size cursor parsed =
      let run = page_loop-bounded some_size (order_after cursor s) [] [] (omega arith) in
      let all_room : r.page_size - 0 ≡ r.page_size = omega arith in rw (parsed, run, all_room) refl
