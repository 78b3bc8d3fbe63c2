-- ===== src/Tasks/Store/Paging/Chain.antt =====
-- A client that follows the page tokens of `List` in in_memory_task_store.cpp.
use a2a_cpp.Base.{
  ℕ, zero, suc, ◌-◌, ◌<◌, ◌≤◌, ◌≡◌, ◌&&◌, refl, ◌∙◌, ap, true, false, Option, none, some, List, [],
  ◌∷◌, ◌++◌, arith, ltb, if◌then◌else◌, Bool-cases, inl, inr, Bytes, is_empty, length, length-drop,
  take, drop, keep, get_elem?, take-append-drop,
}
use mathlib.Core.Path.{fun_ext}
use a2a_cpp.Core.Error.{ok, err}
use a2a_cpp.Tasks.Cursor.{ListTaskCursor, encode_list_page_token, parse_list_page_token}
use a2a_cpp.Tasks.Cursor.RoundTrip.{IsCursor, parse-encode, parse-empty, encode-is_empty}
use a2a_cpp.Tasks.Listing.{ListTasksRequest, ListTasksResponse}
use a2a_cpp.Tasks.Store.{InMemoryTaskStore}
use a2a_cpp.Tasks.Store.UpdateOrder.{IsSorted, upper_bound, contains}
use a2a_cpp.Tasks.Store.UpdateOrder.Bounds.{
  upper_bound-IsSorted, upper_bound-upper_bound, keep-upper_bound, upper_bound-behind,
  contains-keep, contains-upper_bound, contains-keep_eq,
}
use a2a_cpp.Tasks.Store.Consistency.{IsConsistent, is_current}
use a2a_cpp.Tasks.Store.Paging.{task_of, last_cursor, order_after, list_tasks}
use a2a_cpp.Tasks.Store.Paging.Pages.{selected, list_tasks-page}
use a2a_cpp.Tasks.Listing.Projection.{matches_list_filters-page_token}

-- The cursors that a client sees which asks again with each token that it is given.
pub follow : ℕ → ListTasksRequest → InMemoryTaskStore → List ListTaskCursor
follow zero r s = []
follow (suc fuel) r s = elim (list_tasks r s) [
  | err e ↦ []
  | ok page ↦ elim (is_empty page.next_page_token) [
    | true ↦ page.task_cursors
    | false ↦ page.task_cursors ++ follow fuel (record r { page_token = page.next_page_token }) s
  ]
]

follow_last :
    (fuel : ℕ) (r : ListTasksRequest) (s : InMemoryTaskStore) (page : ListTasksResponse)
    → list_tasks r s ≡ ok page
    → is_empty page.next_page_token ≡ true
    → follow (suc fuel) r s ≡ page.task_cursors
unfolding follow
follow_last fuel r s page e h = rw (e, follow, h) refl

follow_next :
    (fuel : ℕ) (r : ListTasksRequest) (s : InMemoryTaskStore) (page : ListTasksResponse)
    → list_tasks r s ≡ ok page
    → is_empty page.next_page_token ≡ false
    → follow (suc fuel) r s
      ≡ page.task_cursors ++ follow fuel (record r { page_token = page.next_page_token }) s
unfolding follow
follow_next fuel r s page e h = rw (e, follow, h) refl

pub same_selection :
    (r : ListTasksRequest) (s : InMemoryTaskStore) (token : Bytes)
    → selected (record r { page_token = token }) s ≡ selected r s
same_selection r s token = fun_ext (λ c. matches_list_filters-page_token (task_of s c) r token)

last_cursor-take :
    (m : ℕ) (xs : List ListTaskCursor)
    → m < length xs
    → get_elem? xs m ≡ some (last_cursor (take (suc m) xs))
unfolding last_cursor
last_cursor-take m [] h = elim h [ ]
last_cursor-take zero (x ∷ xs) h = refl
last_cursor-take (suc m) (x ∷ []) h = absurd (omega arith)
last_cursor-take (suc m) (x ∷ y ∷ xs) h = last_cursor-take m (y ∷ xs) (omega arith)

pub take_all {ℓ} : {A : Type ℓ} (n : ℕ) (xs : List A) → length xs ≤ n → take n xs ≡ xs
take_all zero [] h = refl
take_all (suc n) [] h = refl
take_all zero (x ∷ xs) h = elim h [ ]
take_all (suc n) (x ∷ xs) h = ap (λ l. x ∷ l) (take_all n xs (omega arith))

pub order_after-none : (s : InMemoryTaskStore) → order_after none s ≡ s.update_order
unfolding order_after
order_after-none s = refl

order_after-IsSorted :
    (b : Option ListTaskCursor) (s : InMemoryTaskStore)
    → IsSorted s.update_order
    → IsSorted (order_after b s)
unfolding order_after
order_after-IsSorted none s h = h
order_after-IsSorted (some c) s h = upper_bound-IsSorted c s.update_order h

module _ (s : InMemoryTaskStore) (v : IsConsistent s) (r : ListTasksRequest)
    (some_size : 0 < r.page_size) where
  -- The matching cursors behind a boundary.
  abbrev pub matching : Option ListTaskCursor → List ListTaskCursor
  matching b = keep (selected r s) (order_after b s)

  -- What matches behind the m-th match behind a boundary is the rest of the matches.
  matching-rest :
      (b : Option ListTaskCursor) (m : ℕ) (c : ListTaskCursor)
      → get_elem? (matching b) m ≡ some c
      → matching (some c) ≡ drop (suc m) (matching b)
  unfolding order_after
  matching-rest none m c e = keep-upper_bound (selected r s) s.update_order m c v.sorted e
  matching-rest (some b) m c e =
      let later = upper_bound-behind (selected r s) s.update_order b m c v.sorted e in
      rw (← upper_bound-upper_bound b c s.update_order later) (
        keep-upper_bound (selected r s) (upper_bound b s.update_order) m c
          (upper_bound-IsSorted b s.update_order v.sorted) e)

  -- A call with a token, in terms of the matches of the request.
  page_at :
      (token : Bytes) (b : Option ListTaskCursor)
      → parse_list_page_token token ≡ ok b
      → (page : ListTasksResponse) × (list_tasks (record r { page_token = token }) s ≡ ok page)
        × (page.task_cursors ≡ take r.page_size (matching b))
        × (page.next_page_token ≡ (
            if ltb r.page_size (length (matching b))
            then encode_list_page_token (last_cursor (take r.page_size (matching b)))
            else []))
  page_at token b parsed = (
    _,
    list_tasks-page (record r { page_token = token }) s some_size b parsed,
    rw (same_selection r s token) refl,
    rw (same_selection r s token) refl,
  )

  pub matching-contains :
      (b : Option ListTaskCursor) (m : ℕ) (c : ListTaskCursor)
      → get_elem? (matching b) m ≡ some c
      → contains c s.update_order ≡ true
  unfolding order_after
  matching-contains none m c e = contains-keep (selected r s) s.update_order m c e
  matching-contains (some b) m c e =
      contains-upper_bound s.update_order b c
        (contains-keep (selected r s) (upper_bound b s.update_order) m c e)

  -- the last cursor of a page that is not the last one
  pub page_end :
      (b : Option ListTaskCursor)
      → r.page_size < length (matching b)
      → get_elem? (matching b) (r.page_size - 1)
        ≡ some (last_cursor (take r.page_size (matching b)))
  page_end b more =
      let size : suc (r.page_size - 1) ≡ r.page_size = omega arith in
      rw size at (last_cursor-take (r.page_size - 1) (matching b) (omega arith))

  pub rest_after_page :
      (b : Option ListTaskCursor)
      → r.page_size < length (matching b)
      → matching (some (last_cursor (take r.page_size (matching b))))
        ≡ drop r.page_size (matching b)
  rest_after_page b more =
      let size : suc (r.page_size - 1) ≡ r.page_size = omega arith in
      rw size at (matching-rest b (r.page_size - 1) _ (page_end b more))

  module _ (printable : (c : ListTaskCursor) → contains c s.update_order ≡ true → IsCursor c) where
    follow-matching :
        (fuel : ℕ) (token : Bytes) (b : Option ListTaskCursor)
        → parse_list_page_token token ≡ ok b
        → length (matching b) < fuel
        → follow fuel (record r { page_token = token }) s ≡ matching b
    follow-matching zero token b parsed enough = elim enough [ ]
    follow-matching (suc fuel) token b parsed enough =
        let (page, listed, cursors, next) = page_at token b parsed in
        elim (Bool-cases (ltb r.page_size (length (matching b)))) [
          | inr last ↦
              follow_last fuel (record r { page_token = token }) s page listed
                (rw (next, last) refl)
              ∙ cursors
              ∙ take_all r.page_size (matching b) (ground arith)
          | inl more ↦
              let c = last_cursor (take r.page_size (matching b)) in
              let below : r.page_size < length (matching b) = ground arith in
              let printed =
                parse-encode c (printable c (matching-contains b _ c (page_end b below))) in
              let rest = rest_after_page b below in
              let ih =
                follow-matching fuel (encode_list_page_token c) (some c) printed
                  (rw rest (omega (arith, length-drop r.page_size (matching b)))) in
              let token_is : page.next_page_token ≡ encode_list_page_token c =
                rw (next, more) refl in
              follow_next fuel (record r { page_token = token }) s page listed
                (rw token_is (encode-is_empty c))
              ∙ rw (token_is, cursors, ih, rest) (take-append-drop r.page_size (matching b))
        ]

-- The first page and all that follow it.
pub follow-selected :
    (s : InMemoryTaskStore)
    → IsConsistent s
    → (r : ListTasksRequest) → 0 < r.page_size
    → ((c : ListTaskCursor) → contains c s.update_order ≡ true → IsCursor c)
    → (fuel : ℕ) → length (keep (selected r s) s.update_order) < fuel
    → let seen = follow fuel (record r { page_token = [] }) s in
      (seen ≡ keep (selected r s) s.update_order)
      × ((c : ListTaskCursor) → contains c seen ≡ (is_current s c && selected r s c))
follow-selected s v r some_size printable fuel enough =
    let run =
      follow-matching s v r some_size printable fuel [] none parse-empty
        (unfold order_after in enough) in
    let seen : follow fuel (record r { page_token = [] }) s ≡ keep (selected r s) s.update_order =
      unfold order_after in run in
    (seen, λ c. rw (seen, contains-keep_eq (selected r s) c s.update_order, v.ordered c) refl)
