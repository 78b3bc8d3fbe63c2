-- ===== src/Server/Security/Selecting/Exact.antt =====
-- SelectTaskIds of src/server/security_policy.cpp over the in-memory store.
use a2a_cpp.Base.{
  All, subst, sym, ℕ, zero, suc, ◌-◌, ◌%◌, ◌<◌, ◌≡◌, refl, ap, ap₂, ◌∙◌, arith, true, false, Option,
  none, some, List, [], ◌++◌, ltb, ◌==◌, ==_iff, if◌then◌else◌, Bytes, is_empty, length,
  length-drop, length-map, map, take, take-append-drop, keep, append_assoc, Bool-cases, inl, inr,
}
use a2a_cpp.Core.Error.{Result, ok}
use a2a_cpp.Core.Proto.{Part}
use a2a_cpp.Tasks.Cursor.{ListTaskCursor, encode_list_page_token, parse_list_page_token}
use a2a_cpp.Tasks.Cursor.RoundTrip.{IsCursor, parse-encode, parse-empty, encode-is_empty}
use a2a_cpp.Tasks.Listing.{ListTasksRequest, ListTasksResponse, max_list_tasks_page_size}
use a2a_cpp.Tasks.Store.{InMemoryTaskStore, get}
use a2a_cpp.Tasks.Cursor.Order.{IsNewer}
use a2a_cpp.Tasks.Store.NewestFirst.{
  IsNewestFirst, IsSorted-IsNewestFirst, keep-IsNewestFirst, keep-behind,
}
use a2a_cpp.Tasks.Store.Consistency.{IsConsistent}
use a2a_cpp.Tasks.Store.UpdateOrder.{contains}
use a2a_cpp.Tasks.Store.Paging.{last_cursor, list_tasks, order_after, total_of}
use a2a_cpp.Tasks.Store.Paging.Pages.{selected, projected, list_tasks-page}
use a2a_cpp.Tasks.Store.Paging.Chain.{
  take_all, order_after-none, same_selection, matching-contains, page_end, rest_after_page,
}
use a2a_cpp.Tasks.Store.Reachable.{Reachable, Reachable-IsConsistent, Reachable-IsCursor}
use a2a_cpp.Server.Security.{RequestContext, SecurityPolicy, ReadStore}
use a2a_cpp.Server.Security.Selecting.{
  is_behind, Scan, VisibleTaskPage, scan_page, scan_pages, select_task_ids,
}
use a2a_cpp.Server.Security.Selecting.Scanning.{
  scanned, chosen, visible, scan_page-scanned, scanned-none,
}

-- The in-memory store as the store that is read.
abbrev pub reads_in_memory : ReadStore InMemoryTaskStore
reads_in_memory = record { get = get; list = list_tasks }

module _ (policy : SecurityPolicy) (context : RequestContext) (cursor : Option ListTaskCursor)
    (size : ℕ) {S : Type 0} (store : ReadStore S) (s : S) where
  abbrev pages : ℕ → ListTasksRequest → Scan → Option (Result VisibleTaskPage)
  pages = scan_pages policy context cursor size store s

  abbrev one_page : ListTasksResponse → Scan → Scan
  one_page listed x = scan_page policy context cursor size listed.tasks listed.task_cursors x

  -- The loop over a page that is the last one, or that is followed by another.
  pages-last :
      (fuel : ℕ) (q : ListTasksRequest) (x : Scan) (listed : ListTasksResponse)
      → store.list q s ≡ ok listed
      → (length listed.tasks == length listed.task_cursors) ≡ true
      → is_empty listed.next_page_token ≡ true
      → pages (suc fuel) q x ≡ some (ok (one_page listed x).selected)
  unfolding scan_pages
  pages-last fuel q x listed answer sizes last = rw (answer, scan_pages, sizes, last) refl

  pages-next :
      (fuel : ℕ) (q : ListTasksRequest) (x : Scan) (listed : ListTasksResponse)
      → store.list q s ≡ ok listed
      → (length listed.tasks == length listed.task_cursors) ≡ true
      → is_empty listed.next_page_token ≡ false
      → pages (suc fuel) q x
        ≡ pages fuel (record q { page_token = listed.next_page_token }) (one_page listed x)
  unfolding scan_pages
  pages-next fuel q x listed answer sizes more = rw (answer, scan_pages, sizes, more) refl

module _ (policy : SecurityPolicy) (context : RequestContext) (cursor : Option ListTaskCursor)
    (size : ℕ) (s : InMemoryTaskStore) (v : IsConsistent s) (r : ListTasksRequest)
    (some_size : 0 < r.page_size) where
  abbrev rest : Option ListTaskCursor → List ListTaskCursor
  rest b = keep (selected r s) (order_after b s)

  abbrev after : List ListTaskCursor → Scan
  after cs = scanned policy context cursor size (projected r s) cs

  -- The response of the store for a token that is read as `b`.
  abbrev answered : Bytes → Option ListTaskCursor → ListTasksResponse
  answered token b = record {
    tasks = map (projected r s) (take r.page_size (rest b));
    page_size = length (map (projected r s) (take r.page_size (rest b)));
    total_size = total_of (record r { page_token = token }) s;
    next_page_token =
        if ltb r.page_size (length (rest b))
        then encode_list_page_token (last_cursor (take r.page_size (rest b)))
        else [];
    task_cursors = take r.page_size (rest b);
  }

  answer :
      (token : Bytes) (b : Option ListTaskCursor)
      → parse_list_page_token token ≡ ok b
      → list_tasks (record r { page_token = token }) s ≡ ok (answered token b)
  answer token b parsed =
      list_tasks-page (record r { page_token = token }) s some_size b parsed
      ∙ rw (same_selection r s token) refl

  sizes_agree :
      (token : Bytes) (b : Option ListTaskCursor)
      → (length (answered token b).tasks == length (answered token b).task_cursors) ≡ true
  sizes_agree token b =
      (==_iff (length (answered token b).tasks) (length (answered token b).task_cursors)).1
        (length-map (take r.page_size (rest b)) (projected r s))

  module _ (printable : (c : ListTaskCursor) → contains c s.update_order ≡ true → IsCursor c) where
    scan_pages-after :
        (fuel : ℕ) (token : Bytes) (b : Option ListTaskCursor)
        → parse_list_page_token token ≡ ok b
        → length (rest b) < fuel
        → (cs : List ListTaskCursor)
        → scan_pages policy context cursor size reads_in_memory s fuel
            (record r { page_token = token })
            (after cs)
          ≡ some (ok (after (cs ++ rest b)).selected)
    scan_pages-after zero token b parsed enough cs = elim enough [ ]
    scan_pages-after (suc fuel) token b parsed enough cs =
        let listed : ListTasksResponse = answered token b in
        let scan =
          scan_page-scanned policy context cursor size (projected r s) (take r.page_size (rest b))
            cs in
        elim (Bool-cases (ltb r.page_size (length (rest b)))) [
          | inr last ↦
              pages-last policy context cursor size reads_in_memory s fuel
                (record r { page_token = token }) (after cs) listed (answer token b parsed)
                (sizes_agree token b) (rw last refl)
              ∙ ap (λ x. some (ok x.selected)) scan
              ∙ ap (λ l. some (ok (after (cs ++ l)).selected))
                  (take_all r.page_size (rest b) (ground (arith, last)))
          | inl more ↦
              let c : ListTaskCursor = last_cursor (take r.page_size (rest b)) in
              let below : r.page_size < length (rest b) = ground (arith, more) in
              let printed = parse-encode c (
                printable c (
                  matching-contains s v r some_size b (r.page_size - 1) c
                    (page_end s v r some_size b below))) in
              let left = rest_after_page s v r some_size b below in
              let token_is : listed.next_page_token ≡ encode_list_page_token c = rw more refl in
              pages-next policy context cursor size reads_in_memory s fuel
                (record r { page_token = token }) (after cs) listed (answer token b parsed)
                (sizes_agree token b) (rw token_is (encode-is_empty c))
              ∙ ap₂
                  (λ t x.
                    scan_pages policy context cursor size reads_in_memory s fuel
                      (record r { page_token = t }) x)
                  token_is scan
              ∙ scan_pages-after fuel (encode_list_page_token c) (some c) printed
                  (rw left (omega (arith, length-drop r.page_size (rest b), enough)))
                  (cs ++ take r.page_size (rest b))
              ∙ ap (λ l. some (ok (after l).selected))
                  (append_assoc cs (take r.page_size (rest b)) (rest (some c))
                    ∙ ap (λ l. cs ++ l)
                        (ap (λ l. take r.page_size (rest b) ++ l) left
                          ∙ take-append-drop r.page_size (rest b)))
        ]

-- The query that SelectTaskIds starts with.
abbrev pub first_query : ListTasksRequest → ListTasksRequest
first_query query = record query {
  page_size = max_list_tasks_page_size;
  include_total_size = false;
  page_token = [];
}

-- For a store that its operations can make and a loop with one more turn than there are tasks that
-- match the query, SelectTaskIds ends, and it returns: the ids of the first tasks that match, are
-- visible to the caller and lie behind the cursor, at most as many as the page size; the number, as a
-- size_t, of all that match and are visible; and the token of the last of the ids if there are more of
-- them, and no token otherwise. These tasks stand newest first, by the time of their last update and,
-- at one time, by their id, and all are older than the cursor.
pub select_task_ids-visible :
    (serialize : Part → Bytes) (s : InMemoryTaskStore)
    → Reachable serialize s
    → (policy : SecurityPolicy) (context : RequestContext) (cursor : Option ListTaskCursor)
      (size : ℕ) (query : ListTasksRequest) (fuel : ℕ)
    → let r = first_query query in
      let matches = keep (selected r s) s.update_order in
      let task_of = projected r s in
      let found = chosen policy context cursor size task_of matches in
      length matches < fuel
      → (select_task_ids policy context cursor size reads_in_memory s fuel query
          ≡ some (
              ok (record {
                task_ids = map (λ c. (task_of c).id) (take size found);
                total_size =
                    length (keep (visible policy context cursor size task_of) matches)
                    % 18446744073709551616;
                next_page_token =
                    if ltb size (length found)
                    then encode_list_page_token (last_cursor (take size found))
                    else [];
              })))
        × IsNewestFirst found
        × ((b : ListTaskCursor) → cursor ≡ some b → All (IsNewer b) found)
unfolding select_task_ids
select_task_ids-visible serialize s reached policy context cursor size query fuel enough =
    let r : ListTasksRequest = first_query query in
    let v = (Reachable-IsConsistent serialize s reached).0 in
    let seen = visible policy context cursor size (projected r s) in
    let matches = keep (selected r s) s.update_order in
    let run =
      scan_pages-after policy context cursor size s v r (omega arith)
        (Reachable-IsCursor serialize s reached) fuel [] none parse-empty
        (rw (order_after-none s) enough) [] in
    (
      ap (λ x. scan_pages policy context cursor size reads_in_memory s fuel r x)
            (sym (scanned-none policy context cursor size (projected r s)))
          ∙ run
          ∙ ap
              (λ l. some (
                ok
                  (scanned policy context cursor size (projected r s)
                    (keep (selected r s) l)).selected))
              (order_after-none s),
      keep-IsNewestFirst (is_behind cursor) (keep seen matches) (
          keep-IsNewestFirst seen matches (
            keep-IsNewestFirst (selected r s) s.update_order
              (IsSorted-IsNewestFirst s.update_order v.sorted))),
      λ b here.
          subst (λ o. All (IsNewer b) (keep (is_behind o) (keep seen matches))) (sym here)
            (keep-behind b (keep seen matches)),
    )
