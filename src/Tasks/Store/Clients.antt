-- ===== src/Tasks/Store/Clients.antt =====
-- Clients of the listing of in_memory_task_store.cpp, on the stores that its operations can make.
use a2a_cpp.Base.{ℕ, ◌<◌, ◌≡◌, ◌&&◌, [], Bytes, length, keep}
use a2a_cpp.Core.Proto.{Part}
use a2a_cpp.Tasks.Cursor.{ListTaskCursor}
use a2a_cpp.Tasks.Listing.{ListTasksRequest}
use a2a_cpp.Tasks.Store.{InMemoryTaskStore}
use a2a_cpp.Tasks.Store.UpdateOrder.{contains}
use a2a_cpp.Tasks.Store.NewestFirst.{IsNewestFirst, IsSorted-IsNewestFirst, keep-IsNewestFirst}
use a2a_cpp.Tasks.Store.Consistency.{is_current}
use a2a_cpp.Tasks.Store.Paging.Pages.{selected}
use a2a_cpp.Tasks.Store.Paging.Chain.{follow, follow-selected}
use a2a_cpp.Tasks.Store.Reachable.{Reachable, Reachable-IsConsistent, Reachable-IsCursor}

-- In a store that the operations can make, a client that asks for pages of a positive size from
-- the first page on, and follows each token, sees exactly the matching cursors, each newer than all
-- behind it: of a later update, or, at one time, of a larger id; a cursor is among them exactly if it is
-- the present position of a stored task that matches. One call more than there are matches is enough.
pub follow-all :
    (serialize : Part → Bytes) (s : InMemoryTaskStore)
    → Reachable serialize s
    → (r : ListTasksRequest) → 0 < r.page_size
    → (fuel : ℕ) → length (keep (selected r s) s.update_order) < fuel
    → let seen = follow fuel (record r { page_token = [] }) s in
      (seen ≡ keep (selected r s) s.update_order)
      × IsNewestFirst seen
      × ((c : ListTaskCursor) → contains c seen ≡ (is_current s c && selected r s c))
follow-all serialize s reached r some_size fuel enough =
    let v = (Reachable-IsConsistent serialize s reached).0 in
    let seen =
      follow-selected s v r some_size (Reachable-IsCursor serialize s reached) fuel enough in
    (
      seen.0,
      rw (seen.0) (
          keep-IsNewestFirst (selected r s) s.update_order
            (IsSorted-IsNewestFirst s.update_order v.sorted)),
      seen.1,
    )
