-- ===== src/Tasks/Store/NewestFirst.antt =====
-- Lists of positions of in_memory_task_store.cpp with the newest first.
use a2a_cpp.Base.{◌≡◌, Bool, true, List, [], ◌∷◌, All, All-keep, keep, Bool-cases, inl, inr}
use a2a_cpp.Tasks.Cursor.{ListTaskCursor, list_cursor_precedes}
use a2a_cpp.Tasks.Cursor.Order.{IsNewer, list_cursor_precedes_iff}
use a2a_cpp.Tasks.Store.UpdateOrder.{IsSorted}

-- Each cursor is newer than all behind it.
abbrev pub IsNewestFirst : List ListTaskCursor → Type 0
IsNewestFirst [] = Unit
IsNewestFirst (c ∷ cs) = All (IsNewer c) cs × IsNewestFirst cs

All-IsNewer :
    (c : ListTaskCursor) (cs : List ListTaskCursor)
    → All (λ d. list_cursor_precedes c d ≡ true) cs
    → All (IsNewer c) cs
All-IsNewer c [] h = tt
All-IsNewer c (d ∷ ds) h = ((list_cursor_precedes_iff c d).0 h.0, All-IsNewer c ds h.1)

pub IsSorted-IsNewestFirst : (cs : List ListTaskCursor) → IsSorted cs → IsNewestFirst cs
IsSorted-IsNewestFirst [] h = tt
IsSorted-IsNewestFirst (c ∷ cs) h = (All-IsNewer c cs h.0, IsSorted-IsNewestFirst cs h.1)

pub keep-IsNewestFirst :
    (p : ListTaskCursor → Bool) (cs : List ListTaskCursor)
    → IsNewestFirst cs
    → IsNewestFirst (keep p cs)
keep-IsNewestFirst p [] h = tt
keep-IsNewestFirst p (c ∷ cs) h = elim (Bool-cases (p c)) [
  | inl kept ↦ rw kept (All-keep (IsNewer c) p cs h.0, keep-IsNewestFirst p cs h.1)
  | inr dropped ↦ rw dropped (keep-IsNewestFirst p cs h.1)
]

-- What is kept behind a cursor is older.
pub keep-behind :
    (b : ListTaskCursor) (cs : List ListTaskCursor)
    → All (IsNewer b) (keep (list_cursor_precedes b) cs)
keep-behind b [] = tt
keep-behind b (c ∷ cs) = elim (Bool-cases (list_cursor_precedes b c)) [
  | inl behind ↦ rw behind ((list_cursor_precedes_iff b c).0 behind, keep-behind b cs)
  | inr before ↦ rw before (keep-behind b cs)
]
