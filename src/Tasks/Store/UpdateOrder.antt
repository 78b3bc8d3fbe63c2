-- ===== src/Tasks/Store/UpdateOrder.antt =====
-- `std::set<ListTaskCursor, CursorOrder>` of in_memory_task_store.cpp, as its sorted list.
pub mod Bounds
use a2a_cpp.Base.{
  ℕ, ◌≡◌, refl, Bool, true, false, not, ◌&&◌, ◌||◌, List, [], ◌∷◌, arith, ◌==◌, ==_iff,
  if◌then◌else◌, bytes_eq, bytes_eq_iff, All, ◌↔◌,
}
use a2a_cpp.Tasks.Cursor.{ListTaskCursor, list_cursor_precedes}
use a2a_cpp.Tasks.Cursor.Order.{precedes_irrefl, precedes_trans, precedes_asymm, precedes_total}

-- `insert`: nothing is inserted where an equivalent element is there.
unfoldable pub insert_cursor : ListTaskCursor → List ListTaskCursor → List ListTaskCursor
insert_cursor c [] = c ∷ []
insert_cursor c (d ∷ ds) =
    if list_cursor_precedes c d
    then c ∷ d ∷ ds
    else if list_cursor_precedes d c
    then d ∷ insert_cursor c ds
    else d ∷ ds

-- `extract`: the equivalent element is taken out.
pub extract_cursor : ListTaskCursor → List ListTaskCursor → List ListTaskCursor
extract_cursor c [] = []
extract_cursor c (d ∷ ds) =
    if list_cursor_precedes c d
    then d ∷ ds
    else if list_cursor_precedes d c
    then d ∷ extract_cursor c ds
    else ds

-- `upper_bound`: the elements from the first one that `c` precedes.
pub upper_bound : ListTaskCursor → List ListTaskCursor → List ListTaskCursor
upper_bound c [] = []
upper_bound c (d ∷ ds) = if list_cursor_precedes c d then d ∷ ds else upper_bound c ds

abbrev pub IsSorted : List ListTaskCursor → Type 0
IsSorted [] = Unit
IsSorted (c ∷ cs) = All (λ d. list_cursor_precedes c d ≡ true) cs × IsSorted cs

abbrev pub cursor_eq : ListTaskCursor → ListTaskCursor → Bool
cursor_eq a b = a.updated_at == b.updated_at && bytes_eq a.task_id b.task_id

pub contains : ListTaskCursor → List ListTaskCursor → Bool
contains c [] = false
contains c (d ∷ ds) = cursor_eq c d || contains c ds

pub cursor_eq_iff : (a b : ListTaskCursor) → (cursor_eq a b ≡ true) ↔ (a ≡ b)
cursor_eq_iff a b = ground (arith, bytes_eq_iff a.task_id b.task_id)

after_insert :
    (b c : ListTaskCursor) (ds : List ListTaskCursor)
    → list_cursor_precedes b c ≡ true
    → All (λ d. list_cursor_precedes b d ≡ true) ds
    → All (λ d. list_cursor_precedes b d ≡ true) (insert_cursor c ds)
unfolding insert_cursor
after_insert b c [] h k = (h, tt)
after_insert b c (d ∷ ds) h k = ground (arith, after_insert b c ds)

All-precedes_trans :
    (a b : ListTaskCursor) (ds : List ListTaskCursor)
    → list_cursor_precedes a b ≡ true
    → All (λ d. list_cursor_precedes b d ≡ true) ds
    → All (λ d. list_cursor_precedes a d ≡ true) ds
All-precedes_trans a b [] h k = tt
All-precedes_trans a b (d ∷ ds) h k = (precedes_trans a b d h k.0, All-precedes_trans a b ds h k.1)

pub insert_cursor-IsSorted :
    (c : ListTaskCursor) (ds : List ListTaskCursor) → IsSorted ds → IsSorted (insert_cursor c ds)
unfolding insert_cursor
insert_cursor-IsSorted c [] h = (tt, tt)
insert_cursor-IsSorted c (d ∷ ds) h =
    ground (arith, insert_cursor-IsSorted c ds, after_insert d c ds, All-precedes_trans c d ds)

after_extract :
    (b c : ListTaskCursor) (ds : List ListTaskCursor)
    → All (λ d. list_cursor_precedes b d ≡ true) ds
    → All (λ d. list_cursor_precedes b d ≡ true) (extract_cursor c ds)
unfolding extract_cursor
after_extract b c [] k = tt
after_extract b c (d ∷ ds) k = ground (arith, after_extract b c ds)

pub extract_cursor-IsSorted :
    (c : ListTaskCursor) (ds : List ListTaskCursor) → IsSorted ds → IsSorted (extract_cursor c ds)
unfolding extract_cursor
extract_cursor-IsSorted c [] h = tt
extract_cursor-IsSorted c (d ∷ ds) h =
    ground (arith, extract_cursor-IsSorted c ds, after_extract d c ds)

pub contains-insert :
    (b c : ListTaskCursor) (ds : List ListTaskCursor)
    → contains b (insert_cursor c ds) ≡ (cursor_eq b c || contains b ds)
unfolding contains insert_cursor
contains-insert b c [] = refl
contains-insert b c (d ∷ ds) =
    ground (arith, contains-insert b c ds, precedes_total c d, cursor_eq_iff b c, cursor_eq_iff b d)

not_contained_after :
    (c b : ListTaskCursor) (ds : List ListTaskCursor)
    → All (λ d. list_cursor_precedes b d ≡ true) ds
    → list_cursor_precedes b c ≡ false
    → contains c ds ≡ false
unfolding contains
not_contained_after c b [] h k = refl
not_contained_after c b (d ∷ ds) h k = ground (arith, not_contained_after c b ds, cursor_eq_iff c d)

pub contains-extract :
    (b c : ListTaskCursor) (ds : List ListTaskCursor)
    → IsSorted ds
    → contains b (extract_cursor c ds) ≡ (not (cursor_eq b c) && contains b ds)
unfolding contains extract_cursor
contains-extract b c [] h = ground arith
contains-extract b c (d ∷ ds) h = ground (
  arith,
  contains-extract b c ds,
  precedes_total c d,
  precedes_asymm c d,
  precedes_irrefl c,
  cursor_eq_iff b c,
  cursor_eq_iff b d,
  not_contained_after c d ds,
)

pub contains-empty : (c : ListTaskCursor) → contains c [] ≡ false
unfolding contains
contains-empty c = refl
