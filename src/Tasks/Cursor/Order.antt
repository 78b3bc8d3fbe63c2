-- ===== src/Tasks/Cursor/Order.antt =====
-- ListCursorPrecedes of list_tasks.cpp as an order: newer updates stand first, and among equal
-- times larger ids.
use a2a_cpp.Base.{
  ◌≡◌, ◌⊎◌, ◌↔◌, ◌<◌, true, false, arith, bytes_lt, bytes_lt_irrefl, bytes_lt_trans, bytes_lt_total,
  bytes_lt_asymm,
}
use a2a_cpp.Tasks.Cursor.{ListTaskCursor, list_cursor_precedes}

pub precedes_irrefl : (c : ListTaskCursor) → list_cursor_precedes c c ≡ false
unfolding list_cursor_precedes
precedes_irrefl c = ground (arith, bytes_lt_irrefl c.task_id)

pub precedes_trans :
    (a b c : ListTaskCursor)
    → list_cursor_precedes a b ≡ true
    → list_cursor_precedes b c ≡ true
    → list_cursor_precedes a c ≡ true
unfolding list_cursor_precedes
precedes_trans a b c h k = ground (arith, bytes_lt_trans c.task_id b.task_id a.task_id)

pub precedes_asymm :
    (a b : ListTaskCursor) → list_cursor_precedes a b ≡ true → list_cursor_precedes b a ≡ false
unfolding list_cursor_precedes
precedes_asymm a b h = ground (arith, bytes_lt_asymm b.task_id a.task_id)

pub precedes_total :
    (a b : ListTaskCursor)
    → list_cursor_precedes a b ≡ false
    → list_cursor_precedes b a ≡ false
    → a ≡ b
unfolding list_cursor_precedes
precedes_total a b h k = ground (arith, bytes_lt_total a.task_id b.task_id)

-- A cursor of a later update, or, of two updates at one time, of the task with the larger id.
abbrev pub IsNewer : ListTaskCursor → ListTaskCursor → Type 0
IsNewer a b =
    (b.updated_at < a.updated_at)
    ⊎ ((a.updated_at ≡ b.updated_at) × (bytes_lt b.task_id a.task_id ≡ true))

pub list_cursor_precedes_iff :
    (a b : ListTaskCursor) → (list_cursor_precedes a b ≡ true) ↔ IsNewer a b
unfolding list_cursor_precedes
list_cursor_precedes_iff a b = ground arith

-- One cursor precedes another exactly if it is newer: its update is later, or of the same time and of a
-- task with a larger id. No cursor precedes itself, precedence is transitive, and of two cursors
-- neither of which precedes the other there is only one.
pub precedes_total_order :
    (a b c : ListTaskCursor)
    → ((list_cursor_precedes a b ≡ true) ↔ IsNewer a b)
      × (list_cursor_precedes a a ≡ false)
      × (list_cursor_precedes a b ≡ true
          → list_cursor_precedes b c ≡ true
          → list_cursor_precedes a c ≡ true)
      × (list_cursor_precedes a b ≡ false → list_cursor_precedes b a ≡ false → a ≡ b)
precedes_total_order a b c =
    (list_cursor_precedes_iff a b, precedes_irrefl a, precedes_trans a b c, precedes_total a b)
