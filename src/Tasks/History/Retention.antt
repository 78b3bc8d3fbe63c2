-- ===== src/Tasks/History/Retention.antt =====
-- What the retention limit of task_history.cpp keeps.
use a2a_cpp.Base.{
  ℕ, zero, suc, ◌-◌, ◌≤◌, ◌≡◌, refl, none, some, List, [], ◌∷◌, ◌++◌, arith, length, take, drop,
  length-drop, take-append-drop, min,
}
use a2a_cpp.Core.Proto.{Task, Message}
use a2a_cpp.Tasks.History.{apply_history_limit, apply_history_retention}

drop-of_le {ℓ} : {A : Type ℓ} (n : ℕ) (xs : List A) → length xs ≤ n → drop n xs ≡ []
drop-of_le zero [] h = refl
drop-of_le (suc n) [] h = refl
drop-of_le zero (x ∷ xs) h = elim h [ ]
drop-of_le (suc n) (x ∷ xs) h = drop-of_le n xs (omega arith)

drop-zero {ℓ} : {A : Type ℓ} (xs : List A) → drop 0 xs ≡ xs
drop-zero xs = refl

-- Whatever branch is taken, the limit drops all but the last messages.
pub apply_history_limit-history :
    (task : Task) (n : ℕ)
    → (apply_history_limit task n).history ≡ drop (length task.history - n) task.history
unfolding apply_history_limit
apply_history_limit-history task n =
    ground (arith, drop-of_le (length task.history - n) task.history, drop-zero task.history)

-- Nothing but the history changes.
pub apply_history_retention-history :
    (task : Task) (n : ℕ)
    → apply_history_retention task (some n)
      ≡ record task { history = drop (length task.history - n) task.history }
unfolding apply_history_retention apply_history_limit
apply_history_retention-history task n =
    ground (arith, drop-of_le (length task.history - n) task.history, drop-zero task.history)

-- Under a limit of n the last n messages are kept in their order (all of them, if there are no
-- more): the history is some dropped messages followed by the kept ones, whose number is the
-- smaller of n and the history's length. With no limit the task is unchanged.
pub apply_history_retention-suffix :
    (task : Task) (n : ℕ)
    → (dropped : List Message) × (dropped ++ (apply_history_retention task (some n)).history
        ≡ task.history)
      × (length (apply_history_retention task (some n)).history ≡ min n (length task.history))
      × (apply_history_retention task none ≡ task)
unfolding apply_history_retention
apply_history_retention-suffix task n = (
  take (length task.history - n) task.history,
  rw (apply_history_limit-history task n) (take-append-drop _ _),
  rw (apply_history_limit-history task n)
      (omega (arith, length-drop (length task.history - n) task.history)),
  refl,
)
