-- ===== src/Tasks/Store/UpdateOrder/Bounds.antt =====
-- `upper_bound` in a sorted order: what stands behind a cursor.
use a2a_cpp.Base.{
  ℕ, zero, suc, ◌≡◌, refl, Bool, true, false, ◌&&◌, some, List, [], ◌∷◌, arith, All, keep, drop,
  get_elem?, subst, All-keep, Bool-cases, inl, inr,
}
use a2a_cpp.Tasks.Cursor.{ListTaskCursor, list_cursor_precedes}
use a2a_cpp.Tasks.Cursor.Order.{precedes_irrefl, precedes_trans, precedes_asymm}
use a2a_cpp.Tasks.Store.UpdateOrder.{IsSorted, upper_bound, contains, cursor_eq, cursor_eq_iff}

pub upper_bound-IsSorted :
    (c : ListTaskCursor) (xs : List ListTaskCursor) → IsSorted xs → IsSorted (upper_bound c xs)
unfolding upper_bound
upper_bound-IsSorted c [] h = tt
upper_bound-IsSorted c (x ∷ xs) h = ground (arith, upper_bound-IsSorted c xs)

-- A sorted list that the cursor precedes as a whole is its own upper part.
upper_bound_whole :
    (c : ListTaskCursor) (xs : List ListTaskCursor)
    → All (λ d. list_cursor_precedes c d ≡ true) xs
    → upper_bound c xs ≡ xs
unfolding upper_bound
upper_bound_whole c [] h = refl
upper_bound_whole c (x ∷ xs) h = ground arith

All-precedes_trans :
    (a b : ListTaskCursor) (ds : List ListTaskCursor)
    → list_cursor_precedes a b ≡ true
    → All (λ d. list_cursor_precedes b d ≡ true) ds
    → All (λ d. list_cursor_precedes a d ≡ true) ds
All-precedes_trans a b [] h k = tt
All-precedes_trans a b (d ∷ ds) h k = (precedes_trans a b d h k.0, All-precedes_trans a b ds h k.1)

upper_bound-All :
    (b : ListTaskCursor) (xs : List ListTaskCursor)
    → IsSorted xs
    → All (λ d. list_cursor_precedes b d ≡ true) (upper_bound b xs)
unfolding upper_bound
upper_bound-All b [] h = tt
upper_bound-All b (x ∷ xs) h = ground (arith, upper_bound-All b xs, All-precedes_trans b x xs)

-- A later bound may be looked for behind an earlier one.
pub upper_bound-upper_bound :
    (b c : ListTaskCursor) (xs : List ListTaskCursor)
    → list_cursor_precedes b c ≡ true
    → upper_bound c (upper_bound b xs) ≡ upper_bound c xs
unfolding upper_bound
upper_bound-upper_bound b c [] h = refl
upper_bound-upper_bound b c (x ∷ xs) h =
    ground (arith, upper_bound-upper_bound b c xs h, precedes_trans b c x h)

All_at {ℓ κ} :
    {A : Type ℓ} (P : A → Type κ) (xs : List A) (m : ℕ) (c : A)
    → All P xs
    → get_elem? xs m ≡ some c
    → P c
All_at P [] m c h e = absurd (cc e)
All_at P (x ∷ xs) zero c h e = let same : x ≡ c = cc e in subst P same h.0
All_at P (x ∷ xs) (suc m) c h e = All_at P xs m c h.1 e

upper_bound-skip :
    (c x : ListTaskCursor) (xs : List ListTaskCursor)
    → list_cursor_precedes c x ≡ false
    → upper_bound c (x ∷ xs) ≡ upper_bound c xs
unfolding upper_bound
upper_bound-skip c x xs h = rw (h, upper_bound) refl

module _ (p : ListTaskCursor → Bool) where
  -- A cursor kept from the tail stands behind the head.
  behind :
      (x : ListTaskCursor) (xs : List ListTaskCursor) (m : ℕ) (c : ListTaskCursor)
      → IsSorted (x ∷ xs)
      → get_elem? (keep p xs) m ≡ some c
      → list_cursor_precedes c x ≡ false
  behind x xs m c h e = precedes_asymm x c (
      All_at (λ d. list_cursor_precedes x d ≡ true) (keep p xs) m c
        (All-keep (λ d. list_cursor_precedes x d ≡ true) p xs h.0) e)

  -- What passes a filter behind the m-th cursor that passes it is the rest of what passes it.
  pub keep-upper_bound :
      (xs : List ListTaskCursor) (m : ℕ) (c : ListTaskCursor)
      → IsSorted xs
      → get_elem? (keep p xs) m ≡ some c
      → keep p (upper_bound c xs) ≡ drop (suc m) (keep p xs)
  keep-upper_bound [] m c h e = absurd (cc e)
  keep-upper_bound (x ∷ xs) zero c h e = elim (Bool-cases (p x)) [
    | inr other ↦
        let later : get_elem? (keep p xs) 0 ≡ some c = rw other at e in
        rw (other, upper_bound-skip c x xs (behind x xs 0 c h later))
          (keep-upper_bound xs 0 c h.1 later)
    | inl passes ↦
        let first : get_elem? (x ∷ keep p xs) 0 ≡ some c = rw passes at e in
        let same : x ≡ c = cc first in
        rw (passes, ← same, upper_bound-skip x x xs (precedes_irrefl x), upper_bound_whole x xs h.0)
          refl
  ]
  keep-upper_bound (x ∷ xs) (suc m) c h e = elim (Bool-cases (p x)) [
    | inr other ↦
        let later : get_elem? (keep p xs) (suc m) ≡ some c = rw other at e in
        rw (other, upper_bound-skip c x xs (behind x xs (suc m) c h later))
          (keep-upper_bound xs (suc m) c h.1 later)
    | inl passes ↦
        let later : get_elem? (keep p xs) m ≡ some c = rw passes at e in
        rw (passes, upper_bound-skip c x xs (behind x xs m c h later))
          (keep-upper_bound xs m c h.1 later)
  ]

  pub upper_bound-behind :
      (xs : List ListTaskCursor) (b : ListTaskCursor) (m : ℕ) (c : ListTaskCursor)
      → IsSorted xs
      → get_elem? (keep p (upper_bound b xs)) m ≡ some c
      → list_cursor_precedes b c ≡ true
  upper_bound-behind xs b m c h e =
      All_at (λ d. list_cursor_precedes b d ≡ true) (keep p (upper_bound b xs)) m c
        (All-keep (λ d. list_cursor_precedes b d ≡ true) p (upper_bound b xs)
          (upper_bound-All b xs h))
        e

  pub contains-keep :
      (xs : List ListTaskCursor) (m : ℕ) (c : ListTaskCursor)
      → get_elem? (keep p xs) m ≡ some c
      → contains c xs ≡ true
  unfolding contains
  contains-keep [] m c e = absurd (cc e)
  contains-keep (x ∷ xs) zero c e = ground (arith, contains-keep xs zero c, cursor_eq_iff c x)
  contains-keep (x ∷ xs) (suc m) c e =
      ground (arith, contains-keep xs m c, contains-keep xs (suc m) c)

pub contains-upper_bound :
    (xs : List ListTaskCursor) (b c : ListTaskCursor)
    → contains c (upper_bound b xs) ≡ true
    → contains c xs ≡ true
unfolding contains upper_bound
contains-upper_bound [] b c h = h
contains-upper_bound (x ∷ xs) b c h = ground (arith, contains-upper_bound xs b c)

-- What a filter keeps of the order.
pub contains-keep_eq :
    (p : ListTaskCursor → Bool) (c : ListTaskCursor) (cs : List ListTaskCursor)
    → contains c (keep p cs) ≡ (contains c cs && p c)
unfolding contains
contains-keep_eq p c [] = refl
contains-keep_eq p c (d ∷ cs) =
    let ih = contains-keep_eq p c cs in
    elim (Bool-cases (cursor_eq c d)) [
      | inl same ↦
          let one : c ≡ d = (cursor_eq_iff c d).0 same in
          rw (← one) (ground (arith, ih, cursor_eq_iff c c))
      | inr other ↦ ground (arith, ih, other)
    ]
