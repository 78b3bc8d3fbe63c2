-- ===== src/Push/Store/Shifting.antt =====
-- The loop of Delete in push_notification_store.cpp, which moves a config to the end.
use a2a_cpp.Base.{
  ℕ, suc, ◌+◌, ◌-◌, ◌≡◌, ◌≢◌, refl, sym, ap, subst, ◌∙◌, true, none, some, List, [], ◌∷◌, ◌++◌,
  arith, Bool-cases, inl, inr, Bytes, bytes_eq, bytes_eq_iff, length, get_or, All, ◌↔◌, is_empty,
  Assoc, find, assign, find-assign, find-erase, append_assoc, append-nil, length-append,
  pop_back-snoc,
}
use a2a_cpp.Push.Store.{default_config, swap_next, shift_loop, remove_at}
use a2a_cpp.Push.Store.Positions.{
  Config, position, position-append, position-split, IsDistinct, remove_config, remove_config-front,
}

swap_next-front :
    (front back : List Config) (d b : Config)
    → (swap_next (length front) (front ++ d ∷ b ∷ back) ≡ front ++ b ∷ d ∷ back)
      × (get_or (front ++ b ∷ d ∷ back) (length front) default_config ≡ b)
swap_next-front [] back d b = (refl, refl)
swap_next-front (x ∷ front) back d b =
    let (swapped, first) = swap_next-front front back d b in
    let next : suc (length front) + 1 ≡ suc (length front + 1) = omega arith in
    (rw next (ap (λ l. x ∷ l) swapped), first)

abbrev Apart : Config → List Config → Config → Type 0
Apart d front b = (b.id ≢ d.id) × (position b.id front ≡ none)

Apart-after :
    (d b : Config) (front bs : List Config)
    → position b.id bs ≡ none
    → All (Apart d front) bs
    → All (Apart d (front ++ b ∷ [])) bs
unfolding position
Apart-after d b front [] h a = tt
Apart-after d b front (x ∷ bs) h a = (
  (
    a.0.0,
    ground (
      arith,
      position-append x.id front (b ∷ []),
      a.0.1,
      h,
      bytes_eq_iff x.id b.id,
      bytes_eq_iff b.id x.id,
    ),
  ),
  Apart-after d b front bs (ground (arith, h)) a.1,
)

-- The indices after one step of the loop.
step_indices :
    (d b : Config) (front bs : List Config) (indices : Assoc ℕ)
    → Apart d front b
    → ((k : Bytes) → k ≢ d.id → find k indices ≡ position k (front ++ d ∷ b ∷ bs))
    → (k : Bytes) → k ≢ d.id
    → find k (assign b.id (length front) indices) ≡ position k ((front ++ b ∷ []) ++ d ∷ bs)
unfolding position
step_indices d b front bs indices a h k other =
    rw
      (
        append_assoc front (b ∷ []) (d ∷ bs),
        find-assign b.id k (length front) indices,
        position-append k front (b ∷ d ∷ bs),
      )
      (ground (
        arith,
        h k other,
        position-append k front (d ∷ b ∷ bs),
        a.1,
        a.0,
        bytes_eq_iff b.id k,
        bytes_eq_iff d.id k,
      ))

shift_loop-step :
    (d b : Config) (front bs : List Config) (indices : Assoc ℕ) (count : ℕ)
    → shift_loop
        (suc count)
        (length front)
        (record { list_response = front ++ d ∷ b ∷ bs; config_indices = indices })
      ≡ shift_loop count (length front + 1) (record {
        list_response = front ++ b ∷ d ∷ bs;
        config_indices = assign b.id (length front) indices;
      })
unfolding shift_loop
shift_loop-step d b front bs indices count =
    let (swapped, first) = swap_next-front front bs d b in
    ap
      (λ l. shift_loop count (length front + 1) (record {
        list_response = l;
        config_indices = assign (get_or l (length front) default_config).id (length front) indices;
      }))
      swapped
    ∙ ap
        (λ c. shift_loop count (length front + 1) (record {
          list_response = front ++ b ∷ d ∷ bs;
          config_indices = assign c.id (length front) indices;
        }))
        first

-- The whole loop, from the position of `d` on.
shift_loop-eq :
    (d : Config) (front back : List Config) (indices : Assoc ℕ)
    → All (Apart d front) back
    → IsDistinct back
    → ((k : Bytes) → k ≢ d.id → find k indices ≡ position k (front ++ d ∷ back))
    → let c =
        shift_loop
          (length back)
          (length front)
          (record { list_response = front ++ d ∷ back; config_indices = indices }) in
      (c.list_response ≡ (front ++ back) ++ d ∷ [])
      × ((k : Bytes) → k ≢ d.id → find k c.config_indices ≡ position k (front ++ back))
unfolding shift_loop position
shift_loop-eq d front [] indices a v h = (
  rw (append-nil front) refl,
  λ k other.
      h k other
      ∙ rw (append-nil front, position-append k front (d ∷ []))
          (ground (arith, other, bytes_eq_iff d.id k)),
)
shift_loop-eq d front (b ∷ bs) indices a v h =
    let longer : length (front ++ b ∷ []) ≡ length front + 1 = length-append front (b ∷ []) in
    let ih =
      shift_loop-eq d (front ++ b ∷ []) bs (assign b.id (length front) indices)
        (Apart-after d b front bs v.0 a.1) v.1 (step_indices d b front bs indices a.0 h) in
    rw (shift_loop-step d b front bs indices (length bs))
      (rw (append_assoc front (b ∷ []) bs, append_assoc front (b ∷ []) (d ∷ bs), longer) at ih)

Apart-before :
    (d x : Config) (front bs : List Config)
    → position x.id bs ≡ none
    → All (Apart d front) bs
    → All (Apart d (x ∷ front)) bs
unfolding position
Apart-before d x front [] h a = tt
Apart-before d x front (b ∷ bs) h a = (
  (a.0.0, ground (arith, a.0.1, h, bytes_eq_iff x.id b.id, bytes_eq_iff b.id x.id)),
  Apart-before d x front bs (ground (arith, h)) a.1,
)

Apart-at_once : (d : Config) (bs : List Config) → position d.id bs ≡ none → All (Apart d []) bs
unfolding position
Apart-at_once d [] h = tt
Apart-at_once d (b ∷ bs) h =
    ((ground (arith, h, bytes_eq_iff b.id d.id), refl), Apart-at_once d bs (ground (arith, h)))

record Separated (d : Config) (front back : List Config) : Type 0 where
  apart : All (Apart d front) back
  behind : IsDistinct back
  others : IsDistinct (front ++ back)
  gone : position d.id (front ++ back) ≡ none

separated :
    (d : Config) (front back : List Config)
    → IsDistinct (front ++ d ∷ back)
    → Separated d front back
unfolding position
separated d [] back v = record {
  apart = Apart-at_once d back v.0;
  behind = v.1;
  others = v.1;
  gone = v.0;
}
separated d (x ∷ front) back v =
    let s = separated d front back v.1 in
    let whole = position-append x.id front (d ∷ back) in
    record {
      apart = Apart-before d x front back (ground (arith, v.0, whole)) s.apart;
      behind = s.behind;
      others = (ground (arith, v.0, whole, position-append x.id front back), s.others);
      gone = ground (arith, v.0, whole, s.gone, bytes_eq_iff x.id d.id, bytes_eq_iff d.id x.id);
    }

-- The index of every id is its position, and no id stands twice.
pub record IsIndexed (cs : List Config) (indices : Assoc ℕ) : Type 0 where
  pub indexed : (k : Bytes) → find k indices ≡ position k cs
  pub distinct : IsDistinct cs

abbrev Removes : Bytes → ℕ → List Config → Assoc ℕ → Type 0
Removes k i cs indices =
    let c = remove_at k i (record { list_response = cs; config_indices = indices }) in
    (c.list_response ≡ remove_config k cs) × IsIndexed c.list_response c.config_indices

remove_at-front :
    (d : Config) (front back : List Config) (indices : Assoc ℕ)
    → IsIndexed (front ++ d ∷ back) indices
    → Removes d.id (length front) (front ++ d ∷ back) indices
unfolding remove_at
remove_at-front d front back indices v =
    let s = separated d front back v.distinct in
    let count : (length (front ++ d ∷ back) - 1) - length front ≡ length back =
      omega (arith, length-append front (d ∷ back)) in
    let (list, found) =
      shift_loop-eq d front back indices s.apart s.behind (λ k other. v.indexed k) in
    let after =
      (shift_loop (length back) (length front)
        (record { list_response = front ++ d ∷ back; config_indices = indices })).config_indices in
    rw (count, list, pop_back-snoc (front ++ back) d)
      (
        sym (remove_config-front d front back v.distinct),
        record {
          indexed = λ k. elim (Bool-cases (bytes_eq d.id k)) [
            | inl same ↦
                find-erase d.id k after
                ∙ rw same (
                    sym (
                      ap (λ j. position j (front ++ back)) (sym ((bytes_eq_iff d.id k).0 same))
                      ∙ s.gone))
            | inr other ↦
                find-erase d.id k after
                ∙ rw other (found k (ground (arith, other, bytes_eq_iff d.id k)))
          ];
          distinct = s.others;
        },
      )

-- Delete takes the config out of the list and leaves every index right.
pub remove_at-IsIndexed :
    (k : Bytes) (i : ℕ) (cs : List Config) (indices : Assoc ℕ)
    → IsIndexed cs indices
    → find k indices ≡ some i
    → Removes k i cs indices
remove_at-IsIndexed k i cs indices v there =
    let (front, d, back, e, n, same) = position-split k cs i (sym (v.indexed k) ∙ there) in
    let here : IsIndexed (front ++ d ∷ back) indices = subst (λ l. IsIndexed l indices) e v in
    let removed = remove_at-front d front back indices here in
    subst (λ l. Removes k i l indices) (sym e)
      (subst (λ j. Removes j i (front ++ d ∷ back) indices) same
        (subst (λ n. Removes d.id n (front ++ d ∷ back) indices) n removed))

-- The index map is empty exactly when the list is.
pub IsIndexed-empty :
    (cs : List Config) (indices : Assoc ℕ)
    → IsIndexed cs indices
    → (is_empty indices ≡ true) ↔ (cs ≡ [])
unfolding position find
IsIndexed-empty [] [] v = ground arith
IsIndexed-empty [] ((k, i) ∷ m) v = absurd (ground (arith, v.indexed k, bytes_eq_iff k k))
IsIndexed-empty (c ∷ cs) [] v = absurd (ground (arith, v.indexed c.id, bytes_eq_iff c.id c.id))
IsIndexed-empty (c ∷ cs) ((k, i) ∷ m) v = ground arith
