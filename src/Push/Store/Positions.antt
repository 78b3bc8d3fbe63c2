-- ===== src/Push/Store/Positions.antt =====
-- Where the config of an id stands in the list that push_notification_store.cpp keeps for a task.
use a2a_cpp.Base.{
  ℕ, zero, suc, ◌+◌, ◌≡◌, ◌≢◌, refl, sym, ap, ◌∙◌, false, Option, none, some, List, [], ◌∷◌, ◌++◌,
  arith, if◌then◌else◌, Bool-cases, inl, inr, Option-cases, Bytes, bytes_eq, bytes_eq_iff,
  bytes_eq_refl, length, set, get_or,
}
use a2a_cpp.Core.Proto.{TaskPushNotificationConfig}

abbrev pub Config : Type 0
Config = TaskPushNotificationConfig

abbrev succ : Option ℕ → Option ℕ
succ none = none
succ (some i) = some (suc i)

-- The first position of an id.
unfoldable pub position : Bytes → List Config → Option ℕ
position k [] = none
position k (c ∷ cs) = if bytes_eq c.id k then some 0 else succ (position k cs)

-- No two configs have one id.
abbrev pub IsDistinct : List Config → Type 0
IsDistinct [] = Unit
IsDistinct (c ∷ cs) = (position c.id cs ≡ none) × IsDistinct cs

-- The config of an id, a replacement or an addition, and a removal, without positions.
abbrev pub find_config : Bytes → List Config → Option Config
find_config k [] = none
find_config k (c ∷ cs) = if bytes_eq c.id k then some c else find_config k cs

abbrev pub replace_config : Config → List Config → List Config
replace_config c [] = c ∷ []
replace_config c (d ∷ ds) = if bytes_eq d.id c.id then c ∷ ds else d ∷ replace_config c ds

abbrev pub remove_config : Bytes → List Config → List Config
remove_config k [] = []
remove_config k (d ∷ ds) = if bytes_eq d.id k then ds else d ∷ remove_config k ds

pub position-replace :
    (c : Config) (k : Bytes) (cs : List Config) (i : ℕ)
    → position c.id cs ≡ some i
    → (set cs i c ≡ replace_config c cs) × (position k (set cs i c) ≡ position k cs)
unfolding position
position-replace c k [] i h = absurd (cc h)
position-replace c k (d ∷ ds) i h = elim (Bool-cases (bytes_eq d.id c.id)) [
  | inl same ↦
      let first : zero ≡ i = ground (arith, h, same) in
      rw (← first, same) (refl, ground (arith, bytes_eq_iff d.id c.id, same))
  | inr other ↦ elim (Option-cases (position c.id ds)) [
    | inl missing ↦ absurd (ground (arith, h, other, missing))
    | inr (j, there) ↦
        let later : suc j ≡ i = ground (arith, h, other, there) in
        let (l, p) = position-replace c k ds j there in
        rw (← later, other) (ap (λ x. d ∷ x) l, rw p refl)
  ]
]

pub replace_config-new :
    (c : Config) (cs : List Config) → position c.id cs ≡ none → replace_config c cs ≡ cs ++ c ∷ []
unfolding position
replace_config-new c [] h = refl
replace_config-new c (d ∷ ds) h = ground (arith, h, replace_config-new c ds)

pub position-append :
    (k : Bytes) (xs ys : List Config)
    → position k (xs ++ ys) ≡ elim (position k xs) [
      | some i ↦ some i
      | none ↦ elim (position k ys) [ none ↦ none | some i ↦ some (length xs + i) ]
    ]
unfolding position
position-append k [] ys = ground arith
position-append k (x ∷ xs) ys = ground (arith, position-append k xs ys)

-- The list around a position.
pub position-split :
    (k : Bytes) (cs : List Config) (i : ℕ)
    → position k cs ≡ some i
    → (front : List Config) × (d : Config) × (back : List Config) × (cs ≡ front ++ d ∷ back)
      × (length front ≡ i)
      × (d.id ≡ k)
unfolding position
position-split k [] i h = absurd (cc h)
position-split k (c ∷ cs) i h = elim (Bool-cases (bytes_eq c.id k)) [
  | inl same ↦ ([], c, cs, refl, ground (arith, h, same), (bytes_eq_iff c.id k).0 same)
  | inr other ↦ elim (Option-cases (position k cs)) [
    | inl missing ↦ absurd (ground (arith, h, other, missing))
    | inr (j, there) ↦
        let (front, d, back, e, n, id) = position-split k cs j there in
        (c ∷ front, d, back, ap (λ x. c ∷ x) e, ground (arith, h, other, there, n), id)
  ]
]

pub IsDistinct-set :
    (c : Config) (cs : List Config) (i : ℕ)
    → position c.id cs ≡ some i
    → IsDistinct cs
    → IsDistinct (set cs i c)
unfolding position
IsDistinct-set c [] i h v = v
IsDistinct-set c (d ∷ ds) zero h v = elim (Bool-cases (bytes_eq d.id c.id)) [
  | inl same ↦ (ap (λ k. position k ds) (sym ((bytes_eq_iff d.id c.id).0 same)) ∙ v.0, v.1)
  | inr other ↦ absurd (ground (arith, h, other))
]
IsDistinct-set c (d ∷ ds) (suc i) h v =
    let later : position c.id ds ≡ some i = ground (arith, h) in
    ((position-replace c d.id ds i later).1 ∙ v.0, IsDistinct-set c ds i later v.1)

pub IsDistinct-new :
    (c : Config) (cs : List Config)
    → position c.id cs ≡ none
    → IsDistinct cs
    → IsDistinct (cs ++ c ∷ [])
unfolding position
IsDistinct-new c [] h v = (refl, tt)
IsDistinct-new c (d ∷ ds) h v = (
  ground (
    arith,
    position-append d.id ds (c ∷ []),
    v.0,
    h,
    bytes_eq_iff d.id c.id,
    bytes_eq_iff c.id d.id,
  ),
  IsDistinct-new c ds (ground (arith, h)) v.1,
)

-- A config with an id that stands nowhere else is the one that a removal takes out.
pub remove_config-front :
    (d : Config) (front back : List Config)
    → IsDistinct (front ++ d ∷ back)
    → remove_config d.id (front ++ d ∷ back) ≡ front ++ back
unfolding position
remove_config-front d [] back v = rw (bytes_eq_refl d.id) refl
remove_config-front d (x ∷ front) back v =
    let other : bytes_eq x.id d.id ≡ false = ground (
      arith,
      v.0,
      position-append x.id front (d ∷ back),
      bytes_eq_iff x.id d.id,
      bytes_eq_iff d.id x.id,
    ) in
    rw other (ap (λ l. x ∷ l) (remove_config-front d front back v.1))

pub find_config-position :
    (k : Bytes) (cs : List Config) (d : Config)
    → find_config k cs ≡ elim (position k cs) [ none ↦ none | some i ↦ some (get_or cs i d) ]
unfolding position
find_config-position k [] d = refl
find_config-position k (c ∷ cs) d = ground (arith, find_config-position k cs d)

pub remove_config-missing :
    (k : Bytes) (cs : List Config) → position k cs ≡ none → remove_config k cs ≡ cs
unfolding position
remove_config-missing k [] h = refl
remove_config-missing k (c ∷ cs) h = ground (arith, h, remove_config-missing k cs)

pub replace_config-full : (c : Config) (cs : List Config) → replace_config c cs ≢ []
replace_config-full c [] = cc
replace_config-full c (d ∷ ds) = ground arith
