-- ===== src/Server/Security/Selecting/Scanning.antt =====
-- What the loops of SelectTaskIds in src/server/security_policy.cpp collect.
use a2a_cpp.Base.{
  ℕ, zero, suc, ◌+◌, ◌%◌, ◌≡◌, refl, sym, ap, ap₂, ◌∙◌, arith, Bool, true, false, not, Option, List,
  [], ◌∷◌, ◌++◌, ltb, if◌then◌else◌, Bytes, is_empty, length, length-append, length-map,
  length-take, map, take, keep, keep-append, append-nil, append_assoc, Bool-cases, inl, inr,
}
use a2a_cpp.Core.Proto.{Task}
use a2a_cpp.Tasks.Cursor.{ListTaskCursor, encode_list_page_token}
use a2a_cpp.Tasks.Store.Paging.{last_cursor}
use a2a_cpp.Tasks.Store.Paging.Chain.{take_all}
use a2a_cpp.Server.Security.{RequestContext, SecurityPolicy}
use a2a_cpp.Server.Security.Selecting.{Scan, no_scan, is_behind, take_task, scan_task, scan_page}

take-snoc {ℓ} :
    {A : Type ℓ} (n : ℕ) (xs : List A) (x : A)
    → take n (xs ++ x ∷ []) ≡ (if ltb (length xs) n then xs ++ x ∷ [] else take n xs)
take-snoc zero xs x = ground arith
take-snoc (suc zero) [] x = ground arith
take-snoc (suc (suc n)) [] x = ground arith
take-snoc (suc n) (y ∷ xs) x = ground (arith, take-snoc n xs x)

last_cursor-snoc : (cs : List ListTaskCursor) (c : ListTaskCursor) → last_cursor (cs ++ c ∷ []) ≡ c
unfolding last_cursor
last_cursor-snoc [] c = refl
last_cursor-snoc (d ∷ []) c = refl
last_cursor-snoc (d ∷ e ∷ cs) c = last_cursor-snoc (e ∷ cs) c

map-snoc {ℓ κ} :
    {A : Type ℓ} {B : Type κ} (f : A → B) (xs : List A) (x : A)
    → map f (xs ++ x ∷ []) ≡ map f xs ++ f x ∷ []
map-snoc f [] x = refl
map-snoc f (y ∷ xs) x = ap (λ l. f y ∷ l) (map-snoc f xs x)

append_if {ℓ} :
    {A : Type ℓ} (ys : List A) (b : Bool) (x : A)
    → ys ++ (if b then x ∷ [] else []) ≡ (if b then ys ++ x ∷ [] else ys)
append_if ys true x = refl
append_if ys false x = append-nil ys

keep-snoc {ℓ} :
    {A : Type ℓ} (p : A → Bool) (xs : List A) (x : A)
    → keep p (xs ++ x ∷ []) ≡ (if p x then keep p xs ++ x ∷ [] else keep p xs)
keep-snoc p xs x = keep-append p xs (x ∷ []) ∙ append_if (keep p xs) (p x) x

ltb_zero : (n : ℕ) → ltb n 0 ≡ false
ltb_zero n = ground arith

-- A token is written only where there is none.
token_set :
    (make : Bytes → Scan) (b : Bool) (token : Bytes)
    → (if is_empty (if b then token else []) then make token else make (if b then token else []))
      ≡ make token
token_set make true token = elim (Bool-cases (is_empty token)) [
  | inl empty ↦ rw empty refl
  | inr filled ↦ rw filled refl
]
token_set make false token = refl

module _ (policy : SecurityPolicy) (context : RequestContext) (cursor : Option ListTaskCursor)
    (size : ℕ) (task_of : ListTaskCursor → Task) where
  -- The positions of the tasks that the caller can see, and of those behind the cursor.
  abbrev pub visible : ListTaskCursor → Bool
  visible c = policy.can_access_task (task_of c) context

  abbrev pub chosen : List ListTaskCursor → List ListTaskCursor
  chosen cs = keep (is_behind cursor) (keep visible cs)

  -- What is kept of the chosen positions and the number of visible ones.
  abbrev pub collected : List ListTaskCursor → ℕ → Scan
  collected found total = record {
    selected = record {
      task_ids = map (λ c. (task_of c).id) (take size found);
      total_size = total % 18446744073709551616;
      next_page_token =
          if ltb size (length found)
          then encode_list_page_token (last_cursor (take size found))
          else [];
    };
    last_selected = last_cursor (take size found);
  }

  -- What was collected when the loops have been over `cs`.
  abbrev pub scanned : List ListTaskCursor → Scan
  scanned cs = collected (chosen cs) (length (keep visible cs))

  take_task-collected :
      (found : List ListTaskCursor) (total : ℕ) (c : ListTaskCursor)
      → take_task policy context cursor size (task_of c) c (collected found total)
        ≡ collected (found ++ c ∷ []) total
  take_task-collected found total c = elim (Bool-cases (ltb (length found) size)) [
    | inl room ↦
        let all_taken : take size found ≡ found = take_all size found (ground (arith, room)) in
        let longer : take size (found ++ c ∷ []) ≡ found ++ c ∷ [] =
          take-snoc size found c ∙ rw room refl in
        let room_too : ltb (length (map (λ c. (task_of c).id) found)) size ≡ true =
          rw (length-map found (λ c. (task_of c).id)) room in
        let short : ltb size (length found) ≡ false = ground (arith, room) in
        let short_too : ltb size (length (found ++ c ∷ [])) ≡ false =
          ground (arith, room, length-append found (c ∷ [])) in
        rw
          (
            all_taken,
            longer,
            room_too,
            short,
            short_too,
            map-snoc (λ c. (task_of c).id) found c,
            last_cursor-snoc found c,
          )
          refl
    | inr full ↦
        let same : take size (found ++ c ∷ []) ≡ take size found =
          take-snoc size found c ∙ rw full refl in
        let full_too : ltb (length (map (λ c. (task_of c).id) (take size found))) size ≡ false =
          rw (length-map (take size found) (λ c. (task_of c).id), length-take size found)
            (ground (arith, full)) in
        let more : ltb size (length (found ++ c ∷ [])) ≡ true =
          ground (arith, full, length-append found (c ∷ [])) in
        rw (full_too, same, more)
          (token_set
            (λ token. record {
              selected = record {
                task_ids = map (λ c. (task_of c).id) (take size found);
                total_size = total % 18446744073709551616;
                next_page_token = token;
              };
              last_selected = last_cursor (take size found);
            })
            (ltb size (length found)) (encode_list_page_token (last_cursor (take size found))))
  ]

  counted_on :
      (n : ℕ)
      → (n % 18446744073709551616 + 1) % 18446744073709551616 ≡ (n + 1) % 18446744073709551616
  counted_on n = omega arith

  scan_task-scanned :
      (cs : List ListTaskCursor) (c : ListTaskCursor)
      → scan_task policy context cursor size (task_of c) c (scanned cs) ≡ scanned (cs ++ c ∷ [])
  scan_task-scanned cs c = elim (Bool-cases (visible c)) [
    | inr hidden ↦
        let same : keep visible (cs ++ c ∷ []) ≡ keep visible cs =
          keep-snoc visible cs c
          ∙ ap (λ b. if b then keep visible cs ++ c ∷ [] else keep visible cs) hidden in
        let start : scan_task policy context cursor size (task_of c) c (scanned cs) ≡ scanned cs =
          rw hidden refl in
        start ∙ ap (λ l. collected (keep (is_behind cursor) l) (length l)) (sym same)
    | inl shown ↦
        let more : keep visible (cs ++ c ∷ []) ≡ keep visible cs ++ c ∷ [] =
          keep-snoc visible cs c
          ∙ ap (λ b. if b then keep visible cs ++ c ∷ [] else keep visible cs) shown in
        let found : keep (is_behind cursor) (keep visible cs ++ c ∷ [])
            ≡ (if is_behind cursor c then chosen cs ++ c ∷ [] else chosen cs) =
          keep-snoc (is_behind cursor) (keep visible cs) c in
        let count : length (keep visible cs ++ c ∷ []) ≡ length (keep visible cs) + 1 =
          length-append (keep visible cs) (c ∷ []) in
        let back : collected (if is_behind cursor c then chosen cs ++ c ∷ [] else chosen cs)
              (length (keep visible cs) + 1)
            ≡ scanned (cs ++ c ∷ []) =
          ap₂ collected (sym found) (sym count)
          ∙ ap (λ l. collected (keep (is_behind cursor) l) (length l)) (sym more) in
        let counted : Scan = collected (chosen cs) (length (keep visible cs) + 1) in
        let start : scan_task policy context cursor size (task_of c) c (scanned cs) ≡ (
            if not (is_behind cursor c)
            then counted
            else take_task policy context cursor size (task_of c) c counted) =
          rw (shown, counted_on (length (keep visible cs))) refl in
        start
        ∙ elim (Bool-cases (is_behind cursor c)) [
          | inr before ↦ rw before refl
          | inl behind ↦
              rw behind (take_task-collected (chosen cs) (length (keep visible cs) + 1) c)
        ]
        ∙ back
  ]

  -- One page behind what was scanned.
  pub scan_page-scanned :
      (ds cs : List ListTaskCursor)
      → scan_page policy context cursor size (map task_of ds) ds (scanned cs) ≡ scanned (cs ++ ds)
  unfolding scan_page
  scan_page-scanned [] cs = ap scanned (sym (append-nil cs))
  scan_page-scanned (d ∷ ds) cs =
      ap (scan_page policy context cursor size (map task_of ds) ds) (scan_task-scanned cs d)
      ∙ scan_page-scanned ds (cs ++ d ∷ [])
      ∙ ap scanned (append_assoc cs (d ∷ []) ds)

-- Nothing was scanned at the start.
pub scanned-none :
    (policy : SecurityPolicy) (context : RequestContext) (cursor : Option ListTaskCursor) (size : ℕ)
    (task_of : ListTaskCursor → Task)
    → scanned policy context cursor size task_of [] ≡ no_scan
unfolding last_cursor
scanned-none policy context cursor zero task_of = refl
scanned-none policy context cursor (suc n) task_of = rw (ltb_zero (suc n)) refl
