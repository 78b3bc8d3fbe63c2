-- ===== src/Push/Store/Paging.antt =====
-- Clients of `List` in push_notification_store.cpp.
use a2a_cpp.Base.{
  ℕ, zero, suc, ◌+◌, ◌-◌, ◌≡◌, ◌≢◌, ◌<◌, ◌≤◌, refl, sym, ap, ◌∙◌, true, false, some, List, [], ◌∷◌,
  ◌++◌, arith, ltb, if◌then◌else◌, min, Bool-cases, inl, inr, Bytes, length, length-drop, take,
  drop, take-append-drop, ltb_ℤ, is_empty, is_empty_iff, size_max, to_decimal, to_decimal-is_empty,
  from_chars_unsigned-to_decimal, ℤ, pos, find,
}
use a2a_cpp.Core.Error.{ok, err}
use a2a_cpp.Push.Store.{
  TaskConfigs, InMemoryPushNotificationStore, parse_page_token, page_of, list_configs,
}
use a2a_cpp.Push.Store.Positions.{Config}

parse_page_token-to_decimal : (n : ℕ) → n ≤ size_max → parse_page_token (to_decimal n) ≡ ok n
unfolding parse_page_token
parse_page_token-to_decimal n fits =
    rw (to_decimal-is_empty n, parse_page_token, from_chars_unsigned-to_decimal size_max n fits)
      refl

take_whole {ℓ} : {A : Type ℓ} (n : ℕ) (xs : List A) → length xs ≤ n → take n xs ≡ xs
take_whole zero [] h = refl
take_whole (suc n) [] h = refl
take_whole zero (x ∷ xs) h = absurd (omega arith)
take_whole (suc n) (x ∷ xs) h = ap (λ l. x ∷ l) (take_whole n xs (omega arith))

drop-nil {ℓ} : {A : Type ℓ} (n : ℕ) → drop {A = A} n [] ≡ []
drop-nil zero = refl
drop-nil (suc n) = refl

drop-drop {ℓ} : {A : Type ℓ} (m n : ℕ) (xs : List A) → drop n (drop m xs) ≡ drop (m + n) xs
drop-drop zero n xs = ap (λ i. drop i xs) (omega arith)
drop-drop (suc m) n [] = drop-nil n ∙ sym (drop-nil (suc m + n))
drop-drop (suc m) n (x ∷ xs) =
    let next : suc m + n ≡ suc (m + n) = omega arith in rw next (drop-drop m n xs)

-- A page of a positive size from a position in the list on: the configs that follow, at most as
-- many as the size, and a token if more follow.
pub page_of-eq :
    (size start : ℕ) (cs : List Config)
    → start ≤ length cs
    → page_of (pos (suc size)) start cs
      ≡ ok (record {
        configs = take (min (suc size) (length cs - start)) (drop start cs);
        next_page_token =
            if ltb (suc size) (length cs - start) then to_decimal (start + suc size) else [];
      })
unfolding page_of
page_of-eq size start cs inside =
    ground (arith, inside, take_whole (min (suc size) (length cs - start)) cs)

-- The configs that a client sees which asks again with each token that it is given.
pub collect : ℕ → Bytes → ℤ → Bytes → InMemoryPushNotificationStore → List Config
collect zero task_id page_size token s = []
collect (suc fuel) task_id page_size token s = elim (list_configs task_id page_size token s) [
  | err e ↦ []
  | ok page ↦ elim (is_empty page.next_page_token) [
    | true ↦ page.configs
    | false ↦ page.configs ++ collect fuel task_id page_size page.next_page_token s
  ]
]

module _ (s : InMemoryPushNotificationStore) (task_id : Bytes) (named : task_id ≢ []) (size : ℕ)
    (c : TaskConfigs) (stored : find task_id s ≡ some c)
    (countable : length c.list_response ≤ size_max) where
  listed_page :
      (token : Bytes) (start : ℕ)
      → parse_page_token token ≡ ok start
      → list_configs task_id (pos (suc size)) token s
        ≡ page_of (pos (suc size)) start c.list_response
  unfolding list_configs
  listed_page token start parsed =
      let full : is_empty task_id ≡ false = ground (arith, is_empty_iff task_id, named) in
      let positive : ltb_ℤ (pos (suc size)) (pos 0) ≡ false = ground arith in
      rw (list_configs, full, positive, parsed, stored) refl

  collect-drop :
      (fuel start : ℕ) (token : Bytes)
      → parse_page_token token ≡ ok start
      → start ≤ length c.list_response
      → length c.list_response < fuel + start
      → collect fuel task_id (pos (suc size)) token s ≡ drop start c.list_response
  unfolding collect
  collect-drop zero start token parsed inside enough = absurd (omega arith)
  collect-drop (suc fuel) start token parsed inside enough =
      let page = listed_page token start parsed ∙ page_of-eq size start c.list_response inside in
      elim (Bool-cases (ltb (suc size) (length c.list_response - start))) [
        | inl more ↦
            let below : suc size < length c.list_response - start = ground arith in
            let full : min (suc size) (length c.list_response - start) ≡ suc size = omega arith in
            let printed = parse_page_token-to_decimal (start + suc size) (omega arith) in
            let ih =
              collect-drop fuel (start + suc size) (to_decimal (start + suc size)) printed
                (omega arith) (omega arith) in
            rw
              (
                collect,
                page,
                more,
                to_decimal-is_empty (start + suc size),
                full,
                more,
                ih,
                ← drop-drop start (suc size) c.list_response,
              )
              (take-append-drop (suc size) (drop start c.list_response))
        | inr last ↦
            let no_more : length c.list_response - start ≤ suc size = ground arith in
            rw (collect, page, last)
              (take_whole _ (drop start c.list_response)
                (omega (arith, length-drop start c.list_response)))
      ]

-- For a task with configs, no more of them than a size_t holds, a client that asks for pages of a
-- positive size from the first one on, and follows each token, sees the configs of the task in
-- their order, each once. One call more than there are configs is enough.
pub collect-all :
    (s : InMemoryPushNotificationStore) (task_id : Bytes) (c : TaskConfigs) (size fuel : ℕ)
    → task_id ≢ []
    → find task_id s ≡ some c
    → length c.list_response ≤ size_max
    → length c.list_response < fuel
    → collect fuel task_id (pos (suc size)) [] s ≡ c.list_response
collect-all s task_id c size fuel named stored countable enough =
    collect-drop s task_id named size c stored countable fuel 0 [] (unfold parse_page_token in refl)
      (omega arith) (omega arith)
