-- ===== src/Tasks/Lifecycle/Transitions.antt =====
-- The transitions of task_lifecycle_service.cpp on the in-memory store.
use a2a_cpp.Base.{
  ◌≡◌, ◌≢◌, ◌↔◌, refl, sym, ap, ◌∙◌, arith, true, false, some, [], if◌then◌else◌, Bool-cases,
  Option-cases, inl, inr, Bytes, bytes_eq, bytes_eq_iff, is_empty, is_empty_iff, find, ℤ, ◌==◌,
  int64_max,
}
use a2a_cpp.Core.Error.{Result, ok, err, task_not_cancelable}
use a2a_cpp.Core.Proto.{
  Task, Part, TaskState, canceled, SendMessageRequest, message_of, state_of, state_eq, set_state,
  is_terminal_task_state,
}
use a2a_cpp.Tasks.Listing.{has_value}
use a2a_cpp.Tasks.Store.{InMemoryTaskStore}
use a2a_cpp.Tasks.Store.Consistency.{IsConsistent, id-at}
use a2a_cpp.Tasks.Store.Spec.{
  stored_entry, Book, Entry, view, giving, spec_get, spec_create_or_update, Simulates,
}
use a2a_cpp.Tasks.Store.Refinement.{create_or_update-Simulates, get-view}
use a2a_cpp.Tasks.Lifecycle.{
  in_memory, already_terminal, answered, transition_from, transition_task_status,
  validate_task_for_send_request,
}

-- What a send request asks of the task that it names.
abbrev pub IsAccepted : SendMessageRequest → Task → Type 0
IsAccepted request task =
    (has_value request.message ≡ true)
    × ((message_of request).task_id ≢ [] → task.id ≡ (message_of request).task_id)
    × ((message_of request).context_id ≢ []
        → task.context_id ≢ []
        → (message_of request).context_id ≡ task.context_id)
    × (is_terminal_task_state (state_of task) ≡ false)

-- A send request is valid for a task exactly when it has a message, names that task or none, has
-- the task's context unless one of the two has none, and the task is not in a terminal state.
pub validate_task_for_send_request_iff :
    (request : SendMessageRequest) (task : Task)
    → (validate_task_for_send_request request task ≡ ok tt) ↔ IsAccepted request task
unfolding validate_task_for_send_request
validate_task_for_send_request_iff request task = ground (
  arith,
  is_empty_iff (message_of request).task_id,
  bytes_eq_iff task.id (message_of request).task_id,
  is_empty_iff (message_of request).context_id,
  is_empty_iff task.context_id,
  bytes_eq_iff (message_of request).context_id task.context_id,
)

-- The promised transition, on the map that a store shows.
abbrev transition_over : TaskState → ℤ → Result Task → Book → Result Task × Book
transition_over next now (err e) b = (err e, b)
transition_over next now (ok current) b =
    if is_terminal_task_state (state_of current)
    then (if state_eq next canceled then err task_not_cancelable else err already_terminal, b)
    else giving (set_state next current) (spec_create_or_update (set_state next current) now b)

abbrev pub spec_transition : Bytes → TaskState → ℤ → Book → Result Task × Book
spec_transition id next now b = transition_over next now (spec_get id b) b

answered-Simulates :
    (t : Task) {p : Result (Unit {0}) × InMemoryTaskStore} {q : Result (Unit {0}) × Book}
    → Simulates p q
    → Simulates (answered t p) (giving t q)
answered-Simulates t {p = (err d, s)} {q = (err e, b)} h = record {
  result = cc (h.result);
  shows = h.shows;
  consistent = h.consistent;
}
answered-Simulates t {p = (err d, s)} {q = (ok _, b)} h = absurd (cc (h.result))
answered-Simulates t {p = (ok _, s)} {q = (err e, b)} h = absurd (cc (h.result))
answered-Simulates t {p = (ok _, s)} {q = (ok _, b)} h = record {
  result = refl;
  shows = h.shows;
  consistent = h.consistent;
}

module _ (serialize : Part → Bytes) (s : InMemoryTaskStore) (v : IsConsistent s) where
  transition_from-Simulates :
      (now : ℤ) (next : TaskState) (current : Result Task)
      → Simulates
          (transition_from (in_memory serialize now) next current s)
          (transition_over next now current (view s))
  unfolding transition_from
  transition_from-Simulates now next (err e) = record {
    result = refl;
    shows = λ k. refl;
    consistent = v;
  }
  transition_from-Simulates now next (ok task) =
      elim (Bool-cases (is_terminal_task_state (state_of task))) [
        | inl terminal ↦
            rw (terminal, transition_from, transition_over)
              (record { result = refl; shows = λ k. refl; consistent = v })
        | inr live ↦
            rw (live, transition_from, transition_over)
              (answered-Simulates (set_state next task)
                (create_or_update-Simulates s v (set_state next task) now))
      ]

  -- On a consistent store TransitionTaskStatus, for a stored task that is not in a terminal state,
  -- is a write of that task with the new state, and it answers with what it wrote; for a task in a
  -- terminal state it is an error, and so for one that is not stored, and nothing changes. The
  -- store stays consistent.
  pub transition_task_status-Simulates :
      (id : Bytes) (next : TaskState) (now : ℤ)
      → Simulates
          (transition_task_status (some (in_memory serialize now)) id next s)
          (spec_transition id next now (view s))
  unfolding transition_task_status
  transition_task_status-Simulates id next now =
      rw (← (get-view s v id).0) (transition_from-Simulates now next (a2a_cpp.Tasks.Store.get id s))

-- What a write leaves alone.
save-other :
    (b : Book) (task : Task) (now : ℤ) (k : Bytes)
    → bytes_eq task.id k ≡ false
    → (spec_create_or_update task now b).1 k ≡ b k
save-other b task now k other = elim (Bool-cases (is_empty task.id)) [
  | inl empty ↦ rw empty refl
  | inr full ↦ elim (Option-cases (b task.id)) [
    | inl missing ↦ rw (full, missing, other) refl
    | inr (e, found) ↦ elim (Bool-cases (e.updated_at == int64_max)) [
      | inl last ↦ rw (full, found, last) refl
      | inr before ↦ rw (full, found, before, other) refl
    ]
  ]
]

giving_map : (t : Task) (p : Result (Unit {0}) × Book) → (giving t p).1 ≡ p.1
giving_map t (err e, b) = refl
giving_map t (ok _, b) = refl

-- A transition of a task whose entry stands under its id leaves terminal entries alone.
transition-terminal :
    (b : Book) (d : Entry) (id : Bytes) (next : TaskState) (now : ℤ) (k : Bytes) (e : Entry)
    → b id ≡ some d
    → d.task.id ≡ id
    → b k ≡ some e
    → is_terminal_task_state (state_of e.task) ≡ true
    → (transition_over next now (ok d.task) b).1 k ≡ some e
transition-terminal b d id next now k e stored own there terminal =
    elim (Bool-cases (is_terminal_task_state (state_of d.task))) [
      | inl over ↦ rw over there
      | inr live ↦
          let task = set_state next d.task in
          let other : bytes_eq task.id k ≡ false = elim (Bool-cases (bytes_eq task.id k)) [
            | inr different ↦ different
            | inl same ↦
                let one : id ≡ k = sym own ∙ (bytes_eq_iff task.id k).0 same in
                let both : some d ≡ some e = sym stored ∙ ap b one ∙ there in
                absurd (ground (arith, both, live, terminal))
          ] in
          rw live (
            ap (λ m. m k) (giving_map task (spec_create_or_update task now b))
            ∙ save-other b task now k other
            ∙ there)
    ]

-- On a consistent store TransitionTaskStatus never changes the entry of a task that is in a terminal
-- state, whichever task and state it is asked for.
pub transition_task_status-terminal :
    (serialize : Part → Bytes) (s : InMemoryTaskStore)
    → IsConsistent s
    → (id : Bytes) (next : TaskState) (now : ℤ) (k : Bytes) (e : Entry) → view s k ≡ some e
    → is_terminal_task_state (state_of e.task) ≡ true
    → view (transition_task_status (some (in_memory serialize now)) id next s).1 k ≡ some e
transition_task_status-terminal serialize s v id next now k e there terminal =
    let step = transition_task_status-Simulates serialize s v id next now in
    step.shows k ∙ elim (Bool-cases (is_empty id)) [
      | inl empty ↦ rw empty there
      | inr full ↦ elim (Option-cases (find id s.task_indices)) [
        | inl missing ↦ rw (full, missing) there
        | inr (i, found) ↦
            rw (full, found)
              (transition-terminal (view s) (stored_entry s i) id next now k e (rw found refl)
                (id-at s v id i found) there terminal)
      ]
    ]
