-- ===== src/Server/Authorization/Operations/Runs.antt =====
-- Runs of the operations of task_authorization_service.cpp, in any order.
use a2a_cpp.Base.{
  ap, ◌∙◌, ◌&&◌, not, ◌++◌, Bool-cases, ◌⊎◌, ◌≡◌, refl, sym, subst, arith, Bool, true, false, ◌||◌,
  Option, none, some, List, [], ◌∷◌, if◌then◌else◌, Bytes, is_empty, inl, inr,
}
use a2a_cpp.Core.Error.{Result, ok, err}
use a2a_cpp.Core.Proto.{
  Task, TaskState, canceled, is_terminal_task_state, Message, Part, auth_required, working,
  completed, SendMessageRequest, message_of, state_of, state_eq,
}
use a2a_cpp.Tasks.Store.{TaskSnapshot, ConditionalWriteResult, updated, conflict}
use a2a_cpp.Server.Authorization.{
  RevisionStore, AuthorizationState, is_authorization_task, requested, moved, with_snapshot,
  transition, persist, announced,
}
use a2a_cpp.Server.Subscriptions.{ServiceState}
use a2a_cpp.Server.Authorization.Operations.{
  subscribed, subscribe_to, shut_down, send_streaming_message, refuses, authorize_snapshot,
  complete_snapshot, cancel_snapshot, authorize, complete, cancel, request_authorization,
  receive_message,
}
use a2a_cpp.Server.Authorization.Moves.{
  RevisionLaws, Validator, accepts, TaskCall, requesting, receiving, authorizing, completing,
  cancelling, Move, Answered, asks_new, asks, tells, grants, finishes, cancels, Steps, Ended,
}
use a2a_cpp.Server.Authorization.Operations.Steps.{authorize-Steps, complete-Steps, cancel-Steps}
use a2a_cpp.Server.Authorization.Operations.Asking.{request-Steps, receive-Steps}

-- All calls.
pub data Call : Type 0 where
  on_task : TaskCall → Call
  streaming : SendMessageRequest → Result Bytes → Message → Call
  subscribing : Bytes → Call
  shutting_down : Call

-- The call of a task that a call comes down to.
abbrev pub asked : Call → Option TaskCall
asked (on_task c) = some c
asked (streaming request generated explanation) = some (
    if is_empty (message_of request).task_id
    then requesting request generated explanation
    else receiving request)
asked _ = none

module _ {S : Type 0} (serialize : Part → Bytes) (store : RevisionStore S)
    (validator : Validator) where
  abbrev pub answer : TaskCall → AuthorizationState S → Result Task × AuthorizationState S
  answer (requesting request generated explanation) a =
      request_authorization (some store) request generated explanation a
  answer (receiving request) a = receive_message serialize (some store) request a
  answer (authorizing id credential) a = authorize (some store) validator id credential a
  answer (completing id) a = complete (some store) id a
  answer (cancelling id) a = cancel (some store) id a

  abbrev pub serve : Call → AuthorizationState S → AuthorizationState S
  serve (on_task c) a = (answer c a).1
  serve (streaming request generated explanation) a =
      (send_streaming_message serialize (some store) request generated explanation a).1
  serve (subscribing id) a = (subscribe_to (some store) id a).1
  serve shutting_down a = shut_down a

  abbrev pub serve_all : List Call → AuthorizationState S → AuthorizationState S
  serve_all [] a = a
  serve_all (c ∷ cs) a = serve_all cs (serve c a)

-- A task that is at work or done.
abbrev pub is_granted : Option TaskSnapshot → Bool
is_granted none = false
is_granted (some e) = state_eq (state_of e.task) working || state_eq (state_of e.task) completed

-- A task of the service that waits for an authorization, for which the validator accepts a credential.
abbrev pub IsGrantedBy : Validator → Bytes → Option TaskSnapshot → Type 0
IsGrantedBy validator credential none = ⊥
IsGrantedBy validator credential (some e) =
    (is_authorization_task e.task ≡ true)
    × (state_eq (state_of e.task) auth_required ≡ true)
    × (accepts validator e.task credential ≡ true)

-- Whether Authorize, Complete or Cancel is open to a task, the id that they name, and where they take it.
abbrev pub is_open : Validator → TaskCall → Task → Bool
is_open validator (authorizing id credential) t =
    is_authorization_task t
    && (state_eq (state_of t) auth_required && accepts validator t credential)
is_open validator (completing id) t = is_authorization_task t && state_eq (state_of t) working
is_open validator (cancelling id) t =
    is_authorization_task t && not (is_terminal_task_state (state_of t))
is_open validator _ t = false

abbrev pub target : TaskCall → Bytes
target (authorizing id credential) = id
target (completing id) = id
target (cancelling id) = id
target _ = []

abbrev pub goal : TaskCall → TaskState
goal (authorizing id credential) = working
goal (completing id) = completed
goal _ = canceled

waiting_live : (x : TaskState) → state_eq x auth_required ≡ true → is_terminal_task_state x ≡ false
unfolding is_terminal_task_state
waiting_live x h = ground arith

working_live : (x : TaskState) → state_eq x working ≡ true → is_terminal_task_state x ≡ false
unfolding is_terminal_task_state
working_live x h = ground arith

refuses-accepts :
    (v : Validator) (t : Task) (credential : Bytes)
    → accepts v t credential ≡ true
    → refuses v t credential ≡ false
refuses-accepts none t credential h = absurd (cc h)
refuses-accepts (some f) t credential h = ground (arith, h)

module _ {S : Type 0} (serialize : Part → Bytes) (store : RevisionStore S)
    (validator : Validator) where
  open_transition :
      (a : AuthorizationState S) (e : TaskSnapshot) (state : TaskState)
      → is_authorization_task e.task ≡ true
      → is_terminal_task_state (state_of e.task) ≡ false
      → (transition store e state a) ≡ persist store (moved state e.task) e.revision a
  unfolding transition
  open_transition a e state marked live = rw (marked, live) refl

  answer-open :
      (c : TaskCall) (a : AuthorizationState S) (e : TaskSnapshot)
      → store.get_snapshot (target c) a.tasks ≡ ok e
      → is_open validator c e.task ≡ true
      → answer serialize store validator c a ≡ persist store (moved (goal c) e.task) e.revision a
  unfolding authorize authorize_snapshot complete complete_snapshot cancel cancel_snapshot
  answer-open (requesting request generated explanation) a e here h = absurd (cc h)
  answer-open (receiving request) a e here h = absurd (cc h)
  answer-open (authorizing id credential) a e here h =
      let marked : is_authorization_task e.task ≡ true = ground (arith, h) in
      let waiting : state_eq (state_of e.task) auth_required ≡ true = ground (arith, h) in
      ap (λ r. with_snapshot (authorize_snapshot validator credential) store r a) here
      ∙ rw
          (
            marked,
            waiting,
            refuses-accepts validator e.task credential (ground (arith, h)),
            waiting_live (state_of e.task) waiting,
          )
          refl
  answer-open (completing id) a e here h =
      let marked : is_authorization_task e.task ≡ true = ground (arith, h) in
      let at_work : state_eq (state_of e.task) working ≡ true = ground (arith, h) in
      ap (λ r. with_snapshot complete_snapshot store r a) here
      ∙ rw (marked, at_work, working_live (state_of e.task) at_work) refl
  answer-open (cancelling id) a e here h =
      ap (λ r. with_snapshot cancel_snapshot store r a) here
      ∙ open_transition a e canceled (ground (arith, h)) (ground (arith, h))

module _ {S : Type 0} (serialize : Part → Bytes) (store : RevisionStore S)
    (laws : RevisionLaws store) (validator : Validator) where
  answer-Steps :
      (c : TaskCall) (a : AuthorizationState S)
      → laws.Good a.tasks
      → Steps store laws validator serialize c a (answer serialize store validator c a)
  answer-Steps (requesting request generated explanation) a g =
      request-Steps store laws validator serialize a g request generated explanation
  answer-Steps (receiving request) a g = receive-Steps store laws validator serialize a g request
  answer-Steps (authorizing id credential) a g =
      authorize-Steps store laws validator serialize a g id credential
  answer-Steps (completing id) a g = complete-Steps store laws validator serialize a g id
  answer-Steps (cancelling id) a g = cancel-Steps store laws validator serialize a g id

  -- On a store that keeps its laws, a call that ends with an error has changed no task and published
  -- nothing; one that ends with a task has stored that task, under its id, and published it, or the
  -- task is the one that was stored, and nothing has changed or was published.
  pub answer-Ended :
      (c : TaskCall) (a : AuthorizationState S)
      → laws.Good a.tasks
      → Ended store laws validator a
          (answer serialize store validator c a).0
          (answer serialize store validator c a).1
  answer-Ended c a g = (answer-Steps c a g).outcome

  subscribed_tasks : (p : Result Task × AuthorizationState S) → (subscribed p).1.tasks ≡ p.1.tasks
  subscribed_tasks (err e, a) = refl
  subscribed_tasks (ok t, a) = refl

  subscribe_to_tasks :
      (id : Bytes) (a : AuthorizationState S) → (subscribe_to (some store) id a).1.tasks ≡ a.tasks
  unfolding subscribe_to
  subscribe_to_tasks id a = subscribed_tasks (store.get id a.tasks, a)

  updated_task :
      (t : Task) (v : ServiceState) (p : Result ConditionalWriteResult × S)
      → p.0 ≡ ok updated
      → (announced t v p).0 ≡ ok t
  updated_task t v (err e, s) h = absurd (cc h)
  updated_task t v (ok conflict, s) h = absurd (cc h)
  updated_task t v (ok updated, s) h = refl

  -- On a store that keeps its laws, a call of RequestAuthorization, ReceiveMessage, Authorize, Complete
  -- or Cancel leaves every task as it is, or makes of the task that it names the move of that call,
  -- which for Authorize needs a task that waits and a credential of the call that the validator
  -- accepts. If it answers with a task, it has made that move, or the message was a repeated one.
  -- Authorize, Complete and Cancel answer with the moved task where the store reads a task to which the
  -- call is open and then takes the write.
  pub answer-Moves :
      (c : TaskCall) (a : AuthorizationState S)
      → laws.Good a.tasks
      → let p = answer serialize store validator c a in
        laws.Good p.1.tasks
        × ((k : Bytes)
            → (laws.view p.1.tasks k ≡ laws.view a.tasks k)
              ⊎ Move validator c k (laws.view a.tasks k) (laws.view p.1.tasks k))
        × Answered store laws validator serialize c a p.0 p.1
        × ((e : TaskSnapshot)
            → store.get_snapshot (target c) a.tasks ≡ ok e
            → is_open validator c e.task ≡ true
            → (store.create_or_update_if_revision (moved (goal c) e.task) e.revision a.tasks).0
              ≡ ok updated
            → p.0 ≡ ok (moved (goal c) e.task))
  unfolding persist
  answer-Moves c a g =
      let steps = answer-Steps c a g in
      (
        steps.good,
        steps.moves,
        steps.answered,
        λ e here opened wrote.
            let t = moved (goal c) e.task in
            ap (λ p. p.0) (answer-open serialize store validator c a e here opened)
            ∙ updated_task t a.subscriptions
                (store.create_or_update_if_revision t e.revision a.tasks) wrote,
      )

  -- Where a call takes each task.
  abbrev pub Reaches : Call → AuthorizationState S → S → Type 0
  Reaches c a s =
      laws.Good s
      × ((k : Bytes)
          → (laws.view s k ≡ laws.view a.tasks k)
            ⊎ ((d : TaskCall) × (asked c ≡ some d)
                × Move validator d k (laws.view a.tasks k) (laws.view s k)))

  stepped-Reaches :
      (c : Call) (d : TaskCall) (a : AuthorizationState S) (p : Result Task × AuthorizationState S)
      → asked c ≡ some d
      → Steps store laws validator serialize d a p
      → Reaches c a p.1.tasks
  stepped-Reaches c d a p here steps = (
    steps.good,
    λ k. elim (steps.moves k) [ inl same ↦ inl same | inr move ↦ inr (d, here, move) ],
  )

  streamed-Reaches :
      (c : Call) (a : AuthorizationState S) (b : Bool) (d e : TaskCall)
      (p q : Result Task × AuthorizationState S)
      → asked c ≡ some (if b then d else e)
      → Steps store laws validator serialize d a p
      → Steps store laws validator serialize e a q
      → Reaches c a (subscribed (if b then p else q)).1.tasks
  streamed-Reaches c a true d e p q here one other =
      subst (Reaches c a) (sym (subscribed_tasks p)) (stepped-Reaches c d a p here one)
  streamed-Reaches c a false d e p q here one other =
      subst (Reaches c a) (sym (subscribed_tasks q)) (stepped-Reaches c e a q here other)

  serve-Reaches :
      (c : Call) (a : AuthorizationState S)
      → laws.Good a.tasks
      → Reaches c a (serve serialize store validator c a).tasks
  unfolding send_streaming_message shut_down
  serve-Reaches (on_task c) a g =
      stepped-Reaches (on_task c) c a (answer serialize store validator c a) refl
        (answer-Steps c a g)
  serve-Reaches (streaming request generated explanation) a g =
      streamed-Reaches (streaming request generated explanation) a
        (is_empty (message_of request).task_id) (requesting request generated explanation)
        (receiving request)
        (answer serialize store validator (requesting request generated explanation) a)
        (answer serialize store validator (receiving request) a) refl
        (answer-Steps (requesting request generated explanation) a g)
        (answer-Steps (receiving request) a g)
  serve-Reaches (subscribing id) a g =
      subst (Reaches (subscribing id) a) (sym (subscribe_to_tasks id a)) (g, λ k. inl refl)
  serve-Reaches shutting_down a g = (g, λ k. inl refl)

  -- A move makes a granted task only of such a one, or by a credential of the call.
  Move-IsGrantedBy :
      (c : TaskCall) (k : Bytes) (old new : Option TaskSnapshot)
      → Move validator c k old new
      → is_granted new ≡ true
      → (is_granted old ≡ true)
        ⊎ ((credential : Bytes) × (c ≡ authorizing k credential)
            × IsGrantedBy validator credential old)
  unfolding requested moved
  Move-IsGrantedBy c k old new (asks_new e request generated explanation id next empty here free)
        h =
      absurd (cc h)
  Move-IsGrantedBy c k old new (asks e request generated explanation id next here live) h =
      absurd (cc h)
  Move-IsGrantedBy c k old new (tells e request next marked waiting) h = inl h
  Move-IsGrantedBy c k old new (grants e id credential next marked waiting accepted) h =
      inr (credential, refl, (marked, waiting, accepted))
  Move-IsGrantedBy c k old new (finishes e id next marked at_work) h = inl (ground (arith, at_work))
  Move-IsGrantedBy c k old new (cancels e id next marked live) h = absurd (cc h)

  asked_authorizing :
      (c : Call) (id credential : Bytes)
      → asked c ≡ some (authorizing id credential)
      → c ≡ on_task (authorizing id credential)
  asked_authorizing (on_task d) id credential h = cc h
  asked_authorizing (streaming request generated explanation) id credential h =
      elim (Bool-cases (is_empty (message_of request).task_id)) [
        | inl new ↦ absurd (cc (h, new))
        | inr old ↦ absurd (cc (h, old))
      ]
  asked_authorizing (subscribing i) id credential h = absurd (cc h)
  asked_authorizing shutting_down id credential h = absurd (cc h)

  -- An Authorize call of a run, on the task `k`, that finds it waiting and has an accepted credential.
  abbrev pub IsGrantedIn : List Call → AuthorizationState S → Bytes → Type 0
  IsGrantedIn cs a k =
      (before : List Call) × (credential : Bytes) × (after : List Call) × (cs
        ≡ before ++ on_task (authorizing k credential) ∷ after)
      × IsGrantedBy validator credential
          (laws.view (serve_all serialize store validator before a).tasks k)

  -- On a store that keeps its laws, a task that a run of calls leaves at work or done was so at the
  -- start, or one of the calls is Authorize for that task with a credential that the validator accepts
  -- for it, and behind the calls before that one the store shows the task as one of the service that
  -- waits for an authorization.
  pub serve_all-Granted :
      (cs : List Call) (a : AuthorizationState S)
      → laws.Good a.tasks
      → (k : Bytes)
      → is_granted (laws.view (serve_all serialize store validator cs a).tasks k) ≡ true
      → (is_granted (laws.view a.tasks k) ≡ true) ⊎ IsGrantedIn cs a k
  serve_all-Granted [] a g k h = inl h
  serve_all-Granted (c ∷ cs) a g k h =
      let b = serve serialize store validator c a in
      let step = serve-Reaches c a g in
      elim (serve_all-Granted cs b step.0 k h) [
        | inr (before, credential, after, cut, granted) ↦
            inr (c ∷ before, credential, after, ap (λ l. c ∷ l) cut, granted)
        | inl now ↦ elim (step.1 k) [
          | inl same ↦ inl (ap is_granted (sym same) ∙ now)
          | inr (d, here, move) ↦
              elim (Move-IsGrantedBy d k (laws.view a.tasks k) (laws.view b.tasks k) move now) [
                | inl first ↦ inl first
                | inr (credential, call, granted) ↦ inr (
                  [],
                  credential,
                  cs,
                  ap (λ x. x ∷ cs) (asked_authorizing c k credential (here ∙ ap some call)),
                  granted,
                )
              ]
        ]
      ]
