-- ===== src/Server/Authorization/Operations/Steps.antt =====
-- The operations of task_authorization_service.cpp as moves of tasks.
use a2a_cpp.Base.{
  ℕ, ◌≡◌, refl, ◌∙◌, arith, Bool, true, false, not, ◌||◌, none, some, if◌then◌else◌, Bytes,
}
use a2a_cpp.Core.Error.{
  Result, ok, err, Error, task_not_cancelable, unsupported_operation_default, permission_denied,
}
use a2a_cpp.Core.Proto.{
  Task, Message, Part, TaskState, auth_required, working, completed, canceled, state_of, state_eq,
  is_terminal_task_state,
}
use a2a_cpp.Tasks.Store.{TaskSnapshot}
use a2a_cpp.Server.Authorization.{
  RevisionStore, AuthorizationState, not_authorization_task, authorization_not_pending,
  authorization_not_granted, is_authorization_task, requested, moved, OnSnapshot, persist,
  transition, with_snapshot, on_snapshot,
}
use a2a_cpp.Server.Authorization.Operations.{
  refuses, authorize, authorize_snapshot, complete, complete_snapshot, cancel, cancel_snapshot,
}
use a2a_cpp.Server.Authorization.Moves.{
  RevisionLaws, Validator, accepts, TaskCall, authorizing, completing, cancelling, Move, grants,
  finishes, cancels, Steps, refused-Steps, persist_over-Steps,
}

accepts-refuses :
    (v : Validator) (t : Task) (credential : Bytes)
    → refuses v t credential ≡ false
    → accepts v t credential ≡ true
accepts-refuses none t credential h = absurd (cc h)
accepts-refuses (some f) t credential h = ground (arith, h)

moved_id : (state : TaskState) (t : Task) → (moved state t).id ≡ t.id
unfolding moved
moved_id state t = refl

pub requested_id :
    (message explanation : Message) (t : Task) → (requested message explanation t).id ≡ t.id
unfolding requested
requested_id message explanation t = refl

module _ {S : Type 0} (store : RevisionStore S) (laws : RevisionLaws store) (validator : Validator)
    (serialize : Part → Bytes) (c : TaskCall) where
  abbrev pub Goes : AuthorizationState S → Result Task × AuthorizationState S → Type 0
  Goes a p = Steps store laws validator serialize c a p

  pub refused : (a : AuthorizationState S) → laws.Good a.tasks → (e : Error) → Goes a (err e, a)
  refused = refused-Steps store laws validator serialize c

  pub if-Steps :
      (a : AuthorizationState S) (b : Bool) (p q : Result Task × AuthorizationState S)
      → (b ≡ true → Goes a p)
      → (b ≡ false → Goes a q)
      → Goes a (if b then p else q)
  if-Steps a true p q yes_case no_case = yes_case refl
  if-Steps a false p q yes_case no_case = no_case refl

  pub with_snapshot-Steps :
      (a : AuthorizationState S) (step : OnSnapshot S) (id : Bytes)
      → laws.Good a.tasks
      → ((e : TaskSnapshot)
          → e.task.id ≡ id
          → laws.view a.tasks id ≡ some e
          → Goes a (step store e a))
      → (r : Result TaskSnapshot) → store.get_snapshot id a.tasks ≡ r
      → Goes a (with_snapshot step store r a)
  with_snapshot-Steps a step id g next (err e) read = refused a g e
  with_snapshot-Steps a step id g next (ok e) read =
      let law = laws.reads a.tasks g id e read in next e law.1 law.0

  pub on_snapshot-Steps :
      (a : AuthorizationState S) (step : OnSnapshot S) (id : Bytes)
      → laws.Good a.tasks
      → ((e : TaskSnapshot)
          → e.task.id ≡ id
          → laws.view a.tasks id ≡ some e
          → Goes a (step store e a))
      → Goes a (on_snapshot (some store) id step a)
  on_snapshot-Steps a step id g next =
      with_snapshot-Steps a step id g next (store.get_snapshot id a.tasks) refl

  refused_or-Steps :
      (a : AuthorizationState S)
      → laws.Good a.tasks
      → (b : Bool) (d e : Error) → Goes a (if b then err d else err e, a)
  refused_or-Steps a g true d e = refused a g d
  refused_or-Steps a g false d e = refused a g e

  transition-Steps :
      (a : AuthorizationState S) (id : Bytes) (e : TaskSnapshot) (state : TaskState)
      → laws.Good a.tasks
      → e.task.id ≡ id
      → laws.view a.tasks id ≡ some e
      → (is_authorization_task e.task ≡ true
          → is_terminal_task_state (state_of e.task) ≡ false
          → (next : ℕ)
          → Move validator c id
              (some e)
              (some (record { task = moved state e.task; revision = next })))
      → Goes a (transition store e state a)
  unfolding transition
  transition-Steps a id e state g named shown move =
      if-Steps a (not (is_authorization_task e.task)) (err not_authorization_task, a)
        (if is_terminal_task_state (state_of e.task)
          then (
            if state_eq state canceled
                then err task_not_cancelable
                else err unsupported_operation_default,
            a,
          )
          else persist store (moved state e.task) e.revision a)
        (λ h. refused a g not_authorization_task)
        (λ h.
          if-Steps a (is_terminal_task_state (state_of e.task))
            (
              if state_eq state canceled
                  then err task_not_cancelable
                  else err unsupported_operation_default,
              a,
            )
            (persist store (moved state e.task) e.revision a)
            (λ over.
              refused_or-Steps a g (state_eq state canceled) task_not_cancelable
                unsupported_operation_default)
            (λ live.
              persist_over-Steps store laws validator serialize c a g id e (moved state e.task)
                shown (moved_id state e.task ∙ named) (move (ground (arith, h)) live)))

module _ {S : Type 0} (store : RevisionStore S) (laws : RevisionLaws store) (validator : Validator)
    (serialize : Part → Bytes) (a : AuthorizationState S) (g : laws.Good a.tasks) where
  pub authorize-Steps :
      (id credential : Bytes)
      → Goes store laws validator serialize
          (authorizing id credential)
          a
          (authorize (some store) validator id credential a)
  unfolding authorize authorize_snapshot
  authorize-Steps id credential =
      let c : TaskCall = authorizing id credential in
      on_snapshot-Steps store laws validator serialize c a (authorize_snapshot validator credential)
        id g
        (λ e named shown.
          if-Steps store laws validator serialize c a
            (not (is_authorization_task e.task) || not (state_eq (state_of e.task) auth_required))
            (err authorization_not_pending, a)
            (if refuses validator e.task credential
              then (err permission_denied, a)
              else transition store e working a)
            (λ h. refused store laws validator serialize c a g authorization_not_pending)
            (λ h.
              if-Steps store laws validator serialize c a (refuses validator e.task credential)
                (err permission_denied, a) (transition store e working a)
                (λ no_grant. refused store laws validator serialize c a g permission_denied)
                (λ grant.
                  transition-Steps store laws validator serialize c a id e working g named shown
                    (λ marked live next.
                      grants e id credential next marked (ground (arith, h))
                        (accepts-refuses validator e.task credential grant)))))

  pub complete-Steps :
      (id : Bytes)
      → Goes store laws validator serialize (completing id) a (complete (some store) id a)
  unfolding complete complete_snapshot
  complete-Steps id =
      let c : TaskCall = completing id in
      on_snapshot-Steps store laws validator serialize c a complete_snapshot id g (λ e named shown.
        if-Steps store laws validator serialize c a
          (not (is_authorization_task e.task) || not (state_eq (state_of e.task) working))
          (err authorization_not_granted, a) (transition store e completed a)
          (λ h. refused store laws validator serialize c a g authorization_not_granted)
          (λ h.
            transition-Steps store laws validator serialize c a id e completed g named shown
              (λ marked live next. finishes e id next marked (ground (arith, h)))))

  pub cancel-Steps :
      (id : Bytes)
      → Goes store laws validator serialize (cancelling id) a (cancel (some store) id a)
  unfolding cancel cancel_snapshot
  cancel-Steps id =
      let c : TaskCall = cancelling id in
      on_snapshot-Steps store laws validator serialize c a cancel_snapshot id g (λ e named shown.
        transition-Steps store laws validator serialize c a id e canceled g named shown
          (λ marked live next. cancels e id next marked live))
