-- ===== src/Server/Security/Streams/Guard.antt =====
-- The events that a stream guarded by src/server/security_policy.cpp lets out.
use a2a_cpp.Base.{
  ◌≡◌, ◌≢◌, refl, sym, ap, subst, arith, true, not, Option, none, some, [], Bytes, is_empty,
  is_empty_iff, if-cases, inl, inr,
}
use a2a_cpp.Core.Error.{Result, ok, err}
use a2a_cpp.Core.Proto.{Task}
use a2a_cpp.Core.Stream.{StreamResponse, has_message}
use a2a_cpp.Server.Security.{RequestContext, SecurityPolicy, ReadStore, get_authorized_task}
use a2a_cpp.Server.Security.Hiding.{Sees, seen}
use a2a_cpp.Server.Security.Streams.{
  AuthorizedStream, Read, event_task_id, bound, admit, taken, guarded, read_stream,
}

module _ {S : Type 0} (store : ReadStore S) (policy : SecurityPolicy) (context : RequestContext)
    (u : S) where
  abbrev Shown : Bytes → Type 0
  Shown id = Sees store policy context u id

  -- What an event that goes out of a guarded stream shows; `old` and `new` are the task that the
  -- stream is bound to before and after it.
  abbrev pub GoesOut : Bytes → StreamResponse → Bytes → Type 0
  GoesOut old event new =
      (event_task_id event ≢ [] → Shown (event_task_id event) × (new ≡ event_task_id event))
      × (event_task_id event ≡ []
          → (has_message event ≡ true) × (old ≢ [] → Shown old) × (new ≡ old))

  out_injective : (e d : StreamResponse) → ok (some e) ≡ ok (some d) → e ≡ d
  out_injective e d h = cc h

  module _ {X : Type 0} where
    bound_sound :
        (id : Bytes) (r : Result Task)
        → get_authorized_task store policy context u id ≡ r
        → (event out : StreamResponse) (x y : AuthorizedStream X)
        → bound store policy context u r id event x ≡ (ok (some out), y)
        → Shown id × (event ≡ out) × (y.task_id ≡ id)
    unfolding bound
    bound_sound id (err e) here event out x y h = absurd (cc (ap (λ p. p.0) h))
    bound_sound id (ok t) here event out x y h = (
      seen store policy context u id (ok t) here t refl,
      out_injective event out (ap (λ p. p.0) h),
      ap (λ p. p.1.task_id) (sym h),
    )

    admit_sound :
        (event out : StreamResponse) (x y : AuthorizedStream X)
        → admit store policy context u event x ≡ (ok (some out), y)
        → GoesOut x.task_id out y.task_id
    unfolding admit
    admit_sound event out x y h =
        let id : Bytes = event_task_id event in
        elim (if-cases (not (is_empty id)) h) [
          | inl named ↦
              let step =
                bound_sound id (get_authorized_task store policy context u id) refl event out x y
                  named.1 in
              let filled : id ≢ [] = λ e. absurd (ground (arith, named.0, (is_empty_iff id).1 e)) in
              subst (λ o. GoesOut x.task_id o y.task_id) step.1
                ((λ f. (step.0, step.2)), (λ e. absurd (filled e)))
          | inr unnamed ↦
              let empty : id ≡ [] = (is_empty_iff id).0 (ground (arith, unnamed.0)) in
              elim (if-cases (not (has_message event)) unnamed.1) [
                | inl no_message ↦ absurd (cc (ap (λ p. p.0) no_message.1))
                | inr talks ↦
                    let has : has_message event ≡ true = ground (arith, talks.0) in
                    elim (if-cases (is_empty x.task_id) talks.1) [
                      | inl free ↦
                          let same : event ≡ out = out_injective event out (ap (λ p. p.0) free.1) in
                          let none_bound : x.task_id ≡ [] = (is_empty_iff x.task_id).0 free.0 in
                          subst (λ o. GoesOut x.task_id o y.task_id) same
                            (
                              (λ f. absurd (f empty)),
                              (λ e. (
                                has,
                                (λ f. absurd (f none_bound)),
                                ap (λ p. p.1.task_id) (sym free.1),
                              )),
                            )
                      | inr held ↦
                          let step =
                            bound_sound x.task_id
                              (get_authorized_task store policy context u x.task_id) refl event out
                              x y held.1 in
                          subst (λ o. GoesOut x.task_id o y.task_id) step.1
                            ((λ f. absurd (f empty)), (λ e. (has, (λ f. step.0), step.2)))
                    ]
              ]
        ]

    taken_sound :
        (id : Bytes) (p : Result (Option StreamResponse) × X) (out : StreamResponse)
        (y : AuthorizedStream X)
        → taken store policy context u id p ≡ (ok (some out), y)
        → GoesOut id out y.task_id
    unfolding taken
    taken_sound id (err e, z) out y h = absurd (cc (ap (λ p. p.0) h))
    taken_sound id (ok none, z) out y h = absurd (cc (ap (λ p. p.0) h))
    taken_sound id (ok (some event), z) out y h =
        admit_sound event out (record { session = z; task_id = id }) y h

module _ {S : Type 0} (store : ReadStore S) (policy : SecurityPolicy) (context : RequestContext)
    (s u : S) where
  module _ {X : Type 0} where
    guarded_lem :
        (read : Read X) (x y : AuthorizedStream X) (out : StreamResponse) (r : Result Task)
        → get_authorized_task store policy context s x.task_id ≡ r
        → guarded store policy context s u r read x ≡ (ok (some out), y)
        → GoesOut store policy context u x.task_id out y.task_id
          × Sees store policy context s x.task_id
    unfolding guarded
    guarded_lem read x y out (err e) here h = absurd (cc (ap (λ p. p.0) h))
    guarded_lem read x y out (ok t) here h = (
      taken_sound store policy context u x.task_id (read x.session) out y h,
      seen store policy context s x.task_id (ok t) here t refl,
    )

    -- The store may change while a read waits. An event that a guarded stream lets out names a task that is
    -- stored and visible to the caller behind the read, and the stream is bound to that task from then
    -- on; or it names none: then it is a message, the task that the stream is bound to, if there is one, is
    -- stored and visible behind the read, and the stream stays bound to it. The task that the stream was
    -- bound to was also stored and visible before the read.
    pub read_stream_sound :
        (read : Read X) (x y : AuthorizedStream X) (out : StreamResponse)
        → read_stream store policy context s u read x ≡ (ok (some out), y)
        → GoesOut store policy context u x.task_id out y.task_id
          × (x.task_id ≢ [] → Sees store policy context s x.task_id)
    unfolding read_stream
    read_stream_sound read x y out h = elim (if-cases (not (is_empty x.task_id)) h) [
      | inl held ↦
          let step =
            guarded_lem read x y out (get_authorized_task store policy context s x.task_id) refl
              held.1 in
          (step.0, λ f. step.1)
      | inr free ↦ (
        taken_sound store policy context u x.task_id (read x.session) out y free.1,
        λ f. absurd (f ((is_empty_iff x.task_id).0 (ground (arith, free.0)))),
      )
    ]
