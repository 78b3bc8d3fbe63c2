-- ===== src/Server/Authorization/InMemory.antt =====
-- The in-memory store of in_memory_task_store.cpp as the store of task_authorization_service.cpp.
use a2a_cpp.Base.{
  ℕ, ◌≡◌, refl, sym, ap, ◌∙◌, subst, Bool, true, false, Option, none, some, if◌then◌else◌, ◌==◌,
  ==_iff, Bytes, bytes_eq, is_empty, find, int64_max, Bool-cases, inl, inr, ℤ,
}
use a2a_cpp.Core.Error.{Result, ok, err, validation_error}
use a2a_cpp.Core.Proto.{Task}
use a2a_cpp.Tasks.Store.{
  InMemoryTaskStore, TaskSnapshot, ConditionalWriteResult, updated, conflict,
  create_or_update_if_revision, get_snapshot, task_id_required, missing_task,
}
use a2a_cpp.Tasks.Store.Consistency.{IsConsistent, id-at}
use a2a_cpp.Tasks.Store.Spec.{
  Entry, Book, view, entry_at, stored_entry, write, created, revised, save_over, spec_save, giving,
  present_revision, spec_create_or_update_if_revision, snapshot_of,
}
use a2a_cpp.Tasks.Store.Refinement.{create_or_update_if_revision-Simulates, get-view}
use a2a_cpp.Server.Authorization.{revisions_in_memory}
use a2a_cpp.Server.Authorization.Moves.{Shelf, revision_of, Wrote, RevisionLaws}

abbrev pub snapshot_in : Option Entry → Option TaskSnapshot
snapshot_in none = none
snapshot_in (some e) = some (record { task = e.task; revision = e.revision })

abbrev pub shelf : Book → Shelf
shelf b k = snapshot_in (b k)

revision_of_snapshot : (o : Option Entry) → revision_of (snapshot_in o) ≡ present_revision o
revision_of_snapshot none = refl
revision_of_snapshot (some e) = refl

snapshot_in_if :
    (c : Bool) (x y : Option Entry)
    → snapshot_in (if c then x else y) ≡ (if c then snapshot_in x else snapshot_in y)
snapshot_in_if true x y = refl
snapshot_in_if false x y = refl

-- What a conditional write does to the snapshots of a map.
abbrev pub Writes : Task → ℕ → Book → Result ConditionalWriteResult × Book → Type 0
Writes t r b q = Wrote t r (shelf b) q.0 (shelf q.1)

if-Writes :
    (t : Task) (r : ℕ) (b : Book) (c : Bool) (p q : Result ConditionalWriteResult × Book)
    → (c ≡ true → Writes t r b p)
    → (c ≡ false → Writes t r b q)
    → Writes t r b (if c then p else q)
if-Writes t r b true p q one other = one refl
if-Writes t r b false p q one other = other refl

written :
    (t : Task) (r : ℕ) (b : Book) (e : Entry)
    → e.task ≡ t
    → present_revision (b t.id) ≡ r
    → Writes t r b (ok updated, write t.id e b)
written t r b e same expected = (
  revision_of_snapshot (b t.id) ∙ expected,
  (
    e.revision,
    λ k.
        snapshot_in_if (bytes_eq t.id k) (some e) (b k)
        ∙ ap
            (λ u.
              if bytes_eq t.id k
              then some (record { task = u; revision = e.revision })
              else shelf b k)
            same,
  ),
)

save-Writes :
    (o : Option Entry) (t : Task) (now : ℤ) (b : Book)
    → b t.id ≡ o
    → (r : ℕ) → present_revision (b t.id) ≡ r
    → Writes t r b (giving updated (save_over o t now b))
save-Writes none t now b here r expected = written t r b (created t now) refl expected
save-Writes (some e) t now b here r expected = elim (Bool-cases (e.updated_at == int64_max)) [
  | inl last ↦ rw (last, Wrote) (λ k. refl)
  | inr live ↦ rw (live, Wrote) (written t r b (revised t now e) refl expected)
]

pub spec-Writes :
    (t : Task) (r : ℕ) (now : ℤ) (b : Book)
    → Writes t r b (spec_create_or_update_if_revision t r now b)
spec-Writes t r now b =
    let saved : Result ConditionalWriteResult × Book = giving updated (spec_save t now b) in
    let rest : Result ConditionalWriteResult × Book =
      if present_revision (b t.id) == r then saved else (ok conflict, b) in
    if-Writes t r b (is_empty t.id) (err (validation_error "Task.id is required"), b) rest
      (λ empty k. refl)
      (λ full.
        if-Writes t r b (present_revision (b t.id) == r) saved (ok conflict, b)
          (λ same.
            save-Writes (b t.id) t now b refl r ((==_iff (present_revision (b t.id)) r).0 same))
          (λ other k. refl))

-- A write that shows the same map.
pub carried :
    (t : Task) (r : ℕ) (old new promised : Shelf) (o : Result ConditionalWriteResult)
    → ((k : Bytes) → new k ≡ promised k)
    → Wrote t r old o promised
    → Wrote t r old o new
carried t r old new promised (ok updated) same wrote =
    (wrote.0, (wrote.1.0, λ k. same k ∙ wrote.1.1 k))
carried t r old new promised (ok conflict) same wrote = λ k. same k ∙ wrote k
carried t r old new promised (err e) same wrote = λ k. same k ∙ wrote k

abbrev stored_snapshot : InMemoryTaskStore → ℕ → TaskSnapshot
stored_snapshot s i = record {
  task = (stored_entry s i).task;
  revision = (stored_entry s i).revision;
}

ok_injective : {d e : TaskSnapshot} → ok d ≡ ok e → d ≡ e
ok_injective h = cc h

past_check :
    (b : Bool) (r : Result TaskSnapshot) (e : TaskSnapshot)
    → (if b then err task_id_required else r) ≡ ok e
    → r ≡ ok e
past_check true r e h = absurd (cc h)
past_check false r e h = h

read-view :
    (s : InMemoryTaskStore)
    → IsConsistent s
    → (id : Bytes) (e : TaskSnapshot) (o : Option ℕ) → find id s.task_indices ≡ o
    → (if is_empty id then err task_id_required else snapshot_of (entry_at s o)) ≡ ok e
    → (snapshot_in (entry_at s o) ≡ some e) × (e.task.id ≡ id)
read-view s v id e none here read = absurd (cc (past_check (is_empty id) (err missing_task) e read))
read-view s v id e (some i) here read =
    let same : stored_snapshot s i ≡ e =
      ok_injective (past_check (is_empty id) (ok (stored_snapshot s i)) e read) in
    (ap some same, ap (λ d. d.task.id) (sym same) ∙ id-at s v id i here)

pub reads_lem :
    (s : InMemoryTaskStore)
    → IsConsistent s
    → (id : Bytes) (e : TaskSnapshot) → get_snapshot id s ≡ ok e
    → (shelf (view s) id ≡ some e) × (e.task.id ≡ id)
reads_lem s v id e read =
    read-view s v id e (find id s.task_indices) refl (sym (get-view s v id).1 ∙ read)

-- The in-memory store, in its consistent states, keeps the laws that the authorization service
-- relies on.
abbrev pub in_memory-laws : (now : ℤ) → RevisionLaws (revisions_in_memory now)
in_memory-laws now = record {
  Good = IsConsistent;
  view = λ s. shelf (view s);
  reads = λ s v id e read. reads_lem s v id e read;
  writes = λ s v t revision.
      let sim = create_or_update_if_revision-Simulates s v t revision now in
      let p = create_or_update_if_revision t revision now s in
      let q = spec_create_or_update_if_revision t revision now (view s) in
      (
        sim.consistent,
        carried t revision (shelf (view s)) (shelf (view p.1)) (shelf q.1) p.0
            (λ k. ap snapshot_in (sim.shows k))
            (subst (λ o. Wrote t revision (shelf (view s)) o (shelf q.1)) (sym sim.result)
              (spec-Writes t revision now (view s))),
      );
}
