-- ===== src/Server/Security/Selecting/Listed.antt =====
-- The tasks that ListTasks of src/server/security_policy.cpp puts in a response.
use a2a_cpp.Base.{
  ℕ, ltb, ◌==◌, ◌≡◌, refl, subst, Bool, true, false, Option, none, some, List, [], ◌∷◌,
  if◌then◌else◌, Bytes,
}
use a2a_cpp.Core.Error.{Result, ok, err, ◌>>=◌, >>=-eq-ok}
use a2a_cpp.Core.Proto.{Task}
use a2a_cpp.Tasks.Cursor.{ListTaskCursor, parse_list_page_token}
use a2a_cpp.Tasks.Listing.{
  default_list_tasks_page_size, max_list_tasks_page_size, ListTasksRequest, ListTasksResponse,
  project_task_for_list,
}
use a2a_cpp.Server.Security.{RequestContext, SecurityPolicy, ReadStore, get_authorized_task}
use a2a_cpp.Server.Security.Access.{IsVisible, get_authorized_task_iff}
use a2a_cpp.Server.Security.Selecting.{
  no_scan, invalid_page_size, select_task_ids, VisibleTaskPage, listed_tasks, respond,
  respond_selected, list_visible, list_parsed, list_checked, list_tasks,
}

ok_injective : {A : Type 0} {x y : A} → ok x ≡ ok y → x ≡ y
ok_injective h = cc h

module _ {S : Type 0} (store : ReadStore S) (policy : SecurityPolicy) (context : RequestContext)
    (s : S) (request : ListTasksRequest) where
  -- Each listed task is the projection of one that is stored under its id and visible.
  abbrev pub AreVisible : List Bytes → List Task → Type 0
  AreVisible [] [] = Unit {0}
  AreVisible (id ∷ ids) (t ∷ ts) =
      ((u : Task) × IsVisible store policy context s id u
        × (t ≡ project_task_for_list u request.include_artifacts request.history_length))
      × AreVisible ids ts
  AreVisible _ _ = ⊥

  listed_tasks_sound :
      (ids : List Bytes) (ts : List Task)
      → listed_tasks store policy context s request ids ≡ ok ts
      → AreVisible ids ts
  unfolding listed_tasks
  listed_tasks_sound [] [] h = tt
  listed_tasks_sound [] (t ∷ ts) h = absurd (cc h)
  listed_tasks_sound (id ∷ ids) ts h =
      let first = >>=-eq-ok (get_authorized_task store policy context s id) _ h in
      let second = >>=-eq-ok (listed_tasks store policy context s request ids) _ first.2 in
      subst (AreVisible (id ∷ ids)) (ok_injective second.2) (
        (first.0, (get_authorized_task_iff store policy context s id first.0).0 first.1, refl),
        listed_tasks_sound ids second.0 second.1,
      )

  -- A response whose tasks are visible.
  abbrev pub IsFiltered : Result ListTasksResponse → Type 0
  IsFiltered (err e) = Unit {0}
  IsFiltered (ok response) = (ids : List Bytes) × AreVisible ids response.tasks

  respond_sound :
      (size : ℕ) (page : VisibleTaskPage)
      → IsFiltered (respond store policy context s request size page)
  unfolding respond
  respond_sound size page =
      collect_sound (listed_tasks store policy context s request page.task_ids) refl
    where
      collect_sound :
          (r : Result (List Task))
          → listed_tasks store policy context s request page.task_ids ≡ r
          → IsFiltered (
              r >>= λ tasks. ok (record {
                tasks = tasks;
                page_size = size;
                total_size = page.total_size;
                next_page_token = page.next_page_token;
                task_cursors = [];
              }))
      collect_sound (err e) h = tt
      collect_sound (ok ts) h = (page.task_ids, listed_tasks_sound page.task_ids ts h)

  abbrev pub AllFiltered : Option (Result ListTasksResponse) → Type 0
  AllFiltered none = Unit {0}
  AllFiltered (some r) = IsFiltered r

  respond_selected_sound :
      (size : ℕ) (o : Option (Result VisibleTaskPage))
      → AllFiltered (respond_selected store policy context s request size o)
  unfolding respond_selected
  respond_selected_sound size none = tt
  respond_selected_sound size (some (err e)) = tt
  respond_selected_sound size (some (ok page)) = respond_sound size page

  list_visible_sound :
      (fuel : ℕ) (cursor : Option ListTaskCursor)
      → AllFiltered (list_visible store policy context s fuel request cursor)
  unfolding list_visible
  list_visible_sound fuel cursor =
      let size : ℕ =
        if request.page_size == 0 then default_list_tasks_page_size else request.page_size in
      scoped_sound size (
        policy.scope_task_list (record request { history_length = none; include_artifacts = true })
          context)
    where
      scoped_sound :
          (size : ℕ) (o : Option ListTasksRequest)
          → AllFiltered (elim o [
            | none ↦ some (respond store policy context s request size no_scan.selected)
            | some scoped ↦
                respond_selected store policy context s request size
                  (select_task_ids policy context cursor size store s fuel scoped)
          ])
      scoped_sound size none = respond_sound size no_scan.selected
      scoped_sound size (some scoped) =
          respond_selected_sound size
            (select_task_ids policy context cursor size store s fuel scoped)

  list_parsed_sound :
      (fuel : ℕ) (r : Result (Option ListTaskCursor))
      → AllFiltered (list_parsed store policy context s fuel request r)
  unfolding list_parsed
  list_parsed_sound fuel (err e) = tt
  list_parsed_sound fuel (ok cursor) = list_visible_sound fuel cursor

  list_checked_sound : (fuel : ℕ) → AllFiltered (list_checked store policy context s fuel request)
  unfolding list_checked
  list_checked_sound fuel = if_sound (ltb max_list_tasks_page_size request.page_size)
    where
      if_sound :
          (b : Bool)
          → AllFiltered (
              if b
              then some (err invalid_page_size)
              else list_parsed store policy context s fuel request
                  (parse_list_page_token request.page_token))
      if_sound true = tt
      if_sound false = list_parsed_sound fuel (parse_list_page_token request.page_token)

-- Whatever the store lists, and wherever the loop over its pages stops, each task in the response of
-- ListTasks is the projection of a task that the store holds and that the policy lets the caller see.
pub list_tasks-visible :
    {S : Type 0} (store : ReadStore S) (policy : SecurityPolicy) (context : RequestContext) (s : S)
    (request : ListTasksRequest) (fuel : ℕ)
    → (response : ListTasksResponse)
    → list_tasks fuel (record { policy = some policy; task_store = some store }) request context s
      ≡ some (ok response)
    → (ids : List Bytes) × AreVisible store policy context s request ids response.tasks
unfolding list_tasks
list_tasks-visible store policy context s request fuel response h =
    subst (AllFiltered store policy context s request) h
      (list_checked_sound store policy context s request fuel)
