-- ===== src/Server/Security/Selecting.antt =====
-- SelectTaskIds and ListTasks of src/server/security_policy.cpp. The loop over the pages of the
-- store runs on fuel: each page with a token costs one.
pub mod Scanning
pub mod Exact
pub mod Listed
mod Examples
use a2a_cpp.Base.{
  ℕ, zero, suc, ◌+◌, ◌%◌, Bool, true, false, not, ◌&&◌, Option, none, some, List, [], ◌∷◌, ◌++◌,
  ltb, ◌==◌, if◌then◌else◌, Bytes, is_empty, length,
}
use a2a_cpp.Core.Error.{Result, ok, err, Error, internal_error, validation_error, ◌>>=◌}
use a2a_cpp.Core.Proto.{Task}
use a2a_cpp.Tasks.Cursor.{
  ListTaskCursor, list_cursor_precedes, encode_list_page_token, parse_list_page_token,
}
use a2a_cpp.Tasks.Listing.{
  ListTasksRequest, ListTasksResponse, default_list_tasks_page_size, max_list_tasks_page_size,
  project_task_for_list,
}
use a2a_cpp.Server.Security.{
  RequestContext, SecurityPolicy, ReadStore, DispatchSecurity, get_authorized_task,
  missing_security_configuration, configured,
}

-- DispatchSecurity::VisibleTaskPage
pub record VisibleTaskPage : Type 0 where
  pub task_ids : List Bytes
  pub total_size : ℕ
  pub next_page_token : Bytes

-- `selected` and `last_selected`
pub record Scan : Type 0 where
  pub selected : VisibleTaskPage
  pub last_selected : ListTaskCursor

abbrev pub no_scan : Scan
no_scan = record {
  selected = record { task_ids = []; total_size = 0; next_page_token = [] };
  last_selected = record { updated_at = 0; task_id = [] };
}

abbrev pub missing_task_cursors : Error
missing_task_cursors = internal_error "task store must provide list cursor boundaries"

abbrev pub invalid_page_size : Error
invalid_page_size = validation_error "page size exceeds maximum"

-- `!cursor.has_value() || ListCursorPrecedes(*cursor, boundary)`
abbrev pub is_behind : Option ListTaskCursor → ListTaskCursor → Bool
is_behind none boundary = true
is_behind (some cursor) boundary = list_cursor_precedes cursor boundary

module _ (policy : SecurityPolicy) (context : RequestContext) (cursor : Option ListTaskCursor)
    (page_size : ℕ) where
  -- A visible task behind the cursor.
  abbrev pub take_task : Task → ListTaskCursor → Scan → Scan
  take_task t boundary x =
      if ltb (length x.selected.task_ids) page_size
      then record x {
        selected = record (x.selected) { task_ids = x.selected.task_ids ++ t.id ∷ [] };
        last_selected = boundary;
      }
      else if is_empty x.selected.next_page_token
      then record x {
        selected = record (x.selected) { next_page_token = encode_list_page_token x.last_selected };
      }
      else x

  -- The body of the loop over a page.
  abbrev pub scan_task : Task → ListTaskCursor → Scan → Scan
  scan_task t boundary x =
      let counted = record x {
        selected = record (x.selected) {
          total_size = (x.selected.total_size + 1) % 18446744073709551616;
        };
      } in
      if not (policy.can_access_task t context)
      then x
      else if not (is_behind cursor boundary)
      then counted
      else take_task t boundary counted

  -- The loop over a page, whose two lists have one length.
  pub scan_page : List Task → List ListTaskCursor → Scan → Scan
  scan_page (t ∷ ts) (c ∷ cs) x = scan_page ts cs (scan_task t c x)
  scan_page _ _ x = x

  module _ {S : Type 0} (store : ReadStore S) (s : S) where
    -- The loop over the pages.
    pub scan_pages : ℕ → ListTasksRequest → Scan → Option (Result VisibleTaskPage)
    unfolding scan_page
    scan_pages zero query x = none
    scan_pages (suc fuel) query x = elim (store.list query s) [
      | err e ↦ some (err e)
      | ok listed ↦
          let y = scan_page listed.tasks listed.task_cursors x in
          let rest = scan_pages fuel (record query { page_token = listed.next_page_token }) y in
          if not (length listed.tasks == length listed.task_cursors)
          then some (err missing_task_cursors)
          else if is_empty listed.next_page_token
          then some (ok y.selected)
          else rest
    ]

    -- SelectTaskIds
    pub select_task_ids : ℕ → ListTasksRequest → Option (Result VisibleTaskPage)
    unfolding scan_pages
    select_task_ids fuel query =
        scan_pages fuel
          (record query {
            page_size = max_list_tasks_page_size;
            include_total_size = false;
            page_token = [];
          })
          no_scan

module _ {S : Type 0} (store : ReadStore S) (policy : SecurityPolicy) (context : RequestContext)
    (s : S) where
  -- The loop over the selected ids.
  pub listed_tasks : ListTasksRequest → List Bytes → Result (List Task)
  listed_tasks request [] = ok []
  listed_tasks request (id ∷ ids) = do
    t ← get_authorized_task store policy context s id
    rest ← listed_tasks request ids
    ok (project_task_for_list t request.include_artifacts request.history_length ∷ rest)

  -- The response with the tasks of the page.
  pub respond : ListTasksRequest → ℕ → VisibleTaskPage → Result ListTasksResponse
  unfolding listed_tasks
  respond request size page = do
    tasks ← listed_tasks request page.task_ids
    ok (record {
      tasks = tasks;
      page_size = size;
      total_size = page.total_size;
      next_page_token = page.next_page_token;
      task_cursors = [];
    })

  respond_selected :
      ListTasksRequest → ℕ → Option (Result VisibleTaskPage) → Option (Result ListTasksResponse)
  unfolding respond
  respond_selected request size none = none
  respond_selected request size (some (err e)) = some (err e)
  respond_selected request size (some (ok page)) = some (respond request size page)

  -- ListTasks behind its checks.
  pub list_visible :
      ℕ → ListTasksRequest → Option ListTaskCursor → Option (Result ListTasksResponse)
  unfolding respond_selected respond select_task_ids
  list_visible fuel request cursor =
      let size =
        if request.page_size == 0 then default_list_tasks_page_size else request.page_size in
      elim (policy.scope_task_list
        (record request { history_length = none; include_artifacts = true }) context) [
          | none ↦ some (respond request size no_scan.selected)
          | some scoped ↦
              respond_selected request size
                (select_task_ids policy context cursor size store s fuel scoped)
        ]

  list_parsed :
      ℕ → ListTasksRequest → Result (Option ListTaskCursor) → Option (Result ListTasksResponse)
  unfolding list_visible
  list_parsed fuel request (err e) = some (err e)
  list_parsed fuel request (ok cursor) = list_visible fuel request cursor

  -- ListTasks of a configured DispatchSecurity.
  pub list_checked : ℕ → ListTasksRequest → Option (Result ListTasksResponse)
  unfolding list_parsed
  list_checked fuel request =
      if ltb max_list_tasks_page_size request.page_size
      then some (err invalid_page_size)
      else list_parsed fuel request (parse_list_page_token request.page_token)

-- ListTasks
pub list_tasks :
    {S : Type 0}
    → ℕ
    → DispatchSecurity S
    → ListTasksRequest
    → RequestContext
    → S
    → Option (Result ListTasksResponse)
unfolding list_checked
list_tasks fuel security request context s =
    configured security.policy security.task_store (some (err missing_security_configuration))
      (λ policy store. list_checked store policy context s fuel request)
