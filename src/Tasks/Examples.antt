-- ===== src/Tasks/Examples.antt =====
-- Runs of list_tasks.cpp and task_history.cpp on small inputs.
use a2a_cpp.Base.{
  pos, refl, bytes_lt, ◌↔◌, false, true, ◌≡◌, none, some, List, [], ◌∷◌, ◌++◌, arith, All, Bytes,
  codes, length, min,
}
use a2a_cpp.Core.Error.{ok}
use a2a_cpp.Core.Proto.{Task, Message, Part, default_task, default_message, user, working}
use a2a_cpp.Tasks.History.{
  apply_history_retention, find_history_dedupe_reason, dedup_by_id_or_fingerprint,
}
use a2a_cpp.Tasks.History.Retention.{apply_history_retention-suffix}
use a2a_cpp.Tasks.History.Dedupe.{IsDuplicate, find_history_dedupe_reason-none_iff}
use a2a_cpp.Tasks.Cursor.{
  ListTaskCursor, list_cursor_precedes, encode_list_page_token, parse_list_page_token,
}
use a2a_cpp.Tasks.Cursor.RoundTrip.{IsCursor}
use a2a_cpp.Tasks.Cursor.Canonical.{parse-eq-some_iff}
use a2a_cpp.Tasks.Cursor.Order.{IsNewer, precedes_total_order}
use a2a_cpp.Tasks.Listing.{
  ListTasksRequest, matches_list_filters, project_task_for_list, apply_artifact_projection,
}
use a2a_cpp.Tasks.Listing.Projection.{project-eq-retention, matches_list_filters_iff, IsSelected}

abbrev first_message : Message
first_message = record default_message { message_id = codes "1"; role = user }

abbrev second_message : Message
second_message = record default_message { message_id = codes "2"; role = user }

abbrev talk : Task
talk = record default_task { id = codes "a"; history = first_message ∷ second_message ∷ [] }

abbrev cursor : ListTaskCursor
cursor = record { updated_at = 42; task_id = codes "a:b" }

cursor-IsCursor : IsCursor cursor
cursor-IsCursor = record {
  time = omega arith;
  named = cc;
  bytes = (omega arith, (omega arith, (omega arith, tt)));
}

parse-eq-some_iff_example :
    (parse_list_page_token (encode_list_page_token cursor) ≡ ok (some cursor))
    ↔ (IsCursor cursor × (encode_list_page_token cursor ≡ encode_list_page_token cursor))
parse-eq-some_iff_example = parse-eq-some_iff (encode_list_page_token cursor) cursor

apply_history_retention-suffix_example :
    (dropped : List Message) × (dropped ++ (apply_history_retention talk (some 1)).history
      ≡ talk.history)
    × (length (apply_history_retention talk (some 1)).history ≡ min 1 (length talk.history))
    × (apply_history_retention talk none ≡ talk)
apply_history_retention-suffix_example = apply_history_retention-suffix talk 1

abbrev id_of : Part → Bytes
id_of p = p.filename

find_history_dedupe_reason-none_iff_example :
    (find_history_dedupe_reason id_of talk.history second_message dedup_by_id_or_fingerprint ≡ none)
    ↔ All (λ e. ¬ IsDuplicate id_of dedup_by_id_or_fingerprint e second_message) talk.history
find_history_dedupe_reason-none_iff_example =
    find_history_dedupe_reason-none_iff id_of dedup_by_id_or_fingerprint talk.history second_message

project-eq-retention_example :
    project_task_for_list talk false (some 1)
    ≡ apply_artifact_projection (apply_history_retention talk (some 1)) false
project-eq-retention_example = project-eq-retention talk false (some 1)

-- Two updates at one time, and an earlier one.
abbrev late : ListTaskCursor
late = record { updated_at = 9; task_id = codes "b" }

abbrev early : ListTaskCursor
early = record { updated_at = 4; task_id = codes "c" }

abbrev late_too : ListTaskCursor
late_too = record { updated_at = 9; task_id = codes "a" }

late_first :
    (list_cursor_precedes late late_too ≡ true)
    × (list_cursor_precedes late_too early ≡ true)
    × (list_cursor_precedes early late ≡ false)
unfolding list_cursor_precedes bytes_lt
late_first = (refl, refl, refl)

precedes_total_order_example :
    ((list_cursor_precedes late late_too ≡ true) ↔ IsNewer late late_too)
    × (list_cursor_precedes late late ≡ false)
    × (list_cursor_precedes late late_too ≡ true
        → list_cursor_precedes late_too early ≡ true
        → list_cursor_precedes late early ≡ true)
    × (list_cursor_precedes late late_too ≡ false
        → list_cursor_precedes late_too late ≡ false
        → late ≡ late_too)
precedes_total_order_example = precedes_total_order late late_too early

-- A request with all three filters, and a task that passes each.
abbrev everything : ListTasksRequest
everything = record {
  page_size = 2;
  page_token = [];
  context_id = codes "c";
  status_filter = some working;
  status_timestamp_after = some (record { seconds = pos 3; nanos = pos 4 });
  history_length = none;
  include_artifacts = true;
  include_total_size = true;
}

abbrev at_work : Task
at_work = record default_task {
  id = codes "a";
  context_id = codes "c";
  status = some (record {
    state = working;
    message = none;
    timestamp = some (record { seconds = pos 3; nanos = pos 4 });
  });
}

matches_list_filters_iff_example :
    (matches_list_filters at_work everything ≡ true) ↔ IsSelected at_work everything
matches_list_filters_iff_example = matches_list_filters_iff at_work everything
