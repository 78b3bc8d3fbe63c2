-- ===== src/Server/TaskId/Examples.antt =====
-- Runs of src/server/task_id_generator.cpp.
use a2a_cpp.Base.{ℕ, ◌<◌, ◌≤◌, ◌%◌, ◌≡◌, refl, arith, List, [], ◌∷◌}
use a2a_cpp.Core.Error.{ok, err}
use a2a_cpp.Server.TaskId.{
  UuidV7TaskIdGenerator, uuid_bytes, formatted, advanced, overflows, generated, generate_task_id,
  sequence_overflow, Holds, IsLater, generate_task_id-IsLater,
}

abbrev random : List ℕ
random = 0 ∷ 0 ∷ 0 ∷ 0 ∷ 0 ∷ 0 ∷ 1 ∷ 2 ∷ 255 ∷ []

abbrev last : UuidV7TaskIdGenerator
last = record { last_timestamp_ms = 7; sequence = 4095 }

abbrev later : UuidV7TaskIdGenerator
later = record { last_timestamp_ms = 8; sequence = 258 }

-- The sequence of one millisecond is used up, and the call behind the error starts it again.
overflow :
    generate_task_id (ok random) 7 last ≡ (err sequence_overflow, record last { sequence = 0 })
unfolding generate_task_id generated advanced overflows
overflow = refl

restart :
    (generate_task_id (ok random) 7 (record last { sequence = 0 })).1 ≡ record last { sequence = 1 }
unfolding generate_task_id generated advanced overflows
restart = refl

made : generate_task_id (ok random) 8 last ≡ (ok (formatted (uuid_bytes random 8 258)), later)
unfolding generate_task_id generated advanced overflows
made = refl

generate_task_id-IsLater_example :
    IsLater last later
    × (later.sequence < 4096)
    × (8 ≤ later.last_timestamp_ms)
    × ((b : List ℕ) × (formatted (uuid_bytes random 8 258) ≡ formatted b)
        × Holds (later.last_timestamp_ms % 281474976710656) later.sequence b)
generate_task_id-IsLater_example =
    generate_task_id-IsLater random 8 last later (formatted (uuid_bytes random 8 258)) (omega arith)
      made
