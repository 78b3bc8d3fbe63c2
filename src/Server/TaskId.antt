-- ===== src/Server/TaskId.antt =====
-- src/server/task_id_generator.cpp: UuidV7TaskIdGenerator. The random bytes are what the operating
-- system gives, 16 of them, and `now` is the clock in milliseconds. One call is one step.
mod Examples
use a2a_cpp.Base.{
  ℕ, ◌+◌, ◌*◌, ◌/◌, ◌%◌, ◌<◌, ◌≤◌, ◌≡◌, ◌⊎◌, refl, sym, ap, ◌∙◌, subst, arith, Bool, true, false,
  List, [], ◌∷◌, ◌++◌, ltb, ◌==◌, if◌then◌else◌, max, Bytes, codes, get_or, take, drop, ◌-◌,
  if-cases, inl, inr,
}
use a2a_cpp.Core.Error.{Result, ok, err, Error, internal_error}

pub record UuidV7TaskIdGenerator : Type 0 where
  pub last_timestamp_ms : ℕ
  pub sequence : ℕ

abbrev pub sequence_overflow : Error
sequence_overflow = internal_error "UUIDv7 sequence overflow within one millisecond"

-- The masks of 10 and 12 bits.
abbrev pub initial_sequence : List ℕ → ℕ
initial_sequence random = (get_or random 6 0 * 256 + get_or random 7 0) % 1024

abbrev pub next_sequence : ℕ → ℕ
next_sequence sequence = (sequence + 1) % 4096

-- The bytes that are overwritten: the timestamp, the version with the sequence, and the variant.
pub uuid_bytes : List ℕ → ℕ → ℕ → List ℕ
uuid_bytes random ts sequence =
    ts / 1099511627776 % 256
    ∷ ts / 4294967296 % 256
    ∷ ts / 16777216 % 256
    ∷ ts / 65536 % 256
    ∷ ts / 256 % 256
    ∷ ts % 256
    ∷ (112 + sequence / 256 % 16)
    ∷ sequence % 256
    ∷ (get_or random 8 0 % 64 + 128)
    ∷ get_or random 9 0
    ∷ get_or random 10 0
    ∷ get_or random 11 0
    ∷ get_or random 12 0
    ∷ get_or random 13 0
    ∷ get_or random 14 0
    ∷ get_or random 15 0
    ∷ []

-- `%02x`
abbrev hex_digit : ℕ → ℕ
hex_digit d = if ltb d 10 then b'0' + d else b'a' + (d - 10)

abbrev hex_pair : ℕ → Bytes
hex_pair b = hex_digit (b / 16) ∷ hex_digit (b % 16) ∷ []

hex_run : List ℕ → Bytes
hex_run [] = []
hex_run (b ∷ bs) = hex_pair b ++ hex_run bs

-- The format of `snprintf`, with the prefix.
pub formatted : List ℕ → Bytes
unfolding hex_run
formatted bytes =
    codes "task-"
    ++ hex_run (take 4 bytes)
    ++ b'-' ∷ hex_run (take 2 (drop 4 bytes))
    ++ b'-' ∷ hex_run (take 2 (drop 6 bytes))
    ++ b'-' ∷ hex_run (take 2 (drop 8 bytes))
    ++ b'-' ∷ hex_run (drop 10 bytes)

-- The step under the lock: the timestamp is the later of the clock's and the last one.
advanced : List ℕ → ℕ → UuidV7TaskIdGenerator → UuidV7TaskIdGenerator
advanced random now g =
    let effective = max now g.last_timestamp_ms in
    if ltb g.last_timestamp_ms effective
    then record { last_timestamp_ms = effective; sequence = initial_sequence random }
    else record g { sequence = next_sequence g.sequence }

-- The sequence is 0 behind a step that took no new timestamp.
overflows : ℕ → UuidV7TaskIdGenerator → Bool
overflows now g =
    if ltb g.last_timestamp_ms (max now g.last_timestamp_ms)
    then false
    else next_sequence g.sequence == 0

generated : List ℕ → ℕ → UuidV7TaskIdGenerator → Result Bytes × UuidV7TaskIdGenerator
unfolding advanced overflows uuid_bytes formatted
generated random now g =
    let h = advanced random now g in
    if overflows now g
    then (err sequence_overflow, h)
    else (ok (formatted (uuid_bytes random (h.last_timestamp_ms % 281474976710656) h.sequence)), h)

-- GenerateTaskId; its arguments are not used.
pub generate_task_id :
    Result (List ℕ) → ℕ → UuidV7TaskIdGenerator → Result Bytes × UuidV7TaskIdGenerator
unfolding generated
generate_task_id (err e) now g = (err e, g)
generate_task_id (ok random) now g = generated random now g

-- What the layout of an id holds: the timestamp's 48 bits, the version 7, the sequence's 12 bits and
-- the variant.
abbrev pub Holds : ℕ → ℕ → List ℕ → Type 0
Holds ts sequence b =
    (((((get_or b 0 0 * 256 + get_or b 1 0) * 256 + get_or b 2 0) * 256 + get_or b 3 0) * 256
            + get_or b 4 0)
          * 256
        + get_or b 5 0
      ≡ ts)
    × (get_or b 6 0 / 16 ≡ 7)
    × (get_or b 6 0 % 16 * 256 + get_or b 7 0 ≡ sequence)
    × (get_or b 8 0 / 64 ≡ 2)

layout :
    (random : List ℕ) (ts sequence : ℕ)
    → ts < 281474976710656
    → sequence < 4096
    → Holds ts sequence (uuid_bytes random ts sequence)
unfolding uuid_bytes
layout random ts sequence small few = (omega arith, omega arith, omega arith, omega arith)

-- A later timestamp, or the same one with a larger sequence.
abbrev pub IsLater : UuidV7TaskIdGenerator → UuidV7TaskIdGenerator → Type 0
IsLater g h =
    (g.last_timestamp_ms < h.last_timestamp_ms)
    ⊎ ((h.last_timestamp_ms ≡ g.last_timestamp_ms) × (g.sequence < h.sequence))

advanced-IsLater :
    (random : List ℕ) (now : ℕ) (g : UuidV7TaskIdGenerator)
    → g.sequence < 4096
    → overflows now g ≡ false
    → IsLater g (advanced random now g)
      × ((advanced random now g).sequence < 4096)
      × (now ≤ (advanced random now g).last_timestamp_ms)
unfolding advanced overflows
advanced-IsLater random now g few fits = ground arith

generated_lem :
    (random : List ℕ) (now : ℕ) (g h : UuidV7TaskIdGenerator) (id : Bytes)
    → g.sequence < 4096
    → generated random now g ≡ (ok id, h)
    → (overflows now g ≡ false)
      × (advanced random now g ≡ h)
      × (id ≡ formatted (uuid_bytes random (h.last_timestamp_ms % 281474976710656) h.sequence))
unfolding generated
generated_lem random now g h id few made = elim (if-cases (overflows now g) made) [
  | inl over ↦ absurd (cc (ap (λ p. p.0) over.1))
  | inr fits ↦
      let state : advanced random now g ≡ h = ap (λ p. p.1) fits.1 in
      (
        fits.0,
        state,
        id_injective (ap (λ p. p.0) (sym fits.1))
            ∙ ap
                (λ k.
                  formatted (uuid_bytes random (k.last_timestamp_ms % 281474976710656) k.sequence))
                state,
      )
]
  where
    id_injective : {x y : Bytes} → ok x ≡ ok y → x ≡ y
    id_injective e = cc e

-- A call that makes an id, in a state whose sequence has 12 bits, leaves a state whose sequence has 12
-- bits, whose timestamp is not before the clock, and which is later than the one before: it has a later
-- timestamp, or the same one with a larger sequence. The id is the printed form of bytes that hold the
-- low 48 bits of that timestamp, the version 7, that sequence and the variant of RFC 9562.
pub generate_task_id-IsLater :
    (random : List ℕ) (now : ℕ) (g h : UuidV7TaskIdGenerator) (id : Bytes)
    → g.sequence < 4096
    → generate_task_id (ok random) now g ≡ (ok id, h)
    → IsLater g h
      × (h.sequence < 4096)
      × (now ≤ h.last_timestamp_ms)
      × ((b : List ℕ) × (id ≡ formatted b)
          × Holds (h.last_timestamp_ms % 281474976710656) h.sequence b)
unfolding generate_task_id
generate_task_id-IsLater random now g h id few made =
    let parts = generated_lem random now g h id few made in
    let later = advanced-IsLater random now g few parts.0 in
    let now_later =
      subst (λ k. IsLater g k × (k.sequence < 4096) × (now ≤ k.last_timestamp_ms)) parts.1 later in
    (
      now_later.0,
      now_later.1,
      now_later.2,
      (
        uuid_bytes random (h.last_timestamp_ms % 281474976710656) h.sequence,
        parts.2,
        layout random (h.last_timestamp_ms % 281474976710656) h.sequence (omega arith) now_later.1,
      ),
    )
