-- ===== src/Client/Sse.antt =====
-- src/client/transport/sse_parser.cpp: the incremental parser of server-sent events.
pub mod Chunks
pub mod Frames
mod Examples
use a2a_cpp.Base.{
  ℕ, Bool, true, false, not, ◌&&◌, ◌||◌, Option, none, some, List, [], ◌∷◌, ◌++◌, ◌==◌,
  if◌then◌else◌, Bytes, codes, bytes_eq, split_at, is_empty, length, pop_back,
}
use a2a_cpp.Core.Error.{
  Result, ok, err, Error, Text, lit, around, serialization_error, with_transport,
}

pub record SseEvent : Type 0 where
  pub event : Bytes
  pub event_data : Bytes

pub record SseParser : Type 0 where
  pub line_buffer : Bytes
  pub current_event : Bytes
  pub current_data : Bytes

abbrev pub newline : ℕ
newline = b'\n'

abbrev pub carriage_return : ℕ
carriage_return = b'\r'

abbrev pub colon : ℕ
colon = b':'

abbrev pub unterminated : Error
unterminated =
    with_transport (serialization_error (lit "SSE stream ended with unterminated event frame"))
      "http"

abbrev pub missing_separator : Error
missing_separator =
    with_transport (serialization_error (lit "Malformed SSE line: missing ':' separator")) "http"

abbrev pub unsupported_field : Bytes → Error
unsupported_field field =
    with_transport
      (serialization_error (around "Malformed SSE line: unsupported field '" field "'")) "http"

-- TrimSingleLeadingSpace
pub trim_single_leading_space : Bytes → Bytes
trim_single_leading_space [] = []
trim_single_leading_space (c ∷ cs) = if c == b' ' then cs else c ∷ cs

-- `back() == c`, false for an empty text.
pub ends_with : ℕ → Bytes → Bool
ends_with c [] = false
ends_with c (x ∷ []) = x == c
ends_with c (x ∷ y ∷ xs) = ends_with c (y ∷ xs)

-- One more character before the lines of a text and what is behind its last line feed.
pub put : ℕ → List Bytes × Bytes → List Bytes × Bytes
put c ([], rest) = if c == newline then ([] ∷ [], rest) else ([], c ∷ rest)
put c (line ∷ lines, rest) =
    if c == newline then ([] ∷ line ∷ lines, rest) else ((c ∷ line) ∷ lines, rest)

-- The lines that the loop of Feed finds, and what is behind the last line feed.
pub take_lines : Bytes → List Bytes × Bytes
unfolding put
take_lines [] = ([], [])
take_lines (c ∷ cs) = put c (take_lines cs)

-- A carriage return before the line feed is no part of the line.
pub strip_return : Bytes → Bytes
strip_return line = if ends_with carriage_return line then pop_back line else line

-- `W` is what the callback reads and changes.
module _ {W : Type 0} (on_event : SseEvent → W → Result (Unit {0}) × W) where
  abbrev pub Outcome : Type 0
  Outcome = Result (Unit {0}) × SseParser × W

  -- An early return on an error.
  abbrev pub and_then : Outcome → (SseParser → W → Outcome) → Outcome
  and_then (err e, p, w) next = (err e, p, w)
  and_then (ok _, p, w) next = next p w

  -- The callback takes the event; the parser has given its fields away by then.
  abbrev handed : SseParser → Result (Unit {0}) × W → Outcome
  handed p (result, w) = (result, p, w)

  -- DispatchEvent
  pub dispatch_event : SseParser → W → Outcome
  dispatch_event p w =
      let text =
        if ends_with newline p.current_data then pop_back p.current_data else p.current_data in
      if is_empty p.current_data && is_empty p.current_event
      then (ok tt, p, w)
      else handed (record p { current_event = []; current_data = [] })
          (on_event (record { event = p.current_event; event_data = text }) w)

  -- The fields of a line that is neither empty nor a comment.
  consume_field : Bytes × Bytes → SseParser → W → Outcome
  consume_field (field, text) p w =
      let value = trim_single_leading_space text in
      if bytes_eq field (codes "event")
      then (ok tt, record p { current_event = value }, w)
      else if bytes_eq field (codes "data")
      then (ok tt, record p { current_data = (p.current_data ++ value) ++ newline ∷ [] }, w)
      else if bytes_eq field (codes "id") || bytes_eq field (codes "retry")
      then (ok tt, p, w)
      else (err (unsupported_field field), p, w)

  -- ConsumeLine
  pub consume_line : Bytes → SseParser → W → Outcome
  unfolding dispatch_event consume_field
  consume_line [] p w = dispatch_event p w
  consume_line (c ∷ cs) p w = if c == colon then (ok tt, p, w) else elim (split_at colon (c ∷ cs)) [
    | none ↦ (err missing_separator, p, w)
    | some parts ↦ consume_field parts p w
  ]

  -- The loop of Feed; it stops at the first error.
  pub consume_lines : List Bytes → SseParser → W → Outcome
  consume_lines [] p w = (ok tt, p, w)
  consume_lines (line ∷ lines) p w =
      and_then (consume_line (strip_return line) p w) (consume_lines lines)

  -- What is left of the buffer after the loop: an early return erases nothing.
  pub fed : Bytes → Outcome → Outcome
  fed rest (err e, p, w) = (err e, p, w)
  fed rest (ok _, p, w) = (ok tt, record p { line_buffer = rest }, w)

  -- Feed
  pub feed : Bytes → SseParser → W → Outcome
  unfolding consume_lines fed
  feed chunk p w =
      let buffer = p.line_buffer ++ chunk in
      let (lines, rest) = take_lines buffer in
      fed rest (consume_lines lines (record p { line_buffer = buffer }) w)

  -- The end of Finish.
  check_terminated : Outcome → Outcome
  check_terminated (err e, p, w) = (err e, p, w)
  check_terminated (ok _, p, w) =
      if not (is_empty p.current_data) || not (is_empty p.current_event)
      then (err unterminated, p, w)
      else (ok tt, p, w)

  -- Finish
  pub finish : SseParser → W → Outcome
  unfolding check_terminated fed
  finish p w =
      if not (is_empty p.line_buffer)
      then check_terminated (fed [] (consume_line p.line_buffer p w))
      else check_terminated (ok tt, p, w)
