-- ===== src/Client/Sse/Frames.antt =====
-- The frames that the server writes (BuildSseEvent and BuildSseErrorEvent of
-- src/server/transport/rest_transport.cpp) and what sse_parser.cpp makes of them.
use a2a_cpp.Base.{
  ℕ, ◌≡◌, ◌≢◌, refl, ap, map, ◌∙◌, true, false, List, [], ◌∷◌, ◌++◌, arith, ◌==◌, Bytes, codes,
  bytes_eq, split_at, All, is_empty-snoc, pop_back-snoc,
}
use a2a_cpp.Core.Error.{Result, ok, err}
use a2a_cpp.Client.Sse.{
  fed, SseEvent, SseParser, newline, carriage_return, put, take_lines, ends_with, strip_return,
  trim_single_leading_space, dispatch_event, consume_field, consume_line, consume_lines, feed,
  Outcome, and_then,
}
use a2a_cpp.Client.Sse.Chunks.{
  seen, feed-append, feed_all, feed_all-stream, stream, feed-eq, put_feed, rebuffered,
}

-- The frame of a payload that is printed on one line.
unfoldable pub build_sse_event : Bytes → Bytes
build_sse_event json = (codes "data: " ++ json) ++ newline ∷ newline ∷ []

unfoldable pub build_sse_error_event : Bytes → Bytes
build_sse_error_event json = codes "event: error" ++ newline ∷ build_sse_event json

-- What a server sends: an update or an error, each by its JSON text.
pub data Sent : Type 0 where
  update failure : Bytes → Sent

abbrev pub json_of : Sent → Bytes
json_of (update json) = json
json_of (failure json) = json

abbrev pub frame_of : Sent → Bytes
frame_of (update json) = build_sse_event json
frame_of (failure json) = build_sse_error_event json

abbrev pub event_of : Sent → SseEvent
event_of (update json) = record { event = []; event_data = json }
event_of (failure json) = record { event = codes "error"; event_data = json }

-- The parser between two events.
abbrev pub idle : SseParser
idle = record { line_buffer = []; current_event = []; current_data = [] }

-- A text that is one line: it holds no line feed and does not end in a carriage return.
pub record IsLine (text : Bytes) : Type 0 where
  pub no_feed : All (λ c. c ≢ newline) text
  pub no_return : ends_with carriage_return text ≡ false

take_lines-line :
    (line rest : Bytes)
    → All (λ c. c ≢ newline) line
    → take_lines (line ++ newline ∷ rest) ≡ (line ∷ (take_lines rest).0, (take_lines rest).1)
unfolding take_lines put
take_lines-line [] rest h = put_feed newline ((take_lines rest).0) ((take_lines rest).1) refl
take_lines-line (c ∷ line) rest h =
    let other : (c == newline) ≡ false = ground (arith, h) in
    rw (take_lines-line line rest h.1, put, other) refl

ends_with-snoc : (c : ℕ) (text : Bytes) → ends_with c (text ++ c ∷ []) ≡ true
unfolding ends_with
ends_with-snoc c [] = ground arith
ends_with-snoc c (x ∷ []) = ground arith
ends_with-snoc c (x ∷ y ∷ xs) = ends_with-snoc c (y ∷ xs)

strip_data :
    (text : Bytes)
    → ends_with carriage_return text ≡ false
    → strip_return (codes "data: " ++ text) ≡ codes "data: " ++ text
unfolding strip_return ends_with
strip_data [] h = refl
strip_data (c ∷ cs) h = rw (h, strip_return, ends_with) refl

module _ {W : Type 0} (on_event : SseEvent → W → Result (Unit {0}) × W) where
  consume_data :
      (text : Bytes) (p : SseParser) (w : W)
      → consume_line on_event (codes "data: " ++ text) p w
        ≡ (ok tt, record p { current_data = (p.current_data ++ text) ++ newline ∷ [] }, w)
  unfolding consume_line consume_field split_at bytes_eq trim_single_leading_space
  consume_data text p w = refl

  consume_error_name :
      (p : SseParser) (w : W)
      → consume_line on_event (strip_return (codes "event: error")) p w
        ≡ (ok tt, record p { current_event = codes "error" }, w)
  unfolding consume_line consume_field split_at bytes_eq trim_single_leading_space strip_return
      ends_with
  consume_error_name p w = refl

  -- What the callback makes of an event.
  abbrev pub told : SseEvent → W → Outcome on_event
  told e w = ((on_event e w).0, idle, (on_event e w).1)

  ended : (o : Outcome on_event) → and_then on_event o (consume_lines on_event []) ≡ o
  unfolding consume_lines
  ended (err e, q, v) = refl
  ended (ok _, q, v) = refl

  end_of_event :
      (name text : Bytes) (w : W)
      → consume_line on_event []
          (record { line_buffer = []; current_event = name; current_data = text ++ newline ∷ [] })
          w
        ≡ told (record { event = name; event_data = text }) w
  unfolding consume_line dispatch_event
  end_of_event name text w =
      rw (is_empty-snoc text newline, ends_with-snoc newline text, pop_back-snoc text newline) refl

  data_lines :
      (name text : Bytes) (w : W)
      → ends_with carriage_return text ≡ false
      → consume_lines on_event
          ((codes "data: " ++ text) ∷ [] ∷ [])
          (record { line_buffer = []; current_event = name; current_data = [] })
          w
        ≡ told (record { event = name; event_data = text }) w
  unfolding consume_lines strip_return ends_with
  data_lines name text w h =
      rw (strip_data text h, consume_data text, end_of_event name text w)
        (ended (told (record { event = name; event_data = text }) w))

  fed_told :
      (x : Bytes) (o : Outcome on_event)
      → seen on_event (fed on_event [] (rebuffered on_event x o))
        ≡ seen on_event (rebuffered on_event [] o)
  unfolding fed
  fed_told x (err e, q, v) = refl
  fed_told x (ok _, q, v) = refl

  frame_lines :
      (json : Bytes)
      → IsLine json
      → take_lines (build_sse_event json) ≡ ((codes "data: " ++ json) ∷ [] ∷ [], [])
  unfolding build_sse_event take_lines put
  frame_lines json v =
      take_lines-line (codes "data: " ++ json) (newline ∷ []) (ground (arith, v.no_feed))

  feed-build_sse_event :
      (json : Bytes) (w : W)
      → IsLine json
      → seen on_event (feed on_event (build_sse_event json) idle w)
        ≡ seen on_event (told (record { event = []; event_data = json }) w)
  feed-build_sse_event json w v =
      ap (seen on_event) (
        feed-eq on_event (build_sse_event json) idle w _ [] (frame_lines json v)
        ∙ ap (λ o. fed on_event [] (rebuffered on_event (build_sse_event json) o))
            (data_lines [] json w v.no_return))
      ∙ fed_told (build_sse_event json) (told (record { event = []; event_data = json }) w)

  error_lines :
      (json : Bytes) (w : W)
      → ends_with carriage_return json ≡ false
      → consume_lines on_event (codes "event: error" ∷ (codes "data: " ++ json) ∷ [] ∷ []) idle w
        ≡ told (record { event = codes "error"; event_data = json }) w
  unfolding consume_lines
  error_lines json w h = rw (consume_error_name idle w) (data_lines (codes "error") json w h)

  feed-build_sse_error_event :
      (json : Bytes) (w : W)
      → IsLine json
      → seen on_event (feed on_event (build_sse_error_event json) idle w)
        ≡ seen on_event (told (record { event = codes "error"; event_data = json }) w)
  unfolding build_sse_error_event
  feed-build_sse_error_event json w v =
      let lines : take_lines (build_sse_error_event json)
          ≡ (codes "event: error" ∷ (codes "data: " ++ json) ∷ [] ∷ [], []) =
        take_lines-line (codes "event: error") (build_sse_event json) (ground arith)
        ∙ ap (λ x. (codes "event: error" ∷ x.0, x.1)) (frame_lines json v) in
      ap (seen on_event) (
        feed-eq on_event (build_sse_error_event json) idle w _ [] lines
        ∙ ap (λ o. fed on_event [] (rebuffered on_event (build_sse_error_event json) o))
            (error_lines json w v.no_return))
      ∙ fed_told (build_sse_error_event json)
          (told (record { event = codes "error"; event_data = json }) w)

  -- What follows an event that was told, on the parser between two events.
  told_then :
      (e : SseEvent) (w : W) (f g : SseParser → W → Outcome on_event)
      → ((v : W) → seen on_event (f idle v) ≡ seen on_event (g idle v))
      → (o : Result (Unit {0}) × W)
      → seen on_event (and_then on_event (o.0, idle, o.1) f)
        ≡ seen on_event (and_then on_event (o.0, idle, o.1) g)
  told_then e w f g h (err x, v) = refl
  told_then e w f g h (ok _, v) = h v

  seen_then :
      (a b : Outcome on_event) (f : SseParser → W → Outcome on_event)
      → seen on_event a ≡ seen on_event b
      → seen on_event (and_then on_event a f) ≡ seen on_event (and_then on_event b f)
  seen_then (err x, p, v) (err y, q, u) f h = h
  seen_then (err x, p, v) (ok _, q, u) f h = absurd (cc h)
  seen_then (ok _, p, v) (err y, q, u) f h = absurd (cc h)
  seen_then (ok _, p, v) (ok _, q, u) f h =
      let same_p : p ≡ q = cc h in let same_w : v ≡ u = cc h in rw (same_p, same_w) refl

  feed-frame_of :
      (s : Sent) (w : W)
      → IsLine (json_of s)
      → seen on_event (feed on_event (frame_of s) idle w) ≡ seen on_event (told (event_of s) w)
  feed-frame_of (update json) w v = feed-build_sse_event json w v
  feed-frame_of (failure json) w v = feed-build_sse_error_event json w v

  -- The callback on each event, until it fails.
  pub deliver : List Sent → W → Outcome on_event
  deliver [] w = (ok tt, idle, w)
  deliver (s ∷ sent) w = and_then on_event (told (event_of s) w) (λ q v. deliver sent v)

  feed_frames :
      (sent : List Sent) (w : W)
      → All (λ s. IsLine (json_of s)) sent
      → seen on_event (feed on_event (stream (map frame_of sent)) idle w)
        ≡ seen on_event (deliver sent w)
  unfolding deliver
  feed_frames [] w lines = unfold feed take_lines consume_lines fed in refl
  feed_frames (s ∷ sent) w lines =
      feed-append on_event (frame_of s) (stream (map frame_of sent)) idle w
      ∙ seen_then (feed on_event (frame_of s) idle w) (told (event_of s) w)
          (feed on_event (stream (map frame_of sent))) (feed-frame_of s w lines.0)
      ∙ told_then (event_of s) w (feed on_event (stream (map frame_of sent)))
          (λ q v. deliver sent v) (λ v. feed_frames sent v lines.1) (on_event (event_of s) w)

  -- Frames of the server whose JSON texts are single lines, received in any chunks, one at least,
  -- by a parser between two events: the callback gets the event of each frame in order, until it
  -- fails, and the result is its error or success with the parser between two events again.
  pub feed_all-frames :
      (sent : List Sent) (chunk : Bytes) (chunks : List Bytes) (w : W)
      → All (λ s. IsLine (json_of s)) sent
      → stream (chunk ∷ chunks) ≡ stream (map frame_of sent)
      → seen on_event (feed_all on_event (chunk ∷ chunks) idle w) ≡ seen on_event (deliver sent w)
  feed_all-frames sent chunk chunks w lines received =
      feed_all-stream on_event chunk chunks idle w
      ∙ ap (λ text. seen on_event (feed on_event text idle w)) received
      ∙ feed_frames sent w lines
