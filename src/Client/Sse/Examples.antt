-- ===== src/Client/Sse/Examples.antt =====
-- Runs of sse_parser.cpp.
use a2a_cpp.Base.{◌≡◌, ◌++◌, refl, arith, List, [], ◌∷◌, map, Bytes, codes}
use a2a_cpp.Core.Error.{Result, ok}
use a2a_cpp.Client.Sse.{SseEvent, newline, feed, ends_with}
use a2a_cpp.Client.Sse.Chunks.{seen, feed_all, feed_all-stream, stream}
use a2a_cpp.Client.Sse.Frames.{
  Sent, update, failure, frame_of, idle, deliver, feed_all-frames, build_sse_event,
  build_sse_error_event, IsLine,
}

-- A callback that keeps what it is given.
abbrev keep_event : SseEvent → List SseEvent → Result (Unit {0}) × List SseEvent
keep_event e events = (ok tt, e ∷ events)

feed_all-stream_example :
    seen keep_event
      (feed_all keep_event (codes "da" ∷ codes "ta:1" ∷ (newline ∷ newline ∷ []) ∷ []) idle [])
    ≡ seen keep_event (
        feed keep_event
          (stream (codes "da" ∷ codes "ta:1" ∷ (newline ∷ newline ∷ []) ∷ []))
          idle
          [])
feed_all-stream_example =
    feed_all-stream keep_event (codes "da") (codes "ta:1" ∷ (newline ∷ newline ∷ []) ∷ []) idle []

abbrev sent : List Sent
sent = update (codes "{}") ∷ failure (codes "{1}") ∷ []

abbrev rest_of_stream : Bytes
rest_of_stream =
    codes ": {}"
    ++ newline ∷ newline ∷ codes "event: error"
    ++ newline ∷ codes "data: {1}"
    ++ newline ∷ newline ∷ []

empty_object-IsLine : IsLine (codes "{}")
unfolding ends_with
empty_object-IsLine = record { no_feed = ground arith; no_return = refl }

number-IsLine : IsLine (codes "{1}")
unfolding ends_with
number-IsLine = record { no_feed = ground arith; no_return = refl }

same_text : stream (codes "data" ∷ rest_of_stream ∷ []) ≡ stream (map frame_of sent)
unfolding build_sse_event build_sse_error_event
same_text = refl

feed_all-frames_example :
    seen keep_event (feed_all keep_event (codes "data" ∷ rest_of_stream ∷ []) idle [])
    ≡ seen keep_event (deliver keep_event sent [])
feed_all-frames_example =
    feed_all-frames keep_event sent (codes "data") (rest_of_stream ∷ []) []
      (empty_object-IsLine, (number-IsLine, tt)) same_text
