-- ===== src/Client/Sse/Chunks.antt =====
-- sse_parser.cpp on streams that come in chunks.
use a2a_cpp.Base.{
  ℕ, ◌≡◌, refl, sym, ap, ◌∙◌, true, List, [], ◌∷◌, ◌++◌, arith, ◌==◌, Bool-cases, inl, inr, Bytes,
  append_assoc, append-nil,
}
use mathlib.Core.Path.{fun_ext}
use a2a_cpp.Core.Error.{Result, ok, err}
use a2a_cpp.Client.Sse.{
  SseEvent, SseParser, newline, put, take_lines, strip_return, dispatch_event, consume_field,
  consume_line, consume_lines, fed, feed, Outcome, and_then,
}

-- The text of a stream that comes in chunks.
abbrev pub stream : List Bytes → Bytes
stream [] = []
stream (chunk ∷ chunks) = chunk ++ stream chunks

-- The lines of a joined text, from the lines of its first part and what is left of that.
abbrev joined : List Bytes × Bytes → Bytes → List Bytes × Bytes
joined (lines, rest) b = (lines ++ (take_lines (rest ++ b)).0, (take_lines (rest ++ b)).1)

pub put_feed :
    (c : ℕ) (lines : List Bytes) (rest : Bytes)
    → (c == newline) ≡ true
    → put c (lines, rest) ≡ ([] ∷ lines, rest)
unfolding put
put_feed c [] rest feed = rw (feed, put) refl
put_feed c (line ∷ lines) rest feed = rw (feed, put) refl

put-joined :
    (c : ℕ) (lines : List Bytes) (rest b : Bytes)
    → put c (joined (lines, rest) b) ≡ joined (put c (lines, rest)) b
unfolding put take_lines
put-joined c [] rest b = elim (Bool-cases (c == newline)) [
  | inl feed ↦
      put_feed c ((take_lines (rest ++ b)).0) ((take_lines (rest ++ b)).1) feed
      ∙ ap (λ x. joined x b) (sym (put_feed c [] rest feed))
  | inr other ↦ rw (other, put, take_lines) refl
]
put-joined c (line ∷ lines) rest b = elim (Bool-cases (c == newline)) [
  | inl feed ↦ rw (feed, put) refl
  | inr other ↦ rw (other, put) refl
]

take_lines-append : (a b : Bytes) → take_lines (a ++ b) ≡ joined (take_lines a) b
unfolding take_lines
take_lines-append [] b = refl
take_lines-append (c ∷ a) b =
    ap (put c) (take_lines-append a b) ∙ put-joined c ((take_lines a).0) ((take_lines a).1) b

module _ {W : Type 0} (on_event : SseEvent → W → Result (Unit {0}) × W) where
  and_then_assoc :
      (o : Outcome on_event) (f g : SseParser → W → Outcome on_event)
      → and_then on_event o (λ p w. and_then on_event (f p w) g)
        ≡ and_then on_event (and_then on_event o f) g
  and_then_assoc (err e, p, w) f g = refl
  and_then_assoc (ok _, p, w) f g = refl

  consume_lines-append :
      (xs ys : List Bytes) (p : SseParser) (w : W)
      → consume_lines on_event (xs ++ ys) p w
        ≡ and_then on_event (consume_lines on_event xs p w) (consume_lines on_event ys)
  unfolding consume_lines
  consume_lines-append [] ys p w = refl
  consume_lines-append (x ∷ xs) ys p w =
      ap (and_then on_event (consume_line on_event (strip_return x) p w))
        (fun_ext (λ q. fun_ext (λ v. consume_lines-append xs ys q v)))
      ∙ and_then_assoc (consume_line on_event (strip_return x) p w) (consume_lines on_event xs)
          (consume_lines on_event ys)

  abbrev pub rebuffered : Bytes → Outcome on_event → Outcome on_event
  rebuffered buffer (result, p, w) = (result, record p { line_buffer = buffer }, w)

  -- The buffer is not read by the lines that are taken of it.
  consume_line-buffer :
      (line buffer : Bytes) (p : SseParser) (w : W)
      → consume_line on_event line (record p { line_buffer = buffer }) w
        ≡ rebuffered buffer (consume_line on_event line p w)
  unfolding consume_line dispatch_event consume_field
  consume_line-buffer [] buffer p w = ground arith
  consume_line-buffer (c ∷ cs) buffer p w = ground arith

  rebuffered-and_then :
      (buffer : Bytes) (o : Outcome on_event) (f : SseParser → W → Outcome on_event)
      → ((q : SseParser) (v : W)
          → f (record q { line_buffer = buffer }) v ≡ rebuffered buffer (f q v))
      → and_then on_event (rebuffered buffer o) f ≡ rebuffered buffer (and_then on_event o f)
  rebuffered-and_then buffer (err e, q, v) f h = refl
  rebuffered-and_then buffer (ok _, q, v) f h = h q v

  consume_lines-buffer :
      (lines : List Bytes) (buffer : Bytes) (p : SseParser) (w : W)
      → consume_lines on_event lines (record p { line_buffer = buffer }) w
        ≡ rebuffered buffer (consume_lines on_event lines p w)
  unfolding consume_lines
  consume_lines-buffer [] buffer p w = refl
  consume_lines-buffer (x ∷ xs) buffer p w = rw (consume_line-buffer (strip_return x) buffer p w) (
      rebuffered-and_then buffer (consume_line on_event (strip_return x) p w)
        (consume_lines on_event xs) (λ q v. consume_lines-buffer xs buffer q v))

  -- What a caller can tell of a call: after an error the stream is given up with its buffer.
  abbrev pub seen : Outcome on_event → Outcome on_event
  seen (err e, p, w) = (err e, record p { line_buffer = [] }, w)
  seen (ok u, p, w) = (ok tt, p, w)

  seen-fed :
      (rest x y : Bytes) (o : Outcome on_event)
      → seen (fed on_event rest (rebuffered x o)) ≡ seen (fed on_event rest (rebuffered y o))
  unfolding fed
  seen-fed rest x y (err e, q, v) = refl
  seen-fed rest x y (ok _, q, v) = refl

  -- One call on a buffer, by the lines of the text.
  pub feed-eq :
      (chunk : Bytes) (p : SseParser) (w : W) (lines : List Bytes) (rest : Bytes)
      → take_lines (p.line_buffer ++ chunk) ≡ (lines, rest)
      → feed on_event chunk p w
        ≡ fed on_event rest (rebuffered (p.line_buffer ++ chunk) (consume_lines on_event lines p w))
  unfolding feed
  feed-eq chunk p w lines rest e =
      rw e (ap (fed on_event rest) (consume_lines-buffer lines (p.line_buffer ++ chunk) p w))

  -- What a second call does with what the first one left.
  feed_rest :
      (o : Outcome on_event) (lines : List Bytes) (rest left b x y : Bytes)
      → take_lines (left ++ b) ≡ (lines, rest)
      → seen (fed on_event rest (rebuffered x (and_then on_event o (consume_lines on_event lines))))
        ≡ seen (and_then on_event (fed on_event left (rebuffered y o)) (feed on_event b))
  unfolding fed
  feed_rest (err e, q, v) lines rest left b x y h = refl
  feed_rest (ok _, q, v) lines rest left b x y h =
      rw
        (
          feed-eq b (record q { line_buffer = left }) v lines rest h,
          consume_lines-buffer lines left q v,
        )
        (seen-fed rest x (left ++ b) (consume_lines on_event lines q v))

  -- A text that is fed in two parts has the effect that it has at once.
  pub feed-append :
      (a b : Bytes) (p : SseParser) (w : W)
      → seen (feed on_event (a ++ b) p w)
        ≡ seen (and_then on_event (feed on_event a p w) (feed on_event b))
  feed-append a b p w =
      let (l, r) = take_lines (p.line_buffer ++ a) in
      let (m, s) = take_lines (r ++ b) in
      let whole : take_lines (p.line_buffer ++ (a ++ b)) ≡ (l ++ m, s) =
        ap take_lines (sym (append_assoc p.line_buffer a b))
        ∙ take_lines-append (p.line_buffer ++ a) b in
      ap seen (
        feed-eq (a ++ b) p w (l ++ m) s whole
        ∙ ap (λ o. fed on_event s (rebuffered (p.line_buffer ++ (a ++ b)) o))
            (consume_lines-append l m p w))
      ∙ feed_rest (consume_lines on_event l p w) m s r b (p.line_buffer ++ (a ++ b))
          (p.line_buffer ++ a) refl
      ∙ ap (λ o. seen (and_then on_event o (feed on_event b))) (sym (feed-eq a p w l r refl))

  -- One call for each chunk, until one fails.
  pub feed_all : List Bytes → SseParser → W → Outcome on_event
  feed_all [] p w = (ok tt, p, w)
  feed_all (chunk ∷ chunks) p w = and_then on_event (feed on_event chunk p w) (feed_all chunks)

  feed_all-stream_after :
      (o : Outcome on_event) (f g : SseParser → W → Outcome on_event)
      → ((q : SseParser) (v : W) → seen (f q v) ≡ seen (g q v))
      → seen (and_then on_event o f) ≡ seen (and_then on_event o g)
  feed_all-stream_after (err e, q, v) f g h = refl
  feed_all-stream_after (ok _, q, v) f g h = h q v

  seen_ended : (o : Outcome on_event) → seen (and_then on_event o (λ q v. (ok tt, q, v))) ≡ seen o
  seen_ended (err e, q, v) = refl
  seen_ended (ok _, q, v) = refl

  -- A stream has the same effect however it is cut into chunks, one at least: the same result, the
  -- same calls of the callback in the same order, the same event under way, and the same buffer
  -- unless a call failed.
  pub feed_all-stream :
      (chunk : Bytes) (chunks : List Bytes) (p : SseParser) (w : W)
      → seen (feed_all (chunk ∷ chunks) p w) ≡ seen (feed on_event (stream (chunk ∷ chunks)) p w)
  unfolding feed_all
  feed_all-stream chunk [] p w = rw (append-nil chunk) (seen_ended (feed on_event chunk p w))
  feed_all-stream chunk (next ∷ chunks) p w =
      feed_all-stream_after (feed on_event chunk p w) (feed_all (next ∷ chunks))
        (feed on_event (stream (next ∷ chunks))) (feed_all-stream next chunks)
      ∙ sym (feed-append chunk (stream (next ∷ chunks)) p w)
