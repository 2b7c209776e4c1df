-- ===== src/Log/Logger/Writes.antt =====
-- What `cpr_log_writev` of src/log.c writes to the sinks.
use libcopper.Base.{
  ℕ, ◌-◌, ◌^◌, ◌≤◌, ◌<◌, ◌≡◌, refl, ap, ◌∙◌, arith, inl, inr, Bool, true, Bool-cases, none, some,
}
use libcopper.Base.{
  List, [], ◌∷◌, ◌++◌, length, length-append, take, take-append, ltb, ◌>>=◌, if◌then◌else◌,
}
use libcopper.Log.Line.{
  CprLogMessage, CprDateTime, out_marker, default_text, log_format_default, print_line,
}
use libcopper.Log.Line.Bounded.{bounded, print_line_lem}
use libcopper.Log.Logger.{CprLogSink, buffer_size, write_line, log_loop}

module _ {W : Type 0} where
  -- Each sink at or below the level of the message writes the line, in the order of the sinks.
  abbrev pub write_to : List (CprLogSink W) → CprLogMessage → List ℕ → W → W
  write_to [] msg line w = w
  write_to (sink ∷ sinks) msg line w =
      write_to sinks msg line (if ltb msg.level sink.min_level then w else sink.write msg line w)

  -- The sinks have no format of their own.
  abbrev pub Plain : List (CprLogSink W) → Type 0
  Plain [] = Unit
  Plain (sink ∷ sinks) = (sink.format ≡ none) × Plain sinks

bounded_positive : (n : ℕ) (text : List ℕ) → 8 ≤ n → 0 < length text → 0 < length (bounded n text)
bounded_positive n text least some_text = elim (Bool-cases (ltb (length text) n)) [
  | inl short ↦ rw short some_text
  | inr long ↦ rw long (omega (arith, length-append (take (n - 8) text) out_marker))
]

default_text_positive : (dt : CprDateTime) (msg : CprLogMessage) → 0 < length (default_text dt msg)
default_text_positive dt msg = omega arith

module _ (local : ℕ → CprDateTime) (msg : CprLogMessage) where
  abbrev pub line_of : List ℕ
  line_of = bounded buffer_size (default_text (local msg.time_ms) msg)

  default_line :
      (out : List ℕ) (r : ℕ × List ℕ × Bool)
      → print_line out buffer_size (default_text (local msg.time_ms) msg) ≡ some r
      → log_format_default local msg out buffer_size ≡ some r
  unfolding log_format_default
  default_line out r h = h

  write_line_lem :
      {W : Type 0} (sink : CprLogSink W) (line tail : List ℕ) (w : W)
      → 0 < length line
      → write_line sink msg (length line) (line ++ (0 ∷ tail)) w ≡ sink.write msg line w
  write_line_lem sink line tail w positive =
      let given : ltb 0 (length line) ≡ true = ground arith in
      rw given (ap (λ t. sink.write msg t w) (take-append line (0 ∷ tail)))

  formatted_lem :
      {W : Type 0} (sink : CprLogSink W) (sinks : List (CprLogSink W)) (out tail : List ℕ)
      (flag : Bool) (w last : W)
      → log_format_default local msg out buffer_size
        ≡ some (length line_of, line_of ++ (0 ∷ tail), flag)
      → write_line sink msg (length line_of) (line_of ++ (0 ∷ tail)) w ≡ sink.write msg line_of w
      → log_loop sinks
          (log_format_default local)
          msg
          (line_of ++ (0 ∷ tail))
          (sink.write msg line_of w)
        ≡ some last
      → (log_format_default local msg out buffer_size >>= λ r.
          log_loop sinks (log_format_default local) msg r.1 (write_line sink msg r.0 r.1 w))
        ≡ some last
  formatted_lem sink sinks out tail flag w last formatted wrote rest =
      ap
        (λ f. f >>= λ r.
          log_loop sinks (log_format_default local) msg r.1 (write_line sink msg r.0 r.1 w))
        formatted
      ∙ ap (log_loop sinks (log_format_default local) msg (line_of ++ (0 ∷ tail))) wrote
      ∙ rest

  -- On an array of 2048 bytes and for a message whose text with time and level has fewer than 2 ^
  -- 31 characters, when no sink has a format of its own and the default format is
  -- cpr_log_format_default, the loop of cpr_log_writev ends and each sink whose level the message
  -- reaches writes the same bounded line once, in the order in which the sinks were added, and
  -- the others nothing.
  pub log_loop_lem :
      {W : Type 0} (sinks : List (CprLogSink W)) (out : List ℕ) (w : W)
      → Plain sinks
      → length (default_text (local msg.time_ms) msg) < 2 ^ 31
      → length out ≡ buffer_size
      → log_loop sinks (log_format_default local) msg out w ≡ some (write_to sinks msg line_of w)
  unfolding log_loop
  log_loop_lem [] out w plain small size = refl
  log_loop_lem (sink ∷ sinks) out w plain small size =
      elim (Bool-cases (ltb msg.level sink.min_level)) [
        | inl below ↦ rw below (log_loop_lem sinks out w plain.1 small size)
        | inr reached ↦
            let text = default_text (local msg.time_ms) msg in
            let (tail, formatted, size', short) =
              print_line_lem out text buffer_size (omega arith) (omega (arith, size)) small in
            let positive =
              bounded_positive buffer_size text (omega arith)
                (default_text_positive (local msg.time_ms) msg) in
            let wrote = write_line_lem sink line_of tail w positive in
            rw (reached, plain.0)
              (formatted_lem sink sinks out tail _ w _ (default_line out _ formatted) wrote (
                log_loop_lem sinks (line_of ++ (0 ∷ tail)) (sink.write msg line_of w) plain.1 small
                  (size' ∙ size)))
      ]
