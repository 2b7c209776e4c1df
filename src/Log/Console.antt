-- ===== src/Log/Console.antt =====
-- src/log.c: the sinks for the console and for a callback. The streams are those of Fs.
use libcopper.Base.{
  ℕ, zero, suc, ◌+◌, ◌/◌, ◌%◌, ◌<◌, ◌≡◌, refl, ap, ◌∙◌, arith, ◌⊎◌, inl, inr, Bool, true, false,
  ◌&&◌, Bool-cases, Option, none, some, ltb,
}
use libcopper.Base.{List, [], ◌∷◌, ◌++◌, append_assoc, get_elem?, on_option, leb, if◌then◌else◌}
use libcopper.Fs.Os.{sink_block, Os}
use libcopper.Log.Line.{CprLogLevel, CprLogMessage}

-- `CPR_ANSI_COLOR_RESET` and `cpr__ansi_color`
abbrev pub ansi_color_reset : List ℕ
ansi_color_reset = 27 ∷ b'[' ∷ b'0' ∷ b'm' ∷ []

abbrev pub color_codes : List (List ℕ)
color_codes =
    (27 ∷ b'[' ∷ b'2' ∷ b'm' ∷ [])
    ∷ (27 ∷ b'[' ∷ b'3' ∷ b'6' ∷ b'm' ∷ [])
    ∷ (27 ∷ b'[' ∷ b'3' ∷ b'2' ∷ b'm' ∷ [])
    ∷ (27 ∷ b'[' ∷ b'3' ∷ b'3' ∷ b'm' ∷ [])
    ∷ (27 ∷ b'[' ∷ b'3' ∷ b'1' ∷ b'm' ∷ [])
    ∷ (27 ∷ b'[' ∷ b'3' ∷ b'5' ∷ b'm' ∷ [])
    ∷ []

abbrev pub ansi_color : CprLogLevel → List ℕ
ansi_color level = on_option (get_elem? color_codes level) [] (λ code. code)

-- `CPR_LOG_WARN`
abbrev pub log_warn : CprLogLevel
log_warn = 3

-- `CprConsoleSink` without its base, and its configuration.
pub record CprConsoleSink : Type 0 where
  pub stream : ℕ
  pub use_color : Bool
  pub is_tty : Bool

pub record CprConsoleSinkConfig : Type 0 where
  pub use_color : Bool
  pub use_stderr : Bool

-- The fields that `cpr_log_console_sink` sets; `is_tty` is `cpr__is_tty`.
abbrev pub console_of : ℕ → ℕ → (ℕ → Bool) → Option CprConsoleSinkConfig → CprConsoleSink
console_of stdout stderr is_tty none = record {
  stream = stdout;
  use_color = false;
  is_tty = is_tty stdout;
}
console_of stdout stderr is_tty (some config) =
    let stream = if config.use_stderr then stderr else stdout in
    record { stream = stream; use_color = config.use_color; is_tty = is_tty stream }

module _ {W : Type 0} (os : Os W) where
  -- `cpr_log_console_sink`
  abbrev pub console_in : CprConsoleSink → Bool × W → Option CprConsoleSink × W
  console_in cs (true, w) = (some cs, w)
  console_in cs (false, w) = (none, w)

  unfoldable pub log_console_sink :
      ℕ → ℕ → (ℕ → Bool) → Option CprConsoleSinkConfig → W → Option CprConsoleSink × W
  log_console_sink stdout stderr is_tty config w =
      console_in (console_of stdout stderr is_tty config) (os.malloc w)

  -- `fputs` and `fwrite`, whose results are not looked at.
  abbrev pub put_text : ℕ → List ℕ → W → W
  put_text fp text w = (os.fwrite fp text w).1

  -- `cpr__console_write`
  pub console_write : CprConsoleSink → CprLogMessage → List ℕ → W → W
  console_write cs msg line w =
      let written =
        if cs.use_color && cs.is_tty
        then put_text cs.stream ansi_color_reset
            (put_text cs.stream line (put_text cs.stream (ansi_color msg.level) w))
        else put_text cs.stream line w in
      if leb log_warn msg.level then (os.fflush cs.stream written).1 else written

  -- `cpr__console_flush` and `cpr__console_destroy`
  abbrev pub console_flush : CprConsoleSink → W → W
  console_flush cs w = (os.fflush cs.stream w).1

  abbrev pub console_destroy : CprConsoleSink → W → W
  console_destroy cs w = os.free sink_block w

-- What the calls on streams that work do: `output` is what has been written to a stream, and
-- `delivered` what of it has left the buffer of the stream.
pub record Printing {W : Type 0} (os : Os W) (output delivered : W → ℕ → List ℕ) : Type 0 where
  pub fwrite_appends :
      (fp : ℕ) (text : List ℕ) (w : W) → output (os.fwrite fp text w).1 fp ≡ output w fp ++ text
  pub fflush_output : (fp : ℕ) (w : W) → output (os.fflush fp w).1 fp ≡ output w fp
  pub fflush_delivers : (fp : ℕ) (w : W) → delivered (os.fflush fp w).1 fp ≡ output w fp

-- The escape sequence of a terminal that selects an attribute: 2 is faint, 30 plus a color is that
-- color, and 0 is none.
abbrev pub escape : ℕ → List ℕ
escape n =
    27 ∷ b'[' ∷ (if ltb n 10 then (b'0' + n) ∷ [] else (b'0' + n / 10) ∷ (b'0' + n % 10) ∷ [])
    ++ (b'm' ∷ [])

abbrev red : ℕ
red = 1

abbrev green : ℕ
green = 2

abbrev yellow : ℕ
yellow = 3

abbrev magenta : ℕ
magenta = 5

abbrev cyan : ℕ
cyan = 6

-- Traces are faint, debug messages cyan, information green, warnings yellow, errors red and fatal
-- errors magenta.
abbrev pub marked : CprLogLevel → List ℕ
marked zero = escape 2
marked (suc zero) = escape (30 + cyan)
marked (suc (suc zero)) = escape (30 + green)
marked (suc (suc (suc zero))) = escape (30 + yellow)
marked (suc (suc (suc (suc zero)))) = escape (30 + red)
marked (suc (suc (suc (suc (suc zero))))) = escape (30 + magenta)
marked (suc (suc (suc (suc (suc (suc level)))))) = []

-- The line as it shows
abbrev pub colored : Bool → CprLogLevel → List ℕ → List ℕ
colored true level line = marked level ++ (line ++ escape 0)
colored false level line = line

ansi_color_lem : (level : CprLogLevel) → ansi_color level ≡ marked level
ansi_color_lem zero = refl
ansi_color_lem (suc zero) = refl
ansi_color_lem (suc (suc zero)) = refl
ansi_color_lem (suc (suc (suc zero))) = refl
ansi_color_lem (suc (suc (suc (suc zero)))) = refl
ansi_color_lem (suc (suc (suc (suc (suc zero))))) = refl
ansi_color_lem (suc (suc (suc (suc (suc (suc level)))))) = refl

module _ {W : Type 0} (os : Os W) (output delivered : W → ℕ → List ℕ)
    (printing : Printing os output delivered) where
  put_text_lem :
      (fp : ℕ) (text : List ℕ) (w : W) → output (put_text os fp text w) fp ≡ output w fp ++ text
  put_text_lem fp text w = printing.fwrite_appends fp text w

  three_texts :
      (fp : ℕ) (a b c : List ℕ) (w : W)
      → output (put_text os fp c (put_text os fp b (put_text os fp a w))) fp
        ≡ output w fp ++ (a ++ (b ++ c))
  three_texts fp a b c w =
      put_text_lem fp c (put_text os fp b (put_text os fp a w))
      ∙ ap (λ t. t ++ c)
          (put_text_lem fp b (put_text os fp a w) ∙ ap (λ t. t ++ b) (put_text_lem fp a w))
      ∙ append_assoc (output w fp ++ a) b c
      ∙ append_assoc (output w fp) a (b ++ c)

  -- What is written before the flush.
  written_lem :
      (fp : ℕ) (color : Bool) (level : CprLogLevel) (line : List ℕ) (w : W)
      → output
          (if color
            then put_text os fp ansi_color_reset
                (put_text os fp line (put_text os fp (ansi_color level) w))
            else put_text os fp line w)
          fp
        ≡ output w fp ++ colored color level line
  written_lem fp true level line w =
      three_texts fp (ansi_color level) line ansi_color_reset w
      ∙ ap (λ t. output w fp ++ (t ++ (line ++ ansi_color_reset))) (ansi_color_lem level)
  written_lem fp false level line w = put_text_lem fp line w

  flushed_lem :
      (fp level : ℕ) (w : W)
      → let w' = if leb log_warn level then (os.fflush fp w).1 else w in
        (output w' fp ≡ output w fp) × ((level < 3) ⊎ (delivered w' fp ≡ output w fp))
  flushed_lem fp level w = elim (Bool-cases (leb log_warn level)) [
    | inl due ↦ rw due (printing.fflush_output fp w, inr (printing.fflush_delivers fp w))
    | inr low ↦ rw low (refl, inl (ground arith))
  ]

  -- On streams of which a write appends all its bytes and a flush delivers all that has been
  -- written and changes nothing of it, cpr__console_write appends the line to the stream of the
  -- sink, alone or, if the sink uses color and the stream is a terminal, between the escape
  -- sequence of its level, which is faint for traces, cyan for debug messages, green for
  -- information, yellow for warnings, red for errors, magenta for fatal errors and nothing for
  -- other levels, and the one that resets; and all of this is delivered when the level is that of
  -- warnings or above.
  pub console_write_lem :
      (cs : CprConsoleSink) (msg : CprLogMessage) (line : List ℕ) (w : W)
      → let text = output w cs.stream ++ colored (cs.use_color && cs.is_tty) msg.level line in
        (output (console_write os cs msg line w) cs.stream ≡ text)
        × ((msg.level < 3) ⊎ (delivered (console_write os cs msg line w) cs.stream ≡ text))
  unfolding console_write
  console_write_lem cs msg line w =
      let written = written_lem cs.stream (cs.use_color && cs.is_tty) msg.level line w in
      let (kept, gone) = flushed_lem cs.stream msg.level _ in
      (kept ∙ written, elim gone [ inl low ↦ inl low | inr sent ↦ inr (sent ∙ written) ])

-- `cpr_log_callback_sink` and `cpr__callback_write`: the callback with its user data is a function.
module _ {W : Type 0} (os : Os W) where
  abbrev callback_in :
      (CprLogMessage → List ℕ → W → W) → Bool × W → Option (CprLogMessage → List ℕ → W → W) × W
  callback_in callback (true, w) = (some callback, w)
  callback_in callback (false, w) = (none, w)

  unfoldable pub log_callback_sink :
      Option (Option (CprLogMessage → List ℕ → W → W))
      → W
      → Option (CprLogMessage → List ℕ → W → W) × W
  log_callback_sink none w = (none, w)
  log_callback_sink (some none) w = (none, w)
  log_callback_sink (some (some callback)) w = callback_in callback (os.malloc w)
