-- ===== src/Log/Logger.antt =====
-- src/log.c: sinks and loggers. The functions of a sink, of the mutex and of the clock are parameters
-- that change the state `W` of the program.
pub mod Sinks
pub mod Writes
use libcopper.Base.{ℕ, zero, suc, ◌+◌, Bool, true, false, ◌||◌, Option, none, some}
use libcopper.Base.{
  List, [], ◌∷◌, ◌++◌, length, take, ◌>>=◌, on_option, ltb, leb, ◌==◌, if◌then◌else◌,
}
use libcopper.Error.{CprError, set_error, err_invalid, err_exhausted}
use libcopper.Fs.Os.{ℤ, pos, negsuc}
use libcopper.Fs.Dir.{c_string}
use libcopper.Log.Line.{
  CprLogLevel, log_trace, log_off, CprLogMessage, CprDateTime, msg_marker, write_marker, snprintf,
  printed, log_format_default,
}

-- `CPR_LOG_MAX_SINKS`, `CPR_LOG_BUFFER_SIZE` and `CPR_LOG_MSG_SIZE`
abbrev pub max_sinks : ℕ
max_sinks = 8

abbrev pub buffer_size : ℕ
buffer_size = 2048

abbrev pub msg_size : ℕ
msg_size = 1920

-- `CprLogFormatFn`: the length of the line, the buffer and the flag. A negative length is taken as 0,
-- since both mean that nothing is written.
abbrev pub CprLogFormatFn : Type 0
CprLogFormatFn = CprLogMessage → List ℕ → ℕ → Option (ℕ × List ℕ × Bool)

-- A sink; `address` is the pointer to it.
pub record CprLogSink (W : Type 0) : Type 0 where
  pub address : ℕ
  pub min_level : CprLogLevel
  pub format : Option CprLogFormatFn
  pub write : CprLogMessage → List ℕ → W → W
  pub flush : Option (W → W)
  pub destroy : Option (W → W)

-- A logger; the entries of `sinks` behind `sink_count` are null.
pub record CprLogger (W : Type 0) : Type 0 where
  pub min_level : CprLogLevel
  pub thread_safe : Bool
  pub default_format : CprLogFormatFn
  pub sinks : List (CprLogSink W)

pub record CprLoggerConfig : Type 0 where
  pub min_level : CprLogLevel
  pub thread_safe : Bool
  pub default_format : Option CprLogFormatFn

-- What a logger calls.
pub record Host (W : Type 0) : Type 0 where
  pub malloc : W → Bool × W
  pub free : W → W
  pub mutex_init : W → Bool × W
  pub mutex_destroy : W → W
  pub mutex_lock : W → W
  pub mutex_unlock : W → W
  pub time_now : W → ℕ × W
  pub time_local : ℕ → CprDateTime

-- `logger->sinks[i] != sink` until one is found, and the move of those behind it.
abbrev pub without : {W : Type 0} → ℕ → List (CprLogSink W) → List (CprLogSink W)
without at [] = []
without at (sink ∷ sinks) = if sink.address == at then sinks else sink ∷ without at sinks

-- `cpr_log_add_sink`
pub log_add_sink :
    {W : Type 0}
    → Option (CprLogger W)
    → Option (CprLogSink W)
    → CprError
    → Bool × Option (CprLogger W) × CprError
log_add_sink none sink e = (false, none, set_error err_invalid "logger is NULL" e)
log_add_sink (some logger) none e = (false, some logger, set_error err_invalid "sink is NULL" e)
log_add_sink (some logger) (some sink) e =
    if leb max_sinks (length logger.sinks)
    then (false, some logger, set_error err_exhausted "sink limit reached" e)
    else (true, some (record logger { sinks = logger.sinks ++ (sink ∷ []) }), e)

-- `cpr_log_remove_sink`; of the sink only its address matters.
pub log_remove_sink : {W : Type 0} → Option (CprLogger W) → Option ℕ → Option (CprLogger W)
log_remove_sink none sink = none
log_remove_sink (some logger) none = some logger
log_remove_sink (some logger) (some at) = some (record logger { sinks = without at logger.sinks })

-- `cpr_log_set_level` and `cpr_log_get_level`
abbrev pub log_set_level : {W : Type 0} → Option (CprLogger W) → CprLogLevel → Option (CprLogger W)
log_set_level none level = none
log_set_level (some logger) level = some (record logger { min_level = level })

abbrev pub log_get_level : {W : Type 0} → Option (CprLogger W) → CprLogLevel
log_get_level none = log_off
log_get_level (some logger) = logger.min_level

-- `cpr_log_sink_destroy`
abbrev pub log_sink_destroy : {W : Type 0} → Option (CprLogSink W) → W → W
log_sink_destroy none w = w
log_sink_destroy (some sink) w = on_option sink.destroy w (λ f. f w)

-- The loop of `cpr_log_flush`
abbrev pub flush_loop : {W : Type 0} → List (CprLogSink W) → W → W
flush_loop [] w = w
flush_loop (sink ∷ sinks) w = flush_loop sinks (on_option sink.flush w (λ f. f w))

-- `if (len > 0) sink->write(sink, &log_msg, out, len)`
abbrev pub write_line : {W : Type 0} → CprLogSink W → CprLogMessage → ℕ → List ℕ → W → W
write_line sink msg len out w = if ltb 0 len then sink.write msg (take len out) w else w

-- The loop of `cpr_log_writev`; `out` is what is in the array of that name.
pub log_loop :
    {W : Type 0} → List (CprLogSink W) → CprLogFormatFn → CprLogMessage → List ℕ → W → Option W
log_loop [] default_format msg out w = some w
log_loop (sink ∷ sinks) default_format msg out w =
    if ltb msg.level sink.min_level
    then log_loop sinks default_format msg out w
    else (on_option sink.format default_format (λ f. f) msg out buffer_size >>= λ r.
        log_loop sinks default_format msg r.1 (write_line sink msg r.0 r.1 w))

-- `(size_t)needed >= sizeof(msg)`
abbrev pub is_truncated : ℤ → Bool
is_truncated (pos n) = leb msg_size n
is_truncated (negsuc n) = true

module _ {W : Type 0} (host : Host W) where
  -- What is done under the mutex of a logger.
  abbrev pub locked : CprLogger W → W → W
  locked logger w = if logger.thread_safe then host.mutex_lock w else w

  abbrev pub unlocked : CprLogger W → W → W
  unlocked logger w = if logger.thread_safe then host.mutex_unlock w else w

  -- `cpr_log_create`
  abbrev pub configured : Option CprLoggerConfig → CprLogger W
  configured none = record {
    min_level = log_trace;
    thread_safe = true;
    default_format = log_format_default host.time_local;
    sinks = [];
  }
  configured (some config) = record {
    min_level = config.min_level;
    thread_safe = config.thread_safe;
    default_format = on_option config.default_format (log_format_default host.time_local) (λ f. f);
    sinks = [];
  }

  abbrev pub with_mutex : CprLogger W → Bool × W → Option (CprLogger W) × W
  with_mutex logger (true, w) = (some logger, w)
  with_mutex logger (false, w) = (none, host.free w)

  abbrev pub create_in : CprLogger W → Bool × W → Option (CprLogger W) × W
  create_in logger (false, w) = (none, w)
  create_in logger (true, w) =
      if logger.thread_safe then with_mutex logger (host.mutex_init w) else (some logger, w)

  unfoldable pub log_create : Option CprLoggerConfig → W → Option (CprLogger W) × W
  log_create config w = create_in (configured config) (host.malloc w)

  -- `cpr_log_flush`
  unfoldable pub log_flush : Option (CprLogger W) → W → W
  log_flush none w = w
  log_flush (some logger) w = unlocked logger (flush_loop logger.sinks (locked logger w))

  -- `cpr_log_destroy`
  unfoldable pub log_destroy : Option (CprLogger W) → W → W
  unfolding log_flush
  log_destroy none w = w
  log_destroy (some logger) w =
      let flushed = log_flush (some logger) w in
      host.free (if logger.thread_safe then host.mutex_destroy flushed else flushed)

  -- The message that the array `msg` shows, at the time `now`.
  abbrev pub message_at : CprLogLevel → List ℕ → ℕ → List ℕ → Bool → List ℕ → ℕ → CprLogMessage
  message_at level file line func truncated shown now = record {
    level = level;
    message = c_string shown;
    truncated = truncated;
    file = file;
    line = line;
    func = func;
    time_ms = now;
  }

  -- `cpr_log_writev` behind the call of `vsnprintf`, and the whole function. `text` is what the format
  -- and its arguments make, and `msg_buf` and `out` are what is in the arrays.
  abbrev pub write_message : CprLogger W → CprLogMessage → List ℕ → W → Option W
  write_message logger msg out w =
      log_loop logger.sinks logger.default_format msg out (locked logger w) >>= λ w.
      some (unlocked logger w)

  unfoldable pub log_writev :
      Option (CprLogger W)
      → CprLogLevel
      → List ℕ
      → ℕ
      → List ℕ
      → List ℕ
      → List ℕ
      → List ℕ
      → W
      → Option W
  unfolding log_loop
  log_writev none level file line func text msg_buf out w = some w
  log_writev (some logger) level file line func text msg_buf out w =
      if ltb level logger.min_level || leb log_off level then some w else (do
        printed_buf ← snprintf msg_buf msg_size text
        shown ←
            (if is_truncated (printed text)
              then write_marker printed_buf msg_size msg_marker
              else some printed_buf)
        let timed = host.time_now w
        write_message logger
            (message_at level file line func (is_truncated (printed text)) shown timed.0) out
            timed.1)
