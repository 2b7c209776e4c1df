-- ===== src/Log/Line.antt =====
-- src/log.c: the names of the levels and the formatters, which print a line to a buffer and mark it
-- when it does not fit. A string is the list of its characters before the null.
pub mod Bounded
use libcopper.Base.{ℕ, zero, suc, ◌+◌, ◌-◌, ◌/◌, ◌%◌, ◌^◌, Bool, true, false, Option, none, some}
use libcopper.Base.{
  List, [], ◌∷◌, ◌++◌, length, take, drop, get_elem?, replicate, memcpy, ◌>>=◌, store, on_option,
}
use libcopper.Base.{ltb, leb, ◌==◌, if◌then◌else◌}
use libcopper.Fs.Os.{ℤ, pos, negsuc}
use libcopper.Fs.Path.{strrchr}

-- `CprLogLevel`, whose numbers are unsigned.
abbrev pub CprLogLevel : Type 0
CprLogLevel = ℕ

abbrev pub log_trace : CprLogLevel
log_trace = 0

abbrev pub log_off : CprLogLevel
log_off = 6

-- `S_UPPER` and `S_LOWER`
abbrev pub upper_names : List (List ℕ)
upper_names =
    (b'T' ∷ b'R' ∷ b'A' ∷ b'C' ∷ b'E' ∷ [])
    ∷ (b'D' ∷ b'E' ∷ b'B' ∷ b'U' ∷ b'G' ∷ [])
    ∷ (b'I' ∷ b'N' ∷ b'F' ∷ b'O' ∷ [])
    ∷ (b'W' ∷ b'A' ∷ b'R' ∷ b'N' ∷ [])
    ∷ (b'E' ∷ b'R' ∷ b'R' ∷ b'O' ∷ b'R' ∷ [])
    ∷ (b'F' ∷ b'A' ∷ b'T' ∷ b'A' ∷ b'L' ∷ [])
    ∷ (b'O' ∷ b'F' ∷ b'F' ∷ [])
    ∷ []

abbrev pub lower_names : List (List ℕ)
lower_names =
    (b't' ∷ b'r' ∷ b'a' ∷ b'c' ∷ b'e' ∷ [])
    ∷ (b'd' ∷ b'e' ∷ b'b' ∷ b'u' ∷ b'g' ∷ [])
    ∷ (b'i' ∷ b'n' ∷ b'f' ∷ b'o' ∷ [])
    ∷ (b'w' ∷ b'a' ∷ b'r' ∷ b'n' ∷ [])
    ∷ (b'e' ∷ b'r' ∷ b'r' ∷ b'o' ∷ b'r' ∷ [])
    ∷ (b'f' ∷ b'a' ∷ b't' ∷ b'a' ∷ b'l' ∷ [])
    ∷ (b'o' ∷ b'f' ∷ b'f' ∷ [])
    ∷ []

abbrev pub unknown : List ℕ
unknown = b'U' ∷ b'N' ∷ b'K' ∷ b'N' ∷ b'O' ∷ b'W' ∷ b'N' ∷ []

-- `cpr_log_level_str` and `cpr_log_level_strlc`
abbrev pub log_level_str : CprLogLevel → List ℕ
log_level_str level =
    if ltb log_off level
    then unknown
    else on_option (get_elem? upper_names level) unknown (λ name. name)

abbrev pub log_level_strlc : CprLogLevel → List ℕ
log_level_strlc level =
    if ltb log_off level
    then unknown
    else on_option (get_elem? lower_names level) unknown (λ name. name)

-- `CPR_LOG_MSG_MARKER` and `CPR_LOG_OUT_MARKER`
abbrev pub msg_marker : List ℕ
msg_marker =
    b'.' ∷ b'.' ∷ b'.' ∷ b'[' ∷ b't' ∷ b'r' ∷ b'u' ∷ b'n' ∷ b'c' ∷ b'a' ∷ b't' ∷ b'e' ∷ b'd' ∷ b']'
    ∷ []

abbrev pub out_marker : List ℕ
out_marker = b'.' ∷ b'.' ∷ b'.' ∷ b'[' ∷ b'T' ∷ b']' ∷ 10 ∷ []

-- `cpr__write_marker`
pub write_marker : List ℕ → ℕ → List ℕ → Option (List ℕ)
write_marker buf n marker = if n == 0 then some buf else (do
  marked ←
      (if leb (length marker + 1) n
        then memcpy buf (n - 1 - length marker) marker 0 (length marker)
        else some buf)
  store marked (n - 1) 0)

-- `snprintf` and `vsnprintf` on the text that the format and its arguments make: what they leave in
-- the buffer, and what they return.
abbrev pub snprintf : List ℕ → ℕ → List ℕ → Option (List ℕ)
snprintf buf n text = if n == 0 then some buf else (do
  copied ← memcpy buf 0 (take (n - 1) text) 0 (length (take (n - 1) text))
  store copied (length (take (n - 1) text)) 0)

abbrev pub printed : List ℕ → ℤ
printed text = if ltb (length text) (2 ^ 31) then pos (length text) else negsuc 0

-- `cpr__format_finish`: what it returns, the buffer, and `*out_truncated`.
pub format_finish : List ℕ → ℕ → ℤ → Option (ℕ × List ℕ × Bool)
unfolding write_marker
format_finish buf n (negsuc k) =
    (if ltb 0 n then store buf 0 0 else some buf) >>= λ buf. some (0, buf, false)
format_finish buf n (pos written) =
    if leb n written
    then (write_marker buf n out_marker >>= λ buf. some (n - 1, buf, true))
    else some (written, buf, false)

-- The last two steps of each formatter
pub print_line : List ℕ → ℕ → List ℕ → Option (ℕ × List ℕ × Bool)
unfolding format_finish
print_line buf n text = snprintf buf n text >>= λ buf. format_finish buf n (printed text)

-- `%d` of a number that is not negative, `%02d` and `%03d`, and `%-5s`.
abbrev pub digits : ℕ → ℕ → List ℕ → List ℕ
digits zero n acc = acc
digits (suc fuel) n acc =
    if ltb n 10 then (48 + n) ∷ acc else digits fuel (n / 10) ((48 + n % 10) ∷ acc)

abbrev pub decimal : ℕ → List ℕ
decimal n = digits 10 n []

abbrev pub zero_padded : ℕ → ℕ → List ℕ
zero_padded width n = replicate (width - length (decimal n)) b'0' ++ decimal n

abbrev pub left_aligned : ℕ → List ℕ → List ℕ
left_aligned width text = text ++ replicate (width - length text) b' '

-- `CprDateTime`, as far as the log prints it.
pub record CprDateTime : Type 0 where
  pub hour : ℕ
  pub minute : ℕ
  pub second : ℕ
  pub ms : ℕ

pub record CprLogMessage : Type 0 where
  pub level : CprLogLevel
  pub message : List ℕ
  pub truncated : Bool
  pub file : List ℕ
  pub line : ℕ
  pub func : List ℕ
  pub time_ms : ℕ

-- `cpr__basename`; of two pointers into one string the one with less behind it is the greater one.
abbrev pub log_basename : List ℕ → List ℕ
log_basename path =
    let slash = strrchr b'/' path in
    let backslash = strrchr b'\\' path in
    let sep =
      on_option backslash slash (λ b.
        on_option slash (some b) (λ s. if ltb (length b) (length s) then some b else some s)) in
    on_option sep path (λ s. drop 1 s)

-- "[%02d:%02d:%02d.%03d] [%-5s] ", and the same without the time.
abbrev pub level_text : CprLogLevel → List ℕ
level_text level = b'[' ∷ (left_aligned 5 (log_level_str level) ++ (b']' ∷ b' ' ∷ []))

abbrev pub time_text : CprDateTime → List ℕ
time_text dt =
    b'['
    ∷ (zero_padded 2 dt.hour
        ++ (b':'
            ∷ (zero_padded 2 dt.minute
                ++ (b':'
                    ∷ (zero_padded 2 dt.second
                        ++ (b'.' ∷ (zero_padded 3 dt.ms ++ (b']' ∷ b' ' ∷ []))))))))

abbrev pub default_text : CprDateTime → CprLogMessage → List ℕ
default_text dt msg = time_text dt ++ (level_text msg.level ++ (msg.message ++ (10 ∷ [])))

abbrev pub full_text : CprDateTime → CprLogMessage → List ℕ
full_text dt msg =
    time_text dt
    ++ (level_text msg.level
        ++ (log_basename msg.file
            ++ (b':'
                ∷ (decimal msg.line
                    ++ (b' ' ∷ (msg.func ++ (b'(' ∷ b')' ∷ b' ' ∷ (msg.message ++ (10 ∷ [])))))))))

abbrev pub minimal_text : CprLogMessage → List ℕ
minimal_text msg = level_text msg.level ++ (msg.message ++ (10 ∷ []))

-- `cpr_log_format_default`, `cpr_log_format_full` and `cpr_log_format_minimal`; `local` is
-- `cpr_time_local`.
unfoldable pub log_format_default :
    (ℕ → CprDateTime) → CprLogMessage → List ℕ → ℕ → Option (ℕ × List ℕ × Bool)
unfolding print_line
log_format_default local msg buf buf_size =
    print_line buf buf_size (default_text (local msg.time_ms) msg)

unfoldable pub log_format_full :
    (ℕ → CprDateTime) → CprLogMessage → List ℕ → ℕ → Option (ℕ × List ℕ × Bool)
unfolding print_line
log_format_full local msg buf buf_size = print_line buf buf_size (full_text (local msg.time_ms) msg)

unfoldable pub log_format_minimal : CprLogMessage → List ℕ → ℕ → Option (ℕ × List ℕ × Bool)
unfolding print_line
log_format_minimal msg buf buf_size = print_line buf buf_size (minimal_text msg)
