-- ===== src/Log/Tests.antt =====
-- Tests of the definitions for src/log.c, and its theorems at concrete inputs.
mod Filing
use libcopper.Base.{
  Option, ℕ, ◌⊎◌, ◌+◌, ◌<◌, ◌≡◌, refl, arith, true, false, none, some, List, [], ◌∷◌, ◌++◌, length,
  replicate, length-replicate, memcpy,
}
use libcopper.Error.{no_error}
use libcopper.Log.Line.{
  log_level_str, log_level_strlc, log_basename, out_marker, print_line, CprDateTime, CprLogMessage,
  log_format_default, log_format_full, log_format_minimal,
}
use libcopper.Log.Line.Bounded.{bounded, print_line_lem}
use libcopper.Log.Logger.{
  CprLogSink, CprLogger, log_loop, log_add_sink, log_remove_sink, Host, log_create, log_flush,
  log_destroy, log_writev,
}
use libcopper.Log.Logger.Sinks.{Limited, remove-add, sinks-Limited}
use libcopper.Fs.Os.{Os, Block, file_block, text_block, sink_block, State, ◌>>=◌}
use libcopper.Fs.File.{open_file, write_file, close_file}
use libcopper.Fs.Disk.{remove_file, fs_rename}
use libcopper.Fs.Tests.Systems.{empty_os, counting, counting-Counted}
use libcopper.Log.Console.{
  CprConsoleSink, Printing, colored, console_write, log_console_sink, log_callback_sink,
  console_write_lem,
}
use libcopper.Log.FileSink.Life.{
  CprFileSinkConfig, log_file_append, log_file_sink, file_sink_destroy, held_by, file_sink_balanced,
}
use libcopper.Log.FileSink.{CprFileSink, roll_size, file_rotate, file_sink_write, numbered}
use libcopper.Log.FileSink.Archive.{file_rotate_lem}
use libcopper.Log.Tests.Filing.{filing, filing-Files, log_path, log_path-Apart, log_path-other}
use libcopper.Log.Logger.Writes.{write_to, line_of, log_loop_lem}

level_names_test :
    (log_level_str 3 ≡ b'W' ∷ b'A' ∷ b'R' ∷ b'N' ∷ [])
    × (log_level_strlc 6 ≡ b'o' ∷ b'f' ∷ b'f' ∷ [])
level_names_test = (refl, refl)

-- "a/b\c"
log_basename_test : log_basename (b'a' ∷ b'/' ∷ b'b' ∷ b'\\' ∷ b'c' ∷ []) ≡ b'c' ∷ []
log_basename_test = refl

abbrev noon : ℕ → CprDateTime
noon ms = record { hour = 12; minute = 0; second = 5; ms = 42 }

abbrev hello : CprLogMessage
hello = record {
  level = 2;
  message = b'h' ∷ b'i' ∷ [];
  truncated = false;
  file = b'f' ∷ [];
  line = 7;
  func = b'g' ∷ [];
  time_ms = 0;
}

-- "[12:00:05.042] [INFO ] hi\n" in a buffer of 12 bytes
short_buffer_test :
    log_format_default noon hello (replicate 12 0) 12
    ≡ some (11, b'[' ∷ b'1' ∷ b'2' ∷ b':' ∷ out_marker ++ (0 ∷ []), true)
unfolding log_format_default memcpy
short_buffer_test = refl

minimal_test :
    log_format_minimal hello (replicate 12 0) 12
    ≡ some (
      11,
      b'[' ∷ b'I' ∷ b'N' ∷ b'F' ∷ b'O' ∷ b' ' ∷ b']' ∷ b' ' ∷ b'h' ∷ b'i' ∷ 10 ∷ 0 ∷ [],
      false,
    )
unfolding log_format_minimal memcpy
minimal_test = refl

full_test : log_format_full noon hello [] 0 ≡ some (0, [], true)
unfolding log_format_full memcpy
full_test = refl

print_line_lem_example :
    (tail : List ℕ) × (print_line (replicate 10 0) 9 (replicate 20 b'x')
      ≡ some (
        length (bounded 9 (replicate 20 b'x')),
        bounded 9 (replicate 20 b'x') ++ (0 ∷ tail),
        true,
      ))
    × (length (bounded 9 (replicate 20 b'x') ++ (0 ∷ tail)) ≡ 10)
    × (length (bounded 9 (replicate 20 b'x')) < 9)
print_line_lem_example =
    print_line_lem (replicate 10 0) (replicate 20 b'x') 9 (omega arith) (omega arith) (omega arith)

-- A sink that counts the bytes that it is given.
abbrev counter : ℕ → CprLogSink ℕ
counter at = record {
  address = at;
  min_level = 1;
  format = none;
  write = λ msg line w. w + length line;
  flush = none;
  destroy = none;
}

abbrev logger : CprLogger ℕ
logger = record {
  min_level = 0;
  thread_safe = true;
  default_format = log_format_default noon;
  sinks = counter 1 ∷ [];
}

remove-add_example :
    (log_add_sink (some logger) (some (counter 2)) no_error
      ≡ (true, some (record logger { sinks = counter 1 ∷ counter 2 ∷ [] }), no_error))
    × (log_remove_sink (log_add_sink (some logger) (some (counter 2)) no_error).1 (some 2)
        ≡ some logger)
remove-add_example = remove-add logger (counter 2) no_error (omega arith) (refl, tt)

sinks-Limited_example :
    Limited (log_add_sink (some logger) (some (counter 2)) no_error).1
    × Limited (log_remove_sink (some logger) (some 1))
sinks-Limited_example =
    sinks-Limited (some logger) (some (counter 2)) (some 1) no_error (omega arith)

log_loop_lem_example :
    log_loop (counter 1 ∷ []) (log_format_default noon) hello (replicate 2048 0) 0
    ≡ some (write_to (counter 1 ∷ []) hello (line_of noon hello) 0)
log_loop_lem_example =
    log_loop_lem noon hello (counter 1 ∷ []) (replicate 2048 0) 0 (refl, tt) (omega arith)
      (length-replicate {A = ℕ} 2048 0)

-- A host on which everything works, and that counts the calls.
abbrev host : Host ℕ
host = record {
  malloc = λ w. (true, w + 1);
  free = λ w. w + 1;
  mutex_init = λ w. (true, w + 1);
  mutex_destroy = λ w. w + 1;
  mutex_lock = λ w. w + 1;
  mutex_unlock = λ w. w + 1;
  time_now = λ w. (0, w + 1);
  time_local = noon;
}

life_test :
    ((log_create host none 0).1 ≡ 2)
    × (log_flush host (some logger) 0 ≡ 2)
    × (log_destroy host (some logger) 0 ≡ 4)
unfolding log_create log_flush log_destroy
life_test = (refl, refl, refl)

off_test : log_writev host (some logger) 6 [] 0 [] [] [] [] 9 ≡ some 9
unfolding log_writev
off_test = refl

-- Two archives are kept, and 100 bytes in the file.
abbrev two_files : CprFileSink
two_files = record {
  path = log_path;
  roll_mode = roll_size;
  max_bytes = 100;
  max_files = 2;
  file = some 0;
  current_size = 100;
  current_day = 0;
  current_hour = 0;
}

-- Every file holds its own name.
abbrev names_inside : State (List ℕ → Option (List ℕ))
names_inside = record { world = λ q. some q; error = no_error }

file_rotate_lem_example :
    ((file_rotate filing two_files names_inside).1.world (numbered log_path 2)
      ≡ some (numbered log_path 1))
    × ((file_rotate filing two_files names_inside).1.world (numbered log_path 1) ≡ some log_path)
file_rotate_lem_example =
    file_rotate_lem filing (λ w q. w q) filing-Files two_files 1 names_inside (omega arith)
      log_path-Apart log_path-other (omega arith) (omega arith)

abbrev terminal : CprConsoleSink
terminal = record { stream = 1; use_color = true; is_tty = true }

-- One stream: what has been written to it, and what of it has been delivered.
abbrev buffered : Os (List ℕ × List ℕ)
buffered = record (empty_os (List ℕ × List ℕ)) {
  fwrite = λ fp text w. (length text, (w.0 ++ text, w.1));
  fflush = λ fp w. (true, (w.0, w.0));
}

buffered-Printing : Printing buffered (λ w fp. w.0) (λ w fp. w.1)
buffered-Printing = record {
  fwrite_appends = λ fp text w. refl;
  fflush_output = λ fp w. refl;
  fflush_delivers = λ fp w. refl;
}

abbrev alarm : CprLogMessage
alarm = record hello { level = 4 }

console_write_lem_example :
    ((console_write buffered terminal alarm (b'x' ∷ []) (b'o' ∷ [], [])).0
      ≡ (b'o' ∷ []) ++ colored true 4 (b'x' ∷ []))
    × ((4 < 3)
        ⊎ ((console_write buffered terminal alarm (b'x' ∷ []) (b'o' ∷ [], [])).1
            ≡ (b'o' ∷ []) ++ colored true 4 (b'x' ∷ [])))
console_write_lem_example =
    console_write_lem buffered (λ w fp. w.0) (λ w fp. w.1) buffered-Printing terminal alarm
      (b'x' ∷ []) (b'o' ∷ [], [])

abbrev log_config : CprFileSinkConfig
log_config = record {
  path = some log_path;
  open_mode = log_file_append;
  roll_mode = roll_size;
  max_bytes = 100;
  max_files = 2;
}

abbrev in_use : State ℕ
in_use = record { world = 7; error = no_error }

file_sink_balanced_example :
    ((log_file_sink counting (some log_config) (record { yday = 0; hour = 0 }) in_use).1.world
      ≡ 7
        + held_by
            (log_file_sink counting (some log_config) (record { yday = 0; hour = 0 }) in_use).0)
    × ((file_sink_destroy counting two_files in_use).1.world + held_by (some two_files) ≡ 7)
file_sink_balanced_example =
    file_sink_balanced counting (λ n. n) counting-Counted (some log_config)
      (record { yday = 0; hour = 0 }) in_use two_files in_use (omega arith)

-- A system that notes what is freed, the newest first.
abbrev noting : Os (List Block)
noting = record (empty_os (List Block)) { free = λ block w. block ∷ w }

file_sink_destroy_test :
    (file_sink_destroy noting two_files (record { world = []; error = no_error })).1.world
    ≡ sink_block ∷ text_block log_path ∷ file_block 0 ∷ []
unfolding file_sink_destroy close_file ◌>>=◌
file_sink_destroy_test = refl

console_sink_test : (log_console_sink counting 1 2 (λ fp. false) none 0).1 ≡ 1
unfolding log_console_sink
console_sink_test = refl

callback_sink_test : (log_callback_sink counting (some none) 0).1 ≡ 0
unfolding log_callback_sink
callback_sink_test = refl

file_write_test :
    (file_sink_write filing two_files
      (record { yday = 0; hour = 0 })
      (b'x' ∷ [])
      names_inside).0.current_size
    ≡ 1
unfolding file_sink_write open_file write_file close_file remove_file fs_rename ◌>>=◌
file_write_test = refl
