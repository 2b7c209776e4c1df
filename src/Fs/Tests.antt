-- ===== src/Fs/Tests.antt =====
-- Tests of the definitions for src/fs.c, and its theorems at concrete inputs.
pub mod Systems
use libcopper.Base.{
  ℕ, zero, suc, ◌+◌, ◌-◌, ◌≤◌, ◌<◌, ◌≡◌, ◌≢◌, refl, sym, ap, arith, Bool, true, false, inl, inr,
  Bool-cases,
}
use libcopper.Base.{
  Option, none, some, List, [], ◌∷◌, ◌++◌, length, take, drop, length-take, take-append-drop,
  take-length,
}
use libcopper.Base.{◌==◌, if◌then◌else◌, memcpy}
use libcopper.Error.{no_error}
use libcopper.Fs.Os.{Os, State, Stat, Dirent, directory, dt_reg, dt_dir, ℤ, pos, negsuc, ◌>>=◌}
use libcopper.Fs.Path.{path_is_abs, path_basename, path_ext, path_dirname, path_join}
use libcopper.Fs.Path.Parts.{in_dir, parts_join}
use libcopper.Fs.Path.Normalize.{normalize_path}
use libcopper.Fs.Path.Normalize.Result.{backslash, root_of}
use libcopper.Fs.Path.Normalize.Meaning.{resolve, names_of, path_of}
use libcopper.Fs.Path.Normalize.Resolve.{normalize_resolves}
use libcopper.Fs.Path.Normalize.{skip_seps}
use libcopper.Fs.File.{read_file_all, write_file_all}
use libcopper.Fs.File.Sizes.{Within, read_file_all-Within}
use libcopper.Fs.Disk.{path_exists, path_is_file, path_is_dir, mkdir_all, lead_seps}
use libcopper.Fs.Disk.Parents.{AllDirs, dirs_to, mkdir_all-AllDirs}
use libcopper.Fs.Dir.{next_dir, remove_dir}
use libcopper.Fs.Dir.Listing.{Named, Returns, next_dir_lem}
use libcopper.Fs.Copy.{copy_loop, fs_copy}
use libcopper.Fs.Copy.Content.{copy_loop-Copies}
use libcopper.Fs.Copy.Ends.{copy_loop-ends, copy_loop-succeeds}
use libcopper.Fs.Balance.Copies.{files_balanced}
use libcopper.Fs.Balance.Ending.{Ended}
use libcopper.Fs.Disk.{remove_empty}
use libcopper.Fs.Balance.Dirs.{remove_dir-balanced}
use libcopper.Fs.Tests.Systems.{
  Tapes, input, output, streaming, streaming-Streams, streaming-Reliable,
}
use libcopper.Fs.Tests.Systems.{
  counting, counting-Counted, listing, listing-Listing, growing, growing-Dirs,
}

-- "/usr/lib.so"
abbrev lib_path : List ℕ
lib_path = b'/' ∷ b'u' ∷ b's' ∷ b'r' ∷ b'/' ∷ b'l' ∷ b'i' ∷ b'b' ∷ b'.' ∷ b's' ∷ b'o' ∷ []

path_is_abs_test : path_is_abs (some lib_path) ≡ true
unfolding path_is_abs
path_is_abs_test = refl

path_basename_test :
    path_basename (some lib_path) ≡ some (b'l' ∷ b'i' ∷ b'b' ∷ b'.' ∷ b's' ∷ b'o' ∷ [])
unfolding path_basename
path_basename_test = refl

path_ext_test : path_ext (some lib_path) ≡ some (b'.' ∷ b's' ∷ b'o' ∷ [])
unfolding path_ext
path_ext_test = refl

-- ".profile" has no extension.
path_ext_hidden_test : path_ext (some (b'.' ∷ b'p' ∷ [])) ≡ some []
unfolding path_ext
path_ext_hidden_test = refl

abbrev blank : ℕ → List ℕ
blank zero = []
blank (suc n) = 7 ∷ blank n

path_dirname_test :
    path_dirname (some (blank 8)) 8 (some lib_path) no_error
    ≡ some (true, some (b'/' ∷ b'u' ∷ b's' ∷ b'r' ∷ 0 ∷ 7 ∷ 7 ∷ 7 ∷ []), no_error)
unfolding path_dirname memcpy
path_dirname_test = refl

-- "a//b/./../c" becomes "a/c".
abbrev long_way : List ℕ
long_way = b'a' ∷ b'/' ∷ b'/' ∷ b'b' ∷ b'/' ∷ b'.' ∷ b'/' ∷ b'.' ∷ b'.' ∷ b'/' ∷ b'c' ∷ []

normalize_path_test :
    normalize_path (some (blank 12)) 12 (some long_way) no_error
    ≡ some (true, some (b'a' ∷ b'/' ∷ b'c' ∷ 0 ∷ blank 8), no_error)
unfolding normalize_path memcpy
normalize_path_test = refl

-- "../.." becomes "..": the second parent takes nothing back.
normalize_path_up_test :
    normalize_path (some (blank 6)) 6 (some (b'.' ∷ b'.' ∷ b'/' ∷ b'.' ∷ b'.' ∷ [])) no_error
    ≡ some (true, some (b'.' ∷ b'.' ∷ 0 ∷ 7 ∷ 7 ∷ 7 ∷ []), no_error)
unfolding normalize_path memcpy
normalize_path_up_test = refl

-- The dot behind a lone backslash does not fit.
dot_does_not_fit : normalize_path (some (blank 2)) 2 (some backslash) no_error ≡ none
unfolding normalize_path memcpy
dot_does_not_fit = refl

parts_join_example :
    (path_basename (some (in_dir (b'd' ∷ []) b'n' [])) ≡ some (b'n' ∷ []))
    × ((tail : List ℕ) × (path_dirname
            (some (blank 4))
            4
            (some (in_dir (b'd' ∷ []) b'n' []))
            no_error
          ≡ some (true, some ((b'd' ∷ []) ++ (0 ∷ tail)), no_error)))
    × ((tail : List ℕ) × (path_join
            (some (blank 4))
            4
            (some (b'd' ∷ []))
            (some (b'n' ∷ []))
            no_error
          ≡ some (true, some (in_dir (b'd' ∷ []) b'n' [] ++ (0 ∷ tail)), no_error)))
parts_join_example =
    parts_join (blank 4) (blank 4) (b'd' ∷ []) b'n' [] 4 no_error refl (refl, tt) (omega arith)
      (omega arith) (omega arith)

long_way-resolve : resolve false (names_of long_way) [] ≡ some ((b'c' ∷ []) ∷ (b'a' ∷ []) ∷ [])
unfolding resolve
long_way-resolve = refl

long_way-path : path_of false ((b'c' ∷ []) ∷ (b'a' ∷ []) ∷ []) ≢ backslash
long_way-path same = absurd (no (ap length same))
  where
    no : ¬ (length (path_of false ((b'c' ∷ []) ∷ (b'a' ∷ []) ∷ [])) ≡ 1)
    no h = omega (arith, h)

normalize_resolves_example :
    (tail : List ℕ) × (normalize_path (some (blank 12)) 12 (some long_way) no_error
      ≡ some (true, some (b'a' ∷ b'/' ∷ b'c' ∷ (0 ∷ tail)), no_error))
normalize_resolves_example =
    normalize_resolves (blank 12) 12 long_way ((b'c' ∷ []) ∷ (b'a' ∷ []) ∷ []) no_error
      (omega arith) (omega arith) long_way-resolve long_way-path

-- "./\" names the file "\", and what is left names another one.
dot_backslash_test :
    normalize_path (some (blank 4)) 4 (some (b'.' ∷ b'/' ∷ b'\\' ∷ [])) no_error
    ≡ some (true, some (b'\\' ∷ b'.' ∷ 0 ∷ 7 ∷ []), no_error)
unfolding normalize_path memcpy
dot_backslash_test = refl

-- Stream 0 holds three bytes.
abbrev start : State Tapes
start = record {
  world = (λ fp. if fp == 0 then 1 ∷ 2 ∷ 3 ∷ [] else [], λ fp. []);
  error = no_error;
}

abbrev source_file : ℕ
source_file = 0

abbrev target_file : ℕ
target_file = 1

apart : source_file ≢ target_file
apart h = omega (arith, h)

copied : (copy_loop streaming 2 0 1 start).0 ≡ some true
unfolding copy_loop ◌>>=◌
copied = refl

made : (mkdir_all growing (some lib_path) (record { world = false; error = no_error })).0 ≡ true
unfolding mkdir_all ◌>>=◌
made = refl

-- ".", ".." and "f"
abbrev dots_and_file : List Dirent
dots_and_file =
    record { name = b'.' ∷ []; d_type = dt_dir }
    ∷ record { name = b'.' ∷ b'.' ∷ []; d_type = dt_dir }
    ∷ record { name = b'f' ∷ []; d_type = dt_reg }
    ∷ []

copy_loop-Copies_example :
    output (copy_loop streaming 2 0 1 start).1.world 1 ≡ output start.world 1 ++ input start.world 0
copy_loop-Copies_example =
    copy_loop-Copies streaming input output streaming-Streams 2 0 1 start apart copied

copy_loop-ends_example : (b : Bool) × ((copy_loop streaming 4 0 1 start).0 ≡ some b)
copy_loop-ends_example =
    copy_loop-ends streaming input output streaming-Streams 4 0 1 start apart (omega arith)

copy_loop-succeeds_example : (copy_loop streaming 4 0 1 start).0 ≡ some true
copy_loop-succeeds_example =
    copy_loop-succeeds streaming input output streaming-Streams streaming-Reliable 4 0 1 start apart
      (omega arith)

-- Three things are in use before.
abbrev in_use : State ℕ
in_use = record { world = 3; error = no_error }

files_balanced_example :
    ((read_file_all counting (some lib_path) true 3 in_use).1.world ≡ 3)
    × ((write_file_all counting (some long_way) (some (blank 3)) 3 in_use).1.world ≡ 3)
    × ((fs_copy counting 5 (some lib_path) (some long_way) in_use).1.world ≡ 3)
files_balanced_example =
    files_balanced counting (λ n. n) counting-Counted 5 3 true (some lib_path) (some long_way)
      (some (blank 3)) in_use

remove_dir-balanced_example :
    (remove_dir counting 5 (blank 2) (some lib_path) true in_use).1.world ≡ 3
unfolding Ended remove_dir remove_empty ◌>>=◌
remove_dir-balanced_example =
    remove_dir-balanced counting (λ n. n) counting-Counted 5 (blank 2) (some lib_path) true in_use

read_file_all-Within_example : Within 64 (read_file_all streaming (some lib_path) true 64 start).0
read_file_all-Within_example =
    read_file_all-Within streaming streaming-Streams.fread_size (some lib_path) true 64 start

dots_and_file-Named : Named dots_and_file
dots_and_file-Named =
    ((refl, tt), omega arith, ((refl, (refl, tt)), omega arith, ((refl, tt), omega arith, tt)))

next_dir_lem_example :
    Returns
      (some (record { name = b'f' ∷ []; d_type = dt_reg }))
      (next_dir listing 4 (some 0) true (record { world = dots_and_file; error = no_error })).0
next_dir_lem_example =
    next_dir_lem listing (λ w dir. w) listing-Listing 4 0
      (record { world = dots_and_file; error = no_error }) dots_and_file-Named (omega arith)

mkdir_all-AllDirs_example :
    AllDirs growing
      (λ w path. w)
      growing-Dirs
      (mkdir_all growing (some lib_path) (record { world = false; error = no_error })).1.world
      (dirs_to (lead_seps lib_path) (skip_seps lib_path))
mkdir_all-AllDirs_example =
    mkdir_all-AllDirs growing (λ w path. w) growing-Dirs lib_path
      (record { world = false; error = no_error }) made
