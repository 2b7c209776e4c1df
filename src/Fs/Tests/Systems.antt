-- ===== src/Fs/Tests/Systems.antt =====
-- Small systems that src/fs.c can run on.
use libcopper.Base.{ℕ, zero, suc, ◌+◌, ◌-◌, ◌<◌, ◌≡◌, refl, sym, ap, ◌∙◌, arith}
use libcopper.Base.{Bool, true, false, Option, none, some, List, [], ◌∷◌, ◌++◌, length, take, drop}
use libcopper.Base.{length-take, take-append-drop, take-length, ◌==◌, if◌then◌else◌}
use libcopper.Fs.Os.{Os, Stat, Dirent, directory, pos, negsuc}
use libcopper.Fs.Copy.Content.{Streams}
use libcopper.Fs.Copy.Ends.{Reliable}
use libcopper.Fs.Balance.{Counted}
use libcopper.Fs.Disk.Parents.{Dirs}
use libcopper.Fs.Disk.{s_isdir}
use libcopper.Base.{on_option}
use libcopper.Fs.Dir.Listing.{Listing}

-- A system on which nothing is there.
abbrev pub empty_os : (W : Type 0) → Os W
empty_os W = record {
  malloc = λ w. (true, w);
  free = λ block w. w;
  getcwd = λ n w. (none, w);
  stat = λ path w. (none, w);
  mkdir = λ path w. (false, w);
  unlink = λ path w. (false, w);
  rmdir = λ path w. (false, w);
  rename = λ old new w. (false, w);
  fopen = λ path mode w. (none, w);
  fclose = λ fp w. w;
  fread = λ fp n w. ([], w);
  fwrite = λ fp bytes w. (0, w);
  ferror = λ fp w. true;
  feof = λ fp w. false;
  fseeko = λ fp offset from w. (false, w);
  ftello = λ fp w. (negsuc 0, w);
  fflush = λ fp w. (false, w);
  opendir = λ path w. (none, w);
  closedir = λ dir w. w;
  readdir = λ dir w. (none, w);
  fstatat = λ dir name w. (none, w);
}

-- What each stream holds, and what it has taken.
abbrev pub Tapes : Type 0
Tapes = (ℕ → List ℕ) × (ℕ → List ℕ)

abbrev pub input : Tapes → ℕ → List ℕ
input w fp = w.0 fp

abbrev pub output : Tapes → ℕ → List ℕ
output w fp = w.1 fp

abbrev update : (ℕ → List ℕ) → ℕ → List ℕ → ℕ → List ℕ
update tapes fp bytes q = if q == fp then bytes else tapes q

abbrev is_empty : List ℕ → Bool
is_empty [] = true
is_empty (x ∷ xs) = false

-- Streams in memory
abbrev pub streaming : Os Tapes
streaming = record (empty_os Tapes) {
  fread = λ fp n w. (take n (w.0 fp), (update w.0 fp (drop n (w.0 fp)), w.1));
  fwrite = λ fp bytes w. (length bytes, (w.0, update w.1 fp (w.1 fp ++ bytes)));
  feof = λ fp w. is_empty (w.0 fp);
  ftello = λ fp w. (pos 2, w);
  fseeko = λ fp offset from w. (true, w);
  fopen = λ path mode w. (some 0, w);
}

update_here : (tapes : ℕ → List ℕ) (fp : ℕ) (bytes : List ℕ) → update tapes fp bytes fp ≡ bytes
update_here tapes fp bytes = let same : (fp == fp) ≡ true = ground arith in rw same refl

is_empty-nil : (xs : List ℕ) → is_empty xs ≡ true → xs ≡ []
is_empty-nil [] h = refl
is_empty-nil (x ∷ xs) h = absurd (no h)
  where
    no : ¬ (false ≡ true)
    no same = cc

short-empty : (xs : List ℕ) (n : ℕ) → length (take n xs) < n → is_empty (drop n xs) ≡ true
short-empty xs zero h = absurd (omega (arith, h))
short-empty [] (suc n) h = refl
short-empty (x ∷ xs) (suc n) h = short-empty xs n (omega (arith, h))

pub streaming-Streams : Streams streaming input output
streaming-Streams = record {
  fread_size = λ fp n w. omega (arith, length-take n (w.0 fp));
  fread_input = λ fp n w.
      sym (take-append-drop n (w.0 fp))
      ∙ ap (λ t. take n (w.0 fp) ++ t) (sym (update_here w.0 fp (drop n (w.0 fp))));
  fread_output = λ fp n q w. refl;
  fwrite_output = λ fp bytes w.
      update_here w.1 fp (w.1 fp ++ bytes) ∙ ap (λ t. w.1 fp ++ t) (sym (take-length bytes));
  fwrite_input = λ fp q bytes w apart. refl;
  feof_input = λ fp w h. is_empty-nil (w.0 fp) h;
}

pub streaming-Reliable : Reliable streaming
streaming-Reliable = record {
  fread_short =
      λ fp n w h. ap is_empty (update_here w.0 fp (drop n (w.0 fp))) ∙ short-empty (w.0 fp) n h;
  fwrite_all = λ fp bytes w. refl;
}

-- Nothing but a count of what is in use. A stream opens, and so does a directory.
abbrev pub counting : Os ℕ
counting = record (empty_os ℕ) {
  malloc = λ w. (true, w + 1);
  free = λ block w. w - 1;
  fopen = λ path mode w. (some 0, w + 1);
  fclose = λ fp w. w - 1;
  opendir = λ path w. (some 0, w + 1);
  closedir = λ dir w. w - 1;
}

pub counting-Counted : Counted counting (λ n. n)
counting-Counted = record {
  malloc_held = λ w. refl;
  free_held = λ block w. refl;
  fopen_held = λ path mode w. refl;
  fclose_held = λ fp w. refl;
  opendir_held = λ path w. refl;
  closedir_held = λ dir w. refl;
  fread_held = λ fp n w. refl;
  fwrite_held = λ fp bytes w. refl;
  fseeko_held = λ fp offset from w. refl;
  ftello_held = λ fp w. refl;
  readdir_held = λ dir w. refl;
  fstatat_held = λ dir name w. refl;
  unlink_held = λ path w. refl;
  rmdir_held = λ path w. refl;
}

-- One directory stream
abbrev next_entry : List Dirent → Option Dirent × List Dirent
next_entry [] = (none, [])
next_entry (de ∷ rest) = (some de, rest)

abbrev pub listing : Os (List Dirent)
listing = record (empty_os (List Dirent)) { readdir = λ dir w. next_entry w }

pub listing-Listing : Listing listing (λ w dir. w)
listing-Listing = record {
  readdir_end = λ dir w h. ap (λ v. (next_entry v).0) h;
  readdir_next = λ dir de rest w h. (ap (λ v. (next_entry v).0) h, ap (λ v. (next_entry v).1) h);
}

abbrev dir_stat : Bool → Option Stat
dir_stat true = some (record { kind = directory; size = 0; sec = 0; nsec = 0 })
dir_stat false = none

-- All paths are directories as soon as one has been made.
abbrev pub growing : Os Bool
growing = record (empty_os Bool) {
  stat = λ path w. (dir_stat w, w);
  mkdir = λ path w. (true, true);
}

growing-stat : (w : Bool) → on_option (dir_stat w) false (λ st. s_isdir st.kind) ≡ w
growing-stat true = refl
growing-stat false = refl

pub growing-Dirs : Dirs growing (λ w path. w)
growing-Dirs = record {
  stat_answers = λ path w. growing-stat w;
  stat_keeps = λ path q w. refl;
  mkdir_makes = λ path w h. refl;
  mkdir_keeps = λ path q w h. refl;
}
