-- ===== src/Fs/Path.antt =====
-- src/fs.c: the path functions, which do not touch the file system. A string is the list of its
-- characters before the null, and a null pointer is `none`. A pointer into a string is what is left
-- of the string from there. A result `none` is an access out of range.
pub mod Normalize
pub mod Parts
use libcopper.Base.{ℕ, zero, suc, ◌+◌, ◌-◌, Bool, true, false, not, ◌&&◌, ◌||◌, Option, none, some}
use libcopper.Base.{List, [], ◌∷◌, ◌++◌, length, set, memcpy, ◌>>=◌, on_option, store}
use libcopper.Base.{ltb, leb, ◌==◌, if◌then◌else◌}
use libcopper.Error.{CprError, set_error, err_invalid, err_overflow}

-- `cpr__fs_is_sep`
abbrev pub is_sep : ℕ → Bool
is_sep c = c == b'/'

-- `cpr_path_is_abs`, on a string and on a pointer.
abbrev pub starts_abs : List ℕ → Bool
starts_abs [] = false
starts_abs (c ∷ p) = c == b'/'

unfoldable pub path_is_abs : Option (List ℕ) → Bool
path_is_abs none = false
path_is_abs (some path) = starts_abs path

-- The loop of `cpr_path_basename`.
pub basename_loop : List ℕ → List ℕ → List ℕ
basename_loop [] last = last
basename_loop (c ∷ []) last = last
basename_loop (c ∷ d ∷ p) last = basename_loop (d ∷ p) (if is_sep c then d ∷ p else last)

unfoldable pub path_basename : Option (List ℕ) → Option (List ℕ)
unfolding basename_loop
path_basename none = none
path_basename (some path) = some (basename_loop path path)

-- `strrchr`: the string from the last occurrence on.
abbrev pub strrchr : ℕ → List ℕ → Option (List ℕ)
strrchr ch [] = none
strrchr ch (c ∷ s) =
    on_option (strrchr ch s) (if c == ch then some (c ∷ s) else none) (λ found. some found)

-- `cpr_path_ext`; `dot != base` tells whether the dot is the first character.
unfoldable pub path_ext : Option (List ℕ) → Option (List ℕ)
unfolding basename_loop
path_ext none = none
path_ext (some path) =
    let base = basename_loop path path in
    some (on_option (strrchr b'.' base) [] (λ dot. if length dot == length base then [] else dot))

-- The loop of `cpr_path_dirname`: the index of the last separator.
pub last_sep : List ℕ → ℕ → Option ℕ → Option ℕ
last_sep [] i last = last
last_sep (c ∷ p) i last = last_sep p (i + 1) (if is_sep c then some i else last)

-- What a function leaves that writes a string to a buffer.
abbrev pub Written : Type 0
Written = Option (Bool × Option (List ℕ) × CprError)

abbrev pub refused_null : Option (List ℕ) → CprError → Written
refused_null buf e = some (false, buf, set_error err_invalid "NULL argument" e)

abbrev pub too_small : List ℕ → CprError → Written
too_small buf e = some (false, some buf, set_error err_overflow "buffer too small" e)

-- `memcpy(buf, s, len)`, then a null behind it.
abbrev pub copy_text : List ℕ → ℕ → List ℕ → ℕ → CprError → Written
copy_text buf at s len e = do
  copied ← memcpy buf at s 0 len
  ended ← store copied (at + len) 0
  some (true, some ended, e)

-- `cpr_path_dirname`
unfoldable pub path_dirname : Option (List ℕ) → ℕ → Option (List ℕ) → CprError → Written
unfolding last_sep
path_dirname none buf_size path e = refused_null none e
path_dirname (some buf) buf_size none e = refused_null (some buf) e
path_dirname (some buf) buf_size (some path) e =
    if buf_size == 0
    then refused_null (some buf) e
    else on_option (last_sep path 0 none)
        (if ltb buf_size 2
          then too_small buf e
          else (store buf 0 b'.' >>= λ b₁. store b₁ 1 0 >>= λ b₂. some (true, some b₂, e)))
        (λ i.
          let len = if i == 0 then 1 else i in
          if ltb buf_size (len + 1) then too_small buf e else copy_text buf 0 path len e)

-- `base[blen - 1]` is no separator, for a string that is not empty.
abbrev pub ends_open : List ℕ → Bool
ends_open [] = false
ends_open (c ∷ []) = not (is_sep c)
ends_open (c ∷ d ∷ p) = ends_open (d ∷ p)

-- `cpr_path_join`
pub path_join : Option (List ℕ) → ℕ → Option (List ℕ) → Option (List ℕ) → CprError → Written
path_join none buf_size base part e = refused_null none e
path_join (some buf) buf_size none part e = refused_null (some buf) e
path_join (some buf) buf_size (some base) none e = refused_null (some buf) e
path_join (some buf) buf_size (some base) (some part) e =
    if buf_size == 0
    then refused_null (some buf) e
    else if starts_abs part
    then (if ltb buf_size (length part + 1)
        then too_small buf e
        else copy_text buf 0 part (length part) e)
    else let need_sep = ends_open base && ltb 0 (length part) in
      let at = length base + (if need_sep then 1 else 0) in
      if ltb buf_size (at + length part + 1) then too_small buf e else (do
        based ← memcpy buf 0 base 0 (length base)
        joined ← (if need_sep then store based (length base) b'/' else some based)
        copy_text joined at part (length part) e)
