-- ===== src/Fs/Path/Normalize.antt =====
-- src/fs.c, `cpr_normalize_path`. `out` and the entries of `comp_ends` are indices into the buffer,
-- and `comp_ends` is a stack, the newest entry first. A result `none` is an access out of range.
pub mod Text
pub mod Bounds
pub mod Result
pub mod Meaning
pub mod Shown
pub mod Resolve
use libcopper.Base.{ℕ, zero, suc, ◌+◌, ◌-◌, Bool, true, false, not, ◌&&◌, ◌||◌, Option, none, some}
use libcopper.Base.{List, [], ◌∷◌, length, get_elem?, get_or, memcpy, ◌>>=◌, store}
use libcopper.Base.{ltb, leb, ◌==◌, if◌then◌else◌}
use libcopper.Error.{CprError}
use libcopper.Fs.Path.{is_sep, starts_abs, Written, refused_null, too_small}

pub record Norm : Type 0 where
  pub mem : List ℕ
  pub pos : ℕ
  pub ends : List ℕ

-- `while (*p && !cpr__fs_is_sep(*p)) p++`: what is passed over, and what is left.
abbrev pub name_of : List ℕ → List ℕ
name_of [] = []
name_of (c ∷ p) = if is_sep c then [] else c ∷ name_of p

abbrev pub past_name : List ℕ → List ℕ
past_name [] = []
past_name (c ∷ p) = if is_sep c then c ∷ p else past_name p

-- `while (*p && cpr__fs_is_sep(*p)) p++`
abbrev pub skip_seps : List ℕ → List ℕ
skip_seps [] = []
skip_seps (c ∷ p) = if is_sep c then skip_seps p else c ∷ p

-- `*out++ = c`
abbrev pub emit : ℕ → Norm → Option Norm
emit c s = store s.mem s.pos c >>= λ mem. some (record s { mem = mem; pos = s.pos + 1 })

-- `if (out != buf && !cpr__fs_is_sep(*(out - 1))) *out++ = CPR_FS_SEP`
pub add_sep : Norm → Option Norm
add_sep s =
    if s.pos == 0
    then some s
    else (get_elem? s.mem (s.pos - 1) >>= λ c. if is_sep c then some s else emit b'/' s)

-- `if (ncomp < 256) comp_ends[ncomp++] = end`
abbrev pub remember : ℕ → List ℕ → List ℕ
remember end ends = if ltb (length ends) 256 then end ∷ ends else ends

abbrev pub is_dot : List ℕ → Bool
is_dot name = length name == 0 || (length name == 1 && get_or name 0 0 == b'.')

abbrev pub is_dotdot : List ℕ → Bool
is_dotdot name = length name == 2 && (get_or name 0 0 == b'.' && get_or name 1 0 == b'.')

-- The branch for `..`.
pub climb : Bool → List ℕ → Norm → Option Norm
unfolding add_sep
climb is_abs (end ∷ ends) s = some (record s { pos = end; ends = ends })
climb true [] s = some s
climb false [] s = do
  s₁ ← add_sep s
  s₂ ← emit b'.' s₁
  s₃ ← emit b'.' s₂
  some (record s₃ { ends = remember s₃.pos s₃.ends })

-- The branch for a name.
pub descend : List ℕ → Norm → Option Norm
unfolding add_sep
descend name s = do
  s₁ ← add_sep s
  mem ← memcpy s₁.mem s₁.pos name 0 (length name)
  some (record { mem = mem; pos = s₁.pos + length name; ends = remember s.pos s.ends })

-- One component
pub component : Bool → List ℕ → Norm → Option Norm
unfolding climb descend
component is_abs name s =
    if is_dot name then some s else if is_dotdot name then climb is_abs s.ends s else descend name s

-- The loop over the components. The fuel bounds their number; running out of it is `none` too.
pub normalize_loop : ℕ → Bool → List ℕ → Norm → Option Norm
unfolding component
normalize_loop zero is_abs p s = none
normalize_loop (suc fuel) is_abs [] s = some s
normalize_loop (suc fuel) is_abs (c ∷ p) s =
    component is_abs (name_of (c ∷ p)) s
    >>= normalize_loop fuel is_abs (skip_seps (past_name (c ∷ p)))

-- What follows the loop.
pub finish : Bool → Norm → Option (List ℕ)
finish is_abs s = do
  dotted ←
      if s.pos == 0
      then (if is_abs then some s else emit b'.' s)
      else if s.pos == 1
      then (get_elem? s.mem 0 >>= λ c.
          if (c == b'/' || c == b'\\') && not is_abs then emit b'.' s else some s)
      else some s
  store dotted.mem dotted.pos 0

-- `cpr_normalize_path`
unfoldable pub normalize_path : Option (List ℕ) → ℕ → Option (List ℕ) → CprError → Written
unfolding normalize_loop finish
normalize_path none buf_size path e = refused_null none e
normalize_path (some buf) buf_size none e = refused_null (some buf) e
normalize_path (some buf) buf_size (some path) e =
    if buf_size == 0
    then refused_null (some buf) e
    else if ltb buf_size (if length path == 0 then 2 else length path + 1)
    then too_small buf e
    else let is_abs = starts_abs path in
      let fresh : Norm = record { mem = buf; pos = 0; ends = [] } in
      (do
        rooted ← (if is_abs then emit b'/' fresh else some fresh)
        walked ←
            normalize_loop (suc (length path)) is_abs (if is_abs then skip_seps path else path)
              rooted
        shown ← finish is_abs walked
        some (true, some shown, e))
