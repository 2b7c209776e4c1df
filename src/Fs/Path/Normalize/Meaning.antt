-- ===== src/Fs/Path/Normalize/Meaning.antt =====
-- What a path means, for `cpr_normalize_path` of src/fs.c: its names, one after the other, lead down
-- to a directory or up to its parent.
use libcopper.Base.{ℕ, ◌<◌, ◌≡◌, ◌≢◌, ap, arith, inl, inr}
use libcopper.Base.{
  Bool, true, false, ◌||◌, Bool-cases, Option-cases, List, [], ◌∷◌, ◌++◌, Option, none, some,
}
use libcopper.Base.{◌>>=◌, same_text, length, length-append, ltb, if◌then◌else◌, ◌==◌}
use mathlib.Core.Option.{some-injective, none-ne-some}
use mathlib.Core.Path.{subst}
use libcopper.Fs.Path.Normalize.Text.{with_sep}

abbrev pub rooted : List ℕ → Bool
rooted [] = false
rooted (c ∷ p) = c == b'/'

-- The names between the separators of a path.
abbrev pub push_char : ℕ → List (List ℕ) → List (List ℕ)
push_char c [] = (c ∷ []) ∷ []
push_char c (name ∷ names) = (c ∷ name) ∷ names

abbrev pub names_of : List ℕ → List (List ℕ)
names_of [] = [] ∷ []
names_of (c ∷ p) = if c == b'/' then [] ∷ names_of p else push_char c (names_of p)

-- The empty name and `.` stay in the directory, and `..` rises to its parent.
abbrev pub stays : List ℕ → Bool
stays name = same_text name [] || same_text name (b'.' ∷ [])

abbrev pub rises : List ℕ → Bool
rises name = same_text name (b'.' ∷ b'.' ∷ [])

-- A directory as the names that lead to it, the last one first. The parent of the root is the root,
-- and a relative path does not leave where it starts.
abbrev pub parent : Bool → List (List ℕ) → Option (List (List ℕ))
parent is_abs (name ∷ dir) = some dir
parent true [] = some []
parent false [] = none

-- Not more than 256 names.
abbrev pub enter : Bool → List ℕ → List (List ℕ) → Option (List (List ℕ))
enter is_abs name dir =
    if stays name
    then some dir
    else if rises name
    then parent is_abs dir
    else if ltb (length dir) 256
    then some (name ∷ dir)
    else none

unfoldable pub resolve : Bool → List (List ℕ) → List (List ℕ) → Option (List (List ℕ))
resolve is_abs [] dir = some dir
resolve is_abs (name ∷ names) dir = enter is_abs name dir >>= resolve is_abs names

-- The path of a directory below `root`.
abbrev pub dir_text : List ℕ → List (List ℕ) → List ℕ
dir_text root [] = root
dir_text root (name ∷ dir) = with_sep (dir_text root dir) ++ name

-- The path of a directory, which is a dot where a relative path starts.
abbrev pub path_of : Bool → List (List ℕ) → List ℕ
path_of true dir = dir_text (b'/' ∷ []) dir
path_of false [] = b'.' ∷ []
path_of false (name ∷ dir) = dir_text [] (name ∷ dir)

-- Names have no separators.
abbrev NoSep : List ℕ → Type 0
NoSep [] = Unit
NoSep (c ∷ name) = ((c == b'/') ≡ false) × NoSep name

abbrev AllNoSep : List (List ℕ) → Type 0
AllNoSep [] = Unit
AllNoSep (name ∷ names) = NoSep name × AllNoSep names

push_char-AllNoSep :
    (c : ℕ) (names : List (List ℕ))
    → (c == b'/') ≡ false
    → AllNoSep names
    → AllNoSep (push_char c names)
push_char-AllNoSep c [] h k = ((h, tt), tt)
push_char-AllNoSep c (name ∷ names) h k = ((h, k.0), k.1)

names_of-AllNoSep : (p : List ℕ) → AllNoSep (names_of p)
names_of-AllNoSep [] = (tt, tt)
names_of-AllNoSep (c ∷ p) = elim (Bool-cases (c == b'/')) [
  | inl sep ↦ rw sep (tt, names_of-AllNoSep p)
  | inr other ↦ rw other (push_char-AllNoSep c (names_of p) other (names_of-AllNoSep p))
]

-- The names that lead to a directory are not empty either.
abbrev pub Named : List (List ℕ) → Type 0
Named [] = Unit
Named (name ∷ dir) = (0 < length name) × NoSep name × Named dir

parent-Named :
    (is_abs : Bool) (dir dir' : List (List ℕ))
    → parent is_abs dir ≡ some dir'
    → Named dir
    → Named dir'
parent-Named is_abs (name ∷ dir) dir' h k = subst Named (some-injective _ _ h) (k.2)
parent-Named true [] dir' h k = subst Named (some-injective _ _ h) tt
parent-Named false [] dir' h k = absurd (none-ne-some _ h)

stays-length : (name : List ℕ) → stays name ≡ false → 0 < length name
stays-length [] h = cc
stays-length (c ∷ name) h = omega arith

enter-Named :
    (is_abs : Bool) (name : List ℕ) (dir dir' : List (List ℕ))
    → enter is_abs name dir ≡ some dir'
    → NoSep name
    → Named dir
    → Named dir'
enter-Named is_abs name dir dir' h n k = elim (Bool-cases (stays name)) [
  | inl stay ↦ subst Named (some-injective _ _ (rw stay at h)) k
  | inr moves ↦ elim (Bool-cases (rises name)) [
    | inl rise ↦ parent-Named is_abs dir dir' (rw (moves, rise) at h) k
    | inr down ↦ elim (Bool-cases (ltb (length dir) 256)) [
      | inl room ↦
          subst Named (some-injective _ _ (rw (moves, down, room) at h))
            (stays-length name moves, n, k)
      | inr full ↦ absurd (none-ne-some _ (rw (moves, down, full) at h))
    ]
  ]
]

resolve-Named :
    (is_abs : Bool) (names dir dir' : List (List ℕ))
    → resolve is_abs names dir ≡ some dir'
    → AllNoSep names
    → Named dir
    → Named dir'
unfolding resolve
resolve-Named is_abs [] dir dir' h n k = subst Named (some-injective _ _ h) k
resolve-Named is_abs (name ∷ names) dir dir' h n k = elim (Option-cases (enter is_abs name dir)) [
  | inl stuck ↦ absurd (none-ne-some _ (rw stuck at h))
  | inr (dir₁, entered) ↦
      resolve-Named is_abs names dir₁ dir' (rw entered at h) (n.1)
        (enter-Named is_abs name dir dir₁ entered (n.0) k)
]

pub resolved-Named :
    (is_abs : Bool) (path : List ℕ) (dir : List (List ℕ))
    → resolve is_abs (names_of path) [] ≡ some dir
    → Named dir
resolved-Named is_abs path dir h =
    resolve-Named is_abs (names_of path) [] dir h (names_of-AllNoSep path) tt

-- The path of a directory is not a lone separator.
name_differs : (name : List ℕ) → NoSep name → name ≢ b'/' ∷ []
name_differs [] n same = absurd (omega (arith, ap length same))
name_differs (c ∷ name) n same =
    let here : c ≡ b'/' = ap (λ t. first_or t) same in ground (arith, n.0)
  where
    first_or : List ℕ → ℕ
    first_or [] = 0
    first_or (c ∷ t) = c

pub text_differs : (text name : List ℕ) → 0 < length name → NoSep name → text ++ name ≢ b'/' ∷ []
text_differs [] name h n same = name_differs name n same
text_differs (c ∷ text) name h n same =
    absurd (omega (arith, ap length same, length-append text name))
