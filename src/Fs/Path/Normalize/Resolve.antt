-- ===== src/Fs/Path/Normalize/Resolve.antt =====
-- `cpr_normalize_path` of src/fs.c against the meaning of a path.
use libcopper.Base.{ℕ, zero, suc, ◌≤◌, ◌<◌, ◌≡◌, ◌≢◌, refl, sym, ap, ◌∙◌, arith, inl, inr}
use libcopper.Base.{
  Bool, true, false, Bool-cases, Option-cases, List, [], ◌∷◌, ◌++◌, Option, length, take, some,
  none, ◌==◌,
}
use libcopper.Base.{◌>>=◌, append_assoc, take-append, ltb, if◌then◌else◌}
use mathlib.Core.Option.{some-injective, none-ne-some}
use libcopper.Error.{CprError}
use libcopper.Fs.Path.{is_sep, ends_open, starts_abs}
use libcopper.Fs.Path.Normalize.{name_of, past_name, skip_seps, is_dot, is_dotdot, normalize_path}
use libcopper.Fs.Path.Normalize.Text.{Text, component_text, climbed, with_sep}
use libcopper.Fs.Path.Normalize.Bounds.{loop_text, progress}
use libcopper.Fs.Path.Normalize.Result.{
  backslash, root_of, rest_of, rest_size, normal_text, final_text, min_out, normalize_bounds,
}
use libcopper.Fs.Path.Normalize.Meaning.{
  rooted, push_char, names_of, stays, rises, parent, enter, resolve, dir_text, path_of,
  resolved-Named,
}
use libcopper.Fs.Path.Normalize.Shown.{final-path_of}

abbrev dir_ends : List ℕ → List (List ℕ) → List ℕ
dir_ends root [] = []
dir_ends root (name ∷ dir) = length (dir_text root dir) ∷ dir_ends root dir

abbrev as_text : List ℕ → List (List ℕ) → Text
as_text root dir = record { text = dir_text root dir; ends = dir_ends root dir }

length-dir_ends : (root : List ℕ) (dir : List (List ℕ)) → length (dir_ends root dir) ≡ length dir
length-dir_ends root [] = refl
length-dir_ends root (name ∷ dir) = ap suc (length-dir_ends root dir)

-- Taking a name off again
take_name : (text name : List ℕ) → take (length text) (with_sep text ++ name) ≡ text
take_name text name = elim (Bool-cases (ends_open text)) [
  | inl opened ↦
      rw (opened, append_assoc text (b'/' ∷ []) name) (take-append text ((b'/' ∷ []) ++ name))
  | inr closed ↦ rw closed (take-append text name)
]

climbed-parent :
    (is_abs : Bool) (root : List ℕ) (dir dir' : List (List ℕ))
    → parent is_abs dir ≡ some dir'
    → climbed is_abs (dir_ends root dir) (as_text root dir) ≡ as_text root dir'
climbed-parent is_abs root (name ∷ dir) dir' h =
    let at : List ℕ → Text = λ t. record { text = t; ends = dir_ends root dir } in
    ap at (take_name (dir_text root dir) name) ∙ ap (as_text root) (some-injective _ _ h)
climbed-parent true root [] dir' h = ap (as_text root) (some-injective _ _ h)
climbed-parent false root [] dir' h = absurd (none-ne-some _ h)

-- The tests of the code on a name.
is_dot_lem : (name : List ℕ) → is_dot name ≡ stays name
is_dot_lem [] = refl
is_dot_lem (c ∷ []) = elim (Bool-cases (c == b'.')) [
  | inl dot ↦ rw dot refl
  | inr other ↦ rw other refl
]
is_dot_lem (c ∷ d ∷ name) =
    let not_empty : (length (c ∷ d ∷ name) == 0) ≡ false = ground arith in
    let not_one : (length (c ∷ d ∷ name) == 1) ≡ false = ground arith in
    elim (Bool-cases (c == b'.')) [
      | inl dot ↦ rw (not_empty, not_one, dot) refl
      | inr other ↦ rw (not_empty, not_one, other) refl
    ]

is_dotdot_lem : (name : List ℕ) → is_dotdot name ≡ rises name
is_dotdot_lem [] = refl
is_dotdot_lem (c ∷ []) = elim (Bool-cases (c == b'.')) [
  | inl dot ↦ rw dot refl
  | inr other ↦ rw other refl
]
is_dotdot_lem (c ∷ d ∷ []) = elim (Bool-cases (c == b'.')) [
  | inl dot ↦ elim (Bool-cases (d == b'.')) [
    | inl two ↦ rw (dot, two) refl
    | inr one ↦ rw (dot, one) refl
  ]
  | inr other ↦ rw other refl
]
is_dotdot_lem (c ∷ d ∷ x ∷ name) =
    let not_two : (length (c ∷ d ∷ x ∷ name) == 2) ≡ false = ground arith in
    elim (Bool-cases (c == b'.')) [
      | inl dot ↦ elim (Bool-cases (d == b'.')) [
        | inl two ↦ rw (not_two, dot, two) refl
        | inr one ↦ rw (not_two, dot, one) refl
      ]
      | inr other ↦ rw (not_two, other) refl
    ]

-- A name acts on the text as on the directory.
component_enters :
    (is_abs : Bool) (root name : List ℕ) (dir dir' : List (List ℕ))
    → enter is_abs name dir ≡ some dir'
    → component_text is_abs name (as_text root dir) ≡ as_text root dir'
component_enters is_abs root name dir dir' h = elim (Bool-cases (stays name)) [
  | inl stay ↦
      let dot = is_dot_lem name ∙ stay in
      rw dot (ap (as_text root) (some-injective _ _ (rw stay at h)))
  | inr moves ↦
      let no_dot = is_dot_lem name ∙ moves in
      elim (Bool-cases (rises name)) [
        | inl rise ↦
            let dotdot = is_dotdot_lem name ∙ rise in
            rw (no_dot, dotdot) (climbed-parent is_abs root dir dir' (rw (moves, rise) at h))
        | inr down ↦
            let other = is_dotdot_lem name ∙ down in
            elim (Bool-cases (ltb (length dir) 256)) [
              | inl room ↦
                  rw (no_dot, other, length-dir_ends root dir, room)
                    (ap (as_text root) (some-injective _ _ (rw (moves, down, room) at h)))
              | inr full ↦ absurd (none-ne-some _ (rw (moves, down, full) at h))
            ]
      ]
]

>>=-ext :
    {A B : Type 0} (r : Option A) (f g : A → Option B)
    → ((x : A) → f x ≡ g x)
    → (r >>= f) ≡ (r >>= g)
>>=-ext none f g h = refl
>>=-ext (some x) f g h = h x

-- The names behind the first one
abbrev names_after : List ℕ → List (List ℕ)
names_after [] = []
names_after (c ∷ p) = names_of p

names_split : (p : List ℕ) → names_of p ≡ name_of p ∷ names_after (past_name p)
names_split [] = refl
names_split (c ∷ p) = elim (Bool-cases (is_sep c)) [
  | inl sep ↦ rw sep refl
  | inr other ↦ rw other (ap (push_char c) (names_split p))
]

-- A separator more changes nothing.
resolve-skip_seps :
    (is_abs : Bool) (p : List ℕ) (dir : List (List ℕ))
    → resolve is_abs (names_of p) dir ≡ resolve is_abs (names_of (skip_seps p)) dir
unfolding resolve
resolve-skip_seps is_abs [] dir = refl
resolve-skip_seps is_abs (c ∷ p) dir = elim (Bool-cases (is_sep c)) [
  | inl sep ↦ rw sep (resolve-skip_seps is_abs p dir)
  | inr other ↦ rw (other, other) refl
]

resolve-past_name :
    (is_abs : Bool) (p : List ℕ) (dir : List (List ℕ))
    → resolve is_abs (names_after (past_name p)) dir
      ≡ resolve is_abs (names_of (skip_seps (past_name p))) dir
unfolding resolve
resolve-past_name is_abs [] dir = refl
resolve-past_name is_abs (c ∷ p) dir = elim (Bool-cases (is_sep c)) [
  | inl sep ↦ rw (sep, sep) (resolve-skip_seps is_abs p dir)
  | inr other ↦ rw other (resolve-past_name is_abs p dir)
]

resolve_round :
    (is_abs : Bool) (p : List ℕ) (dir : List (List ℕ))
    → resolve is_abs (names_of p) dir
      ≡ (enter is_abs (name_of p) dir >>= resolve is_abs (names_of (skip_seps (past_name p))))
unfolding resolve
resolve_round is_abs p dir =
    ap (λ names. resolve is_abs names dir) (names_split p)
    ∙ >>=-ext (enter is_abs (name_of p) dir) _ _ (resolve-past_name is_abs p)

loop_resolves :
    (fuel : ℕ) (is_abs : Bool) (root p : List ℕ) (dir dir' : List (List ℕ))
    → length p < fuel
    → resolve is_abs (names_of p) dir ≡ some dir'
    → loop_text fuel is_abs p (as_text root dir) ≡ as_text root dir'
unfolding loop_text resolve
loop_resolves zero is_abs root p dir dir' enough h = absurd (omega arith)
loop_resolves (suc fuel) is_abs root [] dir dir' enough h = ap (as_text root) (some-injective _ _ h)
loop_resolves (suc fuel) is_abs root (c ∷ p) dir dir' enough h =
    let name = name_of (c ∷ p) in
    let rest = skip_seps (past_name (c ∷ p)) in
    let h' = sym (resolve_round is_abs (c ∷ p) dir) ∙ h in
    elim (Option-cases (enter is_abs name dir)) [
      | inl stuck ↦ absurd (none-ne-some _ (rw stuck at h'))
      | inr (dir₁, entered) ↦
          ap (loop_text fuel is_abs rest) (component_enters is_abs root name dir dir₁ entered)
          ∙ loop_resolves fuel is_abs root rest dir₁ dir' (omega (arith, progress c p))
              (rw entered at h')
    ]

resolve-rest_of :
    (path : List ℕ)
    → resolve (starts_abs path) (names_of (rest_of path)) []
      ≡ resolve (starts_abs path) (names_of path) []
resolve-rest_of path = elim (Bool-cases (starts_abs path)) [
  | inl abs ↦ rw abs (sym (resolve-skip_seps true path []))
  | inr rel ↦ rw rel refl
]

normal_text-resolve :
    (path : List ℕ) (dir : List (List ℕ))
    → resolve (starts_abs path) (names_of path) [] ≡ some dir
    → normal_text path ≡ dir_text (root_of path) dir
normal_text-resolve path dir h =
    ap (λ t. t.text)
      (loop_resolves (suc (length path)) (starts_abs path) (root_of path) (rest_of path) [] dir
        (omega (arith, rest_size path)) (resolve-rest_of path ∙ h))

rooted_lem : (path : List ℕ) → starts_abs path ≡ rooted path
rooted_lem [] = refl
rooted_lem (c ∷ p) = refl

-- The lone backslash is a path of itself.
not_backslash :
    (path : List ℕ) (dir : List (List ℕ))
    → resolve (rooted path) (names_of path) [] ≡ some dir
    → path_of (rooted path) dir ≢ backslash
    → path ≢ backslash
unfolding resolve
not_backslash path dir h other same =
    let lone : some (backslash ∷ []) ≡ some dir =
      ap (λ p. resolve (rooted p) (names_of p) []) (sym same) ∙ h in
    other
      (ap (λ p. path_of (rooted p) dir) same ∙ ap (path_of false) (sym (some-injective _ _ lone)))

-- For a buffer with room for the path and its null, or two bytes for the empty path: when the
-- names of the path, taken one after the other, lead down to a directory of at most 256 names or
-- up to its parent, where the empty name and . stay, .. rises, the parent of the root is the root
-- and a relative path never rises above its start, and the path of that directory is not a lone
-- backslash, cpr_normalize_path leaves this path, which is a dot for the start of a relative one.
pub normalize_resolves :
    (buf : List ℕ) (buf_size : ℕ) (path : List ℕ) (dir : List (List ℕ)) (e : CprError)
    → buf_size ≤ length buf
    → min_out path ≤ buf_size
    → resolve (rooted path) (names_of path) [] ≡ some dir
    → path_of (rooted path) dir ≢ backslash
    → (tail : List ℕ) × (normalize_path (some buf) buf_size (some path) e
        ≡ some (true, some (path_of (rooted path) dir ++ (0 ∷ tail)), e))
normalize_resolves buf buf_size path dir e fits room h other =
    let (tail, ran, size) =
      normalize_bounds buf buf_size path e fits room (not_backslash path dir h other) in
    let text = normal_text-resolve path dir (rw (rooted_lem path) h) in
    let shown = final-path_of (rooted path) dir (resolved-Named (rooted path) path dir h) other in
    (
      tail,
      ran
          ∙ ap (λ t. some (true, some (final_text (starts_abs path) t ++ (0 ∷ tail)), e)) text
          ∙ ap
              (λ b. some (
                true,
                some (final_text b (dir_text (if b then b'/' ∷ [] else []) dir) ++ (0 ∷ tail)),
                e,
              ))
              (rooted_lem path)
          ∙ ap (λ t. some (true, some (t ++ (0 ∷ tail)), e)) shown,
    )
