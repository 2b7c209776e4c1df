-- ===== src/Fs/Path/Normalize/Result.antt =====
-- What `cpr_normalize_path` of src/fs.c leaves in its buffer.
use libcopper.Base.{ℕ, suc, ◌+◌, ◌≤◌, ◌<◌, ◌≡◌, ◌≢◌, refl, ap, ◌∙◌, arith, inl, inr}
use libcopper.Base.{
  Bool, true, false, not, ◌&&◌, ◌||◌, Bool-cases, List, [], ◌∷◌, ◌++◌, Option, length, some,
}
use libcopper.Base.{append_assoc, length-append, store, ◌>>=◌, ltb, lt→ltb, if◌then◌else◌, ◌==◌}
use libcopper.Error.{CprError}
use libcopper.Fs.Path.{starts_abs}
use libcopper.Fs.Path.Normalize.{Norm, name_of, past_name, skip_seps, finish, normalize_path, emit}
use libcopper.Fs.Path.Normalize.Text.{Text, component_text, shown, Shows, emit-Shows, set-append}
use libcopper.Fs.Path.Normalize.Bounds.{loop_text, loop-Shows, length-skip_seps, Room}

-- The text with the dot that is put behind an empty one, and behind a lone backslash.
unfoldable pub final_text : Bool → List ℕ → List ℕ
final_text is_abs [] = if is_abs then [] else b'.' ∷ []
final_text is_abs (c ∷ []) =
    if (c == b'/' || c == b'\\') && not is_abs then c ∷ b'.' ∷ [] else c ∷ []
final_text is_abs (c ∷ d ∷ text) = c ∷ d ∷ text

pub terminate :
    (text post : List ℕ)
    → 0 < length post
    → (tail : List ℕ) × (store (text ++ post) (length text) 0 ≡ some (text ++ (0 ∷ tail)))
      × (length (text ++ (0 ∷ tail)) ≡ length text + length post)
terminate text [] h = absurd (omega arith)
terminate text (x ∷ post) h = (
  post,
  rw
      (
        lt→ltb (length text) (length (text ++ (x ∷ post)))
            (omega (arith, length-append text (x ∷ post))),
        set-append text x 0 post,
        append_assoc text (0 ∷ []) post,
      )
      refl,
  omega (arith, length-append text (0 ∷ post)),
)

-- The buffer holds a string, and is as long as before.
abbrev pub Holds : Option (List ℕ) → List ℕ → ℕ → Type 0
Holds r text total =
    (tail : List ℕ) × (r ≡ some (text ++ (0 ∷ tail))) × (length (text ++ (0 ∷ tail)) ≡ total)

finish_dotted :
    (text ends post : List ℕ)
    → length text + 2 ≤ length text + length post
    → Holds
        (emit b'.' (shown (record { text = text; ends = ends }) post) >>= λ s. store s.mem s.pos 0)
        (text ++ (b'.' ∷ []))
        (length text + length post)
finish_dotted text ends post room =
    let (post', wrote, size) = emit-Shows b'.' text ends post (omega arith) in
    let grown = length-append text (b'.' ∷ []) in
    let (tail, stored, total) = terminate (text ++ (b'.' ∷ [])) post' (omega (arith, grown)) in
    (tail, rw wrote stored, omega arith)

pub finish-Holds :
    (is_abs : Bool) (text ends post : List ℕ)
    → length (final_text is_abs text) + 1 ≤ length text + length post
    → Holds
        (finish is_abs (shown (record { text = text; ends = ends }) post))
        (final_text is_abs text)
        (length text + length post)
unfolding finish final_text
finish-Holds true [] ends post room = terminate [] post (omega arith)
finish-Holds false [] ends post room = finish_dotted [] ends post (omega arith)
finish-Holds is_abs (c ∷ []) ends post room =
    elim (Bool-cases ((c == b'/' || c == b'\\') && not is_abs)) [
      | inl dot ↦ rw dot (
          finish_dotted (c ∷ []) ends post (
            omega (
              arith,
              ap length {x = final_text is_abs (c ∷ [])} {y = c ∷ b'.' ∷ []} (rw dot refl),
            )))
      | inr plain ↦ rw plain (
          terminate (c ∷ []) post (
            omega (arith, ap length {x = final_text is_abs (c ∷ [])} {y = c ∷ []} (rw plain refl))))
    ]
finish-Holds is_abs (c ∷ d ∷ text) ends post room =
    let not_empty : (length (c ∷ d ∷ text) == 0) ≡ false = ground arith in
    let not_one : (length (c ∷ d ∷ text) == 1) ≡ false = ground arith in
    rw (not_empty, not_one) (terminate (c ∷ d ∷ text) post (omega arith))

-- The path of a lone backslash, on which a dot does not fit.
abbrev pub backslash : List ℕ
backslash = b'\\' ∷ []

-- The text that the loop starts with, and the path that it reads.
abbrev pub root_of : List ℕ → List ℕ
root_of path = if starts_abs path then b'/' ∷ [] else []

abbrev pub rest_of : List ℕ → List ℕ
rest_of path = if starts_abs path then skip_seps path else path

abbrev pub normal_state : List ℕ → Text
normal_state path =
    loop_text (suc (length path)) (starts_abs path) (rest_of path)
      (record { text = root_of path; ends = [] })

abbrev pub normal_text : List ℕ → List ℕ
normal_text path = (normal_state path).text

abbrev pub min_out : List ℕ → ℕ
min_out path = if length path == 0 then 2 else length path + 1

-- The dot makes up for a text that is shorter than its path.
final_size :
    (n : ℕ) (is_abs : Bool) (text : List ℕ)
    → length text ≤ n
    → 2 ≤ n
    → length (final_text is_abs text) ≤ n
unfolding final_text
final_size n true [] h k = omega (arith, k)
final_size n false [] h k = omega (arith, k)
final_size n is_abs (c ∷ []) h k = elim (Bool-cases ((c == b'/' || c == b'\\') && not is_abs)) [
  | inl dot ↦ rw dot k
  | inr plain ↦ rw plain h
]
final_size n is_abs (c ∷ d ∷ text) h k = h

final_size_abs : (text : List ℕ) → length (final_text true text) ≡ length text
unfolding final_text
final_size_abs [] = refl
final_size_abs (c ∷ []) = elim (Bool-cases (c == b'/' || c == b'\\')) [
  | inl slash ↦ rw slash refl
  | inr plain ↦ rw plain refl
]
final_size_abs (c ∷ d ∷ text) = refl

-- A path of one character that is no separator and no backslash.
one_component :
    (c : ℕ)
    → (c == b'/') ≡ false
    → let start : Text = record { text = []; ends = [] } in
      (loop_text 2 false (c ∷ []) start).text ≡ (if c == b'.' then [] else c ∷ [])
unfolding loop_text
one_component c no_sep =
    let start : Text = record { text = []; ends = [] } in
    let name : name_of (c ∷ []) ≡ c ∷ [] = rw no_sep refl in
    let rest : skip_seps (past_name (c ∷ [])) ≡ [] = rw no_sep refl in
    let stepped : (component_text false (c ∷ []) start).text ≡ (if c == b'.' then [] else c ∷ []) =
      elim (Bool-cases (c == b'.')) [ inl dot ↦ rw dot refl | inr other ↦ rw other refl ] in
    ap (λ p. (loop_text 1 false p (component_text false (name_of (c ∷ [])) start)).text) rest
    ∙ ap (λ n. (component_text false n start).text) name
    ∙ stepped

-- What the loop leaves is no longer than the path.
start-Room : (path : List ℕ) → Room (length path) (root_of path) (rest_of path)
start-Room [] = (omega arith, inl refl)
start-Room (c ∷ p) = elim (Bool-cases (c == b'/')) [
  | inl sep ↦ rw sep (omega arith, inr (omega (arith, length-skip_seps p)))
  | inr other ↦ rw other (omega arith, inr (omega arith))
]

pub rest_size : (path : List ℕ) → length (rest_of path) ≤ length path
rest_size path = elim (Bool-cases (starts_abs path)) [
  | inl abs ↦ rw abs (length-skip_seps path)
  | inr rel ↦ rw rel (omega arith)
]

short_abs :
    (is_abs : Bool) (text : List ℕ)
    → is_abs ≡ true
    → length text ≤ 1
    → length (final_text is_abs text) ≤ 1
short_abs is_abs text abs h = rw abs (omega (arith, final_size_abs text))

short_rel :
    (c : ℕ) (is_abs : Bool) (text : List ℕ)
    → is_abs ≡ false
    → (c == b'\\') ≡ false
    → (c == b'/') ≡ false
    → text ≡ (if c == b'.' then [] else c ∷ [])
    → length (final_text is_abs text) ≤ 1
unfolding final_text
short_rel c is_abs text rel no_back no_sep same = elim (Bool-cases (c == b'.')) [
  | inl dot ↦ rw (rel, same, dot) (omega arith)
  | inr other ↦ rw (rel, same, other, no_sep, no_back) (omega arith)
]

-- The text that the loop leaves, with its dot and its null, needs no more than the path does.
final_one :
    (c : ℕ)
    → (c ∷ []) ≢ backslash
    → length (normal_text (c ∷ [])) ≤ 1
    → length (final_text (starts_abs (c ∷ [])) (normal_text (c ∷ []))) ≤ 1
final_one c other h = elim (Bool-cases (c == b'/')) [
  | inl sep ↦ short_abs (starts_abs (c ∷ [])) (normal_text (c ∷ [])) sep h
  | inr no_sep ↦ elim (Bool-cases (c == b'\\')) [
    | inl back ↦ let same : c ≡ 92 = ground arith in absurd (other (ap (λ d. d ∷ []) same))
    | inr no_back ↦ short_rel c (starts_abs (c ∷ [])) (normal_text (c ∷ [])) no_sep no_back no_sep (
        ap
          (λ b.
            (loop_text 2 b (if b then skip_seps (c ∷ []) else c ∷ [])
              (record { text = if b then b'/' ∷ [] else []; ends = [] })).text)
          no_sep
        ∙ one_component c no_sep)
  ]
]

final_fits :
    (path : List ℕ)
    → path ≢ backslash
    → length (normal_text path) ≤ length path
    → length (final_text (starts_abs path) (normal_text path)) + 1 ≤ min_out path
unfolding final_text loop_text
final_fits [] other h = omega arith
final_fits (c ∷ []) other h = omega (arith, final_one c other h)
final_fits (c ∷ d ∷ path) other h =
    let not_empty : (length (c ∷ d ∷ path) == 0) ≡ false = ground arith in
    let size =
      final_size (length (c ∷ d ∷ path)) (starts_abs (c ∷ d ∷ path)) (normal_text (c ∷ d ∷ path)) h
        (omega arith) in
    rw not_empty (omega (arith, size))

-- The root that is written first.
root-Shows :
    (is_abs : Bool) (buf : List ℕ)
    → 1 ≤ length buf
    → let fresh : Norm = record { mem = buf; pos = 0; ends = [] } in
      Shows
        (if is_abs then emit b'/' fresh else some fresh)
        (record { text = if is_abs then b'/' ∷ [] else []; ends = [] })
        (length buf)
root-Shows true buf h =
    let (post, wrote, size) = emit-Shows b'/' [] [] buf (omega arith) in
    (post, wrote, omega (arith, size))
root-Shows false buf h = (buf, refl, omega arith)

min_out_size : (path : List ℕ) → (length path + 1 ≤ min_out path) × (2 ≤ min_out path)
min_out_size [] = omega arith
min_out_size (c ∷ path) =
    let not_empty : (length (c ∷ path) == 0) ≡ false = ground arith in rw not_empty (omega arith)

pub normalize_bounds :
    (buf : List ℕ) (buf_size : ℕ) (path : List ℕ) (e : CprError)
    → buf_size ≤ length buf
    → min_out path ≤ buf_size
    → path ≢ backslash
    → (tail : List ℕ) × (normalize_path (some buf) buf_size (some path) e
        ≡ some (true, some (final_text (starts_abs path) (normal_text path) ++ (0 ∷ tail)), e))
      × (length (final_text (starts_abs path) (normal_text path) ++ (0 ∷ tail)) ≡ length buf)
unfolding normalize_path
normalize_bounds buf buf_size path e fits room other =
    let is_abs = starts_abs path in
    let least = min_out_size path in
    let given : (buf_size == 0) ≡ false = ground arith in
    let enough : ltb buf_size (min_out path) ≡ false = ground arith in
    let (post, rooted, size) = root-Shows is_abs buf (omega arith) in
    let ((post', walked, size'), below) =
      loop-Shows (length path) (suc (length path)) is_abs (rest_of path) (root_of path) [] post
        (omega (arith, rest_size path)) tt (start-Room path) (omega (arith, least, size)) in
    let short = final_fits path other below in
    let (tail, finished, total) =
      finish-Holds is_abs (normal_text path) (normal_state path).ends post'
        (omega (arith, size, size', short)) in
    (tail, rw (given, enough, rooted, walked, finished) refl, omega (arith, total, size, size'))
