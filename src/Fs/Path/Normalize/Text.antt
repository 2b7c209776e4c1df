-- ===== src/Fs/Path/Normalize/Text.antt =====
-- What `cpr_normalize_path` of src/fs.c has written so far, as a text: the same steps on the text,
-- and the buffer that shows it.
use libcopper.Base.{ℕ, ◌+◌, ◌-◌, ◌≤◌, ◌≡◌, refl, sym, ap, ◌∙◌, arith, inl, inr}
use libcopper.Base.{
  Bool, true, false, not, Bool-cases, List, [], ◌∷◌, ◌++◌, length, take, drop, set, some,
}
use libcopper.Base.{
  append_assoc, length-append, length-take, length-drop, take-append-drop, take-length,
}
use libcopper.Base.{
  memcpy_in_range, write_at, write_at-append, write_at_front, get_elem?, lt→ltb, if◌then◌else◌,
  ◌==◌,
}
use libcopper.Base.{Option, memcpy}
use libcopper.Fs.Path.{is_sep, ends_open}
use libcopper.Fs.Path.Normalize.{
  Norm, emit, add_sep, remember, is_dot, is_dotdot, climb, descend, component,
}

pub record Text : Type 0 where
  pub text : List ℕ
  pub ends : List ℕ

-- The buffer in which the text stands in front of `post`.
abbrev pub shown : Text → List ℕ → Norm
shown t post = record { mem = t.text ++ post; pos = length t.text; ends = t.ends }

-- A separator behind a text that is not empty and does not end with one.
abbrev pub with_sep : List ℕ → List ℕ
with_sep text = if ends_open text then text ++ (b'/' ∷ []) else text

abbrev pub climbed : Bool → List ℕ → Text → Text
climbed is_abs (end ∷ ends) t = record { text = take end t.text; ends = ends }
climbed true [] t = t
climbed false [] t =
    let text = with_sep t.text ++ (b'.' ∷ b'.' ∷ []) in
    record { text = text; ends = remember (length text) [] }

abbrev pub named : List ℕ → Text → Text
named name t = record { text = with_sep t.text ++ name; ends = remember (length t.text) t.ends }

abbrev pub component_text : Bool → List ℕ → Text → Text
component_text is_abs name t =
    if is_dot name then t else if is_dotdot name then climbed is_abs t.ends t else named name t

pub set-append :
    (pre : List ℕ) (x c : ℕ) (post : List ℕ)
    → set (pre ++ (x ∷ post)) (length pre) c ≡ (pre ++ (c ∷ [])) ++ post
set-append [] x c post = refl
set-append (y ∷ pre) x c post = ap (λ t. y ∷ t) (set-append pre x c post)

-- A step leaves a buffer of `total` bytes that shows the text `t`.
abbrev pub Shows : Option Norm → Text → ℕ → Type 0
Shows r t total =
    (post : List ℕ) × (r ≡ some (shown t post)) × (length t.text + length post ≡ total)

pub emit-Shows :
    (c : ℕ) (text ends post : List ℕ)
    → length text + 1 ≤ length text + length post
    → Shows
        (emit c (shown (record { text = text; ends = ends }) post))
        (record { text = text ++ (c ∷ []); ends = ends })
        (length text + length post)
emit-Shows c text ends [] h = absurd (omega arith)
emit-Shows c text ends (x ∷ post) h = (
  post,
  rw
      (
        lt→ltb (length text) (length (text ++ (x ∷ post)))
            (omega (arith, length-append text (x ∷ post))),
        set-append text x c post,
        length-append text (c ∷ []),
      )
      refl,
  omega (arith, length-append text (c ∷ [])),
)

-- The character before the end of a text.
last_lem :
    (x : ℕ) (text post : List ℕ)
    → (d : ℕ) × (get_elem? ((x ∷ text) ++ post) (length text) ≡ some d)
      × (ends_open (x ∷ text) ≡ not (is_sep d))
last_lem x [] post = (x, refl, refl)
last_lem x (y ∷ text) post = last_lem y text post

pub add_sep-Shows :
    (text ends post : List ℕ)
    → length (with_sep text) ≤ length text + length post
    → Shows
        (add_sep (shown (record { text = text; ends = ends }) post))
        (record { text = with_sep text; ends = ends })
        (length text + length post)
unfolding add_sep
add_sep-Shows [] ends post h = (post, refl, refl)
add_sep-Shows (x ∷ text) ends post h =
    let (d, found, open_end) = last_lem x text post in
    let some_text : (length (x ∷ text) == 0) ≡ false = ground arith in
    let before : get_elem? ((x ∷ text) ++ post) (length (x ∷ text) - 1) ≡ some d =
      ap (get_elem? ((x ∷ text) ++ post)) {y = length text} (omega arith) ∙ found in
    elim (Bool-cases (is_sep d)) [
      | inl closed ↦
          (post, rw (some_text, before, open_end, closed) refl, rw (open_end, closed) refl)
      | inr opened ↦
          let room : length (x ∷ text) + 1 ≤ length (x ∷ text) + length post = omega (
            arith,
            length-append (x ∷ text) (b'/' ∷ []),
            ap length {x = with_sep (x ∷ text)} {y = (x ∷ text) ++ (b'/' ∷ [])}
                (rw (open_end, opened) refl),
          ) in
          let (post', wrote, size) = emit-Shows b'/' (x ∷ text) ends post room in
          (post', rw (some_text, before, open_end, opened) wrote, rw (open_end, opened) size)
    ]

pub copy-Shows :
    (name text ends post : List ℕ)
    → length text + length name ≤ length text + length post
    → (post' : List ℕ) × (memcpy (text ++ post) (length text) name 0 (length name)
        ≡ some ((text ++ name) ++ post'))
      × (length text + length name + length post' ≡ length text + length post)
copy-Shows name text ends post h = (
  drop (length name) post,
  memcpy_in_range (text ++ post) (length text) name 0 (length name)
        (omega (arith, length-append text post)) (omega arith)
      ∙ ap (λ t. some (write_at (text ++ post) (length text) t)) (take-length name)
      ∙ ap some (
          write_at-append text post name
          ∙ ap (λ t. text ++ t) (write_at_front post name (omega arith))
          ∙ sym (append_assoc text name (drop (length name) post))),
  omega (arith, length-drop (length name) post),
)

-- The remembered positions lie in the text.
abbrev pub Below : ℕ → List ℕ → Type 0
Below n [] = Unit
Below n (end ∷ ends) = (end ≤ n) × Below n ends

pub sep_grows :
    (text : List ℕ)
    → (length text ≤ length (with_sep text)) × (length (with_sep text) ≤ length text + 1)
sep_grows text = elim (Bool-cases (ends_open text)) [
  | inl opened ↦ rw opened (omega (arith, length-append text (b'/' ∷ [])))
  | inr closed ↦ rw closed (omega arith)
]

pop-Shows :
    (end : ℕ) (ends text post : List ℕ) (old : List ℕ)
    → end ≤ length text
    → Shows
        (some (record { mem = text ++ post; pos = end; ends = ends }))
        (record { text = take end text; ends = ends })
        (length text + length post)
pop-Shows end ends text post old h =
    let size : length (take end text) ≡ end = omega (arith, length-take end text) in
    let same : take end text ++ (drop end text ++ post) ≡ text ++ post =
      sym (append_assoc (take end text) (drop end text) post)
      ∙ ap (λ t. t ++ post) (take-append-drop end text) in
    (
      drop end text ++ post,
      rw (same, size) refl,
      omega (arith, size, length-append (drop end text) post, length-drop end text),
    )

climb-Shows :
    (is_abs : Bool) (text ends post : List ℕ)
    → Below (length text) ends
    → let t : Text = record { text = text; ends = ends } in
      length (climbed is_abs ends t).text ≤ length text + length post
      → Shows (climb is_abs ends (shown t post)) (climbed is_abs ends t) (length text + length post)
unfolding climb
climb-Shows is_abs text (end ∷ ends) post below h = pop-Shows end ends text post ends below.0
climb-Shows true text [] post below h = (post, refl, refl)
climb-Shows false text [] post below h =
    let s = with_sep text in
    let grown : length (s ++ (b'.' ∷ b'.' ∷ [])) ≡ length s + 2 =
      omega (arith, length-append s (b'.' ∷ b'.' ∷ [])) in
    let (p₁, w₁, n₁) = add_sep-Shows text [] post (omega arith) in
    let (p₂, w₂, n₂) = emit-Shows b'.' s [] p₁ (omega arith) in
    let one : length (s ++ (b'.' ∷ [])) ≡ length s + 1 =
      omega (arith, length-append s (b'.' ∷ [])) in
    let (p₃, w₃, n₃) = emit-Shows b'.' (s ++ (b'.' ∷ [])) [] p₂ (omega arith) in
    let joined : (s ++ (b'.' ∷ [])) ++ (b'.' ∷ []) ≡ s ++ (b'.' ∷ b'.' ∷ []) =
      append_assoc s (b'.' ∷ []) (b'.' ∷ []) in
    (p₃, rw (w₁, w₂, w₃, joined) refl, omega (arith, ap length joined))

descend-Shows :
    (name text ends post : List ℕ)
    → let t : Text = record { text = text; ends = ends } in
      length (named name t).text ≤ length text + length post
      → Shows (descend name (shown t post)) (named name t) (length text + length post)
unfolding descend
descend-Shows name text ends post h =
    let s = with_sep text in
    let grown = length-append s name in
    let (p₁, w₁, n₁) = add_sep-Shows text ends post (omega arith) in
    let (p₂, w₂, n₂) = copy-Shows name s ends p₁ (omega arith) in
    (p₂, rw (w₁, w₂, grown) refl, omega arith)

pub component-Shows :
    (is_abs : Bool) (name text ends post : List ℕ)
    → Below (length text) ends
    → let t : Text = record { text = text; ends = ends } in
      length (component_text is_abs name t).text ≤ length text + length post
      → Shows
          (component is_abs name (shown t post))
          (component_text is_abs name t)
          (length text + length post)
unfolding component
component-Shows is_abs name text ends post below h = elim (Bool-cases (is_dot name)) [
  | inl dot ↦ rw dot (post, refl, refl)
  | inr no_dot ↦ elim (Bool-cases (is_dotdot name)) [
    | inl dotdot ↦
        rw (no_dot, dotdot) (climb-Shows is_abs text ends post below (rw (no_dot, dotdot) at h))
    | inr other ↦ rw (no_dot, other) (descend-Shows name text ends post (rw (no_dot, other) at h))
  ]
]
