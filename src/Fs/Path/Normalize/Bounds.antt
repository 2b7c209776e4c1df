-- ===== src/Fs/Path/Normalize/Bounds.antt =====
-- `cpr_normalize_path` of src/fs.c ends and stays inside its buffer, except on one path.
use libcopper.Base.{ℕ, zero, suc, ◌+◌, ◌≤◌, ◌<◌, ◌≡◌, refl, ap, arith, ◌⊎◌, inl, inr}
use libcopper.Base.{Bool, true, false, Bool-cases, List, [], ◌∷◌, length, take}
use libcopper.Base.{length-append, length-take, ltb}
use libcopper.Fs.Path.{is_sep}
use libcopper.Fs.Path.Normalize.{
  remember, is_dot, is_dotdot, name_of, past_name, skip_seps, normalize_loop,
}
use libcopper.Fs.Path.Normalize.Text.{
  Text, shown, with_sep, sep_grows, climbed, named, component_text, Shows, Below, component-Shows,
}

length-name_of : (p : List ℕ) → length (name_of p) + length (past_name p) ≡ length p
length-name_of [] = refl
length-name_of (c ∷ p) = elim (Bool-cases (is_sep c)) [
  | inl sep ↦ rw sep (omega arith)
  | inr other ↦ rw other (omega (arith, length-name_of p))
]

pub length-skip_seps : (p : List ℕ) → length (skip_seps p) ≤ length p
length-skip_seps [] = omega arith
length-skip_seps (c ∷ p) = elim (Bool-cases (is_sep c)) [
  | inl sep ↦ rw sep (omega (arith, length-skip_seps p))
  | inr other ↦ rw other (omega arith)
]

-- Behind a name there is nothing, or at least one separator.
past_name_cases :
    (p : List ℕ)
    → (past_name p ≡ []) ⊎ (length (skip_seps (past_name p)) + 1 ≤ length (past_name p))
past_name_cases [] = inl refl
past_name_cases (c ∷ p) = elim (Bool-cases (is_sep c)) [
  | inl sep ↦ inr (rw (sep, sep) (omega (arith, length-skip_seps p)))
  | inr other ↦ rw other (past_name_cases p)
]

-- Each round passes at least one character.
pub progress : (c : ℕ) (p : List ℕ) → length (skip_seps (past_name (c ∷ p))) ≤ length p
progress c p = elim (Bool-cases (is_sep c)) [
  | inl sep ↦ rw (sep, sep) (length-skip_seps p)
  | inr other ↦ rw other (omega (arith, length-name_of p, length-skip_seps (past_name p)))
]

Below-mono : (m n : ℕ) (ends : List ℕ) → m ≤ n → Below m ends → Below n ends
Below-mono m n [] h b = tt
Below-mono m n (end ∷ ends) h b = (omega (arith, b), Below-mono m n ends h b.1)

remember-Below : (m n : ℕ) (ends : List ℕ) → m ≤ n → Below n ends → Below n (remember m ends)
remember-Below m n ends h b = elim (Bool-cases (ltb (length ends) 256)) [
  | inl room ↦ rw room (h, b)
  | inr full ↦ rw full b
]

-- Popping leaves no position past the end, as each lies below the one on top of it.
abbrev pub Ordered : ℕ → List ℕ → Type 0
Ordered n [] = Unit
Ordered n (end ∷ ends) = (end ≤ n) × Ordered end ends

Ordered-Below : (n : ℕ) (ends : List ℕ) → Ordered n ends → Below n ends
Ordered-Below n [] o = tt
Ordered-Below n (end ∷ ends) o = (o.0, Below-mono end n ends o.0 (Ordered-Below end ends o.1))

Ordered-mono : (m n : ℕ) (ends : List ℕ) → m ≤ n → Ordered m ends → Ordered n ends
Ordered-mono m n [] h o = tt
Ordered-mono m n (end ∷ ends) h o = (omega (arith, o), o.1)

remember-Ordered : (m n : ℕ) (ends : List ℕ) → m ≤ n → Ordered m ends → Ordered n (remember m ends)
remember-Ordered m n ends h o = elim (Bool-cases (ltb (length ends) 256)) [
  | inl room ↦ rw room (h, o)
  | inr full ↦ rw full (Ordered-mono m n ends h o)
]

-- A component adds no more than a separator and itself.
abbrev Fits : ℕ → Text → Type 0
Fits n t = (length t.text ≤ n) × Ordered (length t.text) t.ends

climbed-Fits :
    (is_abs : Bool) (text ends : List ℕ)
    → Ordered (length text) ends
    → Fits (length (with_sep text) + 2) (climbed is_abs ends (record { text = text; ends = ends }))
climbed-Fits is_abs text (end ∷ ends) o =
    let size : length (take end text) ≡ end = omega (arith, length-take end text, o) in
    (omega (arith, size, o, sep_grows text), Ordered-mono end _ ends (omega (arith, size)) o.1)
climbed-Fits true text [] o = (omega (arith, sep_grows text), tt)
climbed-Fits false text [] o =
    let grown = length-append (with_sep text) (b'.' ∷ b'.' ∷ []) in
    (omega (arith, grown), remember-Ordered _ _ [] (omega arith) tt)

named-Fits :
    (name text ends : List ℕ)
    → Ordered (length text) ends
    → Fits (length (with_sep text) + length name) (named name (record { text = text; ends = ends }))
named-Fits name text ends o =
    let grown = length-append (with_sep text) name in
    (
      omega (arith, grown),
      remember-Ordered (length text) _ ends (omega (arith, grown, sep_grows text)) o,
    )

component_text-Fits :
    (is_abs : Bool) (name text ends : List ℕ)
    → Ordered (length text) ends
    → Fits
        (length (with_sep text) + length name)
        (component_text is_abs name (record { text = text; ends = ends }))
component_text-Fits is_abs name text ends o = elim (Bool-cases (is_dot name)) [
  | inl dot ↦ rw dot (omega (arith, sep_grows text), o)
  | inr no_dot ↦ elim (Bool-cases (is_dotdot name)) [
    | inl dotdot ↦
        let two : length name ≡ 2 = ground arith in
        rw (no_dot, dotdot, two) (climbed-Fits is_abs text ends o)
    | inr other ↦ rw (no_dot, other) (named-Fits name text ends o)
  ]
]

-- The loop on the text
unfoldable pub loop_text : ℕ → Bool → List ℕ → Text → Text
loop_text zero is_abs p t = t
loop_text (suc fuel) is_abs [] t = t
loop_text (suc fuel) is_abs (c ∷ p) t =
    loop_text fuel is_abs (skip_seps (past_name (c ∷ p)))
      (component_text is_abs (name_of (c ∷ p)) t)

-- There is room for what is left of the path.
abbrev pub Room : ℕ → List ℕ → List ℕ → Type 0
Room n text p = (length text ≤ n) × ((p ≡ []) ⊎ (length (with_sep text) + length p ≤ n))

pub loop-Shows :
    (n fuel : ℕ) (is_abs : Bool) (p text ends post : List ℕ)
    → length p < fuel
    → Ordered (length text) ends
    → Room n text p
    → n ≤ length text + length post
    → let t : Text = record { text = text; ends = ends } in
      Shows
        (normalize_loop fuel is_abs p (shown t post))
        (loop_text fuel is_abs p t)
        (length text + length post)
      × (length (loop_text fuel is_abs p t).text ≤ n)
unfolding normalize_loop loop_text
loop-Shows n zero is_abs p text ends post enough o room size = absurd (omega arith)
loop-Shows n (suc fuel) is_abs [] text ends post enough o room size = ((post, refl, refl), room.0)
loop-Shows n (suc fuel) is_abs (c ∷ p) text ends post enough o room size =
    let name = name_of (c ∷ p) in
    let rest = skip_seps (past_name (c ∷ p)) in
    let t' = component_text is_abs name (record { text = text; ends = ends }) in
    let fits : Fits (length (with_sep text) + length name) t' =
      component_text-Fits is_abs name text ends o in
    let enough_room : length (with_sep text) + length (c ∷ p) ≤ n = elim (room.1) [
      | inl empty ↦ absurd (cc)
      | inr there ↦ there
    ] in
    let size_name = length-name_of (c ∷ p) in
    let (post', stepped, size') =
      component-Shows is_abs name text ends post (Ordered-Below _ ends o)
        (omega (arith, fits, size_name)) in
    let room' : Room n t'.text rest = (
      omega (arith, fits, size_name),
      elim (past_name_cases (c ∷ p)) [
        | inl over ↦ inl (ap skip_seps over)
        | inr more ↦ inr (omega (arith, fits, size_name, more, sep_grows t'.text))
      ],
    ) in
    let (shows, below) =
      loop-Shows n fuel is_abs rest t'.text t'.ends post' (omega (arith, progress c p)) fits.1 room'
        (omega arith) in
    let (last, ran, size'') = shows in ((last, rw stepped ran, omega (arith, size', size'')), below)
