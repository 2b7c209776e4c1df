-- ===== src/Fs/Path/Normalize/Shown.antt =====
-- `cpr_normalize_path` of src/fs.c puts its dot where the path of a directory has one.
use libcopper.Base.{ℕ, ◌<◌, ◌≡◌, ◌≢◌, refl, ap, arith, inl, inr}
use libcopper.Base.{Bool, true, false, ◌||◌, Bool-cases, List, [], ◌∷◌, ◌++◌, length, ◌==◌}
use libcopper.Base.{length-append, if◌then◌else◌}
use libcopper.Fs.Path.Normalize.Text.{with_sep}
use libcopper.Fs.Path.Normalize.Result.{backslash, final_text}
use libcopper.Fs.Path.Normalize.Meaning.{dir_text, path_of, Named, text_differs}

-- The dot is only put where it belongs, unless the text is a lone backslash.
final_text_abs : (text : List ℕ) → final_text true text ≡ text
unfolding final_text
final_text_abs [] = refl
final_text_abs (c ∷ []) = elim (Bool-cases (c == b'/' || c == b'\\')) [
  | inl slash ↦ rw slash refl
  | inr plain ↦ rw plain refl
]
final_text_abs (c ∷ d ∷ text) = refl

final_text_rel :
    (text : List ℕ)
    → 0 < length text
    → text ≢ b'/' ∷ []
    → text ≢ backslash
    → final_text false text ≡ text
unfolding final_text
final_text_rel [] h no_sep no_back = absurd (omega arith)
final_text_rel (c ∷ []) h no_sep no_back =
    let a : (c == b'/') ≡ false = elim (Bool-cases (c == b'/')) [
      | inl same ↦ let e : c ≡ b'/' = ground arith in absurd (no_sep (ap (λ d. d ∷ []) e))
      | inr other ↦ other
    ] in
    let b : (c == b'\\') ≡ false = elim (Bool-cases (c == b'\\')) [
      | inl same ↦ let e : c ≡ b'\\' = ground arith in absurd (no_back (ap (λ d. d ∷ []) e))
      | inr other ↦ other
    ] in
    rw (a, b) refl
final_text_rel (c ∷ d ∷ text) h no_sep no_back = refl

-- What is shown of a directory.
pub final-path_of :
    (is_abs : Bool) (dir : List (List ℕ))
    → Named dir
    → path_of is_abs dir ≢ backslash
    → final_text is_abs (dir_text (if is_abs then b'/' ∷ [] else []) dir) ≡ path_of is_abs dir
unfolding final_text
final-path_of true dir named other = final_text_abs (dir_text (b'/' ∷ []) dir)
final-path_of false [] named other = refl
final-path_of false (name ∷ dir) named other =
    let before = with_sep (dir_text [] dir) in
    final_text_rel (before ++ name) (omega (arith, named.0, length-append before name))
      (text_differs before name (named.0) (named.1)) other
