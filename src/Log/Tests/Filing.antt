-- ===== src/Log/Tests/Filing.antt =====
-- A system with files in memory, for the rotation of src/log.c.
use libcopper.Base.{
  ℕ, zero, suc, ◌+◌, ◌≤◌, ◌≡◌, ◌≢◌, refl, ap, ◌∙◌, arith, inl, inr, Bool, true, false, ◌&&◌,
  Bool-cases,
}
use libcopper.Base.{Option, none, some, List, [], ◌∷◌, length, get_or, ◌==◌, if◌then◌else◌}
use libcopper.Fs.Os.{Os}
use libcopper.Fs.Tests.Systems.{empty_os}
use libcopper.Log.FileSink.{numbered}
use libcopper.Log.FileSink.Rotate.{Files, Apart}

abbrev Disk : Type 0
Disk = List ℕ → Option (List ℕ)

abbrev same_text : List ℕ → List ℕ → Bool
same_text [] [] = true
same_text [] (d ∷ q) = false
same_text (c ∷ p) [] = false
same_text (c ∷ p) (d ∷ q) = (c == d) && same_text p q

same_text-true : (p : List ℕ) → same_text p p ≡ true
same_text-true [] = refl
same_text-true (c ∷ p) = let same : (c == c) ≡ true = ground arith in rw same (same_text-true p)

same_text-false : (p q : List ℕ) → p ≢ q → same_text p q ≡ false
same_text-false [] [] other = absurd (other refl)
same_text-false [] (d ∷ q) other = refl
same_text-false (c ∷ p) [] other = refl
same_text-false (c ∷ p) (d ∷ q) other = elim (Bool-cases (c == d)) [
  | inl same ↦
      let equal : c ≡ d = ground arith in
      rw same (same_text-false p q (λ h. other (ap (λ x. x ∷ p) equal ∙ ap (λ t. d ∷ t) h)))
  | inr apart ↦ rw apart refl
]

abbrev put : List ℕ → Option (List ℕ) → Disk → Disk
put path value w q = if same_text q path then value else w q

abbrev pub filing : Os Disk
filing = record (empty_os Disk) {
  rename = λ old new w. (true, put new (w old) (put old none w));
  unlink = λ path w. (true, put path none w);
  fopen = λ path mode w. (some 0, put path (some []) w);
}

put_here : (path : List ℕ) (value : Option (List ℕ)) (w : Disk) → put path value w path ≡ value
put_here path value w = rw (same_text-true path) refl

put_there :
    (path : List ℕ) (value : Option (List ℕ)) (w : Disk) (q : List ℕ)
    → q ≢ path
    → put path value w q ≡ w q
put_there path value w q other = rw (same_text-false q path other) refl

pub filing-Files : Files filing (λ w q. w q)
filing-Files = record {
  rename_target = λ old new w free. put_here new (w old) (put old none w);
  rename_source =
      λ old new w other. put_there new (w old) (put old none w) old other ∙ put_here old none w;
  rename_others = λ old new q w not_old not_new.
      put_there new (w old) (put old none w) q not_new ∙ put_there old none w q not_old;
  unlink_gone = λ path w. put_here path none w;
  unlink_others = λ path q w other. put_there path none w q other;
  fopen_others = λ path q mode w other. put_there path (some []) w q other;
  fclose_keeps = λ fp q w. refl;
  malloc_keeps = λ q w. refl;
  free_keeps = λ block q w. refl;
}

-- "l"
abbrev pub log_path : List ℕ
log_path = b'l' ∷ []

digit_lem : (i : ℕ) → i ≤ 2 → get_or (numbered log_path i) 2 0 ≡ 48 + i
unfolding numbered
digit_lem zero h = refl
digit_lem (suc zero) h = refl
digit_lem (suc (suc zero)) h = refl
digit_lem (suc (suc (suc i))) h = absurd (omega (arith, h))

length-numbered : (i : ℕ) → i ≤ 2 → length (numbered log_path i) ≡ 3
unfolding numbered
length-numbered zero h = refl
length-numbered (suc zero) h = refl
length-numbered (suc (suc zero)) h = refl
length-numbered (suc (suc (suc i))) h = absurd (omega (arith, h))

pub log_path-Apart : Apart log_path 2
log_path-Apart i j a b same =
    omega (arith, digit_lem i a, digit_lem j b, ap (λ t. get_or t 2 0) same)

pub log_path-other : (i : ℕ) → i ≤ 2 → log_path ≢ numbered log_path i
log_path-other i h same = omega (arith, length-numbered i h, ap length same)
