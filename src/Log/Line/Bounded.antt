-- ===== src/Log/Line/Bounded.antt =====
-- What the formatters of src/log.c leave in their buffer.
use libcopper.Base.{ℕ, zero, suc, ◌+◌, ◌-◌, ◌^◌, ◌≤◌, ◌<◌, ◌≡◌, refl, sym, ap, ◌∙◌, arith, inl, inr}
use libcopper.Base.{true, false, Bool-cases, some, List, [], ◌∷◌, ◌++◌, length, take, drop}
use libcopper.Base.{
  append_assoc, length-append, length-take, take-append-drop, take-all, ltb, leb, ◌==◌,
  if◌then◌else◌,
}
use libcopper.Fs.Path.Normalize.Text.{copy-Shows}
use libcopper.Fs.Path.Normalize.Result.{Holds, terminate}
use libcopper.Log.Line.{out_marker, write_marker, snprintf, format_finish, print_line}

-- The line for a buffer of `n` bytes: the text, or as much of it as leaves room for the marker.
abbrev pub bounded : ℕ → List ℕ → List ℕ
bounded n text = if ltb (length text) n then text else take (n - 8) text ++ out_marker

snprintf_lem :
    (buf text : List ℕ) (n : ℕ)
    → 1 ≤ n
    → n ≤ length buf
    → Holds (snprintf buf n text) (take (n - 1) text) (length buf)
snprintf_lem buf text n positive fits =
    let given : (n == 0) ≡ false = ground arith in
    let cut = take (n - 1) text in
    let size : length cut + 1 ≤ n = omega (arith, length-take (n - 1) text) in
    let (post, copied, total) = copy-Shows cut [] [] buf (omega arith) in
    let (tail, ended, total') = terminate cut post (omega (arith, total)) in
    (tail, rw (given, copied, ended) refl, omega (arith, total, total'))

marker_lem :
    (n : ℕ) (kept rest : List ℕ)
    → length kept + 8 ≡ n
    → n ≤ length kept + length rest
    → Holds
        (write_marker (kept ++ rest) n out_marker)
        (kept ++ out_marker)
        (length kept + length rest)
unfolding write_marker
marker_lem n kept rest size fits =
    let given : (n == 0) ≡ false = ground arith in
    let enough : leb (length out_marker + 1) n ≡ true = ground arith in
    let grown = length-append kept out_marker in
    let (post, copied, total) = copy-Shows out_marker kept [] rest (omega arith) in
    let (tail, ended, total') = terminate (kept ++ out_marker) post (omega (arith, total)) in
    let at : n - 1 - length out_marker ≡ length kept = omega arith in
    let last : n - 1 ≡ length (kept ++ out_marker) = omega (arith, grown) in
    (tail, rw (given, enough, at, copied, last) ended, omega (arith, total, total', grown))

take-take : (k m : ℕ) (xs : List ℕ) → k ≤ m → take k (take m xs) ≡ take k xs
take-take zero m xs h = refl
take-take (suc k) zero xs h = absurd (omega arith)
take-take (suc k) (suc m) [] h = refl
take-take (suc k) (suc m) (x ∷ xs) h = ap (λ t. x ∷ t) (take-take k m xs (omega arith))

cut_lem :
    (n : ℕ) (text tail : List ℕ)
    → take (n - 1) text ++ (0 ∷ tail)
      ≡ take (n - 8) text ++ (drop (n - 8) (take (n - 1) text) ++ (0 ∷ tail))
cut_lem n text tail =
    let cut = take (n - 1) text in
    ap (λ t. t ++ (0 ∷ tail)) (sym (take-append-drop (n - 8) cut))
    ∙ append_assoc (take (n - 8) cut) (drop (n - 8) cut) (0 ∷ tail)
    ∙ ap (λ t. t ++ (drop (n - 8) cut ++ (0 ∷ tail))) (take-take (n - 8) (n - 1) text (omega arith))

short_line :
    (buf text : List ℕ) (n : ℕ)
    → 8 ≤ n
    → n ≤ length buf
    → length text < 2 ^ 31
    → length text < n
    → (tail : List ℕ) × (print_line buf n text ≡ some (length text, text ++ (0 ∷ tail), false))
      × (length (text ++ (0 ∷ tail)) ≡ length buf)
unfolding print_line format_finish
short_line buf text n least fits small short =
    let counted : ltb (length text) (2 ^ 31) ≡ true = ground arith in
    let whole : take (n - 1) text ≡ text = take-all (n - 1) text (omega arith) in
    let (tail, wrote, total) = snprintf_lem buf text n (omega arith) fits in
    let fine : leb n (length text) ≡ false = ground arith in
    (tail, rw (wrote, counted, fine, whole) refl, rw whole at total)

-- The marker over the end of a text that was cut
cut_marker :
    (n : ℕ) (text tail : List ℕ)
    → 8 ≤ n
    → n ≤ length text
    → n ≤ length (take (n - 1) text ++ (0 ∷ tail))
    → Holds
        (write_marker (take (n - 1) text ++ (0 ∷ tail)) n out_marker)
        (take (n - 8) text ++ out_marker)
        (length (take (n - 1) text ++ (0 ∷ tail)))
cut_marker n text tail least long fits =
    let kept = take (n - 8) text in
    let rest = drop (n - 8) (take (n - 1) text) ++ (0 ∷ tail) in
    let size : length kept + 8 ≡ n = omega (arith, length-take (n - 8) text) in
    let whole : length (kept ++ rest) ≡ length kept + length rest = length-append kept rest in
    rw (cut_lem n text tail, whole)
      (marker_lem n kept rest size (omega (arith, whole, ap length (cut_lem n text tail))))

long_finish :
    (buf text printed_buf marked : List ℕ) (n : ℕ)
    → snprintf buf n text ≡ some printed_buf
    → write_marker printed_buf n out_marker ≡ some marked
    → length text < 2 ^ 31
    → n ≤ length text
    → print_line buf n text ≡ some (n - 1, marked, true)
unfolding print_line format_finish
long_finish buf text printed_buf marked n wrote marks small long =
    let counted : ltb (length text) (2 ^ 31) ≡ true = ground arith in
    let over : leb n (length text) ≡ true = ground arith in rw (wrote, counted, over, marks) refl

long_line :
    (buf text : List ℕ) (n : ℕ)
    → 8 ≤ n
    → n ≤ length buf
    → length text < 2 ^ 31
    → n ≤ length text
    → (tail : List ℕ) × (print_line buf n text
        ≡ some (n - 1, (take (n - 8) text ++ out_marker) ++ (0 ∷ tail), true))
      × (length ((take (n - 8) text ++ out_marker) ++ (0 ∷ tail)) ≡ length buf)
long_line buf text n least fits small long =
    let (tail, wrote, total) = snprintf_lem buf text n (omega arith) fits in
    let (tail', marked, total') = cut_marker n text tail least long (omega (arith, total)) in
    (tail', long_finish buf text _ _ n wrote marked small long, total' ∙ total)

-- Into a buffer with room for n bytes, n at least 8, a formatter prints a text of fewer than 2 ^
-- 31 characters as a string of fewer than n bytes and returns its length: the text if it fits,
-- else its first n - 8 characters and the marker, with the flag set exactly then.
pub print_line_lem :
    (buf text : List ℕ) (n : ℕ)
    → 8 ≤ n
    → n ≤ length buf
    → length text < 2 ^ 31
    → (tail : List ℕ) × (print_line buf n text
        ≡ some (length (bounded n text), bounded n text ++ (0 ∷ tail), leb n (length text)))
      × (length (bounded n text ++ (0 ∷ tail)) ≡ length buf)
      × (length (bounded n text) < n)
print_line_lem buf text n least fits small = elim (Bool-cases (ltb (length text) n)) [
  | inl short ↦
      let h : length text < n = ground arith in
      let fine : leb n (length text) ≡ false = ground (arith, h) in
      let (tail, ran, total) = short_line buf text n least fits small h in
      rw (short, fine) (tail, ran, total, h)
  | inr long ↦
      let h : n ≤ length text = ground arith in
      let over : leb n (length text) ≡ true = ground (arith, h) in
      let (tail, ran, total) = long_line buf text n least fits small h in
      let size : length (take (n - 8) text ++ out_marker) ≡ n - 1 =
        omega (arith, length-append (take (n - 8) text) out_marker, length-take (n - 8) text) in
      rw (long, over, size) (tail, ran, total, omega arith)
]
