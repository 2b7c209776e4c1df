-- ===== src/Fs/Path/Parts.antt =====
-- src/fs.c: `cpr_path_dirname` and `cpr_path_basename` take a path apart, and `cpr_path_join` puts it
-- together.
use libcopper.Base.{ℕ, ◌+◌, ◌≤◌, ◌<◌, ◌≡◌, refl, sym, ap, ◌∙◌, arith, true, false}
use libcopper.Base.{Option, none, some, List, [], ◌∷◌, ◌++◌, length, drop, store, memcpy}
use libcopper.Base.{append_assoc, length-append, take-append, ltb, lt→ltb, ◌==◌}
use libcopper.Base.{memcpy_in_range, write_at, write_at_front, length-drop}
use libcopper.Error.{CprError}
use libcopper.Fs.Path.{
  is_sep, ends_open, basename_loop, path_basename, last_sep, copy_text, path_dirname, path_join,
}
use libcopper.Fs.Path.Normalize.Text.{set-append, copy-Shows}
use libcopper.Fs.Path.Normalize.Result.{terminate}

abbrev pub NoSep : List ℕ → Type 0
NoSep [] = Unit
NoSep (c ∷ p) = (is_sep c ≡ false) × NoSep p

-- The path of the name `c ∷ n` in the directory `d`.
abbrev pub in_dir : List ℕ → ℕ → List ℕ → List ℕ
in_dir d c n = d ++ (b'/' ∷ (c ∷ n))

basename-NoSep : (n last : List ℕ) → NoSep n → basename_loop n last ≡ last
unfolding basename_loop
basename-NoSep [] last h = refl
basename-NoSep (c ∷ []) last h = refl
basename-NoSep (c ∷ d ∷ n) last h = rw (h.0) (basename-NoSep (d ∷ n) last h.1)

basename-in_dir :
    (d : List ℕ) (c : ℕ) (n last : List ℕ)
    → NoSep (c ∷ n)
    → basename_loop (in_dir d c n) last ≡ c ∷ n
unfolding basename_loop
basename-in_dir [] c n last h = basename-NoSep (c ∷ n) (c ∷ n) h
basename-in_dir (x ∷ []) c n last h = basename-NoSep (c ∷ n) (c ∷ n) h
basename-in_dir (x ∷ y ∷ d) c n last h = basename-in_dir (y ∷ d) c n _ h

last_sep-NoSep : (n : List ℕ) (i : ℕ) (last : Option ℕ) → NoSep n → last_sep n i last ≡ last
unfolding last_sep
last_sep-NoSep [] i last h = refl
last_sep-NoSep (c ∷ n) i last h = rw (h.0) (last_sep-NoSep n (i + 1) last h.1)

last_sep-in_dir :
    (d : List ℕ) (c : ℕ) (n : List ℕ) (i : ℕ) (last : Option ℕ)
    → NoSep (c ∷ n)
    → last_sep (in_dir d c n) i last ≡ some (i + length d)
unfolding last_sep
last_sep-in_dir [] c n i last h =
    last_sep-NoSep (c ∷ n) (i + 1) (some i) h ∙ ap some {x = i} {y = i + 0} (omega arith)
last_sep-in_dir (x ∷ d) c n i last h =
    last_sep-in_dir d c n (i + 1) _ h
    ∙ ap some {x = i + 1 + length d} {y = i + length (x ∷ d)} (omega arith)

store_next :
    (c : ℕ) (text post : List ℕ)
    → 1 ≤ length post
    → (post' : List ℕ) × (store (text ++ post) (length text) c ≡ some ((text ++ (c ∷ [])) ++ post'))
      × (length post' + 1 ≡ length post)
store_next c text [] h = absurd (omega arith)
store_next c text (x ∷ post) h = (
  post,
  rw
      (
        lt→ltb (length text) (length (text ++ (x ∷ post)))
            (omega (arith, length-append text (x ∷ post))),
        set-append text x c post,
      )
      refl,
  omega arith,
)

-- A prefix of a string, copied to the front of the buffer.
pub copy_text-Holds :
    (buf text rest : List ℕ) (e : CprError)
    → length text + 1 ≤ length buf
    → (tail : List ℕ) × (copy_text buf 0 (text ++ rest) (length text) e
        ≡ some (true, some (text ++ (0 ∷ tail)), e))
copy_text-Holds buf text rest e h =
    let copied : memcpy buf 0 (text ++ rest) 0 (length text)
        ≡ some (text ++ drop (length text) buf) =
      memcpy_in_range buf 0 (text ++ rest) 0 (length text) (omega arith)
        (omega (arith, length-append text rest))
      ∙ ap (λ t. some (write_at buf 0 t)) (take-append text rest)
      ∙ ap some (write_at_front buf text (omega arith)) in
    let (tail, stored, size) =
      terminate text (drop (length text) buf) (omega (arith, length-drop (length text) buf)) in
    let at_end : 0 + length text ≡ length text = omega arith in
    (tail, rw (copied, at_end, stored) refl)

-- A string, copied behind a text with its null.
copy_behind :
    (text name post : List ℕ) (e : CprError)
    → length name + 1 ≤ length post
    → (tail : List ℕ) × (copy_text (text ++ post) (length text) name (length name) e
        ≡ some (true, some ((text ++ name) ++ (0 ∷ tail)), e))
copy_behind text name post e h =
    let (post', named, size) = copy-Shows name text [] post (omega (arith, h)) in
    let grown = length-append text name in
    let (tail, ended, size') = terminate (text ++ name) post' (omega (arith, size, grown)) in
    (tail, rw (named, sym grown, ended) refl)

ends_open-positive : (d : List ℕ) → ends_open d ≡ true → 0 < length d
ends_open-positive [] h = absurd (no h)
  where
    no : ¬ (false ≡ true)
    no same = cc
ends_open-positive (x ∷ d) h = omega arith

dirname-in_dir :
    (buf d : List ℕ) (c : ℕ) (n : List ℕ) (size : ℕ) (e : CprError)
    → ends_open d ≡ true
    → NoSep (c ∷ n)
    → length (in_dir d c n) + 1 ≤ size
    → size ≤ length buf
    → (tail : List ℕ) × (path_dirname (some buf) size (some (in_dir d c n)) e
        ≡ some (true, some (d ++ (0 ∷ tail)), e))
unfolding path_dirname
dirname-in_dir buf d c n size e opened h room fits =
    let positive = ends_open-positive d opened in
    let total = length-append d (b'/' ∷ (c ∷ n)) in
    let given : (size == 0) ≡ false = ground arith in
    let found : last_sep (in_dir d c n) 0 none ≡ some (length d) =
      last_sep-in_dir d c n 0 none h ∙ ap some {x = 0 + length d} {y = length d} (omega arith) in
    let not_root : (length d == 0) ≡ false = ground (arith, positive) in
    let enough : ltb size (length d + 1) ≡ false = ground (arith, total) in
    let (tail, copied) = copy_text-Holds buf d (b'/' ∷ (c ∷ n)) e (omega (arith, total)) in
    (tail, rw (given, found, not_root, enough) copied)

join-in_dir :
    (buf d : List ℕ) (c : ℕ) (n : List ℕ) (size : ℕ) (e : CprError)
    → ends_open d ≡ true
    → NoSep (c ∷ n)
    → length (in_dir d c n) + 1 ≤ size
    → size ≤ length buf
    → (tail : List ℕ) × (path_join (some buf) size (some d) (some (c ∷ n)) e
        ≡ some (true, some (in_dir d c n ++ (0 ∷ tail)), e))
unfolding path_join
join-in_dir buf d c n size e opened h room fits =
    let total : length (in_dir d c n) ≡ length d + (length (c ∷ n) + 1) =
      omega (arith, length-append d (b'/' ∷ (c ∷ n))) in
    let given : (size == 0) ≡ false = ground arith in
    let some_name : ltb 0 (length (c ∷ n)) ≡ true = ground arith in
    let enough : ltb size (length d + 1 + length (c ∷ n) + 1) ≡ false = ground (arith, total) in
    let (post₁, based, size₁) = copy-Shows d [] [] buf (omega arith) in
    let (post₂, sepped, size₂) = store_next b'/' d post₁ (omega (arith, size₁)) in
    let text = d ++ (b'/' ∷ []) in
    let sized : length text ≡ length d + 1 = omega (arith, length-append d (b'/' ∷ [])) in
    let (tail, placed) = copy_behind text (c ∷ n) post₂ e (omega (arith, size₁, size₂)) in
    let whole : text ++ (c ∷ n) ≡ in_dir d c n = append_assoc d (b'/' ∷ []) (c ∷ n) in
    let put : copy_text (text ++ post₂) (length d + 1) (c ∷ n) (length (c ∷ n)) e
        ≡ some (true, some (in_dir d c n ++ (0 ∷ tail)), e) =
      ap (λ k. copy_text (text ++ post₂) k (c ∷ n) (length (c ∷ n)) e) (sym sized)
      ∙ placed
      ∙ ap (λ t. some (true, some (t ++ (0 ∷ tail)), e)) whole in
    (tail, rw (given, h.0, opened, some_name, enough, based, sepped) put)

-- For a path of a directory that does not end with a separator, a separator and a name that is
-- not empty and has none, and buffers with room for it, cpr_path_basename gives the name,
-- cpr_path_dirname writes the directory, and cpr_path_join of the two writes the path.
pub parts_join :
    (buf₁ buf₂ d : List ℕ) (c : ℕ) (n : List ℕ) (size : ℕ) (e : CprError)
    → ends_open d ≡ true
    → NoSep (c ∷ n)
    → length (in_dir d c n) + 1 ≤ size
    → size ≤ length buf₁
    → size ≤ length buf₂
    → (path_basename (some (in_dir d c n)) ≡ some (c ∷ n))
      × ((tail : List ℕ) × (path_dirname (some buf₁) size (some (in_dir d c n)) e
            ≡ some (true, some (d ++ (0 ∷ tail)), e)))
      × ((tail : List ℕ) × (path_join (some buf₂) size (some d) (some (c ∷ n)) e
            ≡ some (true, some (in_dir d c n ++ (0 ∷ tail)), e)))
unfolding path_basename path_dirname
parts_join buf₁ buf₂ d c n size e opened h room fits₁ fits₂ = (
  ap some (basename-in_dir d c n (in_dir d c n) h),
  dirname-in_dir buf₁ d c n size e opened h room fits₁,
  join-in_dir buf₂ d c n size e opened h room fits₂,
)
