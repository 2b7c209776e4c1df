-- ===== src/Ring/Window.antt =====
-- The storage of src/ringbuf.c seen from free-running positions: position `s` stands for the slot
-- `s % cap`. What is read from consecutive positions, and what a loop that stores byte by byte
-- would leave.
use mathlib.Core.Path.{ap₂}
use native.Mathlib.Nat.{mod-lt, mod-eq_of_lt, mod-add-mod, mod-eq-sub-mod}
use libcopper.Base.{ℕ, zero, suc, ◌+◌, ◌-◌, ◌%◌, ◌≤◌, ◌<◌, ◌≡◌, ◌≢◌, refl, sym, ap, ◌∙◌, arith}
use libcopper.Base.{List, [], ◌∷◌, ◌++◌, length, get_or, set, take, drop, write_at}
use libcopper.Base.{length-set, get_or-set_self, get_or-set_ne, Bool-cases, ltb, inl, inr}

-- The `n` bytes from position `s` on.
abbrev pub window : ℕ → List ℕ → ℕ → ℕ → List ℕ
window cap buf s zero = []
window cap buf s (suc n) = get_or buf (s % cap) 0 ∷ window cap buf (s + 1) n

-- for (i = 0; i < length bytes; i++) buf[(s + i) % cap] = bytes[i];
abbrev pub store : ℕ → List ℕ → ℕ → List ℕ → List ℕ
store cap buf s [] = buf
store cap buf s (x ∷ bytes) = store cap (set buf (s % cap) x) (s + 1) bytes

add-mod_cong : (cap s t : ℕ) → s % cap ≡ t % cap → (s + 1) % cap ≡ (t + 1) % cap
add-mod_cong cap s t e = sym (mod-add-mod s cap 1) ∙ ap (λ r. (r + 1) % cap) e ∙ mod-add-mod t cap 1

-- Positions that are less than `cap` apart have different slots.
pub mod_ne : (cap a b : ℕ) → a < b → b < a + cap → a % cap ≢ b % cap
mod_ne cap a b lo hi e = elim (Bool-cases (ltb (a % cap + (b - a)) cap)) [
  | inl small ↦ ground (arith, same, mod-eq_of_lt {n = a % cap + (b - a)} {m = cap})
  | inr large ↦ ground (
    arith,
    same,
    mod-lt a {m = cap},
    mod-eq-sub-mod {n = a % cap + (b - a)} {m = cap},
    mod-eq_of_lt {n = a % cap + (b - a) - cap} {m = cap},
  )
]
  where
    same : (a % cap + (b - a)) % cap ≡ b % cap
    same = mod-add-mod a cap (b - a) ∙ ap (λ t. t % cap) (omega arith)

module _ (cap : ℕ) (buf : List ℕ) where
  pub length-window : (s n : ℕ) → length (window cap buf s n) ≡ n
  length-window s zero = refl
  length-window s (suc n) = ap suc (length-window (s + 1) n)

  pub window-add :
      (s m n : ℕ) → window cap buf s (m + n) ≡ window cap buf s m ++ window cap buf (s + m) n
  window-add s zero n = ap₂ (window cap buf) (omega arith) (omega arith)
  window-add s (suc m) n =
      ap (window cap buf s) {x = suc m + n} {y = suc (m + n)} (omega arith)
      ∙ ap (λ t. get_or buf (s % cap) 0 ∷ t)
          (window-add (s + 1) m n
            ∙ ap (λ t. window cap buf (s + 1) m ++ window cap buf t n) (omega arith))

  pub take-window : (s m n : ℕ) → n ≤ m → take n (window cap buf s m) ≡ window cap buf s n
  take-window s m zero h = refl
  take-window s zero (suc n) h = absurd (omega arith)
  take-window s (suc m) (suc n) h =
      ap (λ t. get_or buf (s % cap) 0 ∷ t) (take-window (s + 1) m n (omega arith))

  pub drop-window :
      (s m n : ℕ) → n ≤ m → drop n (window cap buf s m) ≡ window cap buf (s + n) (m - n)
  drop-window s m zero h = ap₂ (window cap buf) (omega arith) (omega arith)
  drop-window s zero (suc n) h = absurd (omega arith)
  drop-window s (suc m) (suc n) h =
      drop-window (s + 1) m n (omega arith)
      ∙ ap₂ (window cap buf) {x = s + 1 + n} {y = s + suc n} (omega arith) (omega arith)

  pub window_cong : (s t n : ℕ) → s % cap ≡ t % cap → window cap buf s n ≡ window cap buf t n
  window_cong s t zero e = refl
  window_cong s t (suc n) e =
      ap₂ (λ i r. get_or buf i 0 ∷ r) e (window_cong (s + 1) (t + 1) n (add-mod_cong cap s t e))

take-drop-step :
    (buf : List ℕ) (s n : ℕ)
    → s < length buf
    → take (suc n) (drop s buf) ≡ get_or buf s 0 ∷ take n (drop (s + 1) buf)
take-drop-step [] s n h = absurd (omega arith)
take-drop-step (x ∷ buf) zero n h =
    ap (λ k. x ∷ take n (drop k (x ∷ buf))) {x = suc 0} {y = 0 + 1} (omega arith)
take-drop-step (x ∷ buf) (suc s) n h =
    take-drop-step buf s n (omega arith)
    ∙ ap (λ k. get_or buf s 0 ∷ take n (drop k (x ∷ buf))) {x = suc (s + 1)} {y = suc s + 1}
        (omega arith)

-- Short of the end of the storage a window is a slice of it.
pub window_slice :
    (cap : ℕ) (buf : List ℕ) (s n : ℕ)
    → cap ≤ length buf
    → s + n ≤ cap
    → window cap buf s n ≡ take n (drop s buf)
window_slice cap buf s zero h k = refl
window_slice cap buf s (suc n) h k =
    ap₂ (λ i r. get_or buf i 0 ∷ r) (mod-eq_of_lt {n = s} {m = cap} (omega arith))
      (window_slice cap buf (s + 1) n h (omega arith))
    ∙ sym (take-drop-step buf s n (omega arith))

module _ (cap : ℕ) where
  pub length-store :
      (buf : List ℕ) (s : ℕ) (bytes : List ℕ) → length (store cap buf s bytes) ≡ length buf
  length-store buf s [] = refl
  length-store buf s (x ∷ bytes) =
      length-store (set buf (s % cap) x) (s + 1) bytes ∙ length-set buf (s % cap) x

  pub store_cong :
      (buf : List ℕ) (s t : ℕ) (bytes : List ℕ)
      → s % cap ≡ t % cap
      → store cap buf s bytes ≡ store cap buf t bytes
  store_cong buf s t [] e = refl
  store_cong buf s t (x ∷ bytes) e =
      ap (λ i. store cap (set buf i x) (s + 1) bytes) e
      ∙ store_cong (set buf (t % cap) x) (s + 1) (t + 1) bytes (add-mod_cong cap s t e)

  pub store-append :
      (buf : List ℕ) (s : ℕ) (xs ys : List ℕ)
      → store cap buf s (xs ++ ys) ≡ store cap (store cap buf s xs) (s + length xs) ys
  store-append buf s [] ys = ap (λ t. store cap buf t ys) (omega arith)
  store-append buf s (x ∷ xs) ys =
      store-append (set buf (s % cap) x) (s + 1) xs ys
      ∙ ap (λ t. store cap (store cap (set buf (s % cap) x) (s + 1) xs) t ys)
          {x = s + 1 + length xs} {y = s + suc (length xs)} (omega arith)

  -- Short of the end of the storage it is one block copy.
  pub write_at-eq-store :
      (buf : List ℕ) (s : ℕ) (bytes : List ℕ)
      → s + length bytes ≤ cap
      → write_at buf s bytes ≡ store cap buf s bytes
  write_at-eq-store buf s [] h = refl
  write_at-eq-store buf s (x ∷ bytes) h =
      write_at-eq-store (set buf s x) (s + 1) bytes (omega arith)
      ∙ ap (λ i. store cap (set buf i x) (s + 1) bytes)
          (sym (mod-eq_of_lt {n = s} {m = cap} (omega arith)))

  -- A store leaves the slots of earlier positions alone, as long as it does not go round.
  get_or-store :
      (buf : List ℕ) (s t : ℕ) (bytes : List ℕ)
      → s < t
      → t + length bytes ≤ s + cap
      → get_or (store cap buf t bytes) (s % cap) 0 ≡ get_or buf (s % cap) 0
  get_or-store buf s t [] lt fits = refl
  get_or-store buf s t (x ∷ bytes) lt fits =
      get_or-store (set buf (t % cap) x) s (t + 1) bytes (omega arith) (omega arith)
      ∙ get_or-set_ne buf (t % cap) (s % cap) x 0 (λ e. mod_ne cap s t lt (omega arith) (sym e))

  pub window-store_before :
      (buf : List ℕ) (s n t : ℕ) (bytes : List ℕ)
      → s + n ≤ t
      → t + length bytes ≤ s + cap
      → window cap (store cap buf t bytes) s n ≡ window cap buf s n
  window-store_before buf s zero t bytes h fits = refl
  window-store_before buf s (suc n) t bytes h fits =
      ap₂ ◌∷◌ (get_or-store buf s t bytes (omega arith) fits)
        (window-store_before buf (s + 1) n t bytes (omega arith) (omega arith))

  -- What was stored is read back.
  pub window-store_self :
      (buf : List ℕ) (t : ℕ) (bytes : List ℕ)
      → length bytes ≤ cap
      → cap ≤ length buf
      → window cap (store cap buf t bytes) t (length bytes) ≡ bytes
  window-store_self buf t [] h k = refl
  window-store_self buf t (x ∷ bytes) h k =
      ap₂ ◌∷◌
        (get_or-store (set buf (t % cap) x) t (t + 1) bytes (omega arith) (omega arith)
          ∙ get_or-set_self buf (t % cap) x 0 (omega (arith, mod-lt t {m = cap})))
        (window-store_self (set buf (t % cap) x) (t + 1) bytes (omega arith)
          (omega (arith, length-set buf (t % cap) x)))

  -- A store just behind a window, in storage that has room for both, extends it.
  pub window-store_extend :
      (buf : List ℕ) (s used : ℕ) (bytes : List ℕ)
      → used + length bytes ≤ cap
      → cap ≤ length buf
      → window cap (store cap buf (s + used) bytes) s (used + length bytes)
        ≡ window cap buf s used ++ bytes
  window-store_extend buf s used bytes h k =
      window-add cap (store cap buf (s + used) bytes) s used (length bytes)
      ∙ ap₂ ◌++◌ (window-store_before buf s used (s + used) bytes (omega arith) (omega arith))
          (window-store_self buf (s + used) bytes (omega arith) k)
