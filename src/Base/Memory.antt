-- ===== src/Base/Memory.antt =====
-- Memory as a list of bytes, and `memcpy`. An access out of range is `none`.
use Prim.Native.Nat.{ℕ, suc, ◌+◌, ◌≤◌}
use mathlib.Core.Path.{◌≡◌, refl, ap, ◌∙◌}
use mathlib.Core.Bool.{Bool, true, false, ◌&&◌}
use mathlib.Core.List.{List, [], ◌∷◌, ◌++◌}
use mathlib.Core.Option.{Option, none, some}
use native.Mathlib.Omega.{arith}
use libcopper.Base.Tests.{ltb, leb, ◌==◌, if◌then◌else◌}
use libcopper.Base.Lists.{length, set, take, drop, length-set}

-- Stores `bytes` from index `i` on.
abbrev pub write_at : List ℕ → ℕ → List ℕ → List ℕ
write_at buf i [] = buf
write_at buf i (x ∷ bytes) = write_at (set buf i x) (i + 1) bytes

-- memcpy(dst + at, src + from, n)
unfoldable pub memcpy : List ℕ → ℕ → List ℕ → ℕ → ℕ → Option (List ℕ)
memcpy dst at src from n =
    if leb (at + n) (length dst) && leb (from + n) (length src)
    then some (write_at dst at (take n (drop from src)))
    else none

infixl 5 ◌>>=◌
abbrev pub ◌>>=◌ {ℓ κ} : {A : Type ℓ} {B : Type κ} → Option A → (A → Option B) → Option B
none >>= k = none
some x >>= k = k x

-- The bytes that a pointer shows; a null pointer is only ever used for no bytes.
abbrev pub bytes_of : Option (List ℕ) → List ℕ
bytes_of none = []
bytes_of (some bytes) = bytes

-- `!data && data_size > 0`
abbrev pub is_missing : Option (List ℕ) → ℕ → Bool
is_missing none size = ltb 0 size
is_missing (some bytes) size = false

-- A case distinction on an option, as a function.
abbrev pub on_option {ℓ κ} : {A : Type ℓ} {R : Type κ} → Option A → R → (A → R) → R
on_option none missing found = missing
on_option (some x) missing found = found x

-- `buf[i] = c`
abbrev pub store : List ℕ → ℕ → ℕ → Option (List ℕ)
store buf i c = if ltb i (length buf) then some (set buf i c) else none

pub length-write_at :
    (buf : List ℕ) (i : ℕ) (bytes : List ℕ) → length (write_at buf i bytes) ≡ length buf
length-write_at buf i [] = refl
length-write_at buf i (x ∷ bytes) = length-write_at (set buf i x) (i + 1) bytes ∙ length-set buf i x

write_at-cons :
    (y : ℕ) (buf : List ℕ) (i : ℕ) (bytes : List ℕ)
    → write_at (y ∷ buf) (suc i) bytes ≡ y ∷ write_at buf i bytes
write_at-cons y buf i [] = refl
write_at-cons y buf i (x ∷ bytes) =
    ap (λ k. write_at (y ∷ set buf i x) k bytes) {x = suc i + 1} {y = suc (i + 1)} (omega arith)
    ∙ write_at-cons y (set buf i x) (i + 1) bytes

-- Storing at the front replaces a prefix.
pub write_at_front :
    (buf bytes : List ℕ)
    → length bytes ≤ length buf
    → write_at buf 0 bytes ≡ bytes ++ drop (length bytes) buf
write_at_front buf [] h = refl
write_at_front [] (x ∷ bytes) h = absurd (omega arith)
write_at_front (y ∷ buf) (x ∷ bytes) h =
    ap (λ k. write_at (x ∷ buf) k bytes) {x = 0 + 1} {y = suc 0} (omega arith)
    ∙ write_at-cons x buf 0 bytes
    ∙ ap (λ t. x ∷ t) (write_at_front buf bytes (omega arith))

-- Storing behind a prefix leaves the prefix.
pub write_at-append :
    (pre buf bytes : List ℕ)
    → write_at (pre ++ buf) (length pre) bytes ≡ pre ++ write_at buf 0 bytes
write_at-append [] buf bytes = refl
write_at-append (y ∷ pre) buf bytes =
    write_at-cons y (pre ++ buf) (length pre) bytes
    ∙ ap (λ t. y ∷ t) (write_at-append pre buf bytes)

-- A copy in range succeeds.
pub memcpy_in_range :
    (dst : List ℕ) (at : ℕ) (src : List ℕ) (from n : ℕ)
    → at + n ≤ length dst
    → from + n ≤ length src
    → memcpy dst at src from n ≡ some (write_at dst at (take n (drop from src)))
unfolding memcpy
memcpy_in_range dst at src from n h k = ground arith

-- Whether two strings are the same.
abbrev pub same_text : List ℕ → List ℕ → Bool
same_text [] [] = true
same_text [] (d ∷ q) = false
same_text (c ∷ p) [] = false
same_text (c ∷ p) (d ∷ q) = c == d && same_text p q
