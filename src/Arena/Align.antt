-- ===== src/Arena/Align.antt =====
-- The alignment helpers of src/arena.c as arithmetic.
use native.Mathlib.Nat.{one-le-pow, pow-le-pow_right, lt-div-mul-add, div-mul-le_self, mul-mod_left}
use native.Mathlib.Nat.{div-lt_iff_lt-mul}
use mathlib.Core.Path.{ap₂}
use libcopper.Base.{ℕ, suc, ◌+◌, ◌-◌, ◌*◌, ◌/◌, ◌%◌, ◌^◌, ◌≤◌, ◌<◌, ◌≡◌, ap, ◌∙◌, arith, true}
use libcopper.Base.{bit_and, bit_and_complement, pow-passes, passes-IsPower, IsPower, u64, sub64}
use libcopper.Arena.{align_up, is_pow2}

-- The least multiple of `m` that is not below `x`.
abbrev pub round_up : ℕ → ℕ → ℕ
round_up x m = (x + (m - 1)) / m * m

pub round_up_bounds :
    (x m : ℕ) → 0 < m → (x ≤ round_up x m) × (round_up x m < x + m) × (round_up x m % m ≡ 0)
round_up_bounds x m pos = (
  omega (arith, lt-div-mul-add {a = x + (m - 1)} {b = m} pos),
  omega (arith, div-mul-le_self (x + (m - 1)) m),
  mul-mod_left ((x + (m - 1)) / m) m,
)

-- No multiple at or above `x` is passed over.
pub round_up_least : (x m q : ℕ) → 0 < m → x ≤ q * m → round_up x m ≤ q * m
round_up_least x m q pos h =
    let below : (x + (m - 1)) / m < suc q = (div-lt_iff_lt-mul pos).1 (grind arith) in grind arith

-- Subtracting one from a power of two does not wrap.
sub64_one : (k : ℕ) → k < 64 → sub64 (2 ^ k) 1 ≡ 2 ^ k - 1
sub64_one k h = omega (
  arith,
  one-le-pow k 2 (omega arith),
  pow-le-pow_right {n = 2} (omega arith) {i = k} {j = 63} (omega arith),
)

-- At an alignment 2 ^ k, k below 64, cpr__align_up gives the least multiple that is not below the
-- address, as long as the sum of both stays in the address space.
pub align_up_lem : (x k : ℕ) → k < 64 → x + 2 ^ k ≤ 2 ^ 64 → align_up x (2 ^ k) ≡ round_up x (2 ^ k)
unfolding align_up
align_up_lem x k h fits =
    let pos : 0 < 2 ^ k = one-le-pow k 2 (omega arith) in
    rw (sub64_one k h) (
      ap₂ bit_and {x = u64 (x + (2 ^ k - 1))} {y = x + (2 ^ k - 1)} {u = 2 ^ 64 - 1 - (2 ^ k - 1)}
        {v = 2 ^ 64 - 2 ^ k} (omega arith) (omega arith)
      ∙ bit_and_complement k 64 (x + (2 ^ k - 1)) (omega arith) (omega arith))

-- `cpr__is_pow2` accepts the powers of two …
pub is_pow2-pow : (k : ℕ) → k < 64 → is_pow2 (2 ^ k) ≡ true
unfolding is_pow2
is_pow2-pow k h = rw (sub64_one k h, pow-passes k) (ground (arith, one-le-pow k 2 (omega arith)))

-- … and nothing else.
pub is_pow2-IsPower : (v : ℕ) → v < 2 ^ 64 → is_pow2 v ≡ true → IsPower v
unfolding is_pow2
is_pow2-IsPower v h e =
    passes-IsPower v (ground arith)
      (ap (bit_and v) {x = v - 1} {y = sub64 v 1} (ground arith) ∙ ground arith)
