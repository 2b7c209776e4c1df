-- ===== src/Base/Powers.antt =====
-- The test `n & (n - 1)` for a power of two.
use Prim.Native.Nat.{ℕ, zero, suc, ◌-◌, ◌*◌, ◌/◌, ◌%◌, ◌^◌, ◌≤◌, ◌<◌, bit_and}
use mathlib.Core.Path.{◌≡◌, refl, ap, ◌∙◌}
use mathlib.Core.Logic.{inl, inr}
use native.Mathlib.Nat.{pow-suc, mod_self}
use native.Mathlib.Omega.{arith}
use libcopper.Base.Tests.{Bool-cases, ◌==◌}
use libcopper.Base.Bits.{bit_and_digit, bit_and_mask}

bit_and_self_fuel : (f n : ℕ) → n ≤ f → bit_and n n ≡ n
bit_and_self_fuel f zero h = refl
bit_and_self_fuel zero (suc n) h = absurd (omega arith)
bit_and_self_fuel (suc f) (suc n) h =
    omega (arith, bit_and_digit (suc n) (suc n), bit_and_self_fuel f (suc n / 2) (omega arith))

pub bit_and_self : (n : ℕ) → bit_and n n ≡ n
bit_and_self n = bit_and_self_fuel n n (omega arith)

-- A power of two passes.
pub pow-passes : (k : ℕ) → bit_and (2 ^ k) (2 ^ k - 1) ≡ 0
pow-passes k = bit_and_mask k (2 ^ k) ∙ mod_self (2 ^ k)

abbrev pub IsPower : ℕ → Type 0
IsPower n = (k : ℕ) × (n ≡ 2 ^ k)

passes_fuel : (f n : ℕ) → n ≤ f → 0 < n → bit_and n (n - 1) ≡ 0 → IsPower n
passes_fuel zero n h pos e = absurd (omega arith)
passes_fuel (suc f) n h pos e = elim (Bool-cases (n % 2 == 0)) [
  | inl even ↦
      let twice : n ≡ n / 2 * 2 = ground arith in
      let half : bit_and (n / 2) (n / 2 - 1) ≡ 0 = omega (
        arith,
        e,
        bit_and_digit n (n - 1),
        ap (λ t. bit_and (n / 2) t) {x = (n - 1) / 2} {y = n / 2 - 1} (omega arith),
      ) in
      let (k, power) = passes_fuel f (n / 2) (omega arith) (omega arith) half in
      (suc k, omega (arith, twice, power, pow-suc 2 k))
  | inr odd ↦ (
    0,
    ground (
      arith,
      e,
      bit_and_digit n (n - 1),
      ap (λ t. bit_and (n / 2) t) {x = (n - 1) / 2} {y = n / 2} (ground arith),
      bit_and_self (n / 2),
    ),
  )
]

-- Nothing but a power of two passes.
pub passes-IsPower : (n : ℕ) → 0 < n → bit_and n (n - 1) ≡ 0 → IsPower n
passes-IsPower n pos e = passes_fuel n n (omega arith) pos e
