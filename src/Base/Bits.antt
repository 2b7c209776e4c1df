-- ===== src/Base/Bits.antt =====
-- `&` with a mask of low bits, and with the complement of one, as arithmetic at every width.
use Prim.Native.Nat.{ℕ, zero, suc, ◌+◌, ◌-◌, ◌*◌, ◌/◌, ◌%◌, ◌^◌, ◌≤◌, ◌<◌, ◌∣◌}
use Prim.Native.Nat.{min, max, bit_and, bit_or, digits, bitwise, bit_and-bitwise, bit_or-bitwise}
use mathlib.Core.Path.{◌≡◌, refl, ap, ◌∙◌}
use native.Mathlib.Nat.{
  pow-suc, one-le-pow, mod-lt, mod-eq_of_lt, div-add-mod', mul-add-mod_self_right,
}
use native.Mathlib.Nat.{div-div-eq-div-mul, pow-le-pow_right, mul_comm, one-dvd, mul-dvd-mul_right}
use native.Mathlib.Omega.{arith}

-- The native operations stand for a recursion on binary digits with fuel. `fuel` and `more` are
-- two amounts that both suffice for `x`.
module _ (rest : ℕ → ℕ) (op : ℕ → ℕ → ℕ) where
  fuel_irrelevant :
      (x y fuel more : ℕ) → x ≤ more → x ≤ fuel → digits rest op fuel x y ≡ digits rest op more x y
  fuel_irrelevant (suc x) y (suc fuel) (suc more) h k =
      ap (λ t. t * 2 + op (suc x % 2) (y % 2))
        (fuel_irrelevant (suc x / 2) (y / 2) fuel more (omega arith) (omega arith))
  fuel_irrelevant (suc x) y zero more h k = absurd (omega arith)
  fuel_irrelevant (suc x) y (suc fuel) zero h k = absurd (omega arith)
  fuel_irrelevant zero y zero zero h k = refl
  fuel_irrelevant zero y zero (suc more) h k = refl
  fuel_irrelevant zero y (suc fuel) zero h k = refl
  fuel_irrelevant zero y (suc fuel) (suc more) h k = refl

  lowest_digit :
      (x y : ℕ)
      → bitwise rest op (suc x) y ≡ bitwise rest op (suc x / 2) (y / 2) * 2 + op (suc x % 2) (y % 2)
  lowest_digit x y =
      ap (λ t. t * 2 + op (suc x % 2) (y % 2))
        (fuel_irrelevant (suc x / 2) (y / 2) x (suc x / 2) (omega arith) (omega arith))

-- One binary digit of each operation.
pub bit_and_digit : (x y : ℕ) → bit_and x y ≡ bit_and (x / 2) (y / 2) * 2 + min (x % 2) (y % 2)
bit_and_digit (suc x) y = simp bit_and-bitwise (lowest_digit (λ t. 0) min x y)
bit_and_digit zero y = simp bit_and-bitwise (omega arith)

pub bit_or_digit : (x y : ℕ) → bit_or x y ≡ bit_or (x / 2) (y / 2) * 2 + max (x % 2) (y % 2)
bit_or_digit (suc x) y = simp bit_or-bitwise (lowest_digit (λ t. t) max x y)
bit_or_digit zero y = simp bit_or-bitwise (omega arith)

no_digits : (fuel x : ℕ) → digits (λ t. 0) min fuel x 0 ≡ 0
no_digits zero zero = refl
no_digits zero (suc x) = refl
no_digits (suc fuel) zero = refl
no_digits (suc fuel) (suc x) = omega (arith, no_digits fuel (suc x / 2))

pub bit_and-zero : (x : ℕ) → bit_and x 0 ≡ 0
bit_and-zero x = bit_and-bitwise x 0 ∙ no_digits x x

bit_or-zero_fuel : (fuel x : ℕ) → x ≤ fuel → bit_or x 0 ≡ x
bit_or-zero_fuel (suc fuel) (suc x) h =
    omega (arith, bit_or_digit (suc x) 0, bit_or-zero_fuel fuel (suc x / 2) (omega arith))
bit_or-zero_fuel zero (suc x) h = absurd (omega arith)
bit_or-zero_fuel fuel zero h = refl

pub bit_or-zero : (x : ℕ) → bit_or x 0 ≡ x
bit_or-zero x = bit_or-zero_fuel x x (omega arith)

-- The lowest digit of a remainder by an even number.
mod_digit : (a m : ℕ) → 0 < m → a % (m * 2) ≡ a / 2 % m * 2 + a % 2
mod_digit a m h =
    let c : ℕ = a / 2 % m * 2 + a % 2 in
    let low : a / 2 % m < m = mod-lt (a / 2) h in
    ap (λ t. t % (m * 2)) (omega (arith, ap (λ t. t * 2) (div-add-mod' (a / 2) m)))
    ∙ mul-add-mod_self_right (a / 2 / m) (m * 2) c
    ∙ mod-eq_of_lt (omega arith)

-- A mask of `k` ones keeps the remainder by `2 ^ k`.
pub bit_and_mask : (k a : ℕ) → bit_and a (2 ^ k - 1) ≡ a % 2 ^ k
bit_and_mask zero a = omega (arith, bit_and-zero a)
bit_and_mask (suc k) a =
    rw (pow-suc 2 k, mod_digit a (2 ^ k) (one-le-pow k 2 (omega arith)), ← bit_and_mask k (a / 2))
      (bit_and_digit a (2 ^ k * 2 - 1) ∙ half)
  where
    half :
        bit_and (a / 2) ((2 ^ k * 2 - 1) / 2) * 2 + min (a % 2) ((2 ^ k * 2 - 1) % 2)
        ≡ bit_and (a / 2) (2 ^ k - 1) * 2 + a % 2
    half = ground (arith, one-le-pow k 2 (omega arith))

-- The complement of such a mask, in `w` bits, rounds down to a multiple of `2 ^ k`.
pub bit_and_complement :
    (k w a : ℕ) → k ≤ w → a < 2 ^ w → bit_and a (2 ^ w - 2 ^ k) ≡ a / 2 ^ k * 2 ^ k
bit_and_complement zero w a h l = bit_and_mask w a ∙ mod-eq_of_lt l ∙ omega arith
bit_and_complement (suc k) zero a h l = absurd (omega arith)
bit_and_complement (suc k) (suc w) a h l =
    bit_and_digit a (2 ^ suc w - 2 ^ suc k)
    ∙ ground (
      arith,
      pow-suc 2 w,
      pow-suc 2 k,
      pow-le-pow_right {n = 2} (omega arith) {i = k} {j = w} (omega arith),
      bit_and_complement k w (a / 2) (omega arith) (omega (arith, pow-suc 2 w)),
      div-div-eq-div-mul a 2 (2 ^ k),
      mul_comm 2 (2 ^ k),
    )

-- Fields that do not overlap are or-ed as a sum.
pub bit_or_fields : (k q r : ℕ) → r < 2 ^ k → bit_or (q * 2 ^ k) r ≡ q * 2 ^ k + r
bit_or_fields zero q r h = ground (arith, bit_or-zero q)
bit_or_fields (suc k) q r h = ground (
  arith,
  bit_or_digit (q * 2 ^ suc k) r,
  pow-suc 2 k,
  ap (λ (t : ℕ). q * t) (pow-suc 2 k),
  bit_or_fields k q (r / 2),
)

pub pow-dvd : (k w : ℕ) → k ≤ w → 2 ^ k ∣ 2 ^ w
pow-dvd zero w h = one-dvd (2 ^ w)
pow-dvd (suc k) zero h = absurd (omega arith)
pow-dvd (suc k) (suc w) h =
    rw (pow-suc 2 k, pow-suc 2 w) (mul-dvd-mul_right (2 ^ k) (pow-dvd k w (omega arith)) 2)
