-- ===== src/Rand/Wide.antt =====
-- `cpr_randr_u64` and `cpr_randr_i64` of src/rand.c.
use libcopper.Base.{ℕ, zero, suc, ◌+◌, ◌-◌, ◌^◌, ◌≤◌, ◌<◌, ◌≡◌, ◌⊎◌, inl, inr, refl, ap, arith}
use libcopper.Base.{some, none, ◌==◌, ltb, Bool-cases, sub64, u64, bit_and}
use libcopper.Error.{CprError}
use libcopper.Rand.{Entropy, rand_u64, draw_u64, randr_u64, randr_i64, pow2_mask}
use libcopper.Rand.Bytes.{Reliable, rand_u64_gives}

module _ {ℓ} {W : Type ℓ} (os : Entropy W) where
  -- The first `draws` numbers that `cpr_rand_u64` gives from `w` on, masked, are all too large.
  abbrev pub AllTooLarge : ℕ → ℕ → ℕ → ℕ → W → CprError → Type ℓ
  AllTooLarge zero fuel mask width w e = Unit
  AllTooLarge (suc draws) fuel mask width w e =
      (x : ℕ) × (w' : W) × (rand_u64 os fuel w e ≡ some (x, w', e))
      × (width ≤ bit_and x mask)
      × AllTooLarge draws fuel mask width w' e

module _ {ℓ} {W : Type ℓ} (os : Entropy W) (reliable : Reliable os) where
  draw_lem :
      (draws fuel mask width : ℕ) (w : W) (e : CprError)
      → 8 < fuel
      → ((v : ℕ) × (w' : W) × (draw_u64 os draws fuel mask width w e ≡ some (v, w', e))
          × (v < width))
        ⊎ (AllTooLarge os draws fuel mask width w e
            × (draw_u64 os draws fuel mask width w e ≡ none))
  unfolding draw_u64
  draw_lem zero fuel mask width w e enough = inr (tt, refl)
  draw_lem (suc draws) fuel mask width w e enough =
      let (x, w', gave) = rand_u64_gives os reliable fuel w e enough in
      elim (Bool-cases (ltb (bit_and x mask) width)) [
        | inl accepted ↦ inl (bit_and x mask, w', rw (gave, accepted) refl, ground arith)
        | inr rejected ↦ elim (draw_lem draws fuel mask width w' e enough) [
          | inl found ↦ inl (found.0, found.1, rw (gave, rejected) (found.2), found.3)
          | inr without ↦
              inr ((x, w', gave, ground arith, without.0), rw (gave, rejected) (without.1))
        ]
      ]

  -- With a getrandom that gives at least one byte and no more than it is asked for, fuel for more
  -- than 8 system calls a draw, and min up to max below 2 ^ 64, cpr_randr_u64 either gives a
  -- number from min to max without an error, or all the draws allowed were made and each, masked,
  -- was not below the width.
  randr_u64_lem :
      (draws fuel min max : ℕ) (w : W) (e : CprError)
      → 8 < fuel
      → min ≤ max
      → max < 2 ^ 64
      → ((v : ℕ) × (w' : W) × (randr_u64 os draws fuel min max w e ≡ some (v, w', e))
          × (min ≤ v)
          × (v ≤ max))
        ⊎ (AllTooLarge os draws fuel (pow2_mask (max - min + 1)) (max - min + 1) w e
            × (randr_u64 os draws fuel min max w e ≡ none))
  unfolding randr_u64
  randr_u64_lem draws fuel min max w e enough ordered word =
      let width : sub64 max min ≡ max - min = omega arith in
      elim (Bool-cases (max - min == 2 ^ 64 - 1)) [
        | inl full ↦
            let (x, w', gave) = rand_u64_gives os reliable fuel w e enough in
            inl (u64 (min + x), w', rw (width, full, gave) refl, ground arith, ground arith)
        | inr part ↦
            let wider : u64 (max - min + 1) ≡ max - min + 1 = ground arith in
            let mask = pow2_mask (max - min + 1) in
            elim (draw_lem draws fuel mask (max - min + 1) w e enough) [
              | inl found ↦
                  let (v, w', gave, below) = found in
                  let sum : u64 (min + v) ≡ min + v = omega arith in
                  inl (
                    min + v,
                    w',
                    rw (width, part, wider, gave) (ap (λ t. some (t, w', e)) sum),
                    omega arith,
                    omega arith,
                  )
              | inr without ↦ inr (without.0, rw (width, part, wider) (rw (without.1) refl))
            ]
      ]

-- Order of signed numbers, of which the words are the two's complements.
abbrev pub biased : ℕ → ℕ
biased word = sub64 word (2 ^ 63)

module _ {ℓ} {W : Type ℓ} (os : Entropy W) (reliable : Reliable os) where
  -- With a getrandom that gives at least one byte and no more than it is asked for, fuel for more
  -- than 8 system calls a draw, and min up to max as signed numbers, cpr_randr_i64 either gives a
  -- number from min to max as signed numbers, without an error, or all the draws allowed were made
  -- and each, masked, was not below the width.
  pub randr_i64_lem :
      (draws fuel min max : ℕ) (w : W) (e : CprError)
      → 8 < fuel
      → biased min ≤ biased max
      → ((v : ℕ) × (w' : W) × (randr_i64 os draws fuel min max w e ≡ some (v, w', e))
          × (biased min ≤ biased v)
          × (biased v ≤ biased max))
        ⊎ (AllTooLarge os draws fuel
              (pow2_mask (biased max - biased min + 1))
              (biased max - biased min + 1)
              w
              e
            × (randr_i64 os draws fuel min max w e ≡ none))
  unfolding randr_i64
  randr_i64_lem draws fuel min max w e enough ordered =
      elim (randr_u64_lem os reliable draws fuel (biased min) (biased max) w e enough ordered
        (omega arith)) [
          | inl found ↦
              let (v, w', gave, above, below) = found in
              let same : biased (u64 (v + 2 ^ 63)) ≡ v = omega arith in
              inl (u64 (v + 2 ^ 63), w', rw gave refl, omega arith, omega arith)
          | inr without ↦ inr (without.0, rw (without.1) refl)
        ]
