-- ===== src/Rand/Ranges.antt =====
-- The range functions of src/rand.c.
use libcopper.Base.{
  ℕ, zero, suc, ◌+◌, ◌-◌, ◌%◌, ◌^◌, ◌≤◌, ◌<◌, ◌≡◌, ◌≢◌, ◌⊎◌, inl, inr, refl, ap, arith,
}
use libcopper.Base.{some, none, false, ◌==◌, Bool-cases, Option-cases, u32, sub32}
use libcopper.Error.{CprError, set_error, err_io}
use libcopper.Rand.{
  Entropy, failed, rand_u32, draw_u32, randr_u32, randr_i32, rand_bytes, getrandom_loop,
  lemireu32_step,
}
use libcopper.Rand.Lemire.{lemire_below, lemire_zero}
use libcopper.Rand.Bytes.{Reliable, rand_u32_gives}

module _ {ℓ} {W : Type ℓ} (os : Entropy W) where
  -- The first `draws` numbers that `cpr_rand_u32` gives from `w` on are all rejected.
  abbrev pub AllRejected : ℕ → ℕ → ℕ → W → CprError → Type ℓ
  AllRejected zero fuel width w e = Unit
  AllRejected (suc draws) fuel width w e =
      (x : ℕ) × (w' : W) × (rand_u32 os fuel w e ≡ some (x, w', e))
      × (lemireu32_step x width ≡ none)
      × AllRejected draws fuel width w' e

module _ {ℓ} {W : Type ℓ} (os : Entropy W) (reliable : Reliable os) where
  draw_lem :
      (draws fuel width : ℕ) (w : W) (e : CprError)
      → 4 < fuel
      → 0 < width
      → width < 2 ^ 32
      → ((v : ℕ) × (w' : W) × (draw_u32 os draws fuel width w e ≡ some (v, w', e)) × (v < width))
        ⊎ (AllRejected os draws fuel width w e × (draw_u32 os draws fuel width w e ≡ none))
  unfolding draw_u32
  draw_lem zero fuel width w e enough pos word = inr (tt, refl)
  draw_lem (suc draws) fuel width w e enough pos word =
      let (x, w', gave, small) = rand_u32_gives os reliable fuel w e enough in
      elim (Option-cases (lemireu32_step x width)) [
        | inl rejected ↦ elim (draw_lem draws fuel width w' e enough pos word) [
          | inl found ↦ inl (found.0, found.1, rw (gave, rejected) (found.2), found.3)
          | inr without ↦ inr ((x, w', gave, rejected, without.0), rw (gave, rejected) (without.1))
        ]
        | inr accepted ↦
            let (v, out) = accepted in
            inl (v, w', rw (gave, out) refl, lemire_below width pos word x v small out)
      ]

  -- With a getrandom that gives at least one byte and no more than it is asked for, fuel for more
  -- than 4 system calls a draw, and min up to max below 2 ^ 32, cpr_randr_u32 either gives a
  -- number from min to max without an error, or all the draws allowed were made and each was
  -- rejected by cpr__lemireu32_step.
  pub randr_u32_lem :
      (draws fuel min max : ℕ) (w : W) (e : CprError)
      → 4 < fuel
      → min ≤ max
      → max < 2 ^ 32
      → ((v : ℕ) × (w' : W) × (randr_u32 os draws fuel min max w e ≡ some (v, w', e))
          × (min ≤ v)
          × (v ≤ max))
        ⊎ (AllRejected os draws fuel (max - min + 1) w e
            × (randr_u32 os draws fuel min max w e ≡ none))
  unfolding randr_u32
  randr_u32_lem draws fuel min max w e enough ordered word =
      let width : sub32 max min ≡ max - min = omega arith in
      elim (Bool-cases (max - min == 2 ^ 32 - 1)) [
        | inl full ↦
            let (x, w', gave, small) = rand_u32_gives os reliable fuel w e enough in
            inl (u32 (min + x), w', rw (width, full, gave) refl, ground arith, ground arith)
        | inr part ↦
            let wider : u32 (max - min + 1) ≡ max - min + 1 = ground arith in
            elim (draw_lem draws fuel (max - min + 1) w e enough (omega arith) (ground arith)) [
              | inl found ↦
                  let (v, w', gave, below) = found in
                  let sum : u32 (min + v) ≡ min + v = omega arith in
                  inl (
                    min + v,
                    w',
                    rw (width, part, wider, gave) (ap (λ t. some (t, w', e)) sum),
                    omega arith,
                    omega arith,
                  )
              | inr without ↦ inr (without.0, rw (width, part, wider) (rw (without.1) refl))
            ]
      ]

module _ {ℓ} {W : Type ℓ} (os : Entropy W)
    (fails : (n : ℕ) (w : W) → os.getrandom n w ≡ (failed, w)) where
  fails_zero :
      (fuel : ℕ) (w : W) (e : CprError)
      → rand_u32 os (suc fuel) w e ≡ some (0, w, set_error err_io "getrandom() failed" e)
  unfolding rand_u32 rand_bytes getrandom_loop
  fails_zero fuel w e = rw (fails 4 w) refl

  draw_hangs :
      (draws fuel width : ℕ) (w : W) (e : CprError)
      → lemireu32_step 0 width ≡ none
      → draw_u32 os draws (suc fuel) width w e ≡ none
  unfolding draw_u32
  draw_hangs zero fuel width w e rejected = refl
  draw_hangs (suc draws) fuel width w e rejected =
      rw (fails_zero fuel w e, rejected)
        (draw_hangs draws fuel width w (set_error err_io "getrandom() failed" e) rejected)

  -- With a getrandom that always fails, and a range from min up to max, below 2 ^ 32, of a size
  -- that is below 2 ^ 32 and does not divide it, cpr_randr_u32 never gets a number, however many
  -- draws it makes.
  pub randr_u32_hangs :
      (draws fuel min max : ℕ) (w : W) (e : CprError)
      → min ≤ max
      → max - min + 1 < 2 ^ 32
      → 2 ^ 32 % (max - min + 1) ≢ 0
      → max < 2 ^ 32
      → randr_u32 os draws (suc fuel) min max w e ≡ none
  unfolding randr_u32
  randr_u32_hangs draws fuel min max w e ordered word no_divisor fits =
      let width : sub32 max min ≡ max - min = omega arith in
      let part : (max - min == 2 ^ 32 - 1) ≡ false = ground arith in
      let wider : u32 (max - min + 1) ≡ max - min + 1 = omega arith in
      rw (width, part, wider)
        (rw
          (draw_hangs draws fuel (max - min + 1) w e
            (lemire_zero (max - min + 1) (omega arith) word no_divisor))
          refl)

-- Order of signed numbers, of which the words are the two's complements.
abbrev pub biased : ℕ → ℕ
biased word = sub32 word (2 ^ 31)

module _ {ℓ} {W : Type ℓ} (os : Entropy W) (reliable : Reliable os) where
  -- With a getrandom that gives at least one byte and no more than it is asked for, fuel for more
  -- than 4 system calls a draw, and min up to max as signed numbers, cpr_randr_i32 either gives a
  -- number from min to max as signed numbers, without an error, or all the draws allowed were
  -- made and each was rejected.
  pub randr_i32_lem :
      (draws fuel min max : ℕ) (w : W) (e : CprError)
      → 4 < fuel
      → biased min ≤ biased max
      → ((v : ℕ) × (w' : W) × (randr_i32 os draws fuel min max w e ≡ some (v, w', e))
          × (biased min ≤ biased v)
          × (biased v ≤ biased max))
        ⊎ (AllRejected os draws fuel (biased max - biased min + 1) w e
            × (randr_i32 os draws fuel min max w e ≡ none))
  unfolding randr_i32
  randr_i32_lem draws fuel min max w e enough ordered =
      elim (randr_u32_lem os reliable draws fuel (biased min) (biased max) w e enough ordered
        (omega arith)) [
          | inl found ↦
              let (v, w', gave, above, below) = found in
              let same : biased (u32 (v + 2 ^ 31)) ≡ v = omega arith in
              inl (u32 (v + 2 ^ 31), w', rw gave refl, omega arith, omega arith)
          | inr without ↦ inr (without.0, rw (without.1) refl)
        ]
