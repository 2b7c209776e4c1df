-- ===== src/Rand/Lemire.antt =====
-- `cpr__lemireu32_step` of src/rand.c: for each result, the draws that give it are equally many.
use native.Mathlib.Nat.{
  div-lt_iff_lt-mul, le-div_iff_mul-le, add-mul-div_right, div-add-mod', mod-lt, mod-eq-sub-mod,
  mul-le-mul,
}
use libcopper.Base.{
  ℕ, ◌+◌, ◌-◌, ◌*◌, ◌/◌, ◌%◌, ◌^◌, ◌≤◌, ◌<◌, ◌≡◌, ◌≢◌, sym, ap, ◌∙◌, ◌↔◌, arith, some, none, u64,
  sub32,
}
use libcopper.Rand.{lemireu32_step}

-- The first draw that gives `v`: the first multiple of the width behind what is rejected.
abbrev pub first_draw : ℕ → ℕ → ℕ
first_draw width v = (v * 2 ^ 32 + 2 ^ 32 % width + (width - 1)) / width

module _ (width : ℕ) (pos : 0 < width) (word : width < 2 ^ 32) where
  threshold_lem : sub32 0 width % width ≡ 2 ^ 32 % width
  threshold_lem =
      ap (λ t. t % width) {x = sub32 0 width} {y = 2 ^ 32 - width} (omega arith)
      ∙ sym (mod-eq-sub-mod {n = 2 ^ 32} {m = width} (omega arith))

  product-lt : (x : ℕ) → x < 2 ^ 32 → x * width ≤ (2 ^ 32 - 1) * (2 ^ 32 - 1)
  product-lt x h = mul-le-mul {n₂ = 2 ^ 32 - 1} {m₂ = 2 ^ 32 - 1} (omega arith) (omega arith)

  step_iff :
      (x v : ℕ)
      → x < 2 ^ 32
      → lemireu32_step x width ≡ some v
        ↔ (v * 2 ^ 32 + 2 ^ 32 % width ≤ x * width) × (x * width < v * 2 ^ 32 + 2 ^ 32)
  unfolding lemireu32_step
  step_iff x v h =
      let product : u64 (x * width) ≡ x * width = omega (arith, product-lt x h) in
      let low = mod-lt (2 ^ 32) pos in
      rw (product, threshold_lem)
        ((λ e. ground (arith, product-lt x h)), (λ e. ground (arith, product-lt x h)))

  -- 2 ^ 32 is the threshold and as many widths as fit.
  parts : 2 ^ 32 / width * width + 2 ^ 32 % width ≡ 2 ^ 32
  parts = div-add-mod' (2 ^ 32) width

  last_draw :
      (v : ℕ)
      → first_draw width v + 2 ^ 32 / width
        ≡ (v * 2 ^ 32 + 2 ^ 32 % width + (width - 1) + 2 ^ 32 / width * width) / width
  last_draw v =
      sym (add-mul-div_right (v * 2 ^ 32 + 2 ^ 32 % width + (width - 1)) (2 ^ 32 / width) pos)

  first_iff : (x v : ℕ) → first_draw width v ≤ x ↔ v * 2 ^ 32 + 2 ^ 32 % width ≤ x * width
  first_iff x v =
      let below =
        div-lt_iff_lt-mul {k = width} {x = v * 2 ^ 32 + 2 ^ 32 % width + (width - 1)} {y = x + 1}
          pos in
      ((λ h. omega (arith, below.0 (omega arith))), (λ h. omega (arith, below.1 (omega arith))))

  last_iff : (x v : ℕ) → x < first_draw width v + 2 ^ 32 / width ↔ x * width < v * 2 ^ 32 + 2 ^ 32
  last_iff x v =
      let above =
        le-div_iff_mul-le {k = width} {x = x + 1}
          {y = v * 2 ^ 32 + 2 ^ 32 % width + (width - 1) + 2 ^ 32 / width * width} pos in
      (
        (λ h. omega (arith, parts, above.0 (omega (arith, last_draw v)))),
        (λ h. omega (arith, last_draw v, above.1 (omega (arith, parts)))),
      )

  -- For a width above 0 and below 2 ^ 32, a 32-bit draw x and a result v below the width,
  -- cpr__lemireu32_step gives v exactly for the 2 ^ 32 / width consecutive draws from first_draw
  -- on, all of them 32-bit numbers: every result has equally many draws.
  pub lemire_uniform :
      (x v : ℕ)
      → x < 2 ^ 32
      → v < width
      → (lemireu32_step x width ≡ some v
          ↔ (first_draw width v ≤ x) × (x < first_draw width v + 2 ^ 32 / width))
        × (first_draw width v + 2 ^ 32 / width ≤ 2 ^ 32)
  lemire_uniform x v h small =
      let step = step_iff x v h in
      let within =
        div-lt_iff_lt-mul {k = width}
          {x = v * 2 ^ 32 + 2 ^ 32 % width + (width - 1) + 2 ^ 32 / width * width} {y = 2 ^ 32 + 1}
          pos in
      (
        (
          (λ e. ((first_iff x v).1 (step.0 e).0, (last_iff x v).1 (step.0 e).1)),
          (λ e. step.1 ((first_iff x v).0 e.0, (last_iff x v).0 e.1)),
        ),
        omega (arith, last_draw v, within.1 (omega (arith, parts))),
      )

  pub lemire_below : (x v : ℕ) → x < 2 ^ 32 → lemireu32_step x width ≡ some v → v < width
  lemire_below x v h e =
      let bounds = (step_iff x v h).0 e in
      omega (
        arith,
        bounds,
        mul-le-mul {n₁ = x} {m₁ = width} {n₂ = 2 ^ 32 - 1} {m₂ = width} (omega arith) (omega arith),
      )

  -- A draw of 0 is rejected unless the width divides 2 ^ 32.
  pub lemire_zero : 2 ^ 32 % width ≢ 0 → lemireu32_step 0 width ≡ none
  unfolding lemireu32_step
  lemire_zero no_divisor = rw threshold_lem (ground arith)
