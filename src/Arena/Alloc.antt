-- ===== src/Arena/Alloc.antt =====
-- Each branch of `cpr_arena_alloc_aligned` in src/arena.c, and `cpr_arena_rewind` after it.
use native.Mathlib.Nat.{one-le-pow}
use libcopper.Base.{ℕ, ◌+◌, ◌-◌, ◌^◌, ◌≤◌, ◌<◌, ◌≡◌, ◌≢◌, refl, ap, ◌∙◌, arith, true, false}
use libcopper.Base.{some, u64, sub64, ltb, Bool-cases, inl, inr, IsPower}
use libcopper.Error.{CprError, set_error, err_align, err_exhausted}
use libcopper.Arena.{Arena, align_up, is_pow2, aligned_offset, alloc_aligned, alloc, rewind}
use libcopper.Arena.Align.{round_up, round_up_bounds, align_up_lem, is_pow2-pow, is_pow2-IsPower}

-- The block lies inside the address space and not at NULL, and the offsets inside the block.
pub record IsValid {ℓ} {H : Type ℓ} (a : Arena H) : Type 0 where
  pub real : 0 < a.buf
  pub block : a.buf + a.cap < 2 ^ 64
  pub offset_in : a.offset ≤ a.cap
  pub prev_in : a.prev_offset ≤ a.offset

-- Where the next allocation begins.
abbrev pub next_start {ℓ} : {H : Type ℓ} → Arena H → ℕ → ℕ
next_start a alignment = round_up (a.buf + a.offset) alignment

module _ {ℓ} {H : Type ℓ} {a : Arena H} (v : IsValid a) (k : ℕ) (small : k < 64)
    (no_wrap : a.buf + a.offset + 2 ^ k ≤ 2 ^ 64) (size : ℕ) (e : CprError) where
  start_bounds :
      (a.buf + a.offset ≤ next_start a (2 ^ k)) × (next_start a (2 ^ k) < a.buf + a.offset + 2 ^ k)
  start_bounds =
      let bounds = round_up_bounds (a.buf + a.offset) (2 ^ k) (one-le-pow k 2 (omega arith)) in
      (bounds.0, bounds.1)

  aligned_offset_lem : aligned_offset a (2 ^ k) ≡ next_start a (2 ^ k) - a.buf
  aligned_offset_lem =
      ap (λ t. sub64 (align_up t (2 ^ k)) a.buf) {x = u64 (a.buf + a.offset)} {y = a.buf + a.offset}
        (omega (arith, v.block, v.offset_in))
      ∙ ap (λ t. sub64 t a.buf) (align_up_lem (a.buf + a.offset) k small no_wrap)
      ∙ omega (arith, start_bounds)

  -- The tests of the code at these values.
  enough_room :
      next_start a (2 ^ k) + size ≤ a.buf + a.cap
      → ltb (sub64 a.cap (next_start a (2 ^ k) - a.buf)) size ≡ false
  enough_room fits = ground (arith, start_bounds, v.block)

  pointer_lem : u64 (a.buf + (next_start a (2 ^ k) - a.buf)) ≡ next_start a (2 ^ k)
  pointer_lem = omega (arith, start_bounds, no_wrap)

  -- On a valid arena, with an alignment 2 ^ k that does not take the used end past the address
  -- space, a request that fits between the next aligned address and the end of the block gets
  -- that address, and the arena remembers where it stood.
  pub alloc_gives :
      next_start a (2 ^ k) + size ≤ a.buf + a.cap
      → alloc_aligned (some a) size (2 ^ k) e ≡ (
        next_start a (2 ^ k),
        some (record a { prev_offset = a.offset; offset = next_start a (2 ^ k) + size - a.buf }),
        e,
      )
  unfolding alloc_aligned
  alloc_gives fits =
      let end : u64 (next_start a (2 ^ k) - a.buf + size) ≡ next_start a (2 ^ k) + size - a.buf =
        omega (arith, start_bounds, v.block) in
      rw (is_pow2-pow k small, aligned_offset_lem, enough_room fits, pointer_lem, end) refl

  -- On a valid arena, with an alignment 2 ^ k that does not take the used end past the address
  -- space, a request of a 64-bit size for which the next aligned address is inside the block, but
  -- not enough room behind it, is refused with CPR_ERR_EXHAUSTED, and the arena stays as it was.
  pub alloc_refuses :
      next_start a (2 ^ k) ≤ a.buf + a.cap
      → a.buf + a.cap < next_start a (2 ^ k) + size
      → size < 2 ^ 64
      → alloc_aligned (some a) size (2 ^ k) e
        ≡ (0, some a, set_error err_exhausted "arena exhausted" e)
  unfolding alloc_aligned
  alloc_refuses inside large word =
      let full : ltb (sub64 a.cap (next_start a (2 ^ k) - a.buf)) size ≡ true =
        ground (arith, start_bounds, v.block) in
      rw (is_pow2-pow k small, aligned_offset_lem, full) refl

  -- On a valid arena, with an alignment 2 ^ k that does not take the used end past the address
  -- space, if the next aligned address lies behind the end of the block, the room left wraps
  -- round: a request that is not larger than what it wraps to is granted, at that address outside
  -- the block.
  pub alloc_out_of_block :
      a.buf + a.cap < next_start a (2 ^ k)
      → size + (next_start a (2 ^ k) - (a.buf + a.cap)) ≤ 2 ^ 64
      → ((alloc_aligned (some a) size (2 ^ k) e).0 ≡ next_start a (2 ^ k))
        × (a.buf + a.cap < (alloc_aligned (some a) size (2 ^ k) e).0)
  unfolding alloc_aligned
  alloc_out_of_block behind word =
      let wraps : ltb (sub64 a.cap (next_start a (2 ^ k) - a.buf)) size ≡ false =
        ground (arith, start_bounds, no_wrap, v.offset_in) in
      rw (is_pow2-pow k small, aligned_offset_lem, wraps, pointer_lem) (refl, behind)

-- If the default alignment is a 64-bit number that is no power of two, cpr_arena_alloc refuses
-- every request with CPR_ERR_ALIGN and leaves the arena.
alloc_bad_default {ℓ} :
    {H : Type ℓ} (default_alignment : ℕ) (a : Arena H) (size : ℕ) (e : CprError)
    → default_alignment < 2 ^ 64
    → ¬ IsPower default_alignment
    → alloc default_alignment (some a) size e
      ≡ (0, some a, set_error err_align "alignment must be a non-zero power of two" e)
unfolding alloc alloc_aligned
alloc_bad_default d a size e word no_power = elim (Bool-cases (is_pow2 d)) [
  | inl power ↦ absurd (no_power (is_pow2-IsPower d word power))
  | inr fails ↦ rw fails refl
]

-- After an allocation that gave a pointer, cpr_arena_rewind puts back the offset from before the
-- allocation, and a second cpr_arena_rewind changes nothing more.
rewind_alloc {ℓ} :
    {H : Type ℓ} (a : Arena H) (size alignment : ℕ) (e : CprError)
    → (alloc_aligned (some a) size alignment e).0 ≢ 0
    → (rewind (alloc_aligned (some a) size alignment e).1
        ≡ some (record a { prev_offset = a.offset }))
      × (rewind (rewind (alloc_aligned (some a) size alignment e).1)
          ≡ rewind (alloc_aligned (some a) size alignment e).1)
unfolding alloc_aligned rewind
rewind_alloc a size alignment e given = ground arith
