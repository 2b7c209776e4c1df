-- ===== src/Arena/Life.antt =====
-- Setting up and freeing an arena of src/arena.c. The allocation functions are the caller's.
use native.Mathlib.Nat.{one-le-pow, div-eq_of_lt, pow-le-pow_right}
use libcopper.Base.{ℕ, ◌+◌, ◌-◌, ◌*◌, ◌^◌, ◌<◌, ◌≡◌, ◌≢◌, refl, ap, ◌∙◌, arith, true, false}
use libcopper.Base.{some, none, Option, ◌==◌}
use libcopper.Error.{CprError}
use libcopper.Arena.{ArenaAllocator, Arena, align_up, alloc_aligned, init, init_buf, reset, free}
use libcopper.Arena.Align.{align_up_lem, is_pow2-pow}
use libcopper.Arena.Alloc.{IsValid}

module _ {ℓ} {H : Type ℓ} where
  -- The arena over a fresh block.
  abbrev pub arena_over : ℕ → ℕ → ArenaAllocator H → Arena H
  arena_over ptr capacity allocator = record {
    buf = ptr;
    cap = capacity;
    offset = 0;
    prev_offset = 0;
    allocator = allocator;
  }

  -- If the allocation function returns for a capacity above 0 a block of the address space that
  -- is not at NULL, cpr_arena_init succeeds with an arena over it, valid and unused, and has
  -- called the function once.
  init_lem :
      (f : ℕ → H → ℕ × H) (free_fn : Option (ℕ → H → H)) (capacity ptr : ℕ) (h h' : H)
      (e : CprError)
      → capacity ≢ 0
      → f capacity h ≡ (ptr, h')
      → ptr ≢ 0
      → ptr + capacity < 2 ^ 64
      → let allocator : ArenaAllocator H = record { alloc_fn = some f; free_fn = free_fn } in
        (init true allocator capacity h e ≡ (some (arena_over ptr capacity allocator), h', e))
        × IsValid (arena_over ptr capacity allocator)
  unfolding init
  init_lem f free_fn capacity ptr h h' e some_bytes gives real block =
      let capacity_test : (capacity == 0) ≡ false = ground arith in
      let ptr_test : (ptr == 0) ≡ false = ground arith in
      (
        rw (capacity_test, gives, ptr_test) refl,
        record {
          real = omega arith;
          block = block;
          offset_in = omega arith;
          prev_in = omega arith;
        },
      )

  -- cpr_arena_free hands the block back with one call of the free function if the arena has one,
  -- and afterwards no request with an alignment 2 ^ k, k below 64, gets memory.
  free_lem :
      (a : Arena H) (f : ℕ → H → H) (h : H) (size k : ℕ) (e : CprError)
      → a.allocator.free_fn ≡ some f
      → k < 64
      → ((free (some a) h).1 ≡ f a.buf h)
        × ((alloc_aligned (free (some a) h).0 size (2 ^ k) e).0 ≡ 0)
  unfolding free alloc_aligned
  free_lem a f h size k e has small =
      let pos = one-le-pow k 2 (omega arith) in
      let bound = pow-le-pow_right {n = 2} (omega arith) {i = k} {j = 64} (omega arith) in
      let zero_up : align_up 0 (2 ^ k) ≡ 0 =
        align_up_lem 0 k small (omega (arith, bound))
        ∙ ap (λ t. t * 2 ^ k) (div-eq_of_lt {n = 0 + (2 ^ k - 1)} {m = 2 ^ k} (omega (arith, pos)))
        ∙ omega arith in
      (rw has refl, rw (is_pow2-pow k small, zero_up) (ground arith))

  -- Over the block of a valid arena, of a capacity above 0, cpr_arena_init_buf gives a valid
  -- unused arena with no allocation functions, and cpr_arena_reset brings the used one back to a
  -- valid unused arena over the same block.
  init_buf_lem :
      (a : Arena H) (e : CprError)
      → IsValid a
      → a.cap ≢ 0
      → let unowned : ArenaAllocator H = record { alloc_fn = none; free_fn = none } in
        (init_buf true a.buf a.cap e ≡ (some (arena_over a.buf a.cap unowned), e))
        × IsValid (arena_over a.buf a.cap unowned)
        × (reset (some a) ≡ some (arena_over a.buf a.cap a.allocator))
        × IsValid (arena_over a.buf a.cap a.allocator)
  unfolding init_buf reset
  init_buf_lem a e v some_bytes =
      let buf_test : (a.buf == 0) ≡ false = ground (arith, v) in
      let cap_test : (a.cap == 0) ≡ false = ground arith in
      (
        rw (buf_test, cap_test) refl,
        record { real = v.real; block = v.block; offset_in = omega arith; prev_in = omega arith },
        refl,
        record { real = v.real; block = v.block; offset_in = omega arith; prev_in = omega arith },
      )
