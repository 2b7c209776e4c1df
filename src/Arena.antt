-- ===== src/Arena.antt =====
-- src/arena.c: a bump allocator over one block of memory. Pointers are addresses, and 0 is NULL; a
-- pointer to an arena is an option. `H` is the state behind a caller's allocation functions, which
-- carry their `user_data` with them.
pub mod Align
pub mod Alloc
pub mod Layout
pub mod Life
mod Tests
use libcopper.Base.{
  ℕ, ◌+◌, ◌-◌, ◌^◌, Bool, true, false, not, ◌&&◌, ◌||◌, Option, none, some, bit_and,
}
use libcopper.Base.{ltb, ◌==◌, if◌then◌else◌, u64, sub64}
use libcopper.Error.{CprError, set_error, err_invalid, err_oom, err_align, err_exhausted}

-- `CprArenaAllocator`; `none` is a null function pointer.
pub record ArenaAllocator {ℓ} (H : Type ℓ) : Type ℓ where
  pub alloc_fn : Option (ℕ → H → ℕ × H)
  pub free_fn : Option (ℕ → H → H)

pub record Arena {ℓ} (H : Type ℓ) : Type ℓ where
  pub buf : ℕ
  pub cap : ℕ
  pub offset : ℕ
  pub prev_offset : ℕ
  pub allocator : ArenaAllocator H

-- `cpr__align_up`; `~x` is `2 ^ 64 - 1 - x`.
pub align_up : ℕ → ℕ → ℕ
align_up offset alignment =
    bit_and (u64 (offset + sub64 alignment 1)) (2 ^ 64 - 1 - sub64 alignment 1)

-- `cpr__is_pow2`
pub is_pow2 : ℕ → Bool
is_pow2 v = not (v == 0) && bit_and v (sub64 v 1) == 0

-- A null function pointer
abbrev pub is_null {ℓ} : {A : Type ℓ} → Option A → Bool
is_null none = true
is_null (some f) = false

module _ {ℓ} {H : Type ℓ} where
  -- A call through a function pointer; a null pointer is not called.
  abbrev pub call_alloc : Option (ℕ → H → ℕ × H) → ℕ → H → ℕ × H
  call_alloc none size h = (0, h)
  call_alloc (some f) size h = f size h

  abbrev pub call_free : Option (ℕ → H → H) → ℕ → H → H
  call_free none ptr h = h
  call_free (some f) ptr h = f ptr h

  -- `cpr_arena_init`: the arena if it was set up, and what the allocator left. `is_there` says that
  -- `arena` is not null.
  pub init : Bool → ArenaAllocator H → ℕ → H → CprError → Option (Arena H) × H × CprError
  init is_there allocator capacity h e =
      if not is_there || (capacity == 0 || is_null allocator.alloc_fn)
      then (none, h, set_error err_invalid "invalid arguments" e)
      else let (buf, h') = call_alloc allocator.alloc_fn capacity h in
        if buf == 0 then (none, h', set_error err_oom "out of memory" e) else (
          some (record {
            buf = buf;
            cap = capacity;
            offset = 0;
            prev_offset = 0;
            allocator = allocator;
          }),
          h',
          e,
        )

  -- `cpr_arena_init_buf`
  pub init_buf : Bool → ℕ → ℕ → CprError → Option (Arena H) × CprError
  init_buf is_there buf size e =
      if not is_there || (buf == 0 || size == 0)
      then (none, set_error err_invalid "invalid arguments" e)
      else (
        some (record {
          buf = buf;
          cap = size;
          offset = 0;
          prev_offset = 0;
          allocator = record { alloc_fn = none; free_fn = none };
        }),
        e,
      )

  -- `aligned_offset`
  abbrev pub aligned_offset : Arena H → ℕ → ℕ
  aligned_offset a alignment = sub64 (align_up (u64 (a.buf + a.offset)) alignment) a.buf

  -- `cpr_arena_alloc_aligned`: the pointer, and the arena afterwards.
  pub alloc_aligned : Option (Arena H) → ℕ → ℕ → CprError → ℕ × Option (Arena H) × CprError
  alloc_aligned none size alignment e = (0, none, set_error err_invalid "invalid arguments" e)
  alloc_aligned (some a) size alignment e =
      if not (is_pow2 alignment)
      then (0, some a, set_error err_align "alignment must be a non-zero power of two" e)
      else let at = aligned_offset a alignment in
        if ltb (sub64 a.cap at) size
        then (0, some a, set_error err_exhausted "arena exhausted" e)
        else (
          u64 (a.buf + at),
          some (record a { prev_offset = a.offset; offset = u64 (at + size) }),
          e,
        )

  -- `cpr_arena_alloc`, where `default_alignment` is `sizeof(CprMaxAlign)`.
  pub alloc : ℕ → Option (Arena H) → ℕ → CprError → ℕ × Option (Arena H) × CprError
  unfolding alloc_aligned
  alloc default_alignment a size e = alloc_aligned a size default_alignment e

  -- `cpr_arena_reset`
  pub reset : Option (Arena H) → Option (Arena H)
  reset none = none
  reset (some a) = some (record a { offset = 0; prev_offset = 0 })

  -- `cpr_arena_rewind`
  pub rewind : Option (Arena H) → Option (Arena H)
  rewind none = none
  rewind (some a) = some (record a { offset = a.prev_offset })

  -- `cpr_arena_free`: the arena and what the allocator left.
  pub free : Option (Arena H) → H → Option (Arena H) × H
  free none h = (none, h)
  free (some a) h = (
    some (record {
      buf = 0;
      cap = 0;
      offset = 0;
      prev_offset = 0;
      allocator = record { alloc_fn = none; free_fn = none };
    }),
    call_free a.allocator.free_fn a.buf h,
  )
