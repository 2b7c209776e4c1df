-- ===== src/Ring/Life.antt =====
-- `cpr_ringbuf_init` and the introspection functions of src/ringbuf.c.
use native.Mathlib.Nat.{one-le-pow, pow-le-pow_right}
use libcopper.Base.{ℕ, ◌+◌, ◌-◌, ◌^◌, ◌≤◌, ◌<◌, ◌≡◌, refl, ap, ◌∙◌, arith, bit_and, sub32}
use libcopper.Base.{List, [], length, none, some, true, ◌==◌}
use libcopper.Base.{IsPower, pow-passes, passes-IsPower, Bool-cases, inl, inr}
use libcopper.Error.{CprError, err_invalid, set_error}
use libcopper.Ring.{RingBuffer, init, size, free, capacity_of}
use libcopper.Ring.Copy.{capacity_bounds}
use libcopper.Ring.Refine.{IsValid, contents, length-contents}

-- What `cpr_ringbuf_init` leaves when it accepts.
abbrev pub empty_ring : List ℕ → ℕ → RingBuffer
empty_ring buf size = record {
  buf = buf;
  capacity = size;
  mask = size - 1;
  head = 0;
  tail = 0;
  head_cache = 0;
  tail_cache = 0;
}

power_bounds : (k : ℕ) → k ≤ 31 → (0 < 2 ^ k) × (2 ^ k ≤ 2 ^ 31)
power_bounds k h =
    (one-le-pow k 2 (omega arith), pow-le-pow_right {n = 2} (omega arith) {i = k} {j = 31} h)

sub32_one : (n : ℕ) → 0 < n → n < 2 ^ 32 → sub32 n 1 ≡ n - 1
sub32_one n pos small = omega arith

-- cpr_ringbuf_init accepts storage of every power of two up to 2 ^ 31 that is not longer than its
-- memory, and the ring that it sets up is valid and empty.
pub init_accepts :
    (k : ℕ) (buf : List ℕ) (e : CprError)
    → k ≤ 31
    → 2 ^ k ≤ length buf
    → (init true (some buf) (2 ^ k) e ≡ (some (empty_ring buf (2 ^ k)), e))
      × IsValid k (empty_ring buf (2 ^ k))
      × (contents (empty_ring buf (2 ^ k)) ≡ [])
unfolding init
init_accepts k buf e h enough =
    let bounds = power_bounds k h in
    (
      rw (sub32_one (2 ^ k) (bounds.0) (omega arith), pow-passes k) (ground (arith, bounds)),
      record {
        sized = record { small = h; power = refl; masks = refl; storage = enough };
        head_agrees = refl;
        tail_agrees = refl;
        head_word = omega arith;
        tail_word = omega arith;
        holds = omega arith;
      },
      refl,
    )

-- cpr_ringbuf_init refuses every 32-bit size that is no power of two with CPR_ERR_INVALID.
init_refuses :
    (buf_size : ℕ) (buf : List ℕ) (e : CprError)
    → buf_size < 2 ^ 32
    → ¬ IsPower buf_size
    → init true (some buf) buf_size e
      ≡ (none, set_error err_invalid "buf_size must be a nonzero power of two" e)
unfolding init
init_refuses buf_size buf e small no_power = elim (Bool-cases (buf_size == 0)) [
  | inl empty ↦ rw empty refl
  | inr some_size ↦ elim (Bool-cases (bit_and buf_size (sub32 buf_size 1) == 0)) [
    | inl passes ↦
        let pos : 0 < buf_size = ground arith in
        absurd (
          no_power (
            passes-IsPower buf_size pos (
              ap (bit_and buf_size) {x = buf_size - 1} {y = sub32 buf_size 1}
                (omega (arith, sub32_one buf_size pos small))
              ∙ ground arith)))
    | inr fails ↦ rw (some_size, fails) refl
  ]
]

-- On a valid ring cpr_ringbuf_size is the number of bytes that it holds, and cpr_ringbuf_free
-- what is missing to its capacity.
size_free :
    {k : ℕ} {rb : RingBuffer}
    → IsValid k rb
    → (size rb ≡ length (contents rb)) × (free rb + length (contents rb) ≡ capacity_of rb)
unfolding size free capacity_of
size_free v = omega (arith, length-contents v, v.holds, capacity_bounds v.sized)
