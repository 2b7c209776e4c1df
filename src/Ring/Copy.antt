-- ===== src/Ring/Copy.antt =====
-- `cpr__ringbuf_copy_in` and `cpr__ringbuf_copy_out`: the two block copies do what a byte-by-byte
-- loop over the slots would do, and stay inside the storage.
use native.Mathlib.Nat.{mod-lt, mod-mod, mod-add-mod, add-mod_right, pow-le-pow_right, one-le-pow}
use mathlib.Core.Path.{ap₂}
use libcopper.Base.{ℕ, ◌+◌, ◌-◌, ◌%◌, ◌^◌, ◌≤◌, ◌<◌, ◌≡◌, sym, ap, ◌∙◌, arith, some, false}
use libcopper.Base.{List, ◌++◌, length, take, drop, write_at, sub64, append_assoc, bit_and}
use libcopper.Base.{bit_and_mask, Bool-cases, leb, leb→le, inl, inr, memcpy_in_range, length-take}
use libcopper.Base.{take-add, drop-add, length-append, length-drop, write_at_front, write_at-append}
use libcopper.Base.{length-write_at}
use libcopper.Ring.{RingBuffer, copy_in, copy_out}
use libcopper.Ring.Window.{window, store, store_cong, store-append, write_at-eq-store}
use libcopper.Ring.Window.{window_slice, window_cong, window-add, length-window}

-- What `cpr_ringbuf_init` fixes for the lifetime of a ring, `k` being the logarithm of the
-- capacity: a 32-bit power of two, the mask below it, and storage of at least that size.
pub record IsSized (k : ℕ) (rb : RingBuffer) : Type 0 where
  pub small : k ≤ 31
  pub power : rb.capacity ≡ 2 ^ k
  pub masks : rb.mask ≡ rb.capacity - 1
  pub storage : rb.capacity ≤ length rb.buf

pub capacity_bounds :
    {k : ℕ} {rb : RingBuffer} → IsSized k rb → (0 < rb.capacity) × (rb.capacity ≤ 2 ^ 31)
capacity_bounds {k} {rb} v = ground (
  arith,
  v.power,
  one-le-pow k 2 (omega arith),
  pow-le-pow_right {n = 2} (omega arith) {i = k} {j = 31} v.small,
)

module _ {k : ℕ} {rb : RingBuffer} (v : IsSized k rb) (pos : ℕ) where
  -- Masking is the remainder by the capacity.
  index_lem : bit_and pos rb.mask ≡ pos % rb.capacity
  index_lem =
      ap (bit_and pos) (v.masks ∙ ap (λ c. c - 1) v.power)
      ∙ bit_and_mask k pos
      ∙ ap (λ c. pos % c) (sym v.power)

  index-lt : pos % rb.capacity < rb.capacity
  index-lt = mod-lt pos (capacity_bounds v).0

  until_wrap_lem : sub64 rb.capacity (pos % rb.capacity) ≡ rb.capacity - pos % rb.capacity
  until_wrap_lem = omega (arith, capacity_bounds v, index-lt)

-- Both copies agree on how much lies before the end of the storage, `b`, and how much goes
-- round.
module _ {k : ℕ} {rb : RingBuffer} (v : IsSized k rb) (pos n : ℕ) (fits : n ≤ rb.capacity) where
  abbrev before : ℕ
  before = rb.capacity - pos % rb.capacity

  after_lem : leb n before ≡ false → sub64 n before ≡ n - before
  after_lem long = ground (arith, capacity_bounds v, index-lt v pos)

  -- After `before` bytes the position is back at slot 0.
  wraps : (pos + before) % rb.capacity ≡ 0 % rb.capacity
  wraps =
      sym (mod-add-mod pos rb.capacity before)
      ∙ ap (λ t. t % rb.capacity) {x = pos % rb.capacity + before} {y = 0 + rb.capacity}
          (omega (arith, index-lt v pos))
      ∙ add-mod_right 0 rb.capacity

  store_short :
      (src : List ℕ)
      → n ≤ length src
      → n ≤ before
      → write_at rb.buf (pos % rb.capacity) (take n src) ≡ store rb.capacity rb.buf pos (take n src)
  store_short src enough short =
      write_at-eq-store rb.capacity rb.buf (pos % rb.capacity) (take n src)
        (omega (arith, length-take n src, index-lt v pos))
      ∙ store_cong rb.capacity rb.buf (pos % rb.capacity) pos (take n src) (mod-mod pos rb.capacity)

  store_long :
      (src : List ℕ)
      → n ≤ length src
      → before < n
      → write_at
          (write_at rb.buf (pos % rb.capacity) (take before src))
          0
          (take (n - before) (drop before src))
        ≡ store rb.capacity rb.buf pos (take n src)
  store_long src enough long =
      let head_part = take before src in
      let tail_part = take (n - before) (drop before src) in
      let head_length : length head_part ≡ before = omega (arith, length-take before src) in
      let tail_length : length tail_part ≤ n - before =
        omega (arith, length-take (n - before) (drop before src)) in
      ap (λ b. write_at b 0 tail_part)
        (write_at-eq-store rb.capacity rb.buf (pos % rb.capacity) head_part
            (omega (arith, index-lt v pos))
          ∙ store_cong rb.capacity rb.buf (pos % rb.capacity) pos head_part
              (mod-mod pos rb.capacity))
      ∙ write_at-eq-store rb.capacity (store rb.capacity rb.buf pos head_part) 0 tail_part
          (omega arith)
      ∙ store_cong rb.capacity (store rb.capacity rb.buf pos head_part) 0 (pos + length head_part)
          tail_part (sym wraps ∙ ap (λ t. (pos + t) % rb.capacity) (sym head_length))
      ∙ sym (store-append rb.capacity rb.buf pos head_part tail_part)
      ∙ ap (store rb.capacity rb.buf pos)
          (sym (take-add before (n - before) src) ∙ ap (λ t. take t src) (omega arith))

  -- On a ring of a sized capacity, with at least n bytes of source and n up to the capacity, the
  -- one or two block copies of cpr__ringbuf_copy_in succeed and store what a loop over the n
  -- bytes would store, each at its position modulo the capacity.
  pub copy_in_lem :
      (src : List ℕ)
      → n ≤ length src
      → copy_in rb pos src n ≡ some (store rb.capacity rb.buf pos (take n src))
  unfolding copy_in
  copy_in_lem src enough =
      rw (index_lem v pos, until_wrap_lem v pos)
        (elim (Bool-cases (leb n before)) [
          | inl short ↦
              rw
                (
                  short,
                  memcpy_in_range rb.buf (pos % rb.capacity) src 0 n
                      (ground (arith, v.storage, index-lt v pos)) (omega arith),
                )
                (ap some (store_short src enough (leb→le n before short)))
          | inr long ↦
              rw
                (
                  long,
                  after_lem long,
                  memcpy_in_range rb.buf (pos % rb.capacity) src 0 before
                      (omega (arith, v.storage, index-lt v pos))
                      (ground (arith, capacity_bounds v)),
                )
                (memcpy_in_range (write_at rb.buf (pos % rb.capacity) (take before src)) 0 src
                    before (n - before)
                    (omega (
                      arith,
                      v.storage,
                      length-write_at rb.buf (pos % rb.capacity) (take before src),
                    ))
                    (ground arith)
                  ∙ ap some (store_long src enough (ground arith)))
        ])

  slice_short :
      (m : ℕ)
      → m ≤ before
      → take m (drop (pos % rb.capacity) rb.buf) ≡ window rb.capacity rb.buf pos m
  slice_short m short =
      sym (
        window_slice rb.capacity rb.buf (pos % rb.capacity) m v.storage
          (omega (arith, index-lt v pos)))
      ∙ window_cong rb.capacity rb.buf (pos % rb.capacity) pos m (mod-mod pos rb.capacity)

  -- Bytes that are stored at the front of `dst`.
  front :
      (dst : List ℕ) (m : ℕ) (bytes : List ℕ)
      → length bytes ≡ m
      → m ≤ length dst
      → write_at dst 0 bytes ≡ bytes ++ drop m dst
  front dst m bytes e h = write_at_front dst bytes (omega arith) ∙ ap (λ t. bytes ++ drop t dst) e

  out_long :
      (dst : List ℕ)
      → n ≤ length dst
      → before < n
      → write_at
          (window rb.capacity rb.buf pos before ++ drop before dst)
          before
          (take (n - before) rb.buf)
        ≡ window rb.capacity rb.buf pos n ++ drop n dst
  out_long dst enough long =
      let w₁ = window rb.capacity rb.buf pos before in
      let w₂ = window rb.capacity rb.buf (pos + before) (n - before) in
      let rest = drop before dst in
      ap₂ (write_at (w₁ ++ rest)) (sym (length-window rb.capacity rb.buf pos before)) (
        sym (window_slice rb.capacity rb.buf 0 (n - before) v.storage (omega arith))
        ∙ window_cong rb.capacity rb.buf 0 (pos + before) (n - before) (sym wraps))
      ∙ write_at-append w₁ rest w₂
      ∙ ap (λ t. w₁ ++ t)
          (front rest (n - before) w₂ (length-window rb.capacity rb.buf (pos + before) (n - before))
              (omega (arith, length-drop before dst))
            ∙ ap (λ t. w₂ ++ t) (sym (drop-add before (n - before) dst)))
      ∙ sym (append_assoc w₁ w₂ (drop (before + (n - before)) dst))
      ∙ ap₂ ◌++◌ (sym (window-add rb.capacity rb.buf pos before (n - before)))
          (ap (λ t. drop t dst) (omega arith))
      ∙ ap (λ t. window rb.capacity rb.buf pos t ++ drop n dst) (omega arith)

  -- On a ring of a sized capacity, with room for n bytes and n up to the capacity, the one or two
  -- block copies of cpr__ringbuf_copy_out succeed and put the n bytes that a loop would read,
  -- each from its position modulo the capacity, in front of the rest of the output.
  pub copy_out_lem :
      (dst : List ℕ)
      → n ≤ length dst
      → copy_out rb pos dst n ≡ some (window rb.capacity rb.buf pos n ++ drop n dst)
  unfolding copy_out
  copy_out_lem dst enough =
      rw (index_lem v pos, until_wrap_lem v pos)
        (elim (Bool-cases (leb n before)) [
          | inl short ↦
              rw
                (
                  short,
                  memcpy_in_range dst 0 rb.buf (pos % rb.capacity) n (omega arith)
                      (ground (arith, v.storage, index-lt v pos)),
                  slice_short n (leb→le n before short),
                )
                (ap some (
                  front dst n (window rb.capacity rb.buf pos n)
                    (length-window rb.capacity rb.buf pos n) enough))
          | inr long ↦
              let shorter : before < n = ground arith in
              rw
                (
                  long,
                  after_lem long,
                  memcpy_in_range dst 0 rb.buf (pos % rb.capacity) before (omega arith)
                      (omega (arith, v.storage, index-lt v pos)),
                  slice_short before (omega arith),
                  front dst before (window rb.capacity rb.buf pos before)
                      (length-window rb.capacity rb.buf pos before) (omega arith),
                )
                (memcpy_in_range (window rb.capacity rb.buf pos before ++ drop before dst) before
                    rb.buf 0 (n - before)
                    (omega (
                      arith,
                      length-append (window rb.capacity rb.buf pos before) (drop before dst),
                      length-window rb.capacity rb.buf pos before,
                      length-drop before dst,
                    ))
                    (omega (arith, v.storage))
                  ∙ ap some (out_long dst enough shorter))
        ])
