-- ===== src/Ring/Refine.antt =====
-- A valid ring buffer is the queue of the bytes between its indices: what each function of
-- src/ringbuf.c does to that queue.
use native.Mathlib.Nat.{mod-mod_of_dvd}
use mathlib.Core.Path.{ap₂}
use libcopper.Base.{
  ℕ, ◌+◌, ◌-◌, ◌%◌, ◌^◌, ◌≤◌, ◌<◌, ◌≡◌, refl, sym, ap, ◌∙◌, arith, some, u32, sub32,
}
use libcopper.Base.{List, ◌++◌, length, take, drop, length-take, pow-dvd}
use libcopper.Ring.{RingBuffer, copy_in, free_space, available, publish, consume, copy_out}
use libcopper.Ring.Window.{
  window, store, store_cong, window_cong, window-store_extend, length-store,
}
use libcopper.Ring.Window.{length-window, take-window, drop-window}
use libcopper.Ring.Copy.{IsSized, capacity_bounds, copy_in_lem, copy_out_lem}

-- Positions count all bytes ever written or read; the code keeps them modulo 2 ^ 32, which the
-- capacity divides.
pub u32_slot :
    {k : ℕ} {rb : RingBuffer} → IsSized k rb → (p : ℕ) → u32 p % rb.capacity ≡ p % rb.capacity
u32_slot {k} v p = rw v.power (mod-mod_of_dvd (2 ^ k) p (pow-dvd k 32 (omega (arith, v.small))))

-- The bytes from `tail` up to `head`.
abbrev pub contents : RingBuffer → List ℕ
contents rb = window rb.capacity rb.buf rb.tail (sub32 rb.head rb.tail)

-- Between two calls the private copies of the indices agree with the shared ones.
pub record IsValid (k : ℕ) (rb : RingBuffer) : Type 0 where
  pub sized : IsSized k rb
  pub head_agrees : rb.head_cache ≡ rb.head
  pub tail_agrees : rb.tail_cache ≡ rb.tail
  pub head_word : rb.head < 2 ^ 32
  pub tail_word : rb.tail < 2 ^ 32
  pub holds : sub32 rb.head rb.tail ≤ rb.capacity

module _ {k : ℕ} {rb : RingBuffer} (v : IsValid k rb) where
  pub length-contents : length (contents rb) ≡ sub32 rb.head rb.tail
  length-contents = length-window rb.capacity rb.buf rb.tail (sub32 rb.head rb.tail)

  pub contents-fit : length (contents rb) ≤ rb.capacity
  contents-fit = omega (arith, length-contents, v.holds)

  pub free_space_lem : free_space rb rb.tail ≡ rb.capacity - length (contents rb)
  free_space_lem = omega (arith, v.head_agrees, v.holds, capacity_bounds v.sized, length-contents)

  pub available_lem : available rb rb.head ≡ length (contents rb)
  available_lem = omega (arith, v.tail_agrees, length-contents)

  -- The slot that is written next is the one behind the contents.
  next_slot : rb.head_cache % rb.capacity ≡ (rb.tail + sub32 rb.head rb.tail) % rb.capacity
  next_slot =
      ap (λ t. t % rb.capacity) {x = rb.head_cache} {y = u32 (rb.tail + sub32 rb.head rb.tail)}
        (omega (arith, v.head_agrees, v.head_word, v.tail_word))
      ∙ u32_slot v.sized (rb.tail + sub32 rb.head rb.tail)

  -- Storing `n` bytes at `head` and moving `head` on appends them.
  pub deposit :
      (bytes : List ℕ) (n : ℕ)
      → n ≤ length bytes
      → n ≤ rb.capacity - length (contents rb)
      → (buf : List ℕ) × (copy_in rb rb.head_cache bytes n ≡ some buf)
        × IsValid k (publish (record rb { buf = buf }) n)
        × (contents (publish (record rb { buf = buf }) n) ≡ contents rb ++ take n bytes)
  deposit bytes n enough fits =
      let stored = store rb.capacity rb.buf rb.head_cache (take n bytes) in
      let after = publish (record rb { buf = stored }) n in
      let count : length (take n bytes) ≡ n = omega (arith, length-take n bytes) in
      let moved : sub32 after.head rb.tail ≡ sub32 rb.head rb.tail + n = omega (
        arith,
        v.head_agrees,
        v.head_word,
        v.tail_word,
        v.holds,
        capacity_bounds v.sized,
        length-contents,
      ) in
      (
        stored,
        copy_in_lem v.sized rb.head_cache n (omega arith) bytes enough,
        record {
          sized = record {
            small = v.sized.small;
            power = v.sized.power;
            masks = v.sized.masks;
            storage = omega (
              arith,
              v.sized.storage,
              length-store rb.capacity rb.buf rb.head_cache (take n bytes),
            );
          };
          head_agrees = refl;
          tail_agrees = v.tail_agrees;
          head_word = omega arith;
          tail_word = v.tail_word;
          holds = omega (arith, moved, length-contents, contents-fit);
        },
        ap₂ (λ b c. window rb.capacity b rb.tail c)
              (store_cong rb.capacity rb.buf rb.head_cache (rb.tail + sub32 rb.head rb.tail)
                (take n bytes) next_slot)
              (moved ∙ ap (λ t. sub32 rb.head rb.tail + t) (sym count))
            ∙ window-store_extend rb.capacity rb.buf rb.tail (sub32 rb.head rb.tail) (take n bytes)
                (omega (arith, length-contents, contents-fit)) v.sized.storage,
      )

  -- Copying `n` bytes out at `tail` and moving `tail` on takes them from the front.
  pub withdraw :
      (out : List ℕ) (n : ℕ)
      → n ≤ length out
      → n ≤ length (contents rb)
      → (copy_out rb rb.tail_cache out n ≡ some (take n (contents rb) ++ drop n out))
        × IsValid k (consume rb n)
        × (contents (consume rb n) ≡ drop n (contents rb))
  withdraw out n enough there =
      let after = consume rb n in
      let rest = sub32 rb.head rb.tail - n in
      let moved : sub32 rb.head after.tail ≡ rest = omega (
        arith,
        v.tail_agrees,
        v.head_word,
        v.tail_word,
        v.holds,
        capacity_bounds v.sized,
        length-contents,
      ) in
      (
        copy_out_lem v.sized rb.tail_cache n (omega (arith, contents-fit)) out enough
            ∙ ap (λ t. some (t ++ drop n out))
                (ap (λ t. window rb.capacity rb.buf t n) v.tail_agrees
                  ∙ sym (
                      take-window rb.capacity rb.buf rb.tail (sub32 rb.head rb.tail) n
                        (omega (arith, length-contents)))),
        record {
          sized = record {
            small = v.sized.small;
            power = v.sized.power;
            masks = v.sized.masks;
            storage = v.sized.storage;
          };
          head_agrees = v.head_agrees;
          tail_agrees = refl;
          head_word = v.head_word;
          tail_word = omega arith;
          holds = omega (arith, moved, v.holds);
        },
        ap (window rb.capacity rb.buf after.tail) moved
            ∙ window_cong rb.capacity rb.buf after.tail (rb.tail + n) rest (
                ap (λ t. t % rb.capacity) {x = after.tail} {y = u32 (rb.tail + n)}
                  (omega (arith, v.tail_agrees, contents-fit, capacity_bounds v.sized))
                ∙ u32_slot v.sized (rb.tail + n))
            ∙ sym (
                drop-window rb.capacity rb.buf rb.tail (sub32 rb.head rb.tail) n
                  (omega (arith, length-contents))),
      )
