-- ===== src/Ring/Threads/Order.antt =====
-- Every interleaving of the two threads of src/ringbuf.c delivers the bytes in order, stays inside
-- the storage, and never copies into a slot that is being copied out.
use native.Mathlib.Nat.{mod-add-mod}
use libcopper.Base.{ℕ, ◌+◌, ◌-◌, ◌%◌, ◌≤◌, ◌<◌, ◌≡◌, ◌≢◌, refl, sym, ap, ◌∙◌, arith}
use libcopper.Base.{List, ◌++◌, some, length}
use libcopper.Ring.{RingBuffer, copy_in, copy_out, free_space, available, clip}
use libcopper.Ring.Window.{window, length-window, mod_ne}
use libcopper.Ring.Refine.{IsValid}
use libcopper.Ring.Threads.{World, filling, draining, Step}
use libcopper.Ring.Threads.{begin_write, begin_write_all, copy_in_step, publish_step}
use libcopper.Ring.Threads.{begin_read, begin_read_all, copy_out_step, consume_step}
use libcopper.Ring.Threads.{Reach, here, next, start}
use libcopper.Ring.Threads.Safety.{IsSound, start_writing, start_reading, in_flight, out_flight}
use libcopper.Ring.Threads.Moves.{copy_in-IsSound, publish-IsSound, copy_out-IsSound}
use libcopper.Ring.Threads.Moves.{
  consume-IsSound, copy_in_sound, copy_out_sound, head_slot, tail_slot,
}

mod_add_cong : (cap a b i : ℕ) → a % cap ≡ b % cap → (a + i) % cap ≡ (b + i) % cap
mod_add_cong cap a b i e =
    sym (mod-add-mod a cap i) ∙ ap (λ t. (t + i) % cap) e ∙ mod-add-mod b cap i

clip_le : (a b : ℕ) → (clip a b ≤ a) × (clip a b ≤ b)
clip_le a b = ground arith

Step-IsSound : {k : ℕ} {w w' : World} → Step w w' → IsSound k w → IsSound k w'
Step-IsSound (begin_write w bytes size _ enough _) s =
    let limits = clip_le size (free_space w.ring w.ring.tail) in
    start_writing s bytes _ (omega (arith, limits)) (limits.1)
Step-IsSound (begin_write_all w bytes size _ enough fits) s = start_writing s bytes size enough fits
Step-IsSound (copy_in_step w bytes n buf at copied) s = copy_in-IsSound s bytes n buf at copied
Step-IsSound (publish_step w bytes n at) s = publish-IsSound s bytes n at
Step-IsSound (begin_read w out size _ enough _) s =
    let limits = clip_le size (available w.ring w.ring.head) in
    start_reading s out _ (omega (arith, limits)) (limits.1)
Step-IsSound (begin_read_all w out size _ enough there) s = start_reading s out size enough there
Step-IsSound (copy_out_step w out n dst at copied) s = copy_out-IsSound s out n dst at copied
Step-IsSound (consume_step w dst n at) s = consume-IsSound s dst n at

Reach-IsSound : {k : ℕ} {w w' : World} → IsSound k w → Reach w w' → IsSound k w'
Reach-IsSound s here = s
Reach-IsSound s (next r st) = Step-IsSound st (Reach-IsSound s r)

start-IsSound :
    {k : ℕ} {rb : RingBuffer} → IsValid k rb → rb.head ≡ 0 → rb.tail ≡ 0 → IsSound k (start rb)
start-IsSound {rb} v h t = record {
  sized = v.sized;
  head_at = h;
  head_cache_at = v.head_agrees ∙ h;
  tail_at = t;
  tail_cache_at = v.tail_agrees ∙ t;
  order = omega arith;
  room = omega arith;
  fifo = refl;
  writer_ok = tt;
  reader_ok = tt;
}

module _ {k : ℕ} {rb : RingBuffer} (v : IsValid k rb) (h : rb.head ≡ 0) (t : rb.tail ≡ 0)
    {w : World} (r : Reach (start rb) w) where
  sound : IsSound k w
  sound = Reach-IsSound (start-IsSound v h t) r

  -- In every interleaving of one writer and one reader thread, from a valid ring with both
  -- indices at 0, the bytes received are the first of the bytes sent, in order and each once, and
  -- those still on the way are no more than the capacity.
  pub delivers_in_order :
      (rest : List ℕ) × (w.sent ≡ w.received ++ rest) × (length rest ≤ w.ring.capacity)
  delivers_in_order = (
    window w.ring.capacity w.ring.buf (length w.received) (length w.sent - length w.received),
    sound.fifo,
    omega (
      arith,
      sound.room,
      length-window w.ring.capacity w.ring.buf (length w.received)
          (length w.sent - length w.received),
    ),
  )

  -- In every interleaving of the two threads, from a valid ring with both indices at 0, the copy
  -- of a write in flight stays inside the storage and inside the data.
  copy_in_in_range :
      (bytes : List ℕ) (n : ℕ)
      → w.writer ≡ filling bytes n
      → (buf : List ℕ) × (copy_in w.ring w.ring.head_cache bytes n ≡ some buf)
  copy_in_in_range bytes n at = (_, copy_in_sound sound bytes n at)

  -- In every interleaving of the two threads, from a valid ring with both indices at 0, the copy
  -- of a read in flight stays inside the storage and inside the output.
  pub copy_out_in_range :
      (out : List ℕ) (n : ℕ)
      → w.reader ≡ draining out n
      → (dst : List ℕ) × (copy_out w.ring w.ring.tail_cache out n ≡ some dst)
  copy_out_in_range out n at = (_, copy_out_sound sound out n at)

  -- In every interleaving of the two threads, from a valid ring with both indices at 0, no slot
  -- that the copy of a write in flight may fill is one that the copy of a read in flight takes.
  pub no_data_race :
      (i j : ℕ)
      → i < in_flight w.writer
      → j < out_flight w.reader
      → (w.ring.head_cache + i) % w.ring.capacity ≢ (w.ring.tail_cache + j) % w.ring.capacity
  no_data_race i j hi hj e =
      let slots : (length w.received + j) % w.ring.capacity
          ≡ (length w.sent + i) % w.ring.capacity =
        sym (mod_add_cong _ _ _ j (tail_slot sound))
        ∙ sym e
        ∙ mod_add_cong _ _ _ i (head_slot sound) in
      mod_ne w.ring.capacity (length w.received + j) (length w.sent + i)
        (omega (arith, sound.order)) (omega (arith, sound.room)) slots
