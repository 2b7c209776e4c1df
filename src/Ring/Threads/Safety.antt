-- ===== src/Ring/Threads/Safety.antt =====
-- What holds of the two threads of src/ringbuf.c in every interleaving.
use libcopper.Base.{ℕ, ◌+◌, ◌-◌, ◌≤◌, ◌≡◌, arith, u32, List, ◌++◌, length, take}
use libcopper.Ring.{free_space, available}
use libcopper.Ring.Window.{window}
use libcopper.Ring.Copy.{IsSized, capacity_bounds}
use libcopper.Ring.Threads.{World, Writer, Reader, filling, filled, draining, drained}

-- The number of bytes that a call is moving.
abbrev pub in_flight : Writer → ℕ
in_flight Writer.idle = 0
in_flight (filling bytes n) = n
in_flight (filled bytes n) = n

abbrev pub out_flight : Reader → ℕ
out_flight Reader.idle = 0
out_flight (draining out n) = n
out_flight (drained out n) = n

module _ (cap : ℕ) (buf : List ℕ) (pos : ℕ) where
  -- A call has its bytes, and once copied they are in the slots behind the writer's position.
  abbrev pub WriterOk : Writer → Type 0
  WriterOk Writer.idle = Unit {0}
  WriterOk (filling bytes n) = n ≤ length bytes
  WriterOk (filled bytes n) = (n ≤ length bytes) × (window cap buf pos n ≡ take n bytes)

  -- A call has room for its bytes, and once copied they are those at the reader's position.
  abbrev pub ReaderOk : Reader → Type 0
  ReaderOk Reader.idle = Unit {0}
  ReaderOk (draining out n) = n ≤ length out
  ReaderOk (drained out n) = take n out ≡ window cap buf pos n

-- The positions are the numbers of bytes that were sent and received.
pub record IsSound (k : ℕ) (w : World) : Type 0 where
  pub sized : IsSized k w.ring
  pub head_at : w.ring.head ≡ u32 (length w.sent)
  pub head_cache_at : w.ring.head_cache ≡ u32 (length w.sent)
  pub tail_at : w.ring.tail ≡ u32 (length w.received)
  pub tail_cache_at : w.ring.tail_cache ≡ u32 (length w.received)
  pub order : length w.received + out_flight w.reader ≤ length w.sent
  pub room : length w.sent + in_flight w.writer ≤ length w.received + w.ring.capacity
  pub fifo :
      w.sent
      ≡ w.received
        ++ window w.ring.capacity w.ring.buf (length w.received) (length w.sent - length w.received)
  pub writer_ok : WriterOk w.ring.capacity w.ring.buf (length w.sent) w.writer
  pub reader_ok : ReaderOk w.ring.capacity w.ring.buf (length w.received) w.reader

module _ {k : ℕ} {w : World} (s : IsSound k w) where
  pub free_space_sound :
      free_space w.ring w.ring.tail ≡ w.ring.capacity - (length w.sent - length w.received)
  free_space_sound =
      omega (arith, s.head_cache_at, s.tail_at, s.order, s.room, capacity_bounds s.sized)

  pub available_sound : available w.ring w.ring.head ≡ length w.sent - length w.received
  available_sound =
      omega (arith, s.head_at, s.tail_cache_at, s.order, s.room, capacity_bounds s.sized)

  pub start_writing :
      (bytes : List ℕ) (n : ℕ)
      → n ≤ length bytes
      → n ≤ free_space w.ring w.ring.tail
      → IsSound k (record w { writer = filling bytes n })
  start_writing bytes n enough fits = record {
    sized = s.sized;
    head_at = s.head_at;
    head_cache_at = s.head_cache_at;
    tail_at = s.tail_at;
    tail_cache_at = s.tail_cache_at;
    order = s.order;
    room = omega (arith, free_space_sound, s.order, s.room);
    fifo = s.fifo;
    writer_ok = enough;
    reader_ok = s.reader_ok;
  }

  pub start_reading :
      (out : List ℕ) (n : ℕ)
      → n ≤ length out
      → n ≤ available w.ring w.ring.head
      → IsSound k (record w { reader = draining out n })
  start_reading out n enough there = record {
    sized = s.sized;
    head_at = s.head_at;
    head_cache_at = s.head_cache_at;
    tail_at = s.tail_at;
    tail_cache_at = s.tail_cache_at;
    order = omega (arith, available_sound, s.order);
    room = s.room;
    fifo = s.fifo;
    writer_ok = s.writer_ok;
    reader_ok = enough;
  }
