-- ===== src/Ring/Threads.antt =====
-- A writer and a reader thread on one ring of src/ringbuf.c. Each call is three steps: it loads
-- the other side's index and fixes how much to move; it copies; it publishes its own index. The
-- steps of the two threads interleave in any way.
pub mod Safety
pub mod Moves
pub mod Order
use libcopper.Base.{ℕ, ◌≤◌, ◌<◌, ◌≡◌, List, [], ◌++◌, take, length, some}
use libcopper.Ring.{RingBuffer, copy_in, copy_out, free_space, available, clip, publish, consume}

-- Where a call of `cpr_ringbuf_write` or `cpr_ringbuf_write_all` stands: its data and the number
-- of bytes that it moves.
pub data Writer : Type 0 where
  idle : Writer
  filling filled : List ℕ → ℕ → Writer

-- Where a call of `cpr_ringbuf_read` or `cpr_ringbuf_read_all` stands: its output buffer and the
-- number of bytes that it moves.
pub data Reader : Type 0 where
  idle : Reader
  draining drained : List ℕ → ℕ → Reader

-- The ring and both threads, with all bytes that calls have reported as written and as read.
pub record World : Type 0 where
  pub ring : RingBuffer
  pub writer : Writer
  pub reader : Reader
  pub sent : List ℕ
  pub received : List ℕ

pub data Step : World → World → Type 0 where
  begin_write :
      (w : World) (bytes : List ℕ) (size : ℕ)
      → w.writer ≡ Writer.idle
      → size ≤ length bytes
      → 0 < clip size (free_space w.ring w.ring.tail)
      → Step w (record w { writer = filling bytes (clip size (free_space w.ring w.ring.tail)) })
  begin_write_all :
      (w : World) (bytes : List ℕ) (size : ℕ)
      → w.writer ≡ Writer.idle
      → size ≤ length bytes
      → size ≤ free_space w.ring w.ring.tail
      → Step w (record w { writer = filling bytes size })
  copy_in_step :
      (w : World) (bytes : List ℕ) (n : ℕ) (buf : List ℕ)
      → w.writer ≡ filling bytes n
      → copy_in w.ring w.ring.head_cache bytes n ≡ some buf
      → Step w (record w { ring = record w.ring { buf = buf }; writer = filled bytes n })
  publish_step :
      (w : World) (bytes : List ℕ) (n : ℕ)
      → w.writer ≡ filled bytes n
      → Step w (record w {
        ring = publish w.ring n;
        writer = Writer.idle;
        sent = w.sent ++ take n bytes;
      })
  begin_read :
      (w : World) (out : List ℕ) (size : ℕ)
      → w.reader ≡ Reader.idle
      → size ≤ length out
      → 0 < clip size (available w.ring w.ring.head)
      → Step w (record w { reader = draining out (clip size (available w.ring w.ring.head)) })
  begin_read_all :
      (w : World) (out : List ℕ) (size : ℕ)
      → w.reader ≡ Reader.idle
      → size ≤ length out
      → size ≤ available w.ring w.ring.head
      → Step w (record w { reader = draining out size })
  copy_out_step :
      (w : World) (out : List ℕ) (n : ℕ) (dst : List ℕ)
      → w.reader ≡ draining out n
      → copy_out w.ring w.ring.tail_cache out n ≡ some dst
      → Step w (record w { reader = drained dst n })
  consume_step :
      (w : World) (dst : List ℕ) (n : ℕ)
      → w.reader ≡ drained dst n
      → Step w (record w {
        ring = consume w.ring n;
        reader = Reader.idle;
        received = w.received ++ take n dst;
      })

pub data Reach (s : World) : World → Type 0 where
  here : Reach s s
  next : {t u : World} → Reach s t → Step t u → Reach s u

-- Both threads start on a ring that `cpr_ringbuf_init` has set up.
abbrev pub start : RingBuffer → World
start rb = record {
  ring = rb;
  writer = Writer.idle;
  reader = Reader.idle;
  sent = [];
  received = [];
}
