-- ===== src/Ring.antt =====
-- src/ringbuf.c: a byte ring buffer with free-running 32-bit indices. A function that changes
-- `*rb` returns the new ring; a null pointer is `none`. A result `none` is an access out of range.
pub mod Window
pub mod Copy
pub mod Queue
pub mod Refine
pub mod Calls
pub mod Life
pub mod Client
pub mod Threads
mod Tests
use libcopper.Base.{
  bytes_of, is_missing, ℕ, ◌+◌, bit_and, Bool, true, false, ◌||◌, not, Option, none, some,
}
use libcopper.Base.{List, [], ltb, leb, ◌==◌, if◌then◌else◌, ◌>>=◌, memcpy, u32, sub32, sub64}
use libcopper.Error.{CprError, err_invalid, set_error}

-- The atomic `head` and `tail` are the values that they hold.
pub record RingBuffer : Type 0 where
  pub buf : List ℕ
  pub capacity : ℕ
  pub mask : ℕ
  pub head : ℕ
  pub tail : ℕ
  pub head_cache : ℕ
  pub tail_cache : ℕ

-- `cpr_ringbuf_init`, where `cpr_atomicu32_init` cannot fail. `is_there` says that `rb` is not null.
pub init : Bool → Option (List ℕ) → ℕ → CprError → Option RingBuffer × CprError
init is_there none buf_size e = (none, set_error err_invalid "NULL argument" e)
init is_there (some buf) buf_size e =
    if not is_there
    then (none, set_error err_invalid "NULL argument" e)
    else if buf_size == 0 || not (bit_and buf_size (sub32 buf_size 1) == 0)
    then (none, set_error err_invalid "buf_size must be a nonzero power of two" e)
    else (some fresh, e)
  where
    fresh : RingBuffer
    fresh = record {
      buf = buf;
      capacity = buf_size;
      mask = sub32 buf_size 1;
      head = 0;
      tail = 0;
      head_cache = 0;
      tail_cache = 0;
    }

-- `cpr_ringbuf_destroy`, where `cpr_atomicu32_destroy` does nothing.
abbrev pub destroy : Option RingBuffer → Option RingBuffer
destroy rb = rb

-- `cpr__ringbuf_copy_in`: the new storage.
pub copy_in : RingBuffer → ℕ → List ℕ → ℕ → Option (List ℕ)
copy_in rb pos src n =
    let idx = bit_and pos rb.mask in
    let until_wrap = sub64 rb.capacity idx in
    if leb n until_wrap
    then memcpy rb.buf idx src 0 n
    else (memcpy rb.buf idx src 0 until_wrap >>= λ buf.
        memcpy buf 0 src until_wrap (sub64 n until_wrap))

-- `cpr__ringbuf_copy_out`: the new contents of `dst`.
pub copy_out : RingBuffer → ℕ → List ℕ → ℕ → Option (List ℕ)
copy_out rb pos dst n =
    let idx = bit_and pos rb.mask in
    let until_wrap = sub64 rb.capacity idx in
    if leb n until_wrap
    then memcpy dst 0 rb.buf idx n
    else (memcpy dst 0 rb.buf idx until_wrap >>= λ dst.
        memcpy dst until_wrap rb.buf 0 (sub64 n until_wrap))

-- `free_space`, from the index of the reader that was loaded.
abbrev pub free_space : RingBuffer → ℕ → ℕ
free_space rb tail = sub32 rb.capacity (sub32 rb.head_cache tail)

-- `available`, from the index of the writer that was loaded.
abbrev pub available : RingBuffer → ℕ → ℕ
available rb head = sub32 head rb.tail_cache

-- The lesser of what is asked for and what is there.
abbrev pub clip : ℕ → ℕ → ℕ
clip size limit = if ltb size limit then size else limit

-- `rb->head_cache += (uint32_t)n`, and the store of `head`.
abbrev pub publish : RingBuffer → ℕ → RingBuffer
publish rb n =
    let next = u32 (rb.head_cache + u32 n) in record rb { head_cache = next; head = next }

-- `rb->tail_cache += (uint32_t)n`, and the store of `tail`.
abbrev pub consume : RingBuffer → ℕ → RingBuffer
consume rb n =
    let next = u32 (rb.tail_cache + u32 n) in record rb { tail_cache = next; tail = next }

-- `cpr_ringbuf_write`
pub write :
    Option RingBuffer → Option (List ℕ) → ℕ → CprError → Option (ℕ × Option RingBuffer × CprError)
write none data_ptr data_size e = some (0, none, set_error err_invalid "NULL argument" e)
write (some rb) data_ptr data_size e =
    if is_missing data_ptr data_size
    then some (0, some rb, set_error err_invalid "NULL argument" e)
    else let n = clip data_size (free_space rb rb.tail) in
      if n == 0
      then some (0, some rb, e)
      else (copy_in rb rb.head_cache (bytes_of data_ptr) n >>= λ buf.
          some (n, some (publish (record rb { buf = buf }) n), e))

-- `cpr_ringbuf_write_all`
pub write_all :
    Option RingBuffer
    → Option (List ℕ)
    → ℕ
    → CprError
    → Option (Bool × Option RingBuffer × CprError)
write_all none data_ptr data_size e = some (false, none, set_error err_invalid "NULL argument" e)
write_all (some rb) data_ptr data_size e =
    if is_missing data_ptr data_size
    then some (false, some rb, set_error err_invalid "NULL argument" e)
    else if ltb (free_space rb rb.tail) data_size
    then some (false, some rb, e)
    else (copy_in rb rb.head_cache (bytes_of data_ptr) data_size >>= λ buf.
        some (true, some (publish (record rb { buf = buf }) data_size), e))

-- `cpr_ringbuf_read`. The second component is what `out` holds afterwards.
pub read :
    Option RingBuffer
    → Option (List ℕ)
    → ℕ
    → CprError
    → Option (ℕ × List ℕ × Option RingBuffer × CprError)
read none out out_size e = some (0, bytes_of out, none, set_error err_invalid "NULL argument" e)
read (some rb) out out_size e =
    if is_missing out out_size
    then some (0, bytes_of out, some rb, set_error err_invalid "NULL argument" e)
    else let n = clip out_size (available rb rb.head) in
      if n == 0
      then some (0, bytes_of out, some rb, e)
      else (copy_out rb rb.tail_cache (bytes_of out) n >>= λ dst.
          some (n, dst, some (consume rb n), e))

-- `cpr_ringbuf_read_all`
pub read_all :
    Option RingBuffer
    → Option (List ℕ)
    → ℕ
    → CprError
    → Option (Bool × List ℕ × Option RingBuffer × CprError)
read_all none out out_size e =
    some (false, bytes_of out, none, set_error err_invalid "NULL argument" e)
read_all (some rb) out out_size e =
    if is_missing out out_size
    then some (false, bytes_of out, some rb, set_error err_invalid "NULL argument" e)
    else if ltb (available rb rb.head) out_size
    then some (false, bytes_of out, some rb, e)
    else (copy_out rb rb.tail_cache (bytes_of out) out_size >>= λ dst.
        some (true, dst, some (consume rb out_size), e))

-- `cpr_ringbuf_size`
pub size : RingBuffer → ℕ
size rb = sub32 rb.head rb.tail

-- `cpr_ringbuf_free`
pub free : RingBuffer → ℕ
unfolding size
free rb = sub64 rb.capacity (size rb)

-- `cpr_ringbuf_capacity`
pub capacity_of : RingBuffer → ℕ
capacity_of rb = rb.capacity
