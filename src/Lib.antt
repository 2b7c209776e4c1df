-- ===== src/Lib.antt =====
-- libcopper, a portable C library: models of its components and their correctness theorems.
--
-- The library is a set of components that share one thing, the error state of the calling thread
-- (src/error.c): an operation that fails stores a code and a message there. The models take this
-- state and return the new one. Beyond that the file sink of the log (src/log.c) calls the file
-- functions (src/fs.c), and the ring buffer keeps its two indices in atomics (src/atomic.c).
--
-- - Error: src/error.c, include/copper/error.h and the codes of include/copper/result.h.
--   CprError is the state, set_error is cpr__set_error, get_error and clear_error are
--   cpr_get_error and cpr_clear_error.
-- - Ring: src/ringbuf.c. RingBuffer is CprRingBuffer; init, destroy, write, write_all, read,
--   read_all, size, free and capacity_of are the functions cpr_ringbuf_*; copy_in and copy_out are
--   cpr__ringbuf_copy_in and cpr__ringbuf_copy_out. Ring.Queue is the bounded queue that the ring
--   implements, Ring.Window the storage read and written modulo the capacity, Ring.Refine the
--   invariant and the bytes held, Ring.Calls each call, Ring.Client sequences of calls,
--   Ring.Life the set-up, Ring.Threads the interleavings of a writer and a reader thread.
-- - Arena: src/arena.c. ArenaAllocator and Arena are CprArenaAllocator and CprArena; init,
--   init_buf, alloc, alloc_aligned, reset, rewind and free are the functions cpr_arena_*.
--   Arena.Align is the arithmetic of alignment, Arena.Alloc the branches of an allocation,
--   Arena.Layout a series of allocations, Arena.Life set-up, reset and freeing.
-- - Base64: src/base64.c. Base64.Encode and Base64.Decode hold cpr_base64_encode and
--   cpr_base64_decode; Base64.Alphabet is about the two alphabets, Base64.Groups about the loop of
--   the encoder, Base64.Encoding and Base64.Decoding about each direction, Base64.RoundTrip about
--   both.
-- - Rand: src/rand.c, the branch for Linux. rand_bytes, rand_u32, rand_u64, randr_u32, randr_u64,
--   randr_i32 and randr_i64 are the functions cpr_rand*; lemireu32_step and pow2_mask are
--   cpr__lemireu32_step and cpr__pow2_mask. Entropy holds the system calls, of which
--   Rand.Bytes.Reliable states what getrandom promises. Rand.Lemire is about the rejection of draws,
--   Rand.Mask about the mask, Rand.Ranges and Rand.Wide about the ranges of 32-bit and 64-bit numbers.
-- - Endian: include/copper/endian.h. bswap16 to write_be64 are the functions cpr_bswap16 to
--   cpr_write_be64. Endian.Swap is the arithmetic of the swaps, Endian.Bytes their effect on the
--   bytes, and Endian.Memory about loads and stores.
-- - Fs: src/fs.c. Fs.Os is the record of the calls of libc and POSIX, and the state that they and the
--   error share. Fs.Path holds cpr_path_is_abs, cpr_path_basename, cpr_path_ext, cpr_path_dirname and
--   cpr_path_join, Fs.Path.Parts is about them; Fs.Path.Normalize is cpr_normalize_path, with what it
--   has written as a text in Text, the bounds of its loop in Bounds, its result in Result, the dot
--   at its end in Shown, the meaning of a path in Meaning and the proof that both agree in Resolve.
--   Fs.File holds the functions on open files and cpr_read_file_all and cpr_write_file_all, Fs.Disk
--   those on the file system (cwd, fs_stat, path_exists, path_is_file, path_is_dir, make_dir for
--   cpr_mkdir, mkdir_all, remove_file, remove_empty for cpr__rmdir, fs_rename), Fs.Dir the iterator
--   and cpr_remove_dir, Fs.Copy cpr_fs_copy. Fs.Balance is about how much is open and allocated, as
--   a number, of which each free takes one off, whichever block it is given; Fs.Balance.Ending is
--   about runs that are cut off for want of fuel, Fs.Balance.Iterators about the functions on one
--   directory.
-- - Log: src/log.c. Log.Line holds the names of the levels and the formatters (log_format_default,
--   log_format_full and log_format_minimal for cpr_log_format_*), whose last steps, snprintf and
--   cpr__format_finish, are print_line; Log.Line.Bounded is about the line that they leave. Log.Logger
--   is the logger with its sinks: log_create to log_writev are cpr_log_create to cpr_log_writev.
--   Log.Logger.Sinks is about adding and removing sinks, Log.Logger.Writes about what is written.
--   Log.Console holds the sinks for the console and for a callback, Log.FileSink the one for a file:
--   file_rotate, file_maybe_rotate, file_sink_write, file_sink_flush and file_sink_destroy are
--   cpr__file_rotate, cpr__file_maybe_rotate, cpr__file_write, cpr__file_flush and cpr__file_destroy.
-- - Env: src/env.c. get_env, set_env and unset_env are cpr_get_env, cpr_set_env and cpr_unset_env;
--   Environment holds the calls of POSIX, of which Variables states what they promise.
-- - Base: shared names; tests, lists over native numbers, machine words, bit operations as
--   arithmetic, and memcpy on lists of bytes.
--
-- Conventions. size_t has 64 bits, and words keep their wrap-around (u8, u32, u64, sub32, sub64).
-- A pointer to a struct or buffer is an option, with none for NULL; in the arena, which computes
-- with addresses, a pointer is a number and NULL is 0. Memory is a list of bytes, and an access
-- outside of it makes the result none: a theorem that gives some says that the code stays inside.
-- Atomics are the native ones, whose set-up cannot fail and whose tear-down does nothing; the
-- threads interleave step by step in one order for all, which the acquire loads and release stores
-- of the indices give the ring. Functions that a caller hands over (the allocation functions of an
-- arena) and system calls are parameters. A string is the list of its characters before the null. The
-- loop of the encoder runs on fuel, one more than the data size, which
-- is enough as each round takes three bytes. The loops of src/rand.c have two bounds, on the system
-- calls that fill a buffer, of which one more than the size is enough when each gives a byte, and on
-- the draws of a range, which the code does not bound. In src/fs.c the loop of cpr_normalize_path has
-- one round more than the path has characters, that of cpr_fs_copy one read more than the file has
-- bytes, and those over a directory one more than it has entries, counted at each depth. All other
-- loops are structural.
--
-- Not modelled: the global logger of the log, which is one pointer; the time, thread, lock and atomic components; random
-- floating-point numbers; the branches for Windows; and the default allocator of the arena, which
-- passes on to malloc and free.
pub mod Base
pub mod Error
pub mod Ring
pub mod Arena
pub mod Base64
pub mod Rand
pub mod Endian
pub mod Fs
pub mod Log
pub mod Env
