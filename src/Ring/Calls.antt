-- ===== src/Ring/Calls.antt =====
-- The four transfer functions of src/ringbuf.c, called one after the other by a client that owns
-- both ends.
use libcopper.Base.{ℕ, zero, suc, ◌-◌, ◌≤◌, ◌≡◌, refl, sym, ap, ◌∙◌, arith, min, ◌==◌, ltb, leb}
use libcopper.Base.{List, ◌++◌, append-nil, some, true, false}
use libcopper.Base.{length, take, drop, leb→le, Bool-cases, inl, inr, if◌then◌else◌}
use libcopper.Error.{CprError}
use libcopper.Ring.{
  RingBuffer, clip, write, write_all, read, read_all, publish, consume, free_space, available,
}
use libcopper.Ring.Refine.{IsValid, contents, free_space_lem, available_lem, deposit, withdraw}

clip_lem : (a b : ℕ) → clip a b ≡ min a b
clip_lem a b = ground arith

suc-ne-zero : (m : ℕ) → (suc m == 0) ≡ false
suc-ne-zero m = ground arith

-- `rb'` is a valid ring of the same capacity that holds the queue `q`.
abbrev pub Holds : ℕ → RingBuffer → RingBuffer → List ℕ → Type 0
Holds k rb rb' q = IsValid k rb' × (contents rb' ≡ q) × (rb'.capacity ≡ rb.capacity)

module _ {k : ℕ} {rb : RingBuffer} (v : IsValid k rb) (e : CprError) where
  write_count :
      (bytes : List ℕ) (size n : ℕ)
      → clip size (free_space rb rb.tail) ≡ n
      → n ≤ length bytes
      → n ≤ rb.capacity - length (contents rb)
      → (rb' : RingBuffer) × (write (some rb) (some bytes) size e ≡ some (n, some rb', e))
        × Holds k rb rb' (contents rb ++ take n bytes)
  unfolding write
  write_count bytes size zero count enough fits =
      (rb, rw count, (v, sym (append-nil (contents rb)), refl))
  write_count bytes size (suc m) count enough fits =
      let (buf, copied, valid, appended) = deposit v bytes (suc m) enough fits in
      (
        publish (record rb { buf = buf }) (suc m),
        rw (count, suc-ne-zero m, copied),
        (valid, appended, refl),
      )

  -- On a valid ring and with at least size bytes of data, cpr_ringbuf_write takes as many of the
  -- first size bytes as fit, returns their number, appends exactly those to what the ring holds,
  -- and leaves a valid ring of the same capacity.
  pub write_lem :
      (bytes : List ℕ) (size : ℕ)
      → size ≤ length bytes
      → let n = min size (rb.capacity - length (contents rb)) in
        (rb' : RingBuffer) × (write (some rb) (some bytes) size e ≡ some (n, some rb', e))
        × Holds k rb rb' (contents rb ++ take n bytes)
  write_lem bytes size enough =
      write_count bytes size (min size (rb.capacity - length (contents rb)))
        (ap (clip size) (free_space_lem v) ∙ clip_lem size (rb.capacity - length (contents rb)))
        (omega arith) (omega arith)

  -- On a valid ring and with at least size bytes of data, cpr_ringbuf_write_all appends the first
  -- size bytes and returns true if they fit, and otherwise returns false and leaves what the ring
  -- holds; the ring stays valid with its capacity.
  pub write_all_lem :
      (bytes : List ℕ) (size : ℕ)
      → size ≤ length bytes
      → let fits = leb size (rb.capacity - length (contents rb)) in
        (rb' : RingBuffer) × (write_all (some rb) (some bytes) size e ≡ some (fits, some rb', e))
        × Holds k rb rb' (if fits then contents rb ++ take size bytes else contents rb)
  unfolding write_all
  write_all_lem bytes size enough =
      elim (Bool-cases (leb size (rb.capacity - length (contents rb)))) [
        | inl fits ↦
            let (buf, copied, valid, appended) =
              deposit v bytes size enough (leb→le size (rb.capacity - length (contents rb)) fits) in
            let room : ltb (free_space rb rb.tail) size ≡ false =
              rw (free_space_lem v) (ground arith) in
            (
              publish (record rb { buf = buf }) size,
              rw (room, copied, fits),
              (valid, rw fits appended, refl),
            )
        | inr full ↦
            let room : ltb (free_space rb rb.tail) size ≡ true =
              rw (free_space_lem v) (ground arith) in
            (rb, rw (room, full), (v, rw full, refl))
      ]

  read_count :
      (out : List ℕ) (size n : ℕ)
      → clip size (available rb rb.head) ≡ n
      → n ≤ length out
      → n ≤ length (contents rb)
      → (rb' : RingBuffer) × (read (some rb) (some out) size e
          ≡ some (n, take n (contents rb) ++ drop n out, some rb', e))
        × Holds k rb rb' (drop n (contents rb))
  unfolding read
  read_count out size zero count enough there = (rb, rw count, (v, refl, refl))
  read_count out size (suc m) count enough there =
      let (copied, valid, taken) = withdraw v out (suc m) enough there in
      (consume rb (suc m), rw (count, suc-ne-zero m, copied), (valid, taken, refl))

  -- On a valid ring and with room for size bytes, cpr_ringbuf_read copies out the oldest bytes,
  -- as many as are asked for and held, returns their number, removes exactly those, leaves the
  -- rest of the output alone, and leaves a valid ring of the same capacity.
  pub read_lem :
      (out : List ℕ) (size : ℕ)
      → size ≤ length out
      → let n = min size (length (contents rb)) in
        (rb' : RingBuffer) × (read (some rb) (some out) size e
          ≡ some (n, take n (contents rb) ++ drop n out, some rb', e))
        × Holds k rb rb' (drop n (contents rb))
  read_lem out size enough =
      read_count out size (min size (length (contents rb)))
        (ap (clip size) (available_lem v) ∙ clip_lem size (length (contents rb))) (omega arith)
        (omega arith)

  -- On a valid ring and with room for size bytes, cpr_ringbuf_read_all copies out and removes the
  -- oldest size bytes and returns true if the ring holds so many, and otherwise returns false and
  -- changes neither what the ring holds nor the output; the ring stays valid with its capacity.
  pub read_all_lem :
      (out : List ℕ) (size : ℕ)
      → size ≤ length out
      → let there = leb size (length (contents rb)) in
        (rb' : RingBuffer) × (read_all (some rb) (some out) size e
          ≡ some (
            there,
            (if there then take size (contents rb) ++ drop size out else out),
            some rb',
            e,
          ))
        × Holds k rb rb' (if there then drop size (contents rb) else contents rb)
  unfolding read_all
  read_all_lem out size enough = elim (Bool-cases (leb size (length (contents rb)))) [
    | inl there ↦
        let (copied, valid, taken) =
          withdraw v out size enough (leb→le size (length (contents rb)) there) in
        let room : ltb (available rb rb.head) size ≡ false = rw (available_lem v) (ground arith) in
        (consume rb size, rw (room, copied, there), (valid, rw there taken, refl))
    | inr short ↦
        let room : ltb (available rb rb.head) size ≡ true = rw (available_lem v) (ground arith) in
        (rb, rw (room, short), (v, rw short, refl))
  ]
