-- ===== src/Ring/Client.antt =====
-- Any sequence of calls on src/ringbuf.c is answered as the bounded queue answers it.
use libcopper.Base.{
  ℕ, zero, suc, ◌-◌, ◌≤◌, ◌≡◌, refl, ap, ◌∙◌, arith, min, Option, none, some, ◌>>=◌,
}
use libcopper.Base.{List, [], ◌∷◌, ◌++◌, if◌then◌else◌, length, take, drop, take-length}
use libcopper.Base.{Bool-cases, inl, inr, leb, leb→le}
use libcopper.Error.{CprError}
use libcopper.Ring.{RingBuffer, write, write_all, read, read_all}
use libcopper.Ring.Queue
use libcopper.Ring.Queue.{Op, Call, Reply, wrote, got, refused, Answer, answer}
use libcopper.Ring.Refine.{IsValid, contents}
use libcopper.Ring.Calls.{Holds, write_lem, write_all_lem, read_lem, read_all_lem}

-- What is left of a call: the reply and the ring. A call that clears the pointer is a fault.
abbrev pub Outcome : Type 0
Outcome = Option (Reply × RingBuffer)

abbrev pub replied : Reply → Option RingBuffer → Outcome
replied r none = none
replied r (some rb) = some (r, rb)

-- One call, with a buffer of exactly the requested size.
unfoldable pub call : RingBuffer → Op → List ℕ → CprError → Outcome
call rb Op.write bytes e =
    write (some rb) (some bytes) (length bytes) e >>= λ (n, rb', e'). replied (wrote n) rb'
call rb Op.write_all bytes e =
    write_all (some rb) (some bytes) (length bytes) e >>= λ (done, rb', e').
    replied (if done then wrote (length bytes) else refused) rb'
call rb Op.read bytes e = read (some rb) (some bytes) (length bytes) e >>= λ (n, out, rb', e').
    replied (got (take n out)) rb'
call rb Op.read_all bytes e =
    read_all (some rb) (some bytes) (length bytes) e >>= λ (done, out, rb', e').
    replied (if done then got (take (length bytes) out) else refused) rb'

unfoldable pub run : RingBuffer → List Call → CprError → Option (List Reply)
run rb [] e = some []
run rb (c ∷ calls) e =
    call rb c.op c.bytes e >>= λ (r, rb'). run rb' calls e >>= λ rs. some (r ∷ rs)

-- A call returns what the queue answers and leaves a ring that holds what the queue holds.
abbrev Agrees : ℕ → RingBuffer → Outcome → Answer → Type 0
Agrees k rb out a =
    (r : Reply) × (q : List ℕ) × (rb' : RingBuffer) × (a ≡ answer r q)
    × (out ≡ some (r, rb'))
    × Holds k rb rb' q

take_prefix : (n : ℕ) (xs ys : List ℕ) → n ≤ length xs → take n (take n xs ++ ys) ≡ take n xs
take_prefix zero xs ys h = refl
take_prefix (suc n) [] ys h = absurd (omega arith)
take_prefix (suc n) (x ∷ xs) ys h = ap (λ t. x ∷ t) (take_prefix n xs ys (omega arith))

module _ {k : ℕ} {rb : RingBuffer} (v : IsValid k rb) (e : CprError) (bytes : List ℕ) where
  write_all-Agrees :
      Agrees k rb
        (call rb Op.write_all bytes e)
        (Queue.step rb.capacity (contents rb) Op.write_all bytes)
  unfolding call Queue.step
  write_all-Agrees =
      let (rb', returned, holds) = write_all_lem v e bytes (length bytes) (omega arith) in
      let (valid, held, cap) = holds in
      elim (Bool-cases (leb (length bytes) (rb.capacity - length (contents rb)))) [
        | inl fits ↦ (
          wrote (length bytes),
          contents rb ++ bytes,
          rb',
          rw fits,
          rw (returned, fits) refl,
          (valid, held ∙ rw fits (ap (λ t. contents rb ++ t) (take-length bytes)), cap),
        )
        | inr full ↦ (
          refused,
          contents rb,
          rb',
          rw full,
          rw (returned, full) refl,
          (valid, held ∙ rw full refl, cap),
        )
      ]

  read_all-Agrees :
      Agrees k rb
        (call rb Op.read_all bytes e)
        (Queue.step rb.capacity (contents rb) Op.read_all bytes)
  unfolding call Queue.step
  read_all-Agrees =
      let (rb', returned, holds) = read_all_lem v e bytes (length bytes) (omega arith) in
      let (valid, held, cap) = holds in
      elim (Bool-cases (leb (length bytes) (length (contents rb)))) [
        | inl there ↦ (
          got (take (length bytes) (contents rb)),
          drop (length bytes) (contents rb),
          rb',
          rw there,
          rw
              (
                returned,
                there,
                take_prefix (length bytes) (contents rb) (drop (length bytes) bytes)
                    (leb→le (length bytes) (length (contents rb)) there),
              )
              refl,
          (valid, held ∙ rw there refl, cap),
        )
        | inr short ↦ (
          refused,
          contents rb,
          rb',
          rw short,
          rw (returned, short) refl,
          (valid, held ∙ rw short refl, cap),
        )
      ]

  call-Agrees :
      (op : Op) → Agrees k rb (call rb op bytes e) (Queue.step rb.capacity (contents rb) op bytes)
  unfolding call Queue.step
  call-Agrees Op.write_all = write_all-Agrees
  call-Agrees Op.read_all = read_all-Agrees
  call-Agrees Op.write =
      let (rb', returned, holds) = write_lem v e bytes (length bytes) (omega arith) in
      (
        wrote (min (length bytes) (rb.capacity - length (contents rb))),
        contents rb ++ take (min (length bytes) (rb.capacity - length (contents rb))) bytes,
        rb',
        refl,
        rw returned refl,
        holds,
      )
  call-Agrees Op.read =
      let n = min (length bytes) (length (contents rb)) in
      let (rb', returned, holds) = read_lem v e bytes (length bytes) (omega arith) in
      (
        got (take n (contents rb)),
        drop n (contents rb),
        rb',
        refl,
        rw (returned, take_prefix n (contents rb) (drop n bytes) (omega arith)) refl,
        holds,
      )

-- Any sequence of write, write_all, read and read_all calls on a valid ring buffer, each with
-- memory of the size that it names, stays inside the storage, and its answers are those of the
-- bounded queue that starts with the bytes the ring holds.
pub run_refines :
    {k : ℕ} (calls : List Call) {rb : RingBuffer} (e : CprError)
    → IsValid k rb
    → run rb calls e ≡ some (Queue.run rb.capacity (contents rb) calls)
unfolding run Queue.run
run_refines [] e v = refl
run_refines (c ∷ calls) {rb} e v =
    let (r, q, rb', answered, returned, holds) = call-Agrees v e c.bytes c.op in
    let (valid, held, cap) = holds in
    rw (answered, returned, run_refines calls e valid, held, cap) refl
