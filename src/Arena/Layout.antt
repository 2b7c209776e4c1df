-- ===== src/Arena/Layout.antt =====
-- A series of allocations from one arena of src/arena.c, all results kept.
use native.Mathlib.Nat.{one-le-pow, pow-le-pow_right, div-mul_cancel, mul_assoc}
use mathlib.Core.Path.{subst, sym}
use libcopper.Base.{ℕ, ◌+◌, ◌-◌, ◌*◌, ◌/◌, ◌%◌, ◌^◌, ◌≤◌, ◌<◌, ◌≡◌, false, ap, ◌∙◌, arith}
use libcopper.Base.{
  some, Option, List, [], ◌∷◌, if◌then◌else◌, ◌==◌, Bool-cases, inl, inr, leb, leb→le, pow-dvd,
}
use libcopper.Error.{CprError, set_error, err_exhausted}
use libcopper.Arena.{Arena, alloc_aligned}
use libcopper.Arena.Align.{round_up_bounds, round_up_least}
use libcopper.Arena.Alloc.{IsValid, next_start, alloc_gives, alloc_refuses}

-- A request for `size` bytes at alignment 2 ^ `power`
pub record Request : Type 0 where
  pub size : ℕ
  pub power : ℕ

pub record Block : Type 0 where
  pub ptr : ℕ
  pub request : Request

-- The blocks that the calls in order return.
unfoldable pub serve {ℓ} : {H : Type ℓ} → Option (Arena H) → List Request → CprError → List Block
serve p [] e = []
serve p (r ∷ rs) e =
    let (ptr, p', e') = alloc_aligned p r.size (2 ^ r.power) e in
    let rest = serve p' rs e' in
    if ptr == 0 then rest else (record { ptr = ptr; request = r } ∷ rest)

-- Each block is aligned, begins where the one before it ends or later, and ends within `hi`.
abbrev pub Laid : ℕ → ℕ → List Block → Type 0
Laid lo hi [] = lo ≤ hi
Laid lo hi (b ∷ bs) =
    (lo ≤ b.ptr) × (b.ptr % 2 ^ b.request.power ≡ 0) × Laid (b.ptr + b.request.size) hi bs

-- The requests stay within the alignment 2 ^ `top`, and their sizes are machine words.
abbrev pub Bounded : ℕ → List Request → Type 0
Bounded top [] = Unit {0}
Bounded top (r ∷ rs) = (r.power ≤ top) × (r.size < 2 ^ 64) × Bounded top rs

module _ (top q : ℕ) (small : top < 64) where
  -- The end of the block is aligned to 2 ^ `top`, and not at the end of the address space.
  abbrev pub EndsAligned {ℓ} : {H : Type ℓ} → Arena H → Type 0
  EndsAligned a = (a.buf + a.cap ≡ q * 2 ^ top) × (a.buf + a.cap + 2 ^ top ≤ 2 ^ 64)

  -- Then no aligned address is skipped past the end.
  start_inside {ℓ} :
      {H : Type ℓ} (a : Arena H) (k : ℕ)
      → IsValid a
      → EndsAligned a
      → k ≤ top
      → next_start a (2 ^ k) ≤ a.buf + a.cap
  start_inside a k v ends h =
      let parts : 2 ^ top / 2 ^ k * 2 ^ k ≡ 2 ^ top = div-mul_cancel (2 ^ k) (pow-dvd k top h) in
      let end : a.buf + a.cap ≡ q * (2 ^ top / 2 ^ k) * 2 ^ k =
        ends.0 ∙ ap (λ t. q * t) (sym parts) ∙ sym (mul_assoc q (2 ^ top / 2 ^ k) (2 ^ k)) in
      rw end (
        round_up_least (a.buf + a.offset) (2 ^ k) (q * (2 ^ top / 2 ^ k))
          (one-le-pow k 2 (omega arith)) (omega (arith, end, v.offset_in)))

  -- If the memory of a valid arena ends at a multiple of 2 ^ top, with 2 ^ top bytes of address
  -- space behind it and top below 64, then all blocks that a series of requests up to that
  -- alignment and of 64-bit sizes gets are aligned, lie in the memory behind what was in use, and
  -- do not overlap.
  pub serve-Laid {ℓ} :
      {H : Type ℓ} (a : Arena H) (rs : List Request) (e : CprError)
      → IsValid a
      → EndsAligned a
      → Bounded top rs
      → Laid (a.buf + a.offset) (a.buf + a.cap) (serve (some a) rs e)
  unfolding serve
  serve-Laid a [] e v ends bounded = omega (arith, v.offset_in)
  serve-Laid a (r ∷ rs) e v ends bounded =
      let start = next_start a (2 ^ r.power) in
      let inside : start ≤ a.buf + a.cap = start_inside a r.power v ends bounded.0 in
      let step : 2 ^ r.power ≤ 2 ^ top =
        pow-le-pow_right {n = 2} (omega arith) {i = r.power} {j = top} bounded.0 in
      let no_wrap : a.buf + a.offset + 2 ^ r.power ≤ 2 ^ 64 =
        omega (arith, ends, step, v.offset_in) in
      let bounds =
        round_up_bounds (a.buf + a.offset) (2 ^ r.power) (one-le-pow r.power 2 (omega arith)) in
      elim (Bool-cases (leb (start + r.size) (a.buf + a.cap))) [
        | inl fits ↦
            let room : start + r.size ≤ a.buf + a.cap =
              leb→le (start + r.size) (a.buf + a.cap) fits in
            let a' = record a { prev_offset = a.offset; offset = start + r.size - a.buf } in
            let v' : IsValid a' = record {
              real = v.real;
              block = v.block;
              offset_in = omega (arith, bounds);
              prev_in = omega (arith, bounds);
            } in
            let some_ptr : (start == 0) ≡ false = ground (arith, bounds, v.real) in
            rw (alloc_gives v r.power (omega arith) no_wrap r.size e room, some_ptr)
              (
                bounds.0,
                bounds.2,
                subst (λ lo. Laid lo (a.buf + a.cap) (serve (some a') rs e))
                    {x = a'.buf + a'.offset} {y = start + r.size} (omega (arith, bounds))
                    (serve-Laid a' rs e v' ends bounded.2),
              )
        | inr large ↦
            rw
              (alloc_refuses v r.power (omega arith) no_wrap r.size e inside (ground arith)
                bounded.1)
              (serve-Laid a rs (set_error err_exhausted "arena exhausted" e) v ends bounded.2)
      ]
