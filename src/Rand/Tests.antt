-- ===== src/Rand/Tests.antt =====
-- src/rand.c on concrete entropy sources, and the theorems at inputs that meet their hypotheses.
use libcopper.Base.{ℕ, zero, suc, ◌+◌, ◌-◌, ◌/◌, ◌^◌, ◌≤◌, ◌<◌, ◌≡◌, ◌⊎◌, ◌↔◌, refl, arith}
use libcopper.Base.{
  true, false, some, none, List, [], ◌∷◌, ◌++◌, length, replicate, length-replicate, u8, memcpy,
}
use libcopper.Error.{no_error}
use libcopper.Rand.{
  Entropy, got, failed, lemireu32_step, pow2_mask, rand_bytes, rand_u32, randr_u32, draw_u32,
  getrandom_loop,
}
use libcopper.Rand.Lemire.{lemire_uniform, first_draw}
use libcopper.Rand.Bytes.{Bytes, Reliable, Drawn, rand_bytes_fills}
use libcopper.Rand.Ranges.{AllRejected, randr_u32_lem, randr_u32_hangs}

-- A source in which every byte is 9, and one that always fails.
abbrev nines : Entropy ℕ
nines = record {
  getrandom = λ n calls. (got (replicate n 9), suc calls);
  open_urandom = λ calls. (false, calls);
  read_urandom = λ n calls. (failed, calls);
  close_urandom = λ calls. calls;
}

abbrev broken : Entropy ℕ
broken = record {
  getrandom = λ n calls. (failed, calls);
  open_urandom = λ calls. (false, calls);
  read_urandom = λ n calls. (failed, calls);
  close_urandom = λ calls. calls;
}

replicate-Bytes : (n : ℕ) → Bytes (replicate n 9)
replicate-Bytes zero = tt
replicate-Bytes (suc n) = (omega arith, replicate-Bytes n)

nines-Reliable : Reliable nines
nines-Reliable n w some_bytes = (
  replicate n 9,
  suc w,
  refl,
  omega (arith, length-replicate {A = ℕ} n 9),
  omega (arith, length-replicate {A = ℕ} n 9),
  replicate-Bytes n,
)

die : randr_u32 nines 3 9 1 6 0 no_error ≡ some (1, 1, no_error)
unfolding randr_u32 draw_u32 rand_u32 rand_bytes getrandom_loop lemireu32_step memcpy
die = refl

masks : (pow2_mask 1 ≡ 0) × (pow2_mask 6 ≡ 7) × (pow2_mask 8 ≡ 7) × (pow2_mask 9 ≡ 15)
unfolding pow2_mask
masks = (refl, refl, refl, refl)

lemire_uniform_example :
    (lemireu32_step 3000000000 6 ≡ some 4
      ↔ (first_draw 6 4 ≤ 3000000000) × (3000000000 < first_draw 6 4 + 2 ^ 32 / 6))
    × (first_draw 6 4 + 2 ^ 32 / 6 ≤ 2 ^ 32)
lemire_uniform_example =
    lemire_uniform 6 (omega arith) (omega arith) 3000000000 4 (omega arith) (omega arith)

abbrev three_zeros : List ℕ
three_zeros = 0 ∷ 0 ∷ 0 ∷ []

-- A source that gives one byte in each call.
abbrev one_by_one : Entropy ℕ
one_by_one = record nines { getrandom = λ n calls. (got (u8 calls ∷ []), suc calls) }

one_by_one-Reliable : Reliable one_by_one
one_by_one-Reliable n w some_bytes =
    (u8 w ∷ [], suc w, refl, omega arith, omega (arith, some_bytes), (omega arith, tt))

filled :
    rand_bytes one_by_one 9 (some three_zeros) 2 5 no_error
    ≡ some (true, 5 ∷ 6 ∷ 0 ∷ [], 7, no_error)
unfolding rand_bytes getrandom_loop memcpy
filled = refl

-- Two bytes do not fit in front of the end.
outside : getrandom_loop one_by_one 9 three_zeros 2 2 5 no_error ≡ none
unfolding getrandom_loop memcpy
outside = refl

rand_bytes_fills_example :
    (bytes : List ℕ) × (w' : ℕ) × (rand_bytes one_by_one 9 (some three_zeros) 2 5 no_error
      ≡ some (true, bytes ++ (0 ∷ []), w', no_error))
    × (length bytes ≡ 2)
    × Bytes bytes
    × Drawn one_by_one 2 5 bytes w'
rand_bytes_fills_example =
    rand_bytes_fills one_by_one one_by_one-Reliable 9 three_zeros 2 5 no_error (omega arith)
      (omega arith) (omega arith)

randr_u32_lem_example :
    ((v : ℕ) × (w' : ℕ) × (randr_u32 nines 3 9 1 6 0 no_error ≡ some (v, w', no_error))
      × (1 ≤ v)
      × (v ≤ 6))
    ⊎ (AllRejected nines 3 9 (6 - 1 + 1) 0 no_error × (randr_u32 nines 3 9 1 6 0 no_error ≡ none))
randr_u32_lem_example =
    randr_u32_lem nines nines-Reliable 3 9 1 6 0 no_error (omega arith) (omega arith) (omega arith)

randr_u32_hangs_example : randr_u32 broken 7 (suc 8) 1 6 0 no_error ≡ none
randr_u32_hangs_example =
    randr_u32_hangs broken (λ n w. refl) 7 8 1 6 0 no_error (omega arith) (omega arith)
      (omega arith) (omega arith)
