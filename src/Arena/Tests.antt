-- ===== src/Arena/Tests.antt =====
-- src/arena.c on concrete arenas: test runs, and the theorems at inputs that meet their
-- hypotheses.
use native.Mathlib.Nat.{pow-suc}
use libcopper.Base.{ℕ, zero, suc, ◌^◌, ◌<◌, ◌≡◌, refl, arith, some, none, List, [], ◌∷◌, IsPower}
use libcopper.Error.{no_error, set_error, err_exhausted}
use libcopper.Arena.{ArenaAllocator, Arena, align_up, is_pow2, alloc_aligned}
use libcopper.Arena.Alloc.{IsValid, alloc_gives, alloc_refuses, alloc_out_of_block}
use libcopper.Arena.Layout.{Request, serve, Laid, serve-Laid}

-- The allocator keeps a list of the pointers that it was handed back, and always gives 4096.
abbrev log_free : ℕ → List ℕ → List ℕ
log_free ptr freed = ptr ∷ freed

abbrev give_page : ℕ → List ℕ → ℕ × List ℕ
give_page size freed = (4096, freed)

abbrev page_allocator : ArenaAllocator (List ℕ)
page_allocator = record { alloc_fn = some give_page; free_fn = some log_free }

-- 32 bytes at 4096, of which 5 are in use.
abbrev page : Arena (List ℕ)
page = record { buf = 4096; cap = 32; offset = 5; prev_offset = 0; allocator = page_allocator }

-- 12 bytes at 4097, all but 1 in use.
abbrev odd_page : Arena (List ℕ)
odd_page = record { buf = 4097; cap = 12; offset = 11; prev_offset = 0; allocator = page_allocator }

page-IsValid : IsValid page
page-IsValid = omega arith

odd_page-IsValid : IsValid odd_page
odd_page-IsValid = omega arith

abbrev requests : List Request
requests =
    record { size = 3; power = 2 }
    ∷ record { size = 40; power = 3 }
    ∷ record { size = 8; power = 4 }
    ∷ []

serve-page :
    serve (some page) requests no_error
    ≡ record { ptr = 4104; request = record { size = 3; power = 2 } }
      ∷ record { ptr = 4112; request = record { size = 8; power = 4 } }
      ∷ []
unfolding serve alloc_aligned is_pow2 align_up
serve-page = refl

serve-Laid_example : Laid 4101 4128 (serve (some page) requests no_error)
serve-Laid_example =
    serve-Laid 4 258 (omega arith) page requests no_error page-IsValid (refl, omega arith)
      (omega arith, omega arith, (omega arith, omega arith, (omega arith, omega arith, tt)))

alloc_gives_example :
    alloc_aligned (some page) 3 (2 ^ 2) no_error
    ≡ (4104, some (record page { prev_offset = 5; offset = 11 }), no_error)
alloc_gives_example =
    alloc_gives page-IsValid 2 (omega arith) (omega arith) 3 no_error (omega arith)

alloc_refuses_example :
    alloc_aligned (some page) 40 (2 ^ 3) no_error
    ≡ (0, some page, set_error err_exhausted "arena exhausted" no_error)
alloc_refuses_example =
    alloc_refuses page-IsValid 3 (omega arith) (omega arith) 40 no_error (omega arith) (omega arith)
      (omega arith)

-- The block ends at 4109, and the request gets 4112.
alloc_out_of_block_example :
    ((alloc_aligned (some odd_page) 100 (2 ^ 4) no_error).0 ≡ 4112)
    × (4109 < (alloc_aligned (some odd_page) 100 (2 ^ 4) no_error).0)
alloc_out_of_block_example =
    alloc_out_of_block odd_page-IsValid 4 (omega arith) (omega arith) 100 no_error (omega arith)
      (omega arith)

not-IsPower_twelve : ¬ IsPower 12
not-IsPower_twelve (zero, e) = cc
not-IsPower_twelve (suc zero, e) = cc
not-IsPower_twelve (suc (suc zero), e) = cc
not-IsPower_twelve (suc (suc (suc k)), e) =
    omega (arith, pow-suc 2 (suc (suc k)), pow-suc 2 (suc k), pow-suc 2 k)

abbrev unowned : ArenaAllocator (List ℕ)
unowned = record { alloc_fn = none; free_fn = none }
