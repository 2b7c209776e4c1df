-- ===== src/Log/FileSink/Rotate.antt =====
-- The rotation of log files in src/log.c moves each file to the next number.
use libcopper.Base.{
  ℕ, zero, suc, ◌+◌, ◌≤◌, ◌<◌, ◌≡◌, ◌≢◌, refl, ap, ◌∙◌, arith, inl, inr, Bool-cases, Option, none,
  some, List,
}
use libcopper.Base.{leb}
use Prim.Native.String.{String}
use libcopper.Fs.Os.{Block, Os, State, ◌>>=◌}
use libcopper.Fs.Disk.{fs_rename}
use libcopper.Log.FileSink.{numbered, shift_loop}

-- `content` is what the files hold once what is buffered for them is written. A file is moved to a path that is free, and nothing else changes.
pub record Files {W : Type 0} (os : Os W) (content : W → List ℕ → Option (List ℕ)) : Type 0 where
  pub rename_target :
      (old new : List ℕ) (w : W)
      → content w new ≡ none
      → content (os.rename old new w).1 new ≡ content w old
  pub rename_source :
      (old new : List ℕ) (w : W) → old ≢ new → content (os.rename old new w).1 old ≡ none
  pub rename_others :
      (old new q : List ℕ) (w : W)
      → q ≢ old
      → q ≢ new
      → content (os.rename old new w).1 q ≡ content w q
  pub unlink_gone : (path : List ℕ) (w : W) → content (os.unlink path w).1 path ≡ none
  pub unlink_others :
      (path q : List ℕ) (w : W) → q ≢ path → content (os.unlink path w).1 q ≡ content w q
  pub fopen_others :
      (path q : List ℕ) (mode : String) (w : W)
      → q ≢ path
      → content (os.fopen path mode w).1 q ≡ content w q
  pub fclose_keeps : (fp : ℕ) (q : List ℕ) (w : W) → content (os.fclose fp w) q ≡ content w q
  pub malloc_keeps : (q : List ℕ) (w : W) → content (os.malloc w).1 q ≡ content w q
  pub free_keeps : (block : Block) (q : List ℕ) (w : W) → content (os.free block w) q ≡ content w q

module _ {W : Type 0} (os : Os W) where
  pub fs_rename_world :
      (old new : List ℕ) (s : State W)
      → (fs_rename os (some old) (some new) s).1.world ≡ (os.rename old new s.world).1
  unfolding fs_rename ◌>>=◌
  fs_rename_world old new s = elim (Bool-cases (os.rename old new s.world).0) [
    | inl done ↦ rw done refl
    | inr failed ↦ rw failed refl
  ]

-- The numbered paths up to `n` are different ones.
abbrev pub Apart : List ℕ → ℕ → Type 0
Apart path n = (i j : ℕ) → i ≤ n → j ≤ n → numbered path i ≡ numbered path j → i ≡ j

module _ {W : Type 0} (os : Os W) (content : W → List ℕ → Option (List ℕ))
    (files : Files os content) (path : List ℕ) where
  -- What one step of the loop leaves at each number.
  shift_step :
      (i n j : ℕ) (s : State W)
      → Apart path n
      → suc i + 1 ≤ n
      → j ≤ n
      → content s.world (numbered path (suc i + 1)) ≡ none
      → let s' =
          (fs_rename os (some (numbered path (suc i))) (some (numbered path (suc i + 1))) s).1 in
        (content s'.world (numbered path (suc i + 1)) ≡ content s.world (numbered path (suc i)))
        × (content s'.world (numbered path (suc i)) ≡ none)
        × (j ≢ suc i
            → j ≢ suc i + 1
            → content s'.world (numbered path j) ≡ content s.world (numbered path j))
  shift_step i n j s apart room below free =
      let old = numbered path (suc i) in
      let new = numbered path (suc i + 1) in
      let world = fs_rename_world os old new s in
      (
        rw world (files.rename_target old new s.world free),
        rw world (
            files.rename_source old new s.world
              (λ same. omega (arith, apart (suc i) (suc i + 1) (omega (arith, room)) room same))),
        λ a b. rw world (
            files.rename_others old new (numbered path j) s.world
              (λ same. a (apart j (suc i) below (omega (arith, room)) same))
              (λ same. b (apart j (suc i + 1) below room same))),
      )

  -- The loop moves the files 1 to `i` by one number when `i + 1` is free, and leaves the rest.
  pub shift_loop_lem :
      (i n j : ℕ) (s : State W)
      → Apart path n
      → i + 1 ≤ n
      → content s.world (numbered path (i + 1)) ≡ none
      → j ≤ n
      → (1 ≤ j
          → j ≤ i
          → content (shift_loop os path i s).1.world (numbered path (j + 1))
            ≡ content s.world (numbered path j))
        × (i + 1 < j
            → content (shift_loop os path i s).1.world (numbered path j)
              ≡ content s.world (numbered path j))
        × (content (shift_loop os path i s).1.world (numbered path 1) ≡ none)
  unfolding shift_loop ◌>>=◌
  shift_loop_lem zero n j s apart room free below =
      (λ a b. absurd (omega (arith, a, b)), λ a. refl, free)
  shift_loop_lem (suc i) n j s apart room free below =
      let s' =
        (fs_rename os (some (numbered path (suc i))) (some (numbered path (suc i + 1))) s).1 in
      let (moved, left, others) = shift_step i n j s apart room below free in
      let at : (k : ℕ) → k ≡ suc i → content s'.world (numbered path k) ≡ none =
        λ k same. ap (λ k. content s'.world (numbered path k)) same ∙ left in
      let free' : content s'.world (numbered path (i + 1)) ≡ none = at (i + 1) (omega arith) in
      let (lower, higher, first) =
        shift_loop_lem i n j s' apart (omega (arith, room)) free' below in
      let top =
        (shift_loop_lem i n (suc i + 1) s' apart (omega (arith, room)) free' room).1
          (omega arith) in
      (
        λ a b. elim (Bool-cases (leb j i)) [
          | inl less ↦
              let h : j ≤ i = ground arith in
              lower a h ∙ others (λ same. omega (arith, h, same)) (λ same. omega (arith, h, same))
          | inr not_less ↦ let same : j ≡ suc i = ground (arith, b) in rw same (top ∙ moved)
        ],
        λ a.
            higher (omega (arith, a))
            ∙ others (λ same. omega (arith, a, same)) (λ same. omega (arith, a, same)),
        first,
      )

  -- It leaves a path that has no number.
  pub shift_loop_others :
      (i : ℕ) (q : List ℕ) (s : State W)
      → ((j : ℕ) → j ≤ i + 1 → q ≢ numbered path j)
      → content (shift_loop os path i s).1.world q ≡ content s.world q
  unfolding shift_loop ◌>>=◌
  shift_loop_others zero q s apart = refl
  shift_loop_others (suc i) q s apart =
      let old = numbered path (suc i) in
      let new = numbered path (suc i + 1) in
      let s' = (fs_rename os (some old) (some new) s).1 in
      shift_loop_others i q s' (λ j h. apart j (omega (arith, h)))
      ∙ rw (fs_rename_world os old new s) (
          files.rename_others old new q s.world (apart (suc i) (omega arith))
            (apart (suc i + 1) (omega arith)))
