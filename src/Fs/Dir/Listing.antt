-- ===== src/Fs/Dir/Listing.antt =====
-- `cpr_next_dir` of src/fs.c passes the entries `.` and `..` by and returns the next one.
use libcopper.Base.{
  ℕ, zero, suc, ◌≡◌, ◌≤◌, ◌<◌, refl, arith, inl, inr, true, false, ◌||◌, ◌==◌, Bool-cases,
}
use libcopper.Base.{Option, none, some, List, [], ◌∷◌, length, same_text, take-all, if◌then◌else◌}
use libcopper.Fs.Os.{Os, State, ◌>>=◌, Dirent}
use libcopper.Fs.Os.{EntryType, dt_reg, dt_dir, dt_unknown}
use libcopper.Fs.Disk.{CprFsType, fs_type_file, fs_type_dir}
use libcopper.Fs.Dir.{CprDirEntry, is_dots, entry_type, next_loop, next_dir}

-- `entries` is what is left of a directory stream.
pub record Listing {W : Type 0} (os : Os W) (entries : W → ℕ → List Dirent) : Type 0 where
  pub readdir_end : (dir : ℕ) (w : W) → entries w dir ≡ [] → (os.readdir dir w).0 ≡ none
  pub readdir_next :
      (dir : ℕ) (de : Dirent) (rest : List Dirent) (w : W)
      → entries w dir ≡ de ∷ rest
      → ((os.readdir dir w).0 ≡ some de) × (entries (os.readdir dir w).1 dir ≡ rest)

-- A name in a directory is a string, of at most NAME_MAX characters.
abbrev pub IsText : List ℕ → Type 0
IsText [] = Unit
IsText (c ∷ name) = ((c == 0) ≡ false) × IsText name

abbrev pub Named : List Dirent → Type 0
Named [] = Unit
Named (de ∷ rest) = IsText de.name × (length de.name ≤ 255) × Named rest

-- The first entry but `.` and `..`.
abbrev pub first_entry : List Dirent → Option Dirent
first_entry [] = none
first_entry (de ∷ rest) =
    if same_text de.name (b'.' ∷ []) || same_text de.name (b'.' ∷ b'.' ∷ [])
    then first_entry rest
    else some de

-- The type that readdir tells, if it tells one.
abbrev pub OfType : EntryType → CprFsType → Type 0
OfType dt_dir type = type ≡ fs_type_dir
OfType dt_reg type = type ≡ fs_type_file
OfType dt_unknown type = Unit

-- What a call returns for an entry, and at the end of the directory.
abbrev pub Returns : Option Dirent → Option (Option CprDirEntry) → Type 0
Returns none r = r ≡ some none
Returns (some de) r =
    (entry : CprDirEntry) × (r ≡ some (some entry))
    × (entry.name ≡ de.name)
    × OfType de.d_type entry.type

-- The test of the code on a name.
is_dots_lem :
    (name : List ℕ)
    → IsText name
    → is_dots name ≡ (same_text name (b'.' ∷ []) || same_text name (b'.' ∷ b'.' ∷ []))
is_dots_lem [] h = refl
is_dots_lem (c ∷ []) h = elim (Bool-cases (c == b'.')) [
  | inl dot ↦ rw dot refl
  | inr other ↦ rw other refl
]
is_dots_lem (c ∷ d ∷ []) h = elim (Bool-cases (c == b'.')) [
  | inl dot ↦ elim (Bool-cases (d == b'.')) [
    | inl two ↦ rw (h.1.0, dot, two) refl
    | inr one ↦ rw (h.1.0, dot, one) refl
  ]
  | inr other ↦ rw other refl
]
is_dots_lem (c ∷ d ∷ x ∷ name) h = elim (Bool-cases (c == b'.')) [
  | inl dot ↦ elim (Bool-cases (d == b'.')) [
    | inl two ↦ rw (h.1.0, h.1.1.0, dot, two) refl
    | inr one ↦ rw (h.1.0, dot, one) refl
  ]
  | inr other ↦ rw other refl
]

module _ {W : Type 0} (os : Os W) (entries : W → ℕ → List Dirent)
    (listing : Listing os entries) where
  entry_type-OfType :
      (dir : ℕ) (name : List ℕ) (d : EntryType) (s : State W)
      → OfType d (entry_type os dir name d s).0
  entry_type-OfType dir name dt_dir s = refl
  entry_type-OfType dir name dt_reg s = refl
  entry_type-OfType dir name dt_unknown s = tt

  next_loop_lem :
      (fuel dir : ℕ) (des : List Dirent) (s : State W)
      → entries s.world dir ≡ des
      → Named des
      → length des < fuel
      → Returns (first_entry des) (next_loop os fuel dir s).0
  unfolding next_loop ◌>>=◌
  next_loop_lem zero dir des s same named h = absurd (omega arith)
  next_loop_lem (suc fuel) dir [] s same named h = rw (listing.readdir_end dir s.world same) refl
  next_loop_lem (suc fuel) dir (de ∷ rest) s same named h =
      let (got, left) = listing.readdir_next dir de rest s.world same in
      let s' : State W = record s { world = (os.readdir dir s.world).1 } in
      let test = is_dots_lem de.name (named.0) in
      elim (Bool-cases (same_text de.name (b'.' ∷ []) || same_text de.name (b'.' ∷ b'.' ∷ []))) [
        | inl dots ↦
            rw (got, test, dots) (next_loop_lem fuel dir rest s' left (named.2) (omega arith))
        | inr other ↦
            rw (got, test, other)
              (_, refl, take-all 255 de.name (named.1), entry_type-OfType dir de.name de.d_type s')
      ]

  -- When readdir returns the entries that are left one after the other, their names are strings
  -- of at most 255 characters, and fuel for more entries than these is given, cpr_next_dir
  -- returns the first entry whose name is not . or .., with its whole name and, for a directory
  -- or a file that readdir tells as such, this type; and the end of the directory when there is
  -- none.
  pub next_dir_lem :
      (fuel dir : ℕ) (s : State W)
      → Named (entries s.world dir)
      → length (entries s.world dir) < fuel
      → Returns (first_entry (entries s.world dir)) (next_dir os fuel (some dir) true s).0
  unfolding next_dir
  next_dir_lem fuel dir s named h = next_loop_lem fuel dir (entries s.world dir) s refl named h
