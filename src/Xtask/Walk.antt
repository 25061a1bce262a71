-- ===== src/Xtask/Walk.antt =====
-- What `walkdir` lists and what `check_placeholders` finds in a tree of files.
use cantools_rs.Prelude.{
  ℕ, zero, suc, ◌+◌, ◌≤◌, ◌<◌, Bool, true, false, some, List, [], ◌∷◌, ◌++◌, ok, map, if◌then◌else◌,
  ◌≡◌, refl, sym, arith,
}
use cantools_rs.Xtask.Files.{Reader, sort_entries, push_all, walk, walkdir}

-- The entries of a directory: files, and directories with their entries.
pub data Entries (Path' : Type 0) : Type 0 where
  end : Entries Path'
  file : Path' → Entries Path' → Entries Path'
  dir : Path' → (inside : Entries Path') → Entries Path' → Entries Path'

abbrev pub paths : {Path' : Type 0} → Entries Path' → List Path'
paths end = []
paths (file path rest) = path ∷ paths rest
paths (dir path inside rest) = path ∷ paths rest

-- How many files in all pass a test.
abbrev pub count_files : {Path' : Type 0} → (Path' → Bool) → Entries Path' → ℕ
count_files test end = 0
count_files test (file path rest) = (if test path then 1 else 0) + count_files test rest
count_files test (dir path inside rest) = count_files test inside + count_files test rest

-- How many directories there are in all.
abbrev pub count_dirs : {Path' : Type 0} → Entries Path' → ℕ
count_dirs end = 0
count_dirs (file path rest) = count_dirs rest
count_dirs (dir path inside rest) = suc (count_dirs inside + count_dirs rest)

abbrev pub count : {A : Type 0} → (A → Bool) → List A → ℕ
count test [] = 0
count test (x ∷ xs) = (if test x then 1 else 0) + count test xs

module _ {Path' E : Type 0} (reader : Reader Path' E) where
  -- The file system has these entries in a directory.
  abbrev pub Holds : Entries Path' → Type 0
  Holds end = Unit {0}
  Holds (file path rest) = (reader.is_dir path ≡ false) × Holds rest
  Holds (dir path inside rest) =
      (reader.is_dir path ≡ true)
      × (reader.read_dir path ≡ ok (map ok (paths inside)))
      × Holds inside
      × Holds rest

  -- Directories to visit, with what is in them.
  abbrev pub Pending : Type 0
  Pending = List (Path' × Entries Path')

  abbrev pub AllHold : Pending → Type 0
  AllHold [] = Unit {0}
  AllHold ((path, inside) ∷ rest) =
      (reader.read_dir path ≡ ok (map ok (paths inside))) × Holds inside × AllHold rest

  abbrev pub pending_files : (Path' → Bool) → Pending → ℕ
  pending_files test [] = 0
  pending_files test ((path, inside) ∷ rest) = count_files test inside + pending_files test rest

  abbrev pub pending_dirs : Pending → ℕ
  pending_dirs [] = 0
  pending_dirs ((path, inside) ∷ rest) = suc (count_dirs inside + pending_dirs rest)

  abbrev pub names : Pending → List Path'
  names [] = []
  names ((path, inside) ∷ rest) = path ∷ names rest

  -- The directories and the files directly among some entries.
  abbrev subdirs : Entries Path' → Pending
  subdirs end = []
  subdirs (file path rest) = subdirs rest
  subdirs (dir path inside rest) = (path, inside) ∷ subdirs rest

  abbrev direct : Entries Path' → List Path'
  direct end = []
  direct (file path rest) = path ∷ direct rest
  direct (dir path inside rest) = direct rest

  sort_entries-paths :
      (entries : Entries Path')
      → Holds entries
      → sort_entries reader (map ok (paths entries)) ≡ ok (names (subdirs entries), direct entries)
  unfolding sort_entries
  sort_entries-paths end h = refl
  sort_entries-paths (file path rest) (is_file, h) = rw (sort_entries-paths rest h, is_file) refl
  sort_entries-paths (dir path inside rest) (is_dir, reads, hi, h) =
      rw (sort_entries-paths rest h, is_dir) refl

  abbrev push_pending : Pending → Pending → Pending
  push_pending stack [] = stack
  push_pending stack (d ∷ rest) = push_pending (d ∷ stack) rest

  names-push_pending :
      (stack dirs : Pending)
      → names (push_pending stack dirs) ≡ push_all reader (names stack) (names dirs)
  names-push_pending stack [] = refl
  names-push_pending stack (d ∷ rest) = names-push_pending (d ∷ stack) rest

  pending_files-push_pending :
      (test : Path' → Bool) (stack dirs : Pending)
      → pending_files test (push_pending stack dirs)
        ≡ pending_files test stack + pending_files test dirs
  pending_files-push_pending test stack [] = omega arith
  pending_files-push_pending test stack ((path, inside) ∷ rest) =
      omega (arith, pending_files-push_pending test ((path, inside) ∷ stack) rest)

  pending_dirs-push_pending :
      (stack dirs : Pending)
      → pending_dirs (push_pending stack dirs) ≡ pending_dirs stack + pending_dirs dirs
  pending_dirs-push_pending stack [] = omega arith
  pending_dirs-push_pending stack ((path, inside) ∷ rest) =
      omega (arith, pending_dirs-push_pending ((path, inside) ∷ stack) rest)

  AllHold-push_pending :
      (stack dirs : Pending) → AllHold stack → AllHold dirs → AllHold (push_pending stack dirs)
  AllHold-push_pending stack [] hs hd = hs
  AllHold-push_pending stack ((path, inside) ∷ rest) hs (reads, hi, hd) =
      AllHold-push_pending ((path, inside) ∷ stack) rest (reads, hi, hs) hd

  AllHold-subdirs : (entries : Entries Path') → Holds entries → AllHold (subdirs entries)
  AllHold-subdirs end h = tt
  AllHold-subdirs (file path rest) (is_file, h) = AllHold-subdirs rest h
  AllHold-subdirs (dir path inside rest) (is_dir, reads, hi, h) =
      (reads, hi, AllHold-subdirs rest h)

  count_files-parts :
      (test : Path' → Bool) (entries : Entries Path')
      → count_files test entries
        ≡ count test (direct entries) + pending_files test (subdirs entries)
  count_files-parts test end = refl
  count_files-parts test (file path rest) = omega (arith, count_files-parts test rest)
  count_files-parts test (dir path inside rest) = omega (arith, count_files-parts test rest)

  count_dirs-subdirs :
      (entries : Entries Path') → pending_dirs (subdirs entries) ≡ count_dirs entries
  count_dirs-subdirs end = refl
  count_dirs-subdirs (file path rest) = count_dirs-subdirs rest
  count_dirs-subdirs (dir path inside rest) = omega (arith, count_dirs-subdirs rest)

  count-append :
      (test : Path' → Bool) (xs ys : List Path')
      → count test (xs ++ ys) ≡ count test xs + count test ys
  count-append test [] ys = omega arith
  count-append test (x ∷ xs) ys = omega (arith, count-append test xs ys)

  pub walk-pending :
      (fuel : ℕ) (stack : Pending)
      → AllHold stack
      → pending_dirs stack ≤ fuel
      → (found : List Path') × (walk reader fuel (names stack) ≡ some (ok found))
        × ((test : Path' → Bool) → count test found ≡ pending_files test stack)
  unfolding walk
  walk-pending fuel [] h enough = ([], refl, λ test. refl)
  walk-pending zero ((path, inside) ∷ rest) h enough = absurd (omega (arith, enough))
  walk-pending (suc fuel) ((path, inside) ∷ rest) (reads, hi, h) enough =
      let next : Pending = push_pending rest (subdirs inside) in
      let (found, steps, counts) =
        walk-pending fuel next
          (AllHold-push_pending rest (subdirs inside) h (AllHold-subdirs inside hi))
          (omega (
            arith,
            enough,
            pending_dirs-push_pending rest (subdirs inside),
            count_dirs-subdirs inside,
          )) in
      (
        direct inside ++ found,
        rw
            (
              reads,
              sort_entries-paths inside hi,
              sym (names-push_pending rest (subdirs inside)),
              steps,
            )
            refl,
        λ test. omega (
          arith,
          count-append test (direct inside) found,
          counts test,
          pending_files-push_pending test rest (subdirs inside),
          count_files-parts test inside,
        ),
      )

  -- Where the root holds some entries, no directory twice or inside itself, `walkdir` ends within one
  -- round for each directory, the root included, and lists every file below the root, and only these, as
  -- often as it is there: for any test, as many listed paths pass it as files do.
  pub walkdir-count_files :
      (fuel : ℕ) (root : Path') (entries : Entries Path')
      → reader.read_dir root ≡ ok (map ok (paths entries))
      → Holds entries
      → count_dirs entries < fuel
      → (found : List Path') × (walkdir reader fuel root ≡ some (ok found))
        × ((test : Path' → Bool) → count test found ≡ count_files test entries)
  unfolding walkdir
  walkdir-count_files fuel root entries reads holds enough =
      let (found, steps, counts) =
        walk-pending fuel ((root, entries) ∷ []) (reads, holds, tt) (omega (arith, enough)) in
      (found, steps, λ test. omega (arith, counts test))
