-- ===== src/Xtask/Placeholders.antt =====
-- What `check_placeholders` reports of a tree of files.
use cantools_rs.Prelude.{
  ℕ, ◌<◌, Bool, ◌&&◌, some, List, [], ◌∷◌, ok, map, filter_by, ◌≡◌, refl, ◌∙◌, arith,
}
use cantools_rs.Xtask.Files.{Reader, is_marked, report_failures, check_placeholders}
use cantools_rs.Xtask.Walk.{
  Entries, paths, count_files, count_dirs, count, Holds, walkdir-count_files,
}

count-filter_by :
    {A : Type 0} (mark test : A → Bool) (xs : List A)
    → count test (filter_by mark xs) ≡ count (λ x. mark x && test x) xs
count-filter_by mark test [] = refl
count-filter_by mark test (x ∷ xs) = ground (arith, count-filter_by mark test xs)

-- Where the root holds some entries, no directory twice or inside itself, and the fuel is above the number
-- of directories, `check_placeholders` ends and reports exactly the files below the root, each as often
-- as it is there, that are not under `target` or `.git` and not named `AGENTS.md`, that can be read, and
-- in which the expression matches. It succeeds when there is none.
pub check_placeholders-count_files :
    {Path' E : Type 0} (reader : Reader Path' E) (fuel : ℕ) (root : Path') (entries : Entries Path')
    → reader.read_dir root ≡ ok (map ok (paths entries))
    → Holds reader entries
    → count_dirs entries < fuel
    → (failures : List Path') × (check_placeholders reader fuel root
        ≡ some (report_failures reader failures))
      × ((test : Path' → Bool)
          → count test failures ≡ count_files (λ path. is_marked reader path && test path) entries)
unfolding check_placeholders
check_placeholders-count_files reader fuel root entries reads holds enough =
    let (found, steps, counts) = walkdir-count_files reader fuel root entries reads holds enough in
    (
      filter_by (is_marked reader) found,
      rw steps refl,
      λ test.
          count-filter_by (is_marked reader) test found
          ∙ counts (λ path. is_marked reader path && test path),
    )
