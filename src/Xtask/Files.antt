-- ===== src/Xtask/Files.antt =====
-- crates/xtask/src/main.rs: `write_if_changed`, `walkdir` and `check_placeholders`. Paths, the file system
-- and the regular expression are parameters. The loop of `walkdir` runs on fuel, and `none` is a loop that
-- has not ended.
use cantools_rs.Prelude.{
  ℕ, zero, suc, Bool, false, ◌||◌, ◌&&◌, not, Option, none, some, List, [], ◌∷◌, ◌++◌, Result, ok,
  err, panic, ◌>>=◌, map_err, filter_by, if◌then◌else◌,
}
use mathlib.Core.Option
use cantools_rs.Prelude.Text.{codes, same_bytes}
use cantools_rs.Core.{Text}

-- The file system as the tasks read it. `read_dir` lists the entries of a directory, each of which may
-- fail; `is_dir` follows symbolic links.
pub record Reader (Path' E : Type 0) : Type 0 where
  pub read_dir : Path' → Result E (List (Result E Path'))
  pub is_dir : Path' → Bool
  pub components : Path' → List Text
  pub file_name : Path' → Option Text
  pub read_to_string : Path' → Result E Text
  -- `matcher.is_match`
  pub is_match : Text → Bool

-- The errors of `anyhow`: those of calls, the messages of `bail!`, and contexts.
pub data TaskError (Path' E : Type 0) : Type 0 where
  failed : E → TaskError Path' E
  placeholders : List Path' → TaskError Path' E
  bailed : Text → TaskError Path' E
  in_context : Text → TaskError Path' E → TaskError Path' E

module _ {Path' E : Type 0} (reader : Reader Path' E) where
  open reader use {read_dir, is_dir, components, file_name, read_to_string, is_match}

  -- The loop over the entries of a directory: the directories and the files among them.
  unfoldable pub sort_entries : List (Result E Path') → Result E (List Path' × List Path')
  sort_entries [] = ok ([], [])
  sort_entries (entry ∷ rest) = do
    path ← entry
    later ← sort_entries rest
    ok (if is_dir path then (path ∷ later.0, later.1) else (later.0, path ∷ later.1))

  -- `stack.push` of each; the top comes first.
  abbrev pub push_all : List Path' → List Path' → List Path'
  push_all stack [] = stack
  push_all stack (path ∷ rest) = push_all (path ∷ stack) rest

  -- The files before those that the later rounds find.
  abbrev pub and_later :
      List Path' → Option (Result E (List Path')) → Option (Result E (List Path'))
  and_later files none = none
  and_later files (some later) = some (later >>= λ more. ok (files ++ more))

  -- What a round does with a directory that has been read.
  abbrev pub on_entries :
      (List Path' → Option (Result E (List Path')))
      → List Path'
      → Result E (List Path' × List Path')
      → Option (Result E (List Path'))
  on_entries again stack (ok (dirs, files)) = and_later files (again (push_all stack dirs))
  on_entries again stack (err e) = some (err e)
  on_entries again stack panic = some panic

  unfoldable pub walk : (fuel : ℕ) → (stack : List Path') → Option (Result E (List Path'))
  unfolding sort_entries
  walk fuel [] = some (ok [])
  walk zero (path ∷ stack) = none
  walk (suc fuel) (path ∷ stack) = on_entries (walk fuel) stack (read_dir path >>= sort_entries)

  unfoldable pub walkdir : (fuel : ℕ) → (root : Path') → Option (Result E (List Path'))
  unfolding walk sort_entries
  walkdir fuel root = walk fuel (root ∷ [])

  abbrev pub any_of : {A : Type 0} → (A → Bool) → List A → Bool
  any_of test [] = false
  any_of test (x ∷ xs) = test x || any_of test xs

  abbrev pub is_skipped : Path' → Bool
  is_skipped path =
      any_of (λ part. same_bytes part (codes "target") || same_bytes part (codes ".git"))
        (components path)
      || elim (file_name path) [ none ↦ false | some name ↦ same_bytes name (codes "AGENTS.md") ]

  -- A file that is not skipped, can be read and has a marker.
  unfoldable pub is_marked : Path' → Bool
  is_marked path = not (is_skipped path) && elim (read_to_string path) [
    | ok content ↦ is_match content
    | err e ↦ false
    | panic ↦ false
  ]

  abbrev pub report_failures : List Path' → Result (TaskError Path' E) (Unit {0})
  report_failures [] = ok tt
  report_failures (path ∷ rest) = err (placeholders (path ∷ rest))

  abbrev pub on_files : Result E (List Path') → Result (TaskError Path' E) (Unit {0})
  on_files files = map_err failed files >>= λ paths. report_failures (filter_by is_marked paths)

  -- The regular expression is valid, so its creation does not fail.
  unfoldable pub check_placeholders :
      (fuel : ℕ) → (root : Path') → Option (Result (TaskError Path' E) (Unit {0}))
  unfolding walkdir walk sort_entries is_marked
  check_placeholders fuel root = Option.map on_files (walkdir fuel root)

-- Files that are also written.
pub record Files (S Path' E : Type 0) : Type 0 where
  pub read : Path' → S → Result E Text
  pub write : Path' → Text → S → Result E (Unit {0}) × S

module _ {S Path' E : Type 0} (files : Files S Path' E) where
  -- `fs::read_to_string(path).ok().as_deref() == Some(content)`
  abbrev pub is_content : Text → Result E Text → Bool
  is_content content (ok found) = same_bytes found content
  is_content content (err e) = false
  is_content content panic = false

  unfoldable pub write_if_changed : Path' → Text → S → Result E (Unit {0}) × S
  write_if_changed path content s =
      if is_content content (files.read path s) then (ok tt, s) else files.write path content s
