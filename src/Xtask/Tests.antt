-- ===== src/Xtask/Tests.antt =====
-- Concrete runs of the tasks.
use cantools_rs.Prelude.{
  ℕ, ◌≡◌, refl, Bool, false, ◌&&◌, none, some, List, [], ◌∷◌, ◌++◌, ◌==◌, ok, err, arith,
  if◌then◌else◌, Bool-cases, inl, inr, ◌≢◌,
}
use cantools_rs.Prelude.Text.{codes, same_bytes, same_bytes_refl, same_bytes_sound}
use cantools_rs.Core.{Text}
use cantools_rs.Xtask.Files.{
  Reader, Files, TaskError, is_marked, report_failures, check_placeholders,
}
use cantools_rs.Xtask.Walk.{Entries, count_files, count}
use cantools_rs.Xtask.Placeholders.{check_placeholders-count_files}
use cantools_rs.Xtask.Shell.{shell_quote, shell_word, plain, shell_word-shell_quote}
use cantools_rs.Xtask.Tables.{
  uds_head, uds_middle, table_end, uds_generated, obd_generated, j1939_generated,
}
use cantools_rs.Xtask.Codegen.{Formats, codegen}
use cantools_rs.Xtask.Twice.{Stores, codegen-again}

-- Directory 0 holds a file 1 and a directory 2, which holds a file 3. File 3 has a marker.
abbrev disk : Reader ℕ ℕ
disk = record {
  read_dir =
      λ p. if p == 0 then ok (ok 1 ∷ ok 2 ∷ []) else if p == 2 then ok (ok 3 ∷ []) else err p;
  is_dir = λ p. p == 2;
  components = λ p. [];
  file_name = λ p. none;
  read_to_string = λ p. ok (p ∷ []);
  is_match = λ text. same_bytes text (3 ∷ []);
}

abbrev inside : Entries ℕ
inside = Entries.file 1 (Entries.dir 2 (Entries.file 3 Entries.end) Entries.end)

check_placeholders-count_files_example :
    (failures : List ℕ) × (check_placeholders disk 2 0 ≡ some (report_failures disk failures))
    × ((test : ℕ → Bool)
        → count test failures ≡ count_files (λ path. is_marked disk path && test path) inside)
check_placeholders-count_files_example =
    check_placeholders-count_files disk 2 0 inside refl (refl, (refl, refl, (refl, tt), tt))
      (omega arith)

-- `it's`
shell_word-shell_quote_example :
    shell_word plain (shell_quote (codes "it's") ++ 32 ∷ codes "&& ls")
    ≡ some (codes "it's", 32 ∷ codes "&& ls")
shell_word-shell_quote_example = shell_word-shell_quote (codes "it's") (codes "&& ls")

-- Every file is empty until it is written.
abbrev memory : Files (Text → Text) Text ℕ
memory = record {
  read = λ path s. ok (s path);
  write = λ path content s. (ok tt, λ other. if same_bytes path other then content else s other);
}

differ_bytes : (a b : Text) → a ≢ b → same_bytes a b ≡ false
differ_bytes a b differs = elim (Bool-cases (same_bytes a b)) [
  | inl e ↦ absurd (differs (same_bytes_sound a b e))
  | inr e ↦ e
]

memory-Stores : Stores memory
memory-Stores = record {
  put = λ path content s. λ other. if same_bytes path other then content else s other;
  writes = λ path content s. refl;
  written = λ path content s. rw (same_bytes_refl path) refl;
  others = λ path other content s differs. rw (differ_bytes path other differs) refl;
}

abbrev empty_formats : Formats Text ℕ
empty_formats = record {
  uds = λ text. ok (record { services = []; negative_responses = [] });
  obd = λ text. ok (record { mode1 = []; mode9 = [] });
  j1939 = λ text. ok (record { pgns = [] });
  debug = λ text. text;
  at = λ name. name;
}

uds_made :
    uds_generated empty_formats.debug {E = TaskError Text ℕ}
      (record { services = []; negative_responses = [] })
    ≡ ok (uds_head ++ [] ++ uds_middle ++ [] ++ table_end)
unfolding uds_generated
uds_made = refl

codegen-again_example :
    (s' : Text → Text) × (codegen memory empty_formats (λ path. []) ≡ (ok tt, s'))
    × (memory.read (codes "crates/cantools-uds/src/generated.rs") s'
        ≡ ok (uds_head ++ [] ++ uds_middle ++ [] ++ table_end))
    × (memory.read (codes "crates/cantools-obd/src/generated.rs") s'
        ≡ ok (obd_generated empty_formats.debug (record { mode1 = []; mode9 = [] })))
    × (memory.read (codes "crates/cantools-j1939/src/generated.rs") s'
        ≡ ok (j1939_generated empty_formats.debug (record { pgns = [] })))
    × (codegen memory empty_formats s' ≡ (ok tt, s'))
codegen-again_example =
    codegen-again memory empty_formats (λ path. []) [] [] []
      (uds_head ++ [] ++ uds_middle ++ [] ++ table_end)
      (record { services = []; negative_responses = [] }) (record { mode1 = []; mode9 = [] })
      (record { pgns = [] }) memory-Stores (λ x y e. e) refl refl refl refl refl refl uds_made
