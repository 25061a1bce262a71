-- ===== src/Xtask/Shell.antt =====
-- crates/xtask/src/main.rs: `shell_quote`, `orb_repo_script` and `orb_args`, and what a POSIX shell makes
-- of a quoted word. A path is its text.
use cantools_rs.Prelude.{
  ℕ, Bool, true, false, Option, none, some, List, [], ◌∷◌, ◌++◌, ◌==◌, if◌then◌else◌, ◌≡◌, refl,
  append_assoc, Bool-cases, inl, inr, ==_iff, ap, ◌∙◌, ◌||◌, not,
}
use cantools_rs.Prelude.Text.{codes}
use cantools_rs.Core.{Text}

-- `.replace('\'', "'\\''")`
abbrev pub escape_quotes : Text → Text
escape_quotes [] = []
escape_quotes (c ∷ cs) = (if c == 39 then 39 ∷ 92 ∷ 39 ∷ 39 ∷ [] else c ∷ []) ++ escape_quotes cs

unfoldable pub shell_quote : Text → Text
shell_quote path = 39 ∷ (escape_quotes path ++ 39 ∷ [])

unfoldable pub orb_repo_script : (root command : Text) → Text
orb_repo_script root command =
    codes "if [ -f \"$HOME/.cargo/env\" ]; then . \"$HOME/.cargo/env\"; fi; cd "
    ++ (shell_quote root ++ (codes " && " ++ command))

abbrev pub orb_args : Option Text → Text → List Text
orb_args none script = codes "-m" ∷ codes "debian" ∷ codes "sh" ∷ codes "-lc" ∷ script ∷ []
orb_args (some user) script =
    codes "-m" ∷ codes "debian" ∷ codes "-u" ∷ user ∷ codes "sh" ∷ codes "-lc" ∷ script ∷ []

-- How a POSIX shell reads a word: in single quotes each character stands for itself, and outside them a
-- backslash keeps the next one.
pub data Mode : Type 0 where
  plain quoted escaped : Mode

abbrev pub also : ℕ → Option (Text × Text) → Option (Text × Text)
also c none = none
also c (some (word, rest)) = some (c ∷ word, rest)

abbrev pub next_mode : Mode → ℕ → Mode
next_mode plain c = if c == 39 then quoted else if c == 92 then escaped else plain
next_mode quoted c = if c == 39 then plain else quoted
next_mode escaped c = plain

-- The character stands for itself.
abbrev pub keeps : Mode → ℕ → Bool
keeps plain c = not (c == 39 || c == 92)
keeps quoted c = not (c == 39)
keeps escaped c = true

-- A blank ends a word.
abbrev pub stops : Mode → ℕ → Bool
stops plain c = c == 32
stops quoted c = false
stops escaped c = false

-- The word at the start of a text, and what follows it from the blank on; `none` where a quote is not
-- closed.
abbrev pub shell_word : Mode → Text → Option (Text × Text)
shell_word plain [] = some ([], [])
shell_word quoted [] = none
shell_word escaped [] = none
shell_word mode (c ∷ cs) =
    let later = shell_word (next_mode mode c) cs in
    if stops mode c then some ([], c ∷ cs) else if keeps mode c then also c later else later

shell_word-escape_quotes :
    (path rest : Text)
    → shell_word quoted (escape_quotes path ++ (39 ∷ 32 ∷ rest)) ≡ some (path, 32 ∷ rest)
shell_word-escape_quotes [] rest = refl
shell_word-escape_quotes (c ∷ cs) rest = elim (Bool-cases (c == 39)) [
  | inl e ↦
      let same : c ≡ 39 = (==_iff c 39).0 e in rw (same, shell_word-escape_quotes cs rest) refl
  | inr e ↦ rw (e, e, shell_word-escape_quotes cs rest) refl
]

-- A shell that reads the word that `shell_quote` makes of any path, with a blank after it, gets the path
-- back unchanged, whatever quotes, blanks and backslashes are in it, and goes on at the blank.
pub shell_word-shell_quote :
    (path rest : Text) → shell_word plain (shell_quote path ++ 32 ∷ rest) ≡ some (path, 32 ∷ rest)
unfolding shell_quote
shell_word-shell_quote path rest =
    ap (shell_word quoted) (append_assoc (escape_quotes path) (39 ∷ []) (32 ∷ rest))
    ∙ shell_word-escape_quotes path rest
