-- ===== src/Codec/Asc/Words.antt =====
-- Words with blanks between them are found again.
use cantools_rs.Prelude.{
  ℕ, zero, suc, ◌≤◌, ◌<◌, List, [], ◌∷◌, ◌++◌, All, Bytes, length, map, replicate, append-nil, ◌≡◌,
  refl, ap, sym, ◌∙◌, arith,
}
use cantools_rs.Core.{Text}
use cantools_rs.Codec.Asc.Blanks.{
  blank_width, Chunk, char, blank, chunks, bytes_of, trim_start, blank_before, trim_end, trim,
  flush, words, split,
}

-- An ASCII character that is no blank.
abbrev pub IsPrinted : ℕ → Type 0
IsPrinted c = (33 ≤ c) × (c < 128)

pub record IsWord (text : Text) : Type 0 where
  pub printed : All IsPrinted text
  pub some_char : 0 < length text

blank_width-printed : (c : ℕ) (rest : Bytes) → IsPrinted c → blank_width (c ∷ rest) ≡ 0
blank_width-printed c rest h = ground (arith, h)

chunks-printed :
    (text rest : Bytes)
    → All IsPrinted text
    → chunks 0 (text ++ rest) ≡ map char text ++ chunks 0 rest
chunks-printed [] rest h = refl
chunks-printed (c ∷ cs) rest (printed, h) =
    rw (blank_width-printed c (cs ++ rest) printed, chunks-printed cs rest h) refl

chunks-blank : (rest : Bytes) → chunks 0 (32 ∷ rest) ≡ blank (32 ∷ []) ∷ chunks 0 rest
chunks-blank rest = refl

words-chars :
    (text : Bytes) (rest : List Chunk)
    → words (map char text ++ rest) ≡ (text ++ (words rest).0, (words rest).1)
words-chars [] rest = refl
words-chars (c ∷ cs) rest = rw (words-chars cs rest) refl

words-blank_before :
    (bytes : Bytes) (rest : List Chunk) → words (blank_before bytes rest) ≡ ([], flush (words rest))
words-blank_before bytes [] = refl
words-blank_before bytes (next ∷ rest) = refl

words-trim_end : (cs : List Chunk) → words (trim_end cs) ≡ words cs
words-trim_end [] = refl
words-trim_end (char c ∷ rest) = rw (words-trim_end rest) refl
words-trim_end (blank bytes ∷ rest) =
    words-blank_before bytes (trim_end rest) ∙ ap (λ w. ([], flush w)) (words-trim_end rest)

split-trim_start : (cs : List Chunk) → split (trim_start cs) ≡ split cs
split-trim_start [] = refl
split-trim_start (char c ∷ rest) = refl
split-trim_start (blank bytes ∷ rest) = split-trim_start rest

-- Trimming a text does not change its words.
pub split-trim : (cs : List Chunk) → split (trim cs) ≡ split cs
split-trim cs = ap flush (words-trim_end (trim_start cs)) ∙ split-trim_start cs

flush-word :
    (text : Text) (later : List Text) → 0 < length text → flush (text, later) ≡ text ∷ later
flush-word [] later h = absurd (omega arith)
flush-word (c ∷ cs) later h = refl

pub split-word :
    (text rest : Text)
    → IsWord text
    → split (chunks 0 (text ++ 32 ∷ rest)) ≡ text ∷ split (chunks 0 rest)
split-word text rest h =
    ap split (chunks-printed text (32 ∷ rest) h.printed)
    ∙ ap flush (
        words-chars text (blank (32 ∷ []) ∷ chunks 0 rest)
        ∙ ap (λ (w : Text). (w, flush (words (chunks 0 rest)))) (append-nil text))
    ∙ flush-word text (flush (words (chunks 0 rest))) h.some_char

pub split-last : (text : Text) → IsWord text → split (chunks 0 text) ≡ text ∷ []
split-last text h =
    ap (λ (w : Text). split (chunks 0 w)) (sym (append-nil text))
    ∙ ap split (chunks-printed text [] h.printed)
    ∙ ap flush (words-chars text [] ∙ ap (λ (w : Text). (w, [])) (append-nil text))
    ∙ flush-word text [] h.some_char

pub split-blank : (rest : Text) → split (chunks 0 (32 ∷ rest)) ≡ split (chunks 0 rest)
split-blank rest = refl

-- The text that is left starts as its first word does.
pub trim-starts :
    (pad : ℕ) (c : ℕ) (cs : Text)
    → IsPrinted c
    → (rest : Text) × (bytes_of (trim (chunks 0 (replicate pad 32 ++ (c ∷ cs)))) ≡ c ∷ rest)
trim-starts zero c cs h = rw (blank_width-printed c cs h) (_, refl)
trim-starts (suc pad) c cs h = trim-starts pad c cs h

pub split-pad :
    (pad : ℕ) (rest : Text) → split (chunks 0 (replicate pad 32 ++ rest)) ≡ split (chunks 0 rest)
split-pad zero rest = refl
split-pad (suc pad) rest = split-pad pad rest
