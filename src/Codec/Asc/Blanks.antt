-- ===== src/Codec/Asc/Blanks.antt =====
-- crates/cantools-codec/src/asc.rs: how `str::trim` and `split_whitespace` take a line apart. A blank is a
-- Unicode white space, in UTF-8; a byte inside another character never starts one.
use cantools_rs.Prelude.{
  ℕ, zero, suc, ◌-◌, ◌&&◌, ◌||◌, List, [], ◌∷◌, ◌++◌, Bytes, take, get_or, leb, ◌==◌, if◌then◌else◌,
}
use cantools_rs.Core.{Text}

-- How many bytes the blank at the start has; 0 where there is none.
abbrev pub blank_width : Bytes → ℕ
blank_width [] = 0
blank_width (a ∷ rest) =
    let b = get_or rest 0 0 in
    let c = get_or rest 1 0 in
    if (leb 9 a && leb a 13) || a == 32
    then 1
    else if a == 0xc2 && (b == 0x85 || b == 0xa0)
    then 2
    else if (a == 0xe1 && (b == 0x9a && c == 0x80))
        || ((a == 0xe2
              && ((b == 0x80
                    && ((leb 0x80 c && leb c 0x8a) || (c == 0xa8 || (c == 0xa9 || c == 0xaf))))
                  || (b == 0x81 && c == 0x9f)))
            || (a == 0xe3 && (b == 0x80 && c == 0x80)))
    then 3
    else 0

pub data Chunk : Type 0 where
  char : ℕ → Chunk
  blank : Bytes → Chunk

abbrev pub chunk_of : ℕ → ℕ → Bytes → Chunk
chunk_of zero c cs = char c
chunk_of (suc n) c cs = blank (take (suc n) (c ∷ cs))

-- The chunks after some bytes of a blank.
abbrev pub chunks : (skip : ℕ) → Bytes → List Chunk
chunks skip [] = []
chunks (suc skip) (c ∷ cs) = chunks skip cs
chunks zero (c ∷ cs) =
    let width = blank_width (c ∷ cs) in chunk_of width c cs ∷ chunks (width - 1) cs

abbrev pub bytes_of : List Chunk → Bytes
bytes_of [] = []
bytes_of (char c ∷ rest) = c ∷ bytes_of rest
bytes_of (blank bytes ∷ rest) = bytes ++ bytes_of rest

abbrev pub trim_start : List Chunk → List Chunk
trim_start [] = []
trim_start (char c ∷ rest) = char c ∷ rest
trim_start (blank bytes ∷ rest) = trim_start rest

abbrev pub blank_before : Bytes → List Chunk → List Chunk
blank_before bytes [] = []
blank_before bytes (next ∷ rest) = blank bytes ∷ next ∷ rest

abbrev pub trim_end : List Chunk → List Chunk
trim_end [] = []
trim_end (char c ∷ rest) = char c ∷ trim_end rest
trim_end (blank bytes ∷ rest) = blank_before bytes (trim_end rest)

-- `line.trim()`
abbrev pub trim : List Chunk → List Chunk
trim cs = trim_end (trim_start cs)

-- The word that has begun, if it is not empty, before the others.
abbrev pub flush : Text × List Text → List Text
flush ([], words) = words
flush (c ∷ cs, words) = (c ∷ cs) ∷ words

-- The word at the start, and the later ones.
abbrev pub words : List Chunk → Text × List Text
words [] = ([], [])
words (char c ∷ rest) = let later = words rest in (c ∷ later.0, later.1)
words (blank bytes ∷ rest) = ([], flush (words rest))

-- `split_whitespace`
abbrev pub split : List Chunk → List Text
split cs = flush (words cs)
