-- ===== src/Options/Scan.antt =====
-- How mpiPi_getenv in util.c takes the text of MPIP apart: `strtok`, `getopt` and `atoi` as far as
-- it uses them.
use a_mpi_p.Prelude.{
  ℕ, zero, suc, ◌+◌, ◌-◌, ◌*◌, Bool, true, false, not, ◌&&◌, ◌||◌, Option, none, some, List, [],
  ◌∷◌, ◌++◌, ◌==◌, leb, if◌then◌else◌, ℤ, pos, negsuc,
}
use a_mpi_p.Callsites.{Text}

-- `char *sep = " \t,"`
abbrev pub is_separator : ℕ → Bool
is_separator c = c == 32 || c == 9 || c == 44

-- a word, if there is one
abbrev pub end_word : Text → List Text
end_word [] = []
end_word (c ∷ cs) = (c ∷ cs) ∷ []

-- the words that `strtok` gives, of which `word` has been read
unfoldable pub tokens : (word : Text) → Text → List Text
tokens word [] = end_word word
tokens word (c ∷ cs) =
    if is_separator c then end_word word ++ tokens [] cs else tokens (word ++ c ∷ []) cs

-- the options by their letters; a capital A is `trace_all`, and `other` is `?`
pub data Flag : Type 0 where
  trace_all : Flag
  a : Flag
  c : Flag
  d : Flag
  e : Flag
  f : Flag
  g : Flag
  k : Flag
  l : Flag
  m : Flag
  n : Flag
  o : Flag
  p : Flag
  r : Flag
  s : Flag
  t : Flag
  v : Flag
  x : Flag
  y : Flag
  z : Flag
  other : Flag

-- "Acdef:gk:lm:noprs:t:vx:yza:", where `true` stands for a colon
abbrev pub optstring : List (ℕ × Flag × Bool)
optstring =
    (65, Flag.trace_all, false)
    ∷ (99, Flag.c, false)
    ∷ (100, Flag.d, false)
    ∷ (101, Flag.e, false)
    ∷ (102, Flag.f, true)
    ∷ (103, Flag.g, false)
    ∷ (107, Flag.k, true)
    ∷ (108, Flag.l, false)
    ∷ (109, Flag.m, true)
    ∷ (110, Flag.n, false)
    ∷ (111, Flag.o, false)
    ∷ (112, Flag.p, false)
    ∷ (114, Flag.r, false)
    ∷ (115, Flag.s, true)
    ∷ (116, Flag.t, true)
    ∷ (118, Flag.v, false)
    ∷ (120, Flag.x, true)
    ∷ (121, Flag.y, false)
    ∷ (122, Flag.z, false)
    ∷ (97, Flag.a, true)
    ∷ []

unfoldable pub flag_in : List (ℕ × Flag × Bool) → ℕ → Flag × Bool
flag_in [] letter = (Flag.other, false)
flag_in ((i, flag, takes) ∷ entries) letter =
    if i == letter then (flag, takes) else flag_in entries letter

-- the options of one word behind its `-`, and the option that waits for the next word
unfoldable pub cluster : Text → List (Flag × Text) × Option Flag
unfolding flag_in
cluster [] = ([], none)
cluster (letter ∷ letters) =
    let (flag, takes) = flag_in optstring letter in
    let (rest, waiting) = cluster letters in
    if takes
    then (elim letters [ [] ↦ ([], some flag) | i ∷ is ↦ ((flag, i ∷ is) ∷ [], none) ])
    else ((flag, []) ∷ rest, waiting)

-- what stands behind the first `-` of the word `--`
abbrev pub is_end : Text → Bool
is_end [] = false
is_end (i ∷ []) = i == 45
is_end (i ∷ j ∷ is) = false

-- the options that `getopt` gives with their arguments, empty for none: a word that is no option is
-- passed over, and the word `--` ends them
unfoldable pub getopt : (waiting : Option Flag) → List Text → List (Flag × Text)
unfolding cluster
getopt none [] = []
getopt (some flag) [] = (Flag.other, []) ∷ []
getopt (some flag) (word ∷ words) = (flag, word) ∷ getopt none words
getopt none ([] ∷ words) = getopt none words
getopt none ((i ∷ []) ∷ words) = getopt none words
getopt none ((i ∷ j ∷ word) ∷ words) =
    let (options, waiting) = cluster (j ∷ word) in
    let after = getopt waiting words in
    let passed = getopt none words in
    if not (i == 45) then passed else if is_end (j ∷ word) then [] else options ++ after

abbrev pub is_digit : ℕ → Bool
is_digit i = leb 48 i && leb i 57

abbrev pub is_space : ℕ → Bool
is_space i = i == 32 || (leb 9 i && leb i 13)

unfoldable pub digits : (value : ℕ) → Text → ℕ
digits value [] = value
digits value (i ∷ is) = if is_digit i then digits (10 * value + (i - 48)) is else value

abbrev pub negated : ℕ → ℤ
negated zero = pos 0
negated (suc i) = negsuc i

-- `atoi` on a number that an `int` can hold
unfoldable pub atoi : Text → ℤ
unfolding digits
atoi [] = pos 0
atoi (i ∷ is) =
    if is_space i
    then atoi is
    else if i == 45
    then negated (digits 0 is)
    else if i == 43
    then pos (digits 0 is)
    else pos (digits 0 (i ∷ is))
