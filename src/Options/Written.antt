-- ===== src/Options/Written.antt =====
-- The scan of MPIP in util.c against a text in which options are written one behind another.
use a_mpi_p.Prelude.{
  ℕ, Bool, true, false, none, some, List, [], ◌∷◌, ◌++◌, ◌≡◌, ◌≢◌, refl, ap, ◌∙◌, if◌then◌else◌,
  All, length, ◌<◌, lt→ltb,
}
use mathlib.Core.List.{append_assoc, append-nil}
use a_mpi_p.Callsites.{Text}
use a_mpi_p.Options.{Build, Settings, Calls, start_of, set_options, getenv}
use a_mpi_p.Options.Scan.{is_separator, end_word, tokens, Flag, flag_in, cluster, getopt}

-- a text that is not empty and has no separator
abbrev pub IsWord : Text → Type 0
IsWord w = (w ≢ []) × All (λ c. is_separator c ≡ false) w

-- the words with a blank behind each
abbrev pub joined : List Text → Text
joined [] = []
joined (w ∷ ws) = w ++ 32 ∷ joined ws

tokens-word :
    (word cs rest : Text)
    → All (λ c. is_separator c ≡ false) cs
    → tokens word (cs ++ 32 ∷ rest) ≡ end_word (word ++ cs) ++ tokens [] rest
unfolding tokens
tokens-word word [] rest h = rw append-nil refl
tokens-word word (c ∷ cs) rest (e, h) = rw e (
    tokens-word (word ++ c ∷ []) cs rest h
    ∙ ap (λ w. end_word w ++ tokens [] rest) (append_assoc word (c ∷ []) cs))

end_word-IsWord : (w : Text) → w ≢ [] → end_word w ≡ w ∷ []
end_word-IsWord [] h = absurd (h refl)
end_word-IsWord (c ∷ cs) h = refl

tokens-joined : (ws : List Text) → All IsWord ws → tokens [] (joined ws) ≡ ws
unfolding tokens
tokens-joined [] h = refl
tokens-joined (w ∷ ws) ((filled, plain), hs) =
    tokens-word [] w (joined ws) plain ∙ rw (end_word-IsWord w filled, tokens-joined ws hs) refl

-- the letter of an option, and whether it has an argument
abbrev pub letter : Flag → ℕ
letter Flag.trace_all = 65
letter Flag.a = 97
letter Flag.c = 99
letter Flag.d = 100
letter Flag.e = 101
letter Flag.f = 102
letter Flag.g = 103
letter Flag.k = 107
letter Flag.l = 108
letter Flag.m = 109
letter Flag.n = 110
letter Flag.o = 111
letter Flag.p = 112
letter Flag.r = 114
letter Flag.s = 115
letter Flag.t = 116
letter Flag.v = 118
letter Flag.x = 120
letter Flag.y = 121
letter Flag.z = 122
letter Flag.other = 63

abbrev pub has_argument : Flag → Bool
has_argument Flag.f = true
has_argument Flag.k = true
has_argument Flag.m = true
has_argument Flag.s = true
has_argument Flag.t = true
has_argument Flag.x = true
has_argument Flag.a = true
has_argument flag = false

-- an option that can be written
abbrev pub IsOption : Flag × Text → Type 0
IsOption (flag, arg) = (flag ≢ Flag.other) × (if has_argument flag then IsWord arg else (arg ≡ []))

-- the words of options, each with a `-` of its own and the argument in a word of its own
abbrev pub words_of : List (Flag × Text) → List Text
words_of [] = []
words_of ((flag, arg) ∷ options) =
    (45 ∷ letter flag ∷ [])
    ∷ (if has_argument flag then arg ∷ words_of options else words_of options)

-- the first word of an option
getopt-letter :
    (flag : Flag) (ws : List Text)
    → flag ≢ Flag.other
    → getopt none ((45 ∷ letter flag ∷ []) ∷ ws)
      ≡ (if has_argument flag then getopt (some flag) ws else (flag, []) ∷ getopt none ws)
unfolding getopt cluster flag_in
getopt-letter Flag.other ws h = absurd (h refl)
getopt-letter Flag.trace_all ws h = refl
getopt-letter Flag.a ws h = refl
getopt-letter Flag.c ws h = refl
getopt-letter Flag.d ws h = refl
getopt-letter Flag.e ws h = refl
getopt-letter Flag.f ws h = refl
getopt-letter Flag.g ws h = refl
getopt-letter Flag.k ws h = refl
getopt-letter Flag.l ws h = refl
getopt-letter Flag.m ws h = refl
getopt-letter Flag.n ws h = refl
getopt-letter Flag.o ws h = refl
getopt-letter Flag.p ws h = refl
getopt-letter Flag.r ws h = refl
getopt-letter Flag.s ws h = refl
getopt-letter Flag.t ws h = refl
getopt-letter Flag.v ws h = refl
getopt-letter Flag.x ws h = refl
getopt-letter Flag.y ws h = refl
getopt-letter Flag.z ws h = refl

letter-IsWord : (flag : Flag) → IsWord (45 ∷ letter flag ∷ [])
letter-IsWord Flag.trace_all = ((λ e. absurd cc), (refl, (refl, tt)))
letter-IsWord Flag.a = ((λ e. absurd cc), (refl, (refl, tt)))
letter-IsWord Flag.c = ((λ e. absurd cc), (refl, (refl, tt)))
letter-IsWord Flag.d = ((λ e. absurd cc), (refl, (refl, tt)))
letter-IsWord Flag.e = ((λ e. absurd cc), (refl, (refl, tt)))
letter-IsWord Flag.f = ((λ e. absurd cc), (refl, (refl, tt)))
letter-IsWord Flag.g = ((λ e. absurd cc), (refl, (refl, tt)))
letter-IsWord Flag.k = ((λ e. absurd cc), (refl, (refl, tt)))
letter-IsWord Flag.l = ((λ e. absurd cc), (refl, (refl, tt)))
letter-IsWord Flag.m = ((λ e. absurd cc), (refl, (refl, tt)))
letter-IsWord Flag.n = ((λ e. absurd cc), (refl, (refl, tt)))
letter-IsWord Flag.o = ((λ e. absurd cc), (refl, (refl, tt)))
letter-IsWord Flag.p = ((λ e. absurd cc), (refl, (refl, tt)))
letter-IsWord Flag.r = ((λ e. absurd cc), (refl, (refl, tt)))
letter-IsWord Flag.s = ((λ e. absurd cc), (refl, (refl, tt)))
letter-IsWord Flag.t = ((λ e. absurd cc), (refl, (refl, tt)))
letter-IsWord Flag.v = ((λ e. absurd cc), (refl, (refl, tt)))
letter-IsWord Flag.x = ((λ e. absurd cc), (refl, (refl, tt)))
letter-IsWord Flag.y = ((λ e. absurd cc), (refl, (refl, tt)))
letter-IsWord Flag.z = ((λ e. absurd cc), (refl, (refl, tt)))
letter-IsWord Flag.other = ((λ e. absurd cc), (refl, (refl, tt)))

-- an option comes back with its argument, if the words behind it do
given_back :
    (takes : Bool) (flag : Flag) (arg : Text) (ws : List Text) (options : List (Flag × Text))
    → (if takes then IsWord arg else (arg ≡ []))
    → getopt none ws ≡ options
    → (if takes
        then getopt (some flag) (if takes then arg ∷ ws else ws)
        else (flag, []) ∷ getopt none (if takes then arg ∷ ws else ws))
      ≡ (flag, arg) ∷ options
unfolding getopt
given_back true flag arg ws options h e = ap (λ os. (flag, arg) ∷ os) e
given_back false flag arg ws options h e = rw (h, e) refl

getopt-words_of :
    (options : List (Flag × Text)) → All IsOption options → getopt none (words_of options) ≡ options
unfolding getopt
getopt-words_of [] h = refl
getopt-words_of ((flag, arg) ∷ options) ((known, given), hs) =
    getopt-letter flag _ known
    ∙ given_back (has_argument flag) flag arg (words_of options) options given
        (getopt-words_of options hs)

argument-IsWord :
    (takes : Bool) (arg : Text) (ws : List Text)
    → (if takes then IsWord arg else (arg ≡ []))
    → All IsWord ws
    → All IsWord (if takes then arg ∷ ws else ws)
argument-IsWord true arg ws h hs = (h, hs)
argument-IsWord false arg ws h hs = hs

words_of-IsWord :
    (options : List (Flag × Text)) → All IsOption options → All IsWord (words_of options)
words_of-IsWord [] h = tt
words_of-IsWord ((flag, arg) ∷ options) ((known, given), hs) = (
  letter-IsWord flag,
  argument-IsWord (has_argument flag) arg _ given (words_of-IsWord options hs),
)

-- Let options be written one behind another, each with a dash of its own and its argument, which
-- is not empty and has no separator, in the word behind it, with a blank behind each word, in
-- fewer than 63 words. Then mpiPi_getenv on that text sets exactly these options in this order.
pub getenv-words_of :
    (b : Build) (calls : Calls) (s : Settings) (options : List (Flag × Text))
    → All IsOption options
    → length (words_of options) < 63
    → getenv b calls (some (joined (words_of options))) s ≡ set_options b calls options (start_of s)
unfolding getenv
getenv-words_of b calls s options h few =
    rw
      (
        tokens-joined (words_of options) (words_of-IsWord options h),
        lt→ltb (length (words_of options)) 63 few,
        getopt-words_of options h,
      )
      refl
