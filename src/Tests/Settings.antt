-- ===== src/Tests/Settings.antt =====
-- The theorems on the options at texts of MPIP, and runs of the parser.
use a_mpi_p.Prelude.{◌≡◌, refl, true, false, none, some, List, [], ◌∷◌, arith, pos, negsuc}
use a_mpi_p.Callsites.{Text}
use a_mpi_p.Options.{
  Build, Settings, Calls, default_settings, start_of, set_options, set_stack_depth, set_threshold,
  getenv,
}
use a_mpi_p.Options.Scan.{Flag, tokens, getopt, atoi}
use a_mpi_p.Options.Written.{joined, words_of, getenv-words_of}

abbrev built : Build
built = record {
  report_depth_max = 8;
  internal_depth = 3;
  concise_default = false;
  collective_default = false;
  base = 1000;
  nfunc = 60;
}

abbrev opening : Calls
opening = record { atof = λ t. pos 2500; opens = λ file. true }

-- "app"
abbrev app : Text
app = 97 ∷ 112 ∷ 112 ∷ []

abbrev defaults : Settings
defaults = default_settings built 0 4 app app

-- "-k2,-v x -t 2.5"
abbrev mpip : Text
mpip = 45 ∷ 107 ∷ 50 ∷ 44 ∷ 45 ∷ 118 ∷ 32 ∷ 120 ∷ 32 ∷ 45 ∷ 116 ∷ 32 ∷ 50 ∷ 46 ∷ 53 ∷ []

mpip-getopt :
    getopt none (tokens [] mpip)
    ≡ (Flag.k, 50 ∷ []) ∷ (Flag.v, []) ∷ (Flag.t, 50 ∷ 46 ∷ 53 ∷ []) ∷ []
unfolding tokens getopt
mpip-getopt = refl

-- "-12"
minus_twelve : atoi (45 ∷ 49 ∷ 50 ∷ []) ≡ negsuc 11
unfolding atoi
minus_twelve = refl

-- the deviation is not calculated for a depth of 2 if the depth has been 0 before
zero_depth-cov :
    (set_stack_depth built (pos 2) (set_stack_depth built (pos 0) defaults)).globals.calc_cov
    ≡ false
unfolding set_stack_depth
zero_depth-cov = refl

-- a threshold of 2.5 percent becomes 2 percent by a threshold that is too large
large_threshold :
    (set_threshold (pos 100000) (set_threshold (pos 2500) defaults)).report_print_threshold
    ≡ pos 2000
unfolding set_threshold
large_threshold = refl

-- "-v -k 2"
abbrev wanted : List (Flag × Text)
wanted = (Flag.v, []) ∷ (Flag.k, 50 ∷ []) ∷ []

getenv-words_of_example :
    getenv built opening (some (joined (words_of wanted))) defaults
    ≡ set_options built opening wanted (start_of defaults)
getenv-words_of_example =
    getenv-words_of built opening defaults wanted
      (((λ e. absurd cc), refl), (((λ e. absurd cc), ((λ e. absurd cc), (refl, tt))), tt))
      (omega arith)
