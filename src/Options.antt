-- ===== src/Options.antt =====
-- The options of util.c: mpiPi_getenv on the text of the environment variable MPIP, and the
-- defaults that mpiPi_init of mpiPi.c sets before it. Messages are left out.
pub mod Scan
pub mod Settled
pub mod Written
use a_mpi_p.Prelude.{
  ℕ, zero, suc, ◌+◌, ◌-◌, ◌*◌, ◌/◌, Bool, true, false, not, Option, none, some, List, [], ◌∷◌, ◌==◌,
  ltb, leb, min, length, if◌then◌else◌, Run, ok, abort, ◌>>=◌, ℤ, pos, negsuc, ltb_ℤ,
}
use a_mpi_p.Globals.{Globals}
use a_mpi_p.Callsites.{Text}
use a_mpi_p.Dwarf.{after_slash}
use a_mpi_p.Options.Scan.{Flag, tokens, getopt, atoi}

-- MPIP_CALLSITE_REPORT_STACK_DEPTH_MAX, MPIP_INTERNAL_STACK_DEPTH, the choices of `configure`, and
-- the constants of mpiPi_def.h
pub record Build : Type 0 where
  pub report_depth_max : ℕ
  pub internal_depth : ℕ
  pub concise_default : Bool
  pub collective_default : Bool
  pub base : ℕ
  pub nfunc : ℕ

-- mpiPi_style_verbose, mpiPi_style_concise, mpiPi_style_both
pub data ReportStyle : Type 0 where
  verbose : ReportStyle
  concise : ReportStyle
  both : ReportStyle

-- the settings of mpiPi, with the threshold in thousandths of a percent. The trace file is a name,
-- with a rank behind it if every rank has a file; `none` is the standard output
pub record Settings : Type 0 where
  pub globals : Globals
  pub output_dir : Text
  pub debug : Bool
  pub enabled_count : ℕ
  pub report_print_threshold : ℤ
  pub base_names : Bool
  pub float_format : Bool
  pub report_style : ReportStyle
  pub print_callsite_detail : Bool
  pub disable_finalize_report : Bool
  pub app_full_name : Text
  pub app_name : Text
  pub trace_file : Option (Text × Option ℕ)

-- what the parser calls: `atof`, and whether `fopen` of a file succeeds
pub record Calls : Type 0 where
  pub atof : Text → ℤ
  pub opens : Text × Option ℕ → Bool

-- GetBaseAppName
unfoldable pub get_base_app_name : Text → Text
get_base_app_name name = elim (after_slash name) [ some t ↦ t | none ↦ name ]

-- the settings that mpiPi_init sets before it reads the options
unfoldable pub default_settings : Build → (rank size : ℕ) → (full_name name : Text) → Settings
default_settings b rank size full_name name =
    let depth = if b.concise_default then 0 else 1 in
    let depth_max = b.report_depth_max + b.internal_depth in
    record {
      globals = record {
        rank = rank;
        size = size;
        collector_rank = 0;
        enabled = true;
        table_size = pos 256;
        report_stack_depth = depth;
        full_stack_depth = min (depth + b.internal_depth) depth_max;
        stack_depth_max = depth_max;
        calc_cov = true;
        do_lookup = true;
        message_count_threshold = negsuc 0;
        collective_report = b.collective_default;
        do_collective_stats_report = false;
        do_pt2pt_stats_report = false;
        trace_all_ranks = false;
        base = b.base;
        nfunc = b.nfunc;
      };
      output_dir = [];
      debug = false;
      enabled_count = 1;
      report_print_threshold = pos 0;
      base_names = false;
      float_format = false;
      report_style = if b.concise_default then concise else verbose;
      print_callsite_detail = not b.concise_default;
      disable_finalize_report = false;
      app_full_name = full_name;
      app_name = name;
      trace_file = none;
    }

-- case 's'
unfoldable pub set_table_size : ℤ → Globals → Globals
set_table_size size g = if ltb_ℤ size (pos 2) then g else record g { table_size = size }

-- the depth within 0 and the maximum
abbrev pub depth_of : Build → ℤ → ℕ
depth_of b (negsuc i) = 0
depth_of b (pos i) = if ltb b.report_depth_max i then b.report_depth_max else i

-- case 'k'
unfoldable pub set_stack_depth : Build → ℤ → Settings → Settings
set_stack_depth b depth s =
    let used = depth_of b depth in
    record s {
      globals = record s.globals {
        report_stack_depth = used;
        full_stack_depth = used + b.internal_depth;
        calc_cov = if used == 0 then false else s.globals.calc_cov;
      };
      print_callsite_detail = if ltb_ℤ depth (pos 0) then false else s.print_callsite_detail;
    }

-- the conversion of a double to an int, and back
abbrev pub whole : ℤ → ℤ
whole (pos i) = pos (i / 1000 * 1000)
whole (negsuc i) = if ltb i 999 then pos 0 else negsuc ((i + 1) / 1000 * 1000 - 1)

-- case 't'
unfoldable pub set_threshold : ℤ → Settings → Settings
set_threshold value s =
    let default = whole s.report_print_threshold in
    let first = if ltb_ℤ value (pos 0) then default else value in
    record s { report_print_threshold = if ltb_ℤ first (pos 100000) then first else default }

-- case 'a': after opening the file its header is written
unfoldable pub open_trace : Calls → Text → Settings → Run Settings
open_trace calls name s =
    let file : Text × Option ℕ =
      (name, if s.globals.trace_all_ranks then some s.globals.rank else none) in
    if calls.opens file
    then ok (record s { trace_file = some file })
    else abort "Unable to open trace file"

-- one round of the loop
unfoldable pub set_option : Build → Calls → Flag × Text → Settings → Run Settings
unfolding set_table_size set_stack_depth set_threshold open_trace get_base_app_name
set_option b calls (Flag.trace_all, arg) s =
    ok (record s { globals = record s.globals { trace_all_ranks = true } })
set_option b calls (Flag.f, arg) s = ok (record s { output_dir = arg })
set_option b calls (Flag.g, arg) s = ok (record s { debug = true })
set_option b calls (Flag.s, arg) s = ok (record s { globals = set_table_size (atoi arg) s.globals })
set_option b calls (Flag.k, arg) s = ok (set_stack_depth b (atoi arg) s)
set_option b calls (Flag.t, arg) s = ok (set_threshold (calls.atof arg) s)
set_option b calls (Flag.o, arg) s =
    ok (record s { globals = record s.globals { enabled = false }; enabled_count = 0 })
set_option b calls (Flag.n, arg) s = ok (record s { base_names = true })
set_option b calls (Flag.e, arg) s = ok (record s { float_format = true })
set_option b calls (Flag.c, arg) s = ok (record s { report_style = concise })
set_option b calls (Flag.v, arg) s = ok (record s { report_style = both })
set_option b calls (Flag.m, arg) s =
    ok (record s { globals = record s.globals { message_count_threshold = atoi arg } })
set_option b calls (Flag.x, arg) s =
    ok (record s { app_full_name = arg; app_name = get_base_app_name arg })
set_option b calls (Flag.d, arg) s =
    ok (record s { print_callsite_detail = not s.print_callsite_detail })
set_option b calls (Flag.l, arg) s =
    ok (record s { globals = record s.globals { collective_report = true } })
set_option b calls (Flag.r, arg) s =
    ok (record s { globals = record s.globals { collective_report = false } })
set_option b calls (Flag.z, arg) s = ok (record s { disable_finalize_report = true })
set_option b calls (Flag.y, arg) s =
    ok (record s { globals = record s.globals { do_collective_stats_report = true } })
set_option b calls (Flag.p, arg) s =
    ok (record s { globals = record s.globals { do_pt2pt_stats_report = true } })
set_option b calls (Flag.a, arg) s = open_trace calls arg s
set_option b calls (Flag.other, arg) s = ok s

-- the loop over the options
unfoldable pub set_options : Build → Calls → List (Flag × Text) → Settings → Run Settings
unfolding set_option
set_options b calls [] s = ok s
set_options b calls (option ∷ options) s =
    set_option b calls option s >>= (λ s'. set_options b calls options s')

-- what mpiPi_getenv sets before it reads MPIP
unfoldable pub start_of : Settings → Settings
start_of s = record s {
  globals = record s.globals { trace_all_ranks = false };
  output_dir = 46 ∷ [];
  trace_file = none;
}

-- mpiPi_getenv; `none` if MPIP is not set. From 63 words on the array `av` is left by the NULL
-- behind them
unfoldable pub getenv : Build → Calls → Option Text → Settings → Run Settings
unfolding set_options start_of
getenv b calls none s = ok (start_of s)
getenv b calls (some text) s =
    let words = tokens [] text in
    if ltb (length words) 63
    then set_options b calls (getopt none words) (start_of s)
    else abort "av[64]"
