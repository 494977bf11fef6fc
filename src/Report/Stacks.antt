-- ===== src/Report/Stacks.antt =====
-- The list of call sites of a report: mpiPi_print_callsites of report.c. The number `hash_id` and
-- the widths of the columns are left out.
use a_mpi_p.Prelude.{
  ℕ, zero, suc, Bool, ◌&&◌, ◌||◌, Option, none, some, List, [], ◌∷◌, ◌++◌, ◌==◌, if◌then◌else◌, Run,
  ok, abort, ◌>>=◌, ℤ, is_zero,
}
use a_mpi_p.Callsites.{Text}
use a_mpi_p.Globals.{Globals}
use a_mpi_p.Hash.{h_gather_data}
use a_mpi_p.Sources.{strcmp, unknown}
use a_mpi_p.Sources.Stacks.{SrcIdEntry}
use a_mpi_p.Sources.Lookup.{Sources}
use a_mpi_p.Report.{ascending}

-- one index of the four arrays of an entry; `none` is NULL
pub record StackFrame : Type 0 where
  pub file : Option Text
  pub function : Text
  pub line : ℕ
  pub pc : ℕ

-- an address, or a file with a line
pub data Place : Type 0 where
  address : ℕ → Place
  source : Text → ℕ → Place

-- a line of the list, with the operation at the first frame of a call site
pub record FrameLine : Type 0 where
  pub id : ℕ
  pub tmpid : ℕ
  pub level : ℕ
  pub place : Place
  pub function : Text
  pub display_op : Option ℕ

-- callsite_src_id_cache_sort_by_id
unfoldable pub sort_by_id : SrcIdEntry → SrcIdEntry → ℤ
unfolding ascending
sort_by_id = ascending (λ e. e.id)

abbrev pub is_text : Text → Text → Bool
is_text a b = is_zero (strcmp a b)

-- "mpiP-wrappers.c"
abbrev pub wrappers : Text
wrappers = 109 ∷ 112 ∷ 105 ∷ 80 ∷ 45 ∷ 119 ∷ 114 ∷ 97 ∷ 112 ∷ 112 ∷ 101 ∷ 114 ∷ 115 ∷ 46 ∷ 99 ∷ []

-- "main", ".main" or "MAIN__"
abbrev pub is_main : Text → Bool
is_main name =
    is_text name (109 ∷ 97 ∷ 105 ∷ 110 ∷ [])
    || is_text name (46 ∷ 109 ∷ 97 ∷ 105 ∷ 110 ∷ [])
    || is_text name (77 ∷ 65 ∷ 73 ∷ 78 ∷ 95 ∷ 95 ∷ [])

-- the address is printed if the line and a name are not known
abbrev pub place_of : Text → StackFrame → Place
place_of file f =
    if f.line == 0 && (is_text file unknown || is_text f.function unknown)
    then address f.pc
    else source file f.line

abbrev pub shown :
    SrcIdEntry → (level : ℕ) → (display_op : Option ℕ) → Text → StackFrame → FrameLine
shown e level op file f = record {
  id = e.id;
  tmpid = e.tmpid;
  level = level;
  place = place_of file f;
  function = f.function;
  display_op = op;
}

-- a round of the loop: what is printed if the frame is `passed` over, and what is printed `above` it
unfoldable pub frame_round :
    SrcIdEntry
    → (level : ℕ) → (display_op : Option ℕ) → StackFrame
    → (file : Option Text) → (passed above : Run (List FrameLine)) → Run (List FrameLine)
frame_round e level op f none passed above = ok []
frame_round e level op f (some file) passed above =
    if is_text file wrappers
    then passed
    else if is_main f.function
    then ok (shown e level op file f ∷ [])
    else (above >>= (λ ls. ok (shown e level op file f ∷ ls)))

-- the loop over the frames, of which `n` may still be printed
unfoldable pub frame_lines :
    SrcIdEntry
    → (n : ℕ) → (level : ℕ) → (display_op : Option ℕ) → List StackFrame
    → Run (List FrameLine)
unfolding frame_round
frame_lines e zero level op fs = ok []
frame_lines e (suc n) level op [] = abort "filename[j]"
frame_lines e (suc n) level op (f ∷ fs) =
    frame_round e level op f f.file (frame_lines e (suc n) level op fs)
      (frame_lines e n (suc level) none fs)

-- the four arrays of an entry, in which the names of a frame are NULL together
unfoldable pub frames_of :
    List (Option Text) → List (Option Text) → List ℕ → List ℕ → List StackFrame
frames_of [] functions lines pcs = []
frames_of (file ∷ files) [] lines pcs = []
frames_of (file ∷ files) (function ∷ functions) [] pcs = []
frames_of (file ∷ files) (function ∷ functions) (line ∷ lines) [] = []
frames_of (file ∷ files) (function ∷ functions) (line ∷ lines) (pc ∷ pcs) =
    record { file = file; function = text function; line = line; pc = pc }
    ∷ frames_of files functions lines pcs
  where
    text : Option Text → Text
    text none = []
    text (some t) = t

-- the lines of all entries
unfoldable pub each_entry : Globals → List SrcIdEntry → Run (List FrameLine)
unfolding frame_lines frames_of
each_entry g [] = ok []
each_entry g (e ∷ av) = do
  lines ←
      frame_lines e g.report_stack_depth 0 (some e.op)
        (frames_of e.filename e.functname e.line e.pc)
  after ← each_entry g av
  ok (lines ++ after)

-- mpiPi_print_callsites: the number in the heading, and the lines
unfoldable pub print_callsites :
    Globals
    → (sort : (SrcIdEntry → SrcIdEntry → ℤ) → List SrcIdEntry → List SrcIdEntry) → Sources
    → Run (Option (ℕ × List FrameLine))
unfolding sort_by_id each_entry
print_callsites g sort s = if g.report_stack_depth == 0 then ok none else (do
  (number, av) ← h_gather_data (some s.src_id_cache)
  lines ← each_entry g (sort sort_by_id av)
  ok (some (number, lines)))
