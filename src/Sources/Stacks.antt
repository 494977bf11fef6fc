-- ===== src/Sources/Stacks.antt =====
-- The entries of the cache from call stacks to call-site ids in mpiP-callsites.c, with their
-- comparator and hash key.
use a_mpi_p.Prelude.{
  ℕ, zero, suc, ◌+◌, ◌-◌, ◌^◌, bit_xor, Option, none, some, List, [], ◌∷◌, ◌==◌, ltb, if◌then◌else◌,
  ℤ, pos, is_zero, get_or,
}
use a_mpi_p.Hash.{HashFns}
use a_mpi_p.Globals.{Globals}
use a_mpi_p.Callsites.{Text}
use a_mpi_p.Callsites.Keys.{express}
use a_mpi_p.Sources.{strcmp}

-- `callsite_src_id_cache_entry_t`
pub record SrcIdEntry : Type 0 where
  pub id : ℕ
  pub op : ℕ
  pub tmpid : ℕ
  pub filename : List (Option Text)
  pub functname : List (Option Text)
  pub line : List ℕ
  pub pc : List ℕ

-- go on behind a comparison that is 0
abbrev then_by : ℤ → ℤ → ℤ
then_by z rest = if is_zero z then rest else z

text_of : Option Text → Text
text_of none = []
text_of (some t) = t

-- one round of the comparator's loop, with the outcome of the later rounds
compare_frame : (i : ℕ) → SrcIdEntry → SrcIdEntry → (rest : ℤ) → ℤ
unfolding strcmp text_of
compare_frame i a b rest =
    let by_pc = express (get_or a.pc i 0) (get_or b.pc i 0) rest in
    elim (get_or a.filename i none) [
      | none ↦ by_pc
      | some f ↦ elim (get_or b.filename i none) [
        | none ↦ by_pc
        | some f' ↦ then_by (strcmp f f') (
            express (get_or a.line i 0) (get_or b.line i 0) (
              then_by
                (strcmp (text_of (get_or a.functname i none)) (text_of (get_or b.functname i none)))
                by_pc))
      ]
    ]

compare_frames : (rounds i : ℕ) → SrcIdEntry → SrcIdEntry → ℤ
unfolding compare_frame
compare_frames zero i a b = pos 0
compare_frames (suc n) i a b = compare_frame i a b (compare_frames n (i + 1) a b)

unfoldable pub src_id_cache_comparator : Globals → SrcIdEntry → SrcIdEntry → ℤ
unfolding compare_frames
src_id_cache_comparator g a b =
    if g.report_stack_depth == 0
    then express a.id b.id (pos 0)
    else compare_frames g.full_stack_depth 0 a b

-- res ^= (unsigned) c for each `char`, which is signed
xor_text : Text → ℕ → ℕ
xor_text [] res = res
xor_text (c ∷ cs) res = xor_text cs (bit_xor res (if ltb c 128 then c else c + 2 ^ 32 - 256))

hash_frames : (rounds i : ℕ) → SrcIdEntry → ℕ → ℕ
unfolding xor_text text_of
hash_frames zero i e res = res
hash_frames (suc n) i e res = hash_frames n (i + 1) e (
    bit_xor
      (elim (get_or e.filename i none) [
        | none ↦ res
        | some f ↦ xor_text (text_of (get_or e.functname i none)) (xor_text f res)
      ])
      (get_or e.line i 0))

unfoldable pub src_id_cache_hashkey : Globals → SrcIdEntry → ℕ
unfolding hash_frames
src_id_cache_hashkey g e = bit_xor 662917 (hash_frames g.full_stack_depth 0 e 0)

abbrev pub src_id_cache_fns : Globals → HashFns SrcIdEntry
src_id_cache_fns g = record { hf = src_id_cache_hashkey g; hc = src_id_cache_comparator g }
