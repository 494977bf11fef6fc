-- ===== src/Report/Frames.antt =====
-- The loop over the frames of a call site in mpiPi_print_callsites of report.c, against a list of
-- the frames that it is meant to show.
use a_mpi_p.Prelude.{
  ℕ, zero, suc, Bool, true, false, not, ◌||◌, Option, none, some, List, [], ◌∷◌, ◌≡◌, refl, is_some,
  if◌then◌else◌, Run, ok, Bool-cases, inl, inr,
}
use a_mpi_p.Callsites.{Text}
use a_mpi_p.Sources.Stacks.{SrcIdEntry}
use a_mpi_p.Report.Stacks.{
  StackFrame, FrameLine, is_text, wrappers, is_main, shown, frame_round, frame_lines,
}

-- the frames before the first NULL, with their files
abbrev pub cut : StackFrame → Option Text → List (Text × StackFrame) → List (Text × StackFrame)
cut f none rest = []
cut f (some file) rest = (file, f) ∷ rest

abbrev pub before_null : List StackFrame → List (Text × StackFrame)
before_null [] = []
before_null (f ∷ fs) = cut f f.file (before_null fs)

-- the frames that are not in the wrappers
abbrev pub without_wrappers : List (Text × StackFrame) → List (Text × StackFrame)
without_wrappers [] = []
without_wrappers ((file, f) ∷ fs) =
    if is_text file wrappers then without_wrappers fs else (file, f) ∷ without_wrappers fs

-- the frames up to the main program
abbrev pub up_to_main : List (Text × StackFrame) → List (Text × StackFrame)
up_to_main [] = []
up_to_main ((file, f) ∷ fs) = (file, f) ∷ (if is_main f.function then [] else up_to_main fs)

abbrev pub first {ℓ} : {A : Type ℓ} → ℕ → List A → List A
first zero xs = []
first (suc n) [] = []
first (suc n) (x ∷ xs) = x ∷ first n xs

-- their lines, which count up from a level
abbrev pub lines_for :
    SrcIdEntry → (level : ℕ) → Option ℕ → List (Text × StackFrame) → List FrameLine
lines_for e level op [] = []
lines_for e level op ((file, f) ∷ fs) = shown e level op file f ∷ lines_for e (suc level) none fs

-- there is a NULL in the array
abbrev pub has_null : List StackFrame → Bool
has_null [] = false
has_null (f ∷ fs) = not (is_some f.file) || has_null fs

abbrev pub lines_shown :
    SrcIdEntry → (n level : ℕ) → Option ℕ → List (Text × StackFrame) → List FrameLine
lines_shown e n level op fs = lines_for e level op (first n (up_to_main (without_wrappers fs)))

first-nil {ℓ} : {A : Type ℓ} (n : ℕ) → first {A = A} n [] ≡ []
first-nil zero = refl
first-nil (suc n) = refl

frame_round-shown :
    (e : SrcIdEntry) (n level : ℕ) (op : Option ℕ) (f : StackFrame) (file : Option Text)
    (fs : List (Text × StackFrame)) (passed above : Run (List FrameLine))
    → (is_some file ≡ true → passed ≡ ok (lines_shown e (suc n) level op fs))
    → (is_some file ≡ true → above ≡ ok (lines_shown e n (suc level) none fs))
    → frame_round e level op f file passed above
      ≡ ok (lines_shown e (suc n) level op (cut f file fs))
unfolding frame_round
frame_round-shown e n level op f none fs passed above h k = refl
frame_round-shown e n level op f (some file) fs passed above h k =
    elim (Bool-cases (is_text file wrappers)) [
      | inl wrapped ↦ rw wrapped (h refl)
      | inr own ↦ elim (Bool-cases (is_main f.function)) [
        | inl last ↦ rw own (rw last (rw (first-nil {A = Text × StackFrame} n) refl))
        | inr inner ↦ rw own (rw inner (rw (k refl) refl))
      ]
    ]

behind : (b c : Bool) → (not b || c) ≡ true → b ≡ true → c ≡ true
behind true c h e = h
behind false c h e = absurd cc

-- If the array of files of a call site has a NULL, the loop of mpiPi_print_callsites returns, and
-- prints in order the first n frames of the stack, without those of the wrappers and up to the
-- main program, with levels that count up from the first, and the operation only at the first.
pub frame_lines-shown :
    (e : SrcIdEntry) (n level : ℕ) (op : Option ℕ) (fs : List StackFrame)
    → has_null fs ≡ true
    → frame_lines e n level op fs ≡ ok (lines_shown e n level op (before_null fs))
unfolding frame_lines
frame_lines-shown e zero level op fs h = refl
frame_lines-shown e (suc n) level op [] h = absurd cc
frame_lines-shown e (suc n) level op (f ∷ fs) h =
    frame_round-shown e n level op f f.file (before_null fs) _ _
      (λ k. frame_lines-shown e (suc n) level op fs (behind (is_some f.file) (has_null fs) h k))
      (λ k. frame_lines-shown e n (suc level) none fs (behind (is_some f.file) (has_null fs) h k))
