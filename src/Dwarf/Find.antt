-- ===== src/Dwarf/Find.antt =====
-- mpiP_find_src_loc of pc_lookup_dwarf.c behind open_dwarf_executable.
use mathlib.Core.List.{Permᴰ, append-nil}
use mathlib.Core.List.Permᴰ
use mathlib.Core.List.Memᴰ.{Memᴰ, head, tail}
use a_mpi_p.Prelude.{
  ℕ, ◌≤◌, ◌<◌, not, Option, none, some, List, [], ◌∷◌, ◌≡◌, refl, ap, ◌∙◌, sym, subst, All, Returns,
  ◌>>=◌, is_some, to_nat, arith,
}
use a_mpi_p.Callsites.{Text}
use a_mpi_p.AddrRanges.{AddrRange, RangeTree, find_range}
use a_mpi_p.AddrRanges.Contents.{contents}
use a_mpi_p.AddrRanges.Insert.{IsOrdered, Below}
use a_mpi_p.AddrRanges.Lookup.{Rise, IsAnswer, find_range-Answer}
use a_mpi_p.Dwarf.{
  SourceInfo, DwarfState, DwarfFile, max_address, patch_ranges, shown_name, SrcFound, src_found,
  find_src_loc, open_dwarf_executable, not_null,
}
use a_mpi_p.Dwarf.Patch.{Steps}
use a_mpi_p.Dwarf.Nearest.{IsNearest, find_range-Nearest}
use a_mpi_p.Dwarf.Lines.{IsPoint}
use a_mpi_p.Dwarf.Functions.{push, push-perm, All-perm}
use a_mpi_p.Dwarf.Units.{file_statements, file_functions}
use a_mpi_p.Dwarf.Session.{IsLoaded, IsClosed, IsSound, open_dwarf_executable-Loaded}

-- ranges in order have rising ends
ordered-Rise {ℓ} : {A : Type ℓ} (xs : List (AddrRange A)) → IsOrdered xs → Rise xs
ordered-Rise [] h = tt
ordered-Rise {A = A} (r ∷ xs) (w, a, h) = (above xs a h, ordered-Rise xs h)
  where
    above :
        (ys : List (AddrRange A))
        → All (Below r) ys
        → IsOrdered ys
        → All (λ s. (r.low_addr ≤ s.low_addr) × (r.high_addr ≤ s.high_addr)) ys
    above [] b o = tt
    above (y ∷ ys) (b, bs) (v, c, o) = ((omega arith, omega arith), above ys bs o)

-- a statement is neither at address 0 nor behind the end of the address space
abbrev pub InSpace {ℓ} : {A : Type ℓ} → AddrRange A → Type 0
InSpace r = (0 < r.low_addr) × (r.low_addr ≤ max_address)

points-Steps {ℓ} :
    {A : Type ℓ} (xs : List (AddrRange A))
    → IsOrdered xs
    → All IsPoint xs
    → All InSpace xs
    → Steps xs max_address
points-Steps [] o p s = (omega arith, omega arith)
points-Steps (r ∷ []) o p s = (s.0.1, s.0.0, s.0.1, (omega arith, omega arith))
points-Steps (r ∷ q ∷ xs) (w, a, o) (p, ps) (s, ss) =
    let b = a.0 in (omega arith, s.0, s.1, points-Steps (q ∷ xs) o ps ss)

Memᴰ-perm {ℓ} : {A : Type ℓ} {a : A} {xs ys : List A} → Permᴰ xs ys → Memᴰ a xs → Memᴰ a ys
Memᴰ-perm Permᴰ.nil m = m
Memᴰ-perm (Permᴰ.cons e p) (head q) = head (q ∙ e)
Memᴰ-perm (Permᴰ.cons e p) (tail m) = tail (Memᴰ-perm p m)
Memᴰ-perm (Permᴰ.swap e k) (head q) = tail (head (q ∙ e))
Memᴰ-perm (Permᴰ.swap e k) (tail (head q)) = head (q ∙ k)
Memᴰ-perm (Permᴰ.swap e k) (tail (tail m)) = tail (tail m)
Memᴰ-perm (Permᴰ.trans p q) m = Memᴰ-perm q (Memᴰ-perm p m)

Nearest-perm {ℓ} :
    {A : Type ℓ} (addr : ℕ) {xs ys : List (AddrRange A)} (o : Option A)
    → Permᴰ xs ys
    → IsNearest addr xs o
    → IsNearest addr ys o
Nearest-perm addr none p h = λ r m. h r (Memᴰ-perm (Permᴰ.symm p) m)
Nearest-perm addr (some i) p (r, m, low, same, near) =
    (r, Memᴰ-perm p m, low, same, λ s k. near s (Memᴰ-perm (Permᴰ.symm p) k))

Answer-perm {ℓ} :
    {A : Type ℓ} (addr : ℕ) {xs ys : List (AddrRange A)} (o : Option A)
    → Permᴰ xs ys
    → IsAnswer addr xs o
    → IsAnswer addr ys o
Answer-perm addr none p h = λ r m. h r (Memᴰ-perm (Permᴰ.symm p) m)
Answer-perm addr (some i) p (r, m, covers, same) = (r, Memᴰ-perm p m, covers, same)

-- how a source line is shown: an unknown file is "??"
abbrev pub IsShown : (base_names : ℕ) → Option SourceInfo → SrcFound → Type 0
IsShown base_names (some i) r =
    (r.file ≡ shown_name base_names i.file_name) × (r.lineno ≡ i.line_number) × (r.code ≡ 0)
IsShown base_names none r =
    (r.file ≡ 63 ∷ 63 ∷ []) × (r.lineno ≡ 0) × (r.code ≡ to_nat (not (is_some r.funct)))

-- the line of the last statement at or below the address, and a function that covers it
abbrev pub Locates : DwarfFile → (base_names addr : ℕ) → SrcFound → Type 0
Locates f base_names addr r =
    (o : Option SourceInfo) × IsNearest addr (file_statements f.units) o
    × IsShown base_names o r
    × IsAnswer addr (file_functions f.units) (r.funct)

src_found-Shown :
    (base_names : ℕ) (o : Option SourceInfo) (p : Option Text)
    → IsShown base_names o (src_found base_names o p)
unfolding src_found
src_found-Shown base_names (some i) p = (refl, refl, refl)
src_found-Shown base_names none none = (refl, refl, refl)
src_found-Shown base_names none (some name) = (refl, refl, refl)

src_found-funct :
    (base_names : ℕ) (o : Option SourceInfo) (p : Option Text)
    → (src_found base_names o p).funct ≡ p
unfolding src_found
src_found-funct base_names (some i) p = refl
src_found-funct base_names none p = refl

find_range-run :
    (base_names addr : ℕ) (s : DwarfState) (t : RangeTree SourceInfo) (u : RangeTree Text)
    → s.source_map ≡ some t
    → s.function_map ≡ some u
    → Returns
        (find_src_loc base_names s addr)
        (λ r. IsShown base_names (find_range addr t) r × (r.funct ≡ find_range addr u))
unfolding find_src_loc not_null
find_range-run base_names addr s t u m n = (
  src_found base_names (find_range addr t) (find_range addr u),
  (rw m (rw n refl)),
  (
    src_found-Shown base_names (find_range addr t) (find_range addr u),
    src_found-funct base_names (find_range addr t) (find_range addr u),
  ),
)

pub find_src_loc-Locates :
    (f : DwarfFile) (s : DwarfState) (base_names addr : ℕ)
    → IsLoaded f s
    → All InSpace (file_statements f.units)
    → addr < max_address
    → Returns (find_src_loc base_names s addr) (Locates f base_names addr)
find_src_loc-Locates f s base_names addr (filled, k, e) space h =
    let (r, run, (shown, funct)) =
      find_range-run base_names addr s (patch_ranges (k.sources)) (k.function_tree)
        (ap (λ z. z.source_map) e) (ap (λ z. z.function_map) e ∙ k.is_functions) in
    let steps =
      points-Steps (contents (k.sources)) (k.filling.0.1) (k.filling.1)
        (All-perm InSpace (k.all_statements) space) in
    let answer =
      find_range-Answer addr (k.function_tree)
        (ordered-Rise (contents (k.function_tree)) (k.valid.1)) in
    let all = Permᴰ.trans (k.all_functions) (
      subst (Permᴰ (push (file_functions f.units) [])) (append-nil (file_functions f.units))
        (push-perm (file_functions f.units) [])) in
    (
      r,
      run,
      (
        find_range addr (patch_ranges (k.sources)),
        Nearest-perm addr _ (k.all_statements) (find_range-Nearest addr (k.sources) steps h),
        shown,
        subst (IsAnswer addr (file_functions f.units)) (sym funct) (Answer-perm addr _ all answer),
      ),
    )

-- Let no executable be open, let libdwarf read the whole file without a failure, and let no
-- function overlap another, no statement stand at address 0 and no address be behind the address
-- space. Then opening the file and looking up an address below the last one returns. The file and
-- the line are those of a statement of the file that begins at or below the address with no other
-- statement nearer, or "??" and 0 if all begin above it; the function is one whose range, with
-- both its ends, has the address, or none if there is no such function; and the code is 1 only if
-- neither is found.
pub open-find_src_loc-Locates :
    (f : DwarfFile) (s : DwarfState) (base_names addr : ℕ)
    → IsClosed s
    → IsSound f
    → All InSpace (file_statements f.units)
    → addr < max_address
    → Returns
        (open_dwarf_executable f s >>= (λ r. find_src_loc base_names (r.1) addr))
        (Locates f base_names addr)
open-find_src_loc-Locates f s base_names addr c h space k =
    let (r, run, (code, loaded)) = open_dwarf_executable-Loaded f s c h in
    let (found, run', located) = find_src_loc-Locates f (r.1) base_names addr loaded space k in
    (found, (rw run run'), located)
