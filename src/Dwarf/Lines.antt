-- ===== src/Dwarf/Lines.antt =====
-- The loop over the line entries of a compilation unit in pc_lookup_dwarf.c: which statements it
-- adds to the map. All ranges of the map are points until they are patched.
use mathlib.Core.List.{Permᴰ, append_assoc}
use mathlib.Core.List.Permᴰ
use a_mpi_p.Prelude.{
  ℕ, ◌≤◌, Bool, true, false, not, Option, none, some, List, [], ◌∷◌, ◌++◌, ◌==◌, if◌then◌else◌, ◌≡◌,
  refl, ap, ◌∙◌, sym, subst, All, All-append, All-split, All-at, is_some, arith, inl, inr, ok,
  Returns, Bool-cases, Option-cases,
}
use a_mpi_p.Callsites.{Text}
use a_mpi_p.AddrRanges.{AddrRange, RangeTree}
use a_mpi_p.AddrRanges.Contents.{contents}
use a_mpi_p.AddrRanges.Insert.{IsValid, Overlaps, add_range-Inserted}
use a_mpi_p.Dwarf.{
  SourceInfo, DwarfState, LineEntry, source_add, save_current_entry, save_line, save_lines,
  not_null, unique_file_name_get,
}
use a_mpi_p.Dwarf.Names.{IsDistinct, unique_file_name_get-Pooled}

abbrev pub IsPoint {ℓ} : {A : Type ℓ} → AddrRange A → Type 0
IsPoint r = r.low_addr ≡ r.high_addr

-- a map that is being filled
abbrev pub IsFilling : RangeTree SourceInfo → Type 0
IsFilling t = IsValid t × All IsPoint (contents t)

abbrev pub statement : ℕ → Text → ℕ → AddrRange SourceInfo
statement addr file line = record {
  low_addr = addr;
  high_addr = addr;
  info = record { file_name = file; line_number = line };
}

-- the state holds a map with these statements, and the rest of it is as before
abbrev pub Fills : DwarfState → List (AddrRange SourceInfo) → DwarfState → Type 0
Fills s xs s' =
    (t : RangeTree SourceInfo) × (s'.source_map ≡ some t)
    × IsFilling t
    × Permᴰ (contents t) xs
    × IsDistinct s'.file_names
    × (s'.function_map ≡ s.function_map)
    × (s'.dw_fd ≡ s.dw_fd)
    × (s'.dw_handle ≡ s.dw_handle)

le_refl : (a : ℕ) → a ≤ a
le_refl a = omega arith

-- a point overlaps no point
no_overlap : (r s : AddrRange SourceInfo) → IsPoint r → IsPoint s → ¬ Overlaps r s
no_overlap r s p q h = omega arith

-- a statement can always be added
source_add-Fills :
    (addr : ℕ) (file : Text) (line : ℕ) (s : DwarfState) (t : RangeTree SourceInfo)
    → s.source_map ≡ some t
    → IsFilling t
    → IsDistinct s.file_names
    → Returns (source_add addr file line s) (Fills s (statement addr file line ∷ contents t))
unfolding source_add not_null
source_add-Fills addr file line s t e f d =
    let pool = unique_file_name_get file s.file_names in
    let (same, k, distinct) = unique_file_name_get-Pooled file s.file_names d in
    let r = statement addr (pool.0) line in
    elim (add_range-Inserted addr addr (r.info) t (f.0) (le_refl addr)) [
      | inl (m, run, q, k, ov) ↦
          absurd (no_overlap r q refl (All-at IsPoint (contents t) (f.1) k) ov)
      | inr (u, run, (valid, (xs, ys, old, new, below, above))) ↦
          let (p, q) = All-split IsPoint xs ys (subst (All IsPoint) old (f.1)) in
          (
            record s { file_names = pool.1; source_map = some u },
            (rw e (rw run refl)),
            (
              u,
              refl,
              (valid, subst (All IsPoint) (sym new) (All-append IsPoint xs (r ∷ ys) p (refl, q))),
              subst (λ z. Permᴰ z (statement addr file line ∷ contents t)) (sym new)
                  (Permᴰ.trans (Permᴰ.middle r xs ys) (
                    Permᴰ.cons (ap (λ n. statement addr n line) same)
                      (subst (λ z. Permᴰ (xs ++ ys) z) (sym old) (Permᴰ.refl (xs ++ ys))))),
              distinct,
              refl,
              refl,
              refl,
            ),
          )
    ]

-- whether the next entry has the same address
abbrev pub superseded : ℕ → List LineEntry → Bool
superseded addr [] = false
superseded addr (next ∷ rest) = elim (next.line_addr) [ some a ↦ a == addr | none ↦ false ]

abbrev pub statement_of :
    Option ℕ → Option ℕ → Option Text → List LineEntry → List (AddrRange SourceInfo)
statement_of (some line) (some addr) (some file) rest =
    if superseded addr rest then [] else statement addr file line ∷ []
statement_of none addr file rest = []
statement_of (some line) none file rest = []
statement_of (some line) (some addr) none rest = []

-- the statements that a line table describes: the last entry of a run with one address counts,
-- and only entries that are complete
abbrev pub statements : List LineEntry → List (AddrRange SourceInfo)
statements [] = []
statements (e ∷ rest) = statement_of e.line_no e.line_addr e.line_src rest ++ statements rest

-- the address of every entry is known
abbrev pub IsLocated : LineEntry → Type 0
IsLocated e = is_some e.line_addr ≡ true

Fills-same :
    (s : DwarfState) (t : RangeTree SourceInfo)
    → s.source_map ≡ some t
    → IsFilling t
    → IsDistinct s.file_names
    → Fills s (contents t) s
Fills-same s t e f d = (t, e, f, Permᴰ.refl (contents t), d, refl, refl, refl)

save_current_entry-superseded :
    (addr : ℕ) (rest : List LineEntry)
    → All IsLocated rest
    → save_current_entry addr rest ≡ ok (not (superseded addr rest))
unfolding save_current_entry not_null
save_current_entry-superseded addr [] h = refl
save_current_entry-superseded addr (next ∷ rest) h = elim (Option-cases (next.line_addr)) [
  | inl e ↦ (let k = ap is_some e in let q = h.0 in absurd (cc))
  | inr (a, e) ↦ rw e refl
]

save_line-Fills :
    (e : LineEntry) (rest : List LineEntry) (s : DwarfState) (t : RangeTree SourceInfo)
    → All IsLocated rest
    → s.source_map ≡ some t
    → IsFilling t
    → IsDistinct s.file_names
    → Returns
        (save_line e rest s)
        (Fills s (statement_of e.line_no e.line_addr e.line_src rest ++ contents t))
unfolding save_line
save_line-Fills e rest s t h m f d = elim (Option-cases (e.line_no)) [
  | inl e1 ↦ rw e1 (s, refl, Fills-same s t m f d)
  | inr (line, e1) ↦ elim (Option-cases (e.line_addr)) [
    | inl e2 ↦ rw (e1, e2) (s, refl, Fills-same s t m f d)
    | inr (addr, e2) ↦ elim (Option-cases (e.line_src)) [
      | inl e3 ↦ rw (e1, e2, e3) (s, refl, Fills-same s t m f d)
      | inr (file, e3) ↦ elim (Bool-cases (superseded addr rest)) [
        | inl b ↦
            rw (e1, e2, e3, save_current_entry-superseded addr rest h, b)
              (s, refl, Fills-same s t m f d)
        | inr b ↦
            rw (e1, e2, e3, save_current_entry-superseded addr rest h, b)
              (source_add-Fills addr file line s t m f d)
      ]
    ]
  ]
]

swap_front {ℓ} : {A : Type ℓ} (xs ys zs : List A) → Permᴰ (ys ++ (xs ++ zs)) ((xs ++ ys) ++ zs)
swap_front xs ys zs =
    subst (λ l. Permᴰ l ((xs ++ ys) ++ zs)) (append_assoc ys xs zs)
      (Permᴰ.append_right zs (Permᴰ.append_comm ys xs))

-- the loop over a line table returns, and adds to the map just the statements that the table
-- describes
pub save_lines-Fills :
    (es : List LineEntry) (s : DwarfState) (t : RangeTree SourceInfo)
    → All IsLocated es
    → s.source_map ≡ some t
    → IsFilling t
    → IsDistinct s.file_names
    → Returns (save_lines es s) (Fills s (statements es ++ contents t))
unfolding save_lines
save_lines-Fills [] s t h m f d = (s, refl, Fills-same s t m f d)
save_lines-Fills (e ∷ rest) s t h m f d =
    let (s1, run1, (t1, m1, f1, p1, d1, u1, v1, w1)) = save_line-Fills e rest s t (h.1) m f d in
    let (s2, run2, (t2, m2, f2, p2, d2, u2, v2, w2)) = save_lines-Fills rest s1 t1 (h.1) m1 f1 d1 in
    let st = statement_of e.line_no e.line_addr e.line_src rest in
    (
      s2,
      (rw run1 run2),
      (
        t2,
        m2,
        f2,
        Permᴰ.trans p2 (
            Permᴰ.trans (Permᴰ.append_left (statements rest) p1)
              (swap_front st (statements rest) (contents t))),
        d2,
        u2 ∙ u1,
        v2 ∙ v1,
        w2 ∙ w1,
      ),
    )
