-- ===== src/Regions/Nesting.antt =====
-- Entering and leaving regions of mpiP-API.c: the path of names as a stack.
use mathlib.Core.Option
use mathlib.Core.List.{append_assoc, append-nil}
use a_mpi_p.Prelude.{
  ℕ, suc, ◌-◌, ◌≤◌, ◌<◌, false, none, some, List, [], ◌∷◌, ◌++◌, ltb, lt→ltb, leb, length,
  length-append, length-set, All-split, set, ◌≡◌, refl, ap, ◌∙◌, sym, arith, Bool-cases, inl, inr,
  Run, ok, ◌>>=◌, Returns,
}
use a_mpi_p.Callsites.{Text}
use a_mpi_p.Regions.{
  region_name_max, c_string, strncpy, strncpy_at, has_dot, current, append_region, region_enter,
  leave_region, region_exit,
}
use a_mpi_p.Regions.Buffer.{
  IsText, c_string-append, c_string-split, strncpy_at-append, strncpy_at-behind, length-strncpy,
  length-strncpy_at, c_string-strncpy, c_string-filled, set-append, before_last_dot-path,
  before_last_dot-plain,
}

lt→not_leb : (a b : ℕ) → a < b → leb b a ≡ false
lt→not_leb a b h = ground arith

ltb-false : (a : ℕ) → a < region_name_max → ltb (region_name_max - 1) a ≡ false
ltb-false a h = ground arith

-- what may be the name of a region
abbrev pub IsName : Text → Type 0
IsName name = (has_dot name ≡ false) × IsText name × (0 < length name)

-- the array holds this path
abbrev pub IsAt : Text → List ℕ → Type 0
IsAt cur region = (length region ≡ region_name_max) × (c_string region ≡ some cur)

-- the path one level deeper
abbrev pub joined : (cur name : Text) → Text
joined [] name = name
joined (c ∷ cs) name = (c ∷ cs) ++ 46 ∷ name

-- the array with a dot and the name behind the path
appended :
    (cur name junk : List ℕ) (k : ℕ)
    → region_name_max - length cur ≡ suc k
    → strncpy_at
        (suc (length cur))
        k
        name
        (strncpy_at (length cur) (region_name_max - length cur) (46 ∷ []) (cur ++ 0 ∷ junk))
      ≡ cur ++ 46 ∷ strncpy k name (strncpy k [] junk)
unfolding strncpy
appended cur name junk k e = rw e (
    rw (strncpy_at-append cur (0 ∷ junk) (46 ∷ []) (suc k))
      (strncpy_at-behind cur 46 (strncpy k [] junk) name k))

append_region-appended :
    (c : ℕ) (cs name junk : List ℕ) (k : ℕ)
    → region_name_max - length (c ∷ cs) ≡ suc k
    → length (c ∷ cs) < region_name_max - 2
    → append_region name (c ∷ cs) ((c ∷ cs) ++ 0 ∷ junk)
      ≡ (c ∷ cs) ++ 46 ∷ strncpy k name (strncpy k [] junk)
unfolding append_region
append_region-appended c cs name junk k e h =
    let len = length (c ∷ cs) in
    let rest : region_name_max - len - 1 ≡ k = omega arith in
    rw (lt→not_leb len (region_name_max - 2) h) (rw rest (appended (c ∷ cs) name junk k e))

length-append_region :
    (name cur region : List ℕ) → length (append_region name cur region) ≡ length region
unfolding append_region
length-append_region name [] region = elim (Bool-cases (ltb (region_name_max - 1) (length name))) [
  | inl e ↦ rw e refl
  | inr e ↦ rw e (length-strncpy region_name_max name region)
]
length-append_region name (c ∷ cs) region =
    elim (Bool-cases (leb (region_name_max - 2) (length (c ∷ cs)))) [
      | inl e ↦ rw e refl
      | inr e ↦ rw e (length-strncpy_at _ _ name _ ∙ length-strncpy_at _ _ (46 ∷ []) region)
    ]

append_region-Text :
    (name cur region : List ℕ)
    → IsName name
    → IsAt cur region
    → length (joined cur name) < region_name_max
    → c_string (append_region name cur region) ≡ some (joined cur name)
unfolding c_string append_region
append_region-Text name [] region (dot, text, some_letter) (size, at) h =
    rw (ltb-false (length name) h)
      (c_string-strncpy region_name_max name region text h (omega arith))
append_region-Text name (c ∷ cs) region (dot, text, some_letter) (size, at) h =
    let (cur_text, (junk, split)) = c_string-split region (c ∷ cs) at in
    let room = length-append (c ∷ cs) (0 ∷ junk) in
    let whole = length-append (c ∷ cs) (46 ∷ name) in
    let sized = ap length split in
    let k = length junk in
    let e : region_name_max - length (c ∷ cs) ≡ suc k = omega arith in
    let copied =
      c_string-strncpy k name (strncpy k [] junk) text (omega arith)
        (omega (arith, length-strncpy k [] junk)) in
    ap (λ r. c_string (append_region name (c ∷ cs) r)) split
    ∙ ap c_string (append_region-appended c cs name junk k e (omega arith))
    ∙ c_string-append (c ∷ cs) (46 ∷ strncpy k name (strncpy k [] junk)) cur_text
    ∙ ap (λ o. Option.map (λ t. (c ∷ cs) ++ t) (Option.map (λ t. 46 ∷ t) o)) copied

current-at : (region : List ℕ) (t : Text) → c_string region ≡ some t → current region ≡ ok t
unfolding current
current-at region t e = rw (e, current) refl

-- a name that fits is put behind the path
pub region_enter-Entered :
    (name cur region : List ℕ)
    → IsName name
    → IsAt cur region
    → length (joined cur name) < region_name_max
    → Returns (region_enter name region) (IsAt (joined cur name))
unfolding region_enter
region_enter-Entered name cur region n (size, at) h = (
  append_region name cur region,
  (rw (n.0) (rw (current-at region cur at) refl)),
  (length-append_region name cur region ∙ size, append_region-Text name cur region n (size, at) h),
)

-- the array is cut off behind the path that is left
cut-IsAt :
    (cur junk region : List ℕ) (c : ℕ)
    → IsText cur
    → length region ≡ region_name_max
    → region ≡ cur ++ c ∷ junk
    → IsAt cur (set region (length cur) 0)
unfolding c_string
cut-IsAt cur junk region c text size split = (
  length-set region (length cur) 0 ∙ size,
  ap (λ r. c_string (set r (length cur) 0)) split
      ∙ ap c_string (set-append cur junk c 0)
      ∙ c_string-append cur (0 ∷ junk) text
      ∙ ap some (append-nil cur),
)

-- what is left behind a name is the path in which it was entered
pub region_exit-Left :
    (name cur other region : List ℕ)
    → IsName name
    → IsAt (joined cur name) region
    → Returns (region_exit other region) (IsAt cur)
unfolding region_exit leave_region
region_exit-Left [] [] other region (dot, text, some_letter) (size, at) = absurd (omega arith)
region_exit-Left (c ∷ cs) [] other region (dot, text, some_letter) (size, at) =
    let (name_text, (junk, split)) = c_string-split region (c ∷ cs) at in
    (
      set region 0 0,
      (rw (current-at region (c ∷ cs) at) (
          rw (before_last_dot-plain (c ∷ cs) dot, leave_region)
            (rw (lt→ltb 0 (length (c ∷ cs)) some_letter) refl))),
      cut-IsAt [] (cs ++ 0 ∷ junk) region c tt size split,
    )
region_exit-Left name (c ∷ cs) other region (dot, text, some_letter) (size, at) =
    let path = joined (c ∷ cs) name in
    let (path_text, (junk, split)) = c_string-split region path at in
    let (cur_text, rest) = All-split (λ x. 0 < x) (c ∷ cs) (46 ∷ name) path_text in
    (
      set region (length (c ∷ cs)) 0,
      (rw (current-at region path at)
          (rw (before_last_dot-path (c ∷ cs) name dot, leave_region) refl)),
      cut-IsAt (c ∷ cs) (name ++ 0 ∷ junk) region 46 cur_text size
          (split ∙ append_assoc (c ∷ cs) (46 ∷ name) (0 ∷ junk)),
    )

-- regions that are entered and left in turn: one with what is inside it, and those that follow
pub data Nest : Type 0 where
  nothing : Nest
  inside : (name : Text) → (inner following : Nest) → Nest

-- the calls of such a program
abbrev pub visit : Nest → List ℕ → Run (List ℕ)
visit nothing region = ok region
visit (inside name inner following) region = do
  entered ← region_enter name region
  visited ← visit inner entered
  left ← region_exit name visited
  visit following left

-- all names may be names of regions, and all paths fit into the array
abbrev pub Fits : (cur : Text) → Nest → Type 0
Fits cur nothing = Unit
Fits cur (inside name inner following) =
    IsName name
    × (length (joined cur name) < region_name_max)
    × Fits (joined cur name) inner
    × Fits cur following

-- Let a program enter regions and leave each of them behind what is inside it, with names that are
-- not empty and have no dot and no NUL, and let every path of names with dots between them be
-- shorter than the array. Then all its calls return, and `current_region` holds the same path in
-- the end as in the beginning.
pub visit-Restored :
    (nest : Nest) (cur region : List ℕ)
    → Fits cur nest
    → IsAt cur region
    → Returns (visit nest region) (IsAt cur)
visit-Restored nothing cur region f at = (region, refl, at)
visit-Restored (inside name inner following) cur region (n, h, fi, ff) at =
    let (r1, run1, at1) = region_enter-Entered name cur region n at h in
    let (r2, run2, at2) = visit-Restored inner (joined cur name) r1 fi at1 in
    let (r3, run3, at3) = region_exit-Left name cur name r2 n at2 in
    let (r4, run4, at4) = visit-Restored following cur r3 ff at3 in
    (r4, (rw run1 (rw run2 (rw run3 run4))), at4)

-- If a region with a path of less than 1022 characters is current and a name without dot and NUL
-- makes the path at least as long as the array, entering it returns and leaves no NUL in the
-- array.
pub region_enter-Unterminated :
    (name : Text) (c : ℕ) (cs region : List ℕ)
    → IsName name
    → IsAt (c ∷ cs) region
    → length (c ∷ cs) < region_name_max - 2
    → region_name_max ≤ length (joined (c ∷ cs) name)
    → Returns (region_enter name region) (λ r. c_string r ≡ none)
unfolding region_enter c_string
region_enter-Unterminated name c cs region n (size, at) short long =
    let (cur_text, (junk, split)) = c_string-split region (c ∷ cs) at in
    let room = length-append (c ∷ cs) (0 ∷ junk) in
    let whole = length-append (c ∷ cs) (46 ∷ name) in
    let sized = ap length split in
    let k = length junk in
    let e : region_name_max - length (c ∷ cs) ≡ suc k = omega arith in
    let filled =
      c_string-filled k name (strncpy k [] junk) (n.1) (omega arith)
        (sym (length-strncpy k [] junk)) in
    (
      append_region name (c ∷ cs) region,
      (rw (n.0) (rw (current-at region (c ∷ cs) at) refl)),
      ap (λ r. c_string (append_region name (c ∷ cs) r)) split
          ∙ ap c_string (append_region-appended c cs name junk k e short)
          ∙ c_string-append (c ∷ cs) (46 ∷ strncpy k name (strncpy k [] junk)) cur_text
          ∙ ap (λ o. Option.map (λ t. (c ∷ cs) ++ t) (Option.map (λ t. 46 ∷ t) o)) filled,
    )
