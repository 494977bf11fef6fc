-- ===== src/Regions.antt =====
-- The regions of mpiP-API.c: `mpiP_region_enter` and `mpiP_region_exit` on the array
-- `current_region`, whose text is the path of the regions with dots between the names. Output is
-- left out.
pub mod Buffer
pub mod Nesting
use a_mpi_p.Prelude.{
  ℕ, zero, suc, ◌+◌, ◌-◌, Bool, true, false, Option, none, some, List, [], ◌∷◌, ◌==◌, ltb, leb,
  length, set, if◌then◌else◌, Run, ok, abort, ◌>>=◌,
}
use a_mpi_p.Callsites.{Text}
use mathlib.Core.Option

-- REGION_NAME_MAX, the length of the array
abbrev pub region_name_max : ℕ
region_name_max = 1024

-- the text up to the first NUL; `none` if there is none in the array
unfoldable pub c_string : List ℕ → Option Text
c_string [] = none
c_string (zero ∷ cs) = some []
c_string (suc c ∷ cs) = Option.map (λ t. suc c ∷ t) (c_string cs)

-- `strncpy (dst, src, n)`, which pads with NUL and writes none behind a text that fills `n`
unfoldable pub strncpy : (n : ℕ) → (src dst : List ℕ) → List ℕ
strncpy zero src dst = dst
strncpy (suc n) src [] = []
strncpy (suc n) [] (d ∷ dst) = 0 ∷ strncpy n [] dst
strncpy (suc n) (c ∷ src) (d ∷ dst) = c ∷ strncpy n src dst

-- `strncpy (dst + at, src, n)`
unfoldable pub strncpy_at : (at n : ℕ) → (src dst : List ℕ) → List ℕ
strncpy_at zero n src dst = strncpy n src dst
strncpy_at (suc i) n src [] = []
strncpy_at (suc i) n src (d ∷ dst) = d ∷ strncpy_at i n src dst

-- `strchr (name, '.')`
unfoldable pub has_dot : Text → Bool
has_dot [] = false
has_dot (c ∷ cs) = if c == 46 then true else has_dot cs

-- what stands before `strrchr (name, '.')`
unfoldable pub before_last_dot : Text → Option Text
before_last_dot [] = none
before_last_dot (c ∷ cs) = elim (before_last_dot cs) [
  | some t ↦ some (c ∷ t)
  | none ↦ if c == 46 then some [] else none
]

-- the text of the array, where reading on behind the array is an error of its own
unfoldable pub current : List ℕ → Run Text
current region = elim (c_string region) [ some t ↦ ok t | none ↦ abort "current_region has no end" ]

-- the region is entered from a region with the text `cur`
unfoldable pub append_region : (name cur : Text) → List ℕ → List ℕ
append_region name [] region =
    if ltb (region_name_max - 1) (length name) then region else strncpy region_name_max name region
append_region name (c ∷ cs) region =
    let len = length (c ∷ cs) in
    if leb (region_name_max - 2) len
    then region
    else strncpy_at (suc len) (region_name_max - len - 1) name
        (strncpy_at len (region_name_max - len) (46 ∷ []) region)

-- mpiP_region_enter
unfoldable pub region_enter : Text → List ℕ → Run (List ℕ)
unfolding current
region_enter name region =
    if has_dot name
    then abort "You may not use '.' in your region names"
    else do cur ← current region; ok (append_region name cur region)

unfoldable pub leave_region : (cur : Text) → List ℕ → Run (List ℕ)
leave_region cur region = elim (before_last_dot cur) [
  | some t ↦ ok (set region (length t) 0)
  | none ↦
      if ltb 0 (length cur)
      then ok (set region 0 0)
      else abort "Tried to leave region but we aren't in one"
]

-- mpiP_region_exit, which does not use the name
unfoldable pub region_exit : Text → List ℕ → Run (List ℕ)
unfolding current
region_exit name region = do cur ← current region; leave_region cur region
