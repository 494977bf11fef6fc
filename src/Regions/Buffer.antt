-- ===== src/Regions/Buffer.antt =====
-- The text of a character array under the writes of mpiP-API.c.
use mathlib.Core.Option
use a_mpi_p.Prelude.{
  ℕ, zero, suc, ◌≤◌, ◌<◌, true, false, Option, none, some, List, [], ◌∷◌, ◌++◌, ◌==◌, length, set,
  ◌≡◌, refl, ap, ◌∙◌, sym, All, arith, subst, Option-cases, Bool-cases, inl, inr,
}
use a_mpi_p.Callsites.{Text}
use a_mpi_p.Regions.{c_string, strncpy, strncpy_at, has_dot, before_last_dot}

map_id : (o : Option Text) → o ≡ Option.map (λ s. s) o
map_id none = refl
map_id (some t) = refl

map-map :
    (f g : Text → Text) (o : Option Text)
    → Option.map f (Option.map g o) ≡ Option.map (λ s. f (g s)) o
map-map f g none = refl
map-map f g (some t) = refl

some_inj : {a b : Text} → some a ≡ some b → a ≡ b
some_inj e = cc

-- a text without NUL
abbrev pub IsText : Text → Type 0
IsText t = All (λ c. 0 < c) t

pub c_string-append :
    (t xs : List ℕ) → IsText t → c_string (t ++ xs) ≡ Option.map (λ s. t ++ s) (c_string xs)
unfolding c_string
c_string-append [] xs h = map_id (c_string xs)
c_string-append (zero ∷ t) xs h = absurd (omega arith)
c_string-append (suc c ∷ t) xs h =
    ap (Option.map (λ s. suc c ∷ s)) (c_string-append t xs (h.1))
    ∙ map-map (λ s. suc c ∷ s) (λ s. t ++ s) (c_string xs)

-- an array with a text is the text, a NUL and what is left of older texts
pub c_string-split :
    (xs t : List ℕ) → c_string xs ≡ some t → IsText t × ((junk : List ℕ) × (xs ≡ t ++ 0 ∷ junk))
unfolding c_string
c_string-split [] t h = absurd (cc)
c_string-split (zero ∷ xs) t h =
    subst (λ z. IsText z × ((junk : List ℕ) × (zero ∷ xs ≡ z ++ 0 ∷ junk))) (some_inj h)
      (tt, (xs, refl))
c_string-split (suc c ∷ xs) t h = elim (Option-cases (c_string xs)) [
  | inl e ↦ (let k = ap (Option.map (λ s. suc c ∷ s)) e in absurd (cc))
  | inr (s, e) ↦
      let (text, (junk, split)) = c_string-split xs s e in
      subst (λ z. IsText z × ((junk : List ℕ) × (suc c ∷ xs ≡ z ++ 0 ∷ junk)))
        (some_inj (sym (ap (Option.map (λ s. suc c ∷ s)) e) ∙ h))
        ((omega arith, text), (junk, ap (λ l. suc c ∷ l) split))
]

pub strncpy_at-append :
    (t xs src : List ℕ) (n : ℕ) → strncpy_at (length t) n src (t ++ xs) ≡ t ++ strncpy n src xs
unfolding strncpy_at
strncpy_at-append [] xs src n = refl
strncpy_at-append (c ∷ t) xs src n = ap (λ l. c ∷ l) (strncpy_at-append t xs src n)

pub strncpy_at-behind :
    (t : List ℕ) (x : ℕ) (xs src : List ℕ) (n : ℕ)
    → strncpy_at (suc (length t)) n src (t ++ x ∷ xs) ≡ t ++ x ∷ strncpy n src xs
unfolding strncpy_at
strncpy_at-behind [] x xs src n = refl
strncpy_at-behind (c ∷ t) x xs src n = ap (λ l. c ∷ l) (strncpy_at-behind t x xs src n)

pub length-strncpy : (n : ℕ) (src xs : List ℕ) → length (strncpy n src xs) ≡ length xs
unfolding strncpy
length-strncpy zero src xs = refl
length-strncpy (suc n) src [] = refl
length-strncpy (suc n) [] (x ∷ xs) = ap suc (length-strncpy n [] xs)
length-strncpy (suc n) (c ∷ src) (x ∷ xs) = ap suc (length-strncpy n src xs)

pub length-strncpy_at : (i n : ℕ) (src xs : List ℕ) → length (strncpy_at i n src xs) ≡ length xs
unfolding strncpy_at
length-strncpy_at zero n src xs = length-strncpy n src xs
length-strncpy_at (suc i) n src [] = refl
length-strncpy_at (suc i) n src (x ∷ xs) = ap suc (length-strncpy_at i n src xs)

-- a text that is shorter than the room is copied with its end
pub c_string-strncpy :
    (n : ℕ) (src xs : List ℕ)
    → IsText src
    → length src < n
    → n ≤ length xs
    → c_string (strncpy n src xs) ≡ some src
unfolding c_string strncpy
c_string-strncpy zero src xs h k l = absurd (omega arith)
c_string-strncpy (suc n) src [] h k l = absurd (omega arith)
c_string-strncpy (suc n) [] (x ∷ xs) h k l = refl
c_string-strncpy (suc n) (zero ∷ src) (x ∷ xs) h k l = absurd (omega arith)
c_string-strncpy (suc n) (suc c ∷ src) (x ∷ xs) h k l =
    ap (Option.map (λ t. suc c ∷ t)) (c_string-strncpy n src xs (h.1) (omega arith) (omega arith))

-- a text that fills the rest of the array leaves no end
pub c_string-filled :
    (n : ℕ) (src xs : List ℕ)
    → IsText src
    → n ≤ length src
    → n ≡ length xs
    → c_string (strncpy n src xs) ≡ none
unfolding c_string strncpy
c_string-filled zero src [] h k l = refl
c_string-filled zero src (x ∷ xs) h k l = absurd (omega arith)
c_string-filled (suc n) src [] h k l = absurd (omega arith)
c_string-filled (suc n) [] (x ∷ xs) h k l = absurd (omega arith)
c_string-filled (suc n) (zero ∷ src) (x ∷ xs) h k l = absurd (omega arith)
c_string-filled (suc n) (suc c ∷ src) (x ∷ xs) h k l =
    ap (Option.map (λ t. suc c ∷ t)) (c_string-filled n src xs (h.1) (omega arith) (omega arith))

pub set-append : (t xs : List ℕ) (x v : ℕ) → set (t ++ x ∷ xs) (length t) v ≡ t ++ v ∷ xs
set-append [] xs x v = refl
set-append (c ∷ t) xs x v = ap (λ l. c ∷ l) (set-append t xs x v)

pub before_last_dot-plain : (name : Text) → has_dot name ≡ false → before_last_dot name ≡ none
unfolding before_last_dot has_dot
before_last_dot-plain [] h = refl
before_last_dot-plain (c ∷ cs) h = elim (Bool-cases (c == 46)) [
  | inl e ↦ (let k : true ≡ false = rw e at h in absurd (cc))
  | inr e ↦ rw (before_last_dot-plain cs (rw e at h)) (rw e refl)
]

-- the last name of a path is cut off
pub before_last_dot-path :
    (cur name : Text) → has_dot name ≡ false → before_last_dot (cur ++ 46 ∷ name) ≡ some cur
unfolding before_last_dot
before_last_dot-path [] name h = rw (before_last_dot-plain name h) refl
before_last_dot-path (c ∷ cur) name h = rw (before_last_dot-path cur name h) refl
