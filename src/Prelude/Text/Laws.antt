-- ===== src/Prelude/Text/Laws.antt =====
-- Laws of `trim` and `toLowerCase`: each is idempotent, and they commute.
use Prim.Native.Char.{Char, code}
use Prim.Native.String.{String, [], ◌∷◌}
use mathlib.Core.Path.{◌≡◌, refl, ap, ◌∙◌, sym, subst}
use mathlib.Core.Logic.{◌⊎◌, inl, inr, ◌≢◌}
use mathlib.Core.Bool.{Bool, false}
use mathlib.Core.List.{List, [], ◌∷◌}
use native.Mathlib.Omega.{arith}
use nexusflow_backend.Prelude.Tests.{Bool-cases}
use nexusflow_backend.Prelude.Lists.{All}
use nexusflow_backend.Prelude.Text.{
  ◌===◌, eq_of_===, is_space, trim_start, keep, trim_end, trim, letters, lower_by, lower_char,
  to_lower_case,
}

abbrev starts_blank : String → Bool
starts_blank [] = false
starts_blank (c ∷ s) = is_space (code c)

starts_blank-trim_start : (s : String) → starts_blank (trim_start s) ≡ false
unfolding trim_start
starts_blank-trim_start [] = refl
starts_blank-trim_start (c ∷ s) = ground (arith, starts_blank-trim_start s)

trim_start-eq : (s : String) → starts_blank s ≡ false → trim_start s ≡ s
unfolding trim_start
trim_start-eq [] h = refl
trim_start-eq (c ∷ s) h = rw h

starts_blank-keep :
    (c : Char) (s : String) → is_space (code c) ≡ false → starts_blank (keep c s) ≡ false
unfolding keep
starts_blank-keep c [] h = rw h h
starts_blank-keep c (d ∷ s) h = h

starts_blank-trim_end : (s : String) → starts_blank s ≡ false → starts_blank (trim_end s) ≡ false
unfolding trim_end
starts_blank-trim_end [] h = refl
starts_blank-trim_end (c ∷ s) h = starts_blank-keep c (trim_end s) h

trim_end-keep : (c : Char) (s : String) → trim_end s ≡ s → trim_end (keep c s) ≡ keep c s
unfolding trim_end keep
trim_end-keep c [] h = elim (Bool-cases (is_space (code c))) [
  | inl blank ↦ rw blank
  | inr solid ↦ rw solid (rw solid)
]
trim_end-keep c (d ∷ s) h = ap (keep c) h

trim_end_idem : (s : String) → trim_end (trim_end s) ≡ trim_end s
unfolding trim_end
trim_end_idem [] = refl
trim_end_idem (c ∷ s) = trim_end-keep c (trim_end s) (trim_end_idem s)

pub trim_idem : (s : String) → trim (trim s) ≡ trim s
unfolding trim
trim_idem s =
    ap trim_end (
      trim_start-eq (trim_end (trim_start s))
        (starts_blank-trim_end (trim_start s) (starts_blank-trim_start s)))
    ∙ trim_end_idem (trim_start s)

abbrev IsSolid : Char × Char → Type 0
IsSolid (upper, small) = (is_space (code upper) ≡ false) × (is_space (code small) ≡ false)

is_space-lower_by :
    (table : List (Char × Char)) (c : Char)
    → All IsSolid table
    → is_space (code (lower_by table c)) ≡ is_space (code c)
unfolding lower_by
is_space-lower_by [] c h = refl
is_space-lower_by ((upper, small) ∷ rest) c h = ground (arith, is_space-lower_by rest c h.1)

letters-IsSolid : All IsSolid letters
unfolding is_space
letters-IsSolid = assumption refl

is_space-lower_char : (c : Char) → is_space (code (lower_char c)) ≡ is_space (code c)
unfolding lower_char
is_space-lower_char c = is_space-lower_by letters c letters-IsSolid

lower_by-cases :
    (full table : List (Char × Char)) (c : Char)
    → All (λ (p : Char × Char). lower_by full p.1 ≡ p.1) table
    → (lower_by full (lower_by table c) ≡ lower_by table c) ⊎ (lower_by table c ≡ c)
unfolding lower_by
lower_by-cases full [] c h = inr refl
lower_by-cases full ((upper, small) ∷ rest) c h = ground (arith, lower_by-cases full rest c h.1)

letters_stay : All (λ (p : Char × Char). lower_by letters p.1 ≡ p.1) letters
unfolding lower_by
letters_stay = assumption refl

lower_char_idem : (c : Char) → lower_char (lower_char c) ≡ lower_char c
unfolding lower_char
lower_char_idem c = elim (lower_by-cases letters letters c letters_stay) [
  | inl e ↦ e
  | inr e ↦ ap (lower_by letters) e
]

pub to_lower_case_idem : (s : String) → to_lower_case (to_lower_case s) ≡ to_lower_case s
unfolding to_lower_case
to_lower_case_idem [] = refl
to_lower_case_idem (c ∷ s) = cc (lower_char_idem c, to_lower_case_idem s)

keep-nil :
    (f : String → String) (c d : Char)
    → is_space (code d) ≡ is_space (code c)
    → f [] ≡ []
    → f (c ∷ []) ≡ d ∷ []
    → keep d [] ≡ f (keep c [])
unfolding keep
keep-nil f c d h empty one = ground arith

keep-lower :
    (c : Char) (s : String) → keep (lower_char c) (to_lower_case s) ≡ to_lower_case (keep c s)
unfolding keep to_lower_case
keep-lower c [] = keep-nil to_lower_case c (lower_char c) (is_space-lower_char c) refl refl
keep-lower c (d ∷ s) = refl

trim_end-lower : (s : String) → trim_end (to_lower_case s) ≡ to_lower_case (trim_end s)
unfolding trim_end to_lower_case
trim_end-lower [] = refl
trim_end-lower (c ∷ s) = ap (keep (lower_char c)) (trim_end-lower s) ∙ keep-lower c (trim_end s)

trim_start-lower : (s : String) → trim_start (to_lower_case s) ≡ to_lower_case (trim_start s)
unfolding trim_start to_lower_case
trim_start-lower [] = refl
trim_start-lower (c ∷ s) = ground (arith, is_space-lower_char c, trim_start-lower s)

pub trim-to_lower_case : (s : String) → trim (to_lower_case s) ≡ to_lower_case (trim s)
unfolding trim
trim-to_lower_case s = ap trim_end (trim_start-lower s) ∙ trim_end-lower (trim_start s)

pub ===_sym : (s t : String) → (s === t) ≡ (t === s)
===_sym s t = elim (Bool-cases (s === t)) [
  | inl same ↦ subst (λ r. (s === r) ≡ (r === s)) (eq_of_=== s t same) refl
  | inr other ↦ elim (Bool-cases (t === s)) [
    | inl same ↦ subst (λ r. (r === t) ≡ (t === r)) (eq_of_=== t s same) refl
    | inr other' ↦ other ∙ sym other'
  ]
]

pub ===_ne : (s t : String) → s ≢ t → (s === t) ≡ false
===_ne s t h = elim (Bool-cases (s === t)) [
  | inl same ↦ absurd (h (eq_of_=== s t same))
  | inr other ↦ other
]
