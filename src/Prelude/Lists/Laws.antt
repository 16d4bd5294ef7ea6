-- ===== src/Prelude/Lists/Laws.antt =====
-- Laws of the list functions that several components use.
use Prim.Native.Nat.{◌+◌, ◌≤◌}
use mathlib.Core.Path.{subst, ◌≡◌, refl}
use mathlib.Core.Logic.{◌⊎◌, inl, inr}
use nexusflow_backend.Prelude.Tests.{Bool-cases, if◌then◌else◌}
use mathlib.Core.Bool.{Bool, true, false, ◌||◌}
use mathlib.Core.Option.{none, some, some-injective}
use mathlib.Core.List.{List, [], ◌∷◌, ◌++◌, map}
use native.Mathlib.Omega.{arith}
use nexusflow_backend.Prelude.Lists.{length, select, find, any, All, Some, distinct_from}

module _ {ℓ} {A : Type ℓ} where
  pub any-distinct_from :
      (same : A → A → Bool) (f : A → Bool) (seen xs : List A)
      → any f (distinct_from same seen xs) ≡ true
      → any f xs ≡ true
  any-distinct_from same f seen [] h = h
  any-distinct_from same f seen (x ∷ xs) h =
      ground (arith, any-distinct_from same f seen xs, any-distinct_from same f (x ∷ seen) xs)

  -- What `find` returns passes the test, and is a member by any test that it passes itself.
  pub find-passes : (p : A → Bool) (xs : List A) {x : A} → find p xs ≡ some x → p x ≡ true
  find-passes p [] h = cc
  find-passes p (y ∷ xs) {x} h = ground (arith, find-passes p xs {x = x})

  pub any-find :
      (p f : A → Bool) (xs : List A) {x : A} → find p xs ≡ some x → f x ≡ true → any f xs ≡ true
  any-find p f [] h k = cc
  any-find p f (y ∷ xs) {x} h k = ground (arith, any-find p f xs {x = x})

  pub find-eq-none : (p : A → Bool) (xs : List A) → find p xs ≡ none → any p xs ≡ false
  find-eq-none p [] h = refl
  find-eq-none p (x ∷ xs) h = ground (arith, find-eq-none p xs)

  pub find-ne-none : (p : A → Bool) (xs : List A) → any p xs ≡ false → find p xs ≡ none
  find-ne-none p [] h = refl
  find-ne-none p (x ∷ xs) h = ground (arith, find-ne-none p xs)

  pub any-append : (p : A → Bool) (xs ys : List A) → any p (xs ++ ys) ≡ (any p xs || any p ys)
  any-append p [] ys = refl
  any-append p (x ∷ xs) ys = ground (arith, any-append p xs ys)

  pub select-append :
      (p : A → Bool) (xs ys : List A) → select p (xs ++ ys) ≡ select p xs ++ select p ys
  select-append p [] ys = refl
  select-append p (x ∷ xs) ys = ground (arith, select-append p xs ys)

  pub All-find {κ} :
      (P : A → Type κ) (p : A → Bool) (xs : List A) {x : A} → find p xs ≡ some x → All P xs → P x
  All-find P p [] h k = absurd (ground arith)
  All-find P p (y ∷ xs) {x} h k = elim (Bool-cases (p y)) [
    | inl passes ↦ subst P (ground arith) k.0
    | inr fails ↦ All-find P p xs (ground arith) k.1
  ]

  pub All-append {κ} : (P : A → Type κ) (xs ys : List A) → All P xs → All P ys → All P (xs ++ ys)
  All-append P [] ys h k = k
  All-append P (x ∷ xs) ys h k = (h.0, All-append P xs ys h.1 k)

  pub All-split {κ} : (P : A → Type κ) (xs ys : List A) → All P (xs ++ ys) → All P xs × All P ys
  All-split P [] ys h = (tt, h)
  All-split P (x ∷ xs) ys h = let (first, later) = All-split P xs ys h.1 in ((h.0, first), later)

  pub All-map {κ} : (P Q : A → Type κ) (xs : List A) → ((x : A) → P x → Q x) → All P xs → All Q xs
  All-map P Q [] f h = tt
  All-map P Q (x ∷ xs) f h = (f x h.0, All-map P Q xs f h.1)

  pub All-select {κ} :
      (P : A → Type κ) (p : A → Bool) (xs : List A) → All P xs → All P (select p xs)
  All-select P p [] h = tt
  All-select P p (x ∷ xs) h = ground (arith, All-select P p xs h.1)

  pub length-append : (xs ys : List A) → length (xs ++ ys) ≡ length xs + length ys
  length-append [] ys = omega arith
  length-append (x ∷ xs) ys = omega (arith, length-append xs ys)

  pub length-select-le : (p : A → Bool) (xs : List A) → length (select p xs) ≤ length xs
  length-select-le p [] = omega arith
  length-select-le p (x ∷ xs) = ground (arith, length-select-le p xs)

-- What some member of a list has, in the list behind `find`, `filter` and `map`.
module _ {A : Type 0} where
  pub find-Some :
      (P : A → Type 0) (p : A → Bool) (xs : List A) {x : A} → find p xs ≡ some x → P x → Some P xs
  find-Some P p [] h px = absurd (cc)
  find-Some P p (y ∷ ys) {x} h px = elim (Bool-cases (p y)) [
    | inl here ↦ inl (subst P (some-injective x y (ground arith)) px)
    | inr later ↦ inr (find-Some P p ys (ground arith) px)
  ]

  pub Some-weaken :
      {P Q : A → Type 0} → ((a : A) → P a → Q a) → (xs : List A) → Some P xs → Some Q xs
  Some-weaken k [] h = absurd h
  Some-weaken k (x ∷ xs) (inl here) = inl (k x here)
  Some-weaken k (x ∷ xs) (inr later) = inr (Some-weaken k xs later)

  Some-if :
      (P : A → Type 0) (b : Bool) (x : A) (rest : List A)
      → Some P (if b then x ∷ rest else rest)
      → (P x × (b ≡ true)) ⊎ Some P rest
  Some-if P true x rest (inl here) = inl (here, refl)
  Some-if P true x rest (inr later) = inr later
  Some-if P false x rest later = inr later

  pub Some-select :
      (P : A → Type 0) (p : A → Bool) (xs : List A)
      → Some P (select p xs)
      → Some (λ x. P x × (p x ≡ true)) xs
  Some-select P p [] h = absurd h
  Some-select P p (x ∷ xs) h = elim (Some-if P (p x) x (select p xs) h) [
    | inl here ↦ inl here
    | inr later ↦ inr (Some-select P p xs later)
  ]

  pub Some-map :
      {B : Type 0} (f : A → B) (P : B → Type 0) (xs : List A)
      → Some P (map f xs)
      → Some (λ x. P (f x)) xs
  Some-map f P [] h = absurd h
  Some-map f P (x ∷ xs) (inl here) = inl here
  Some-map f P (x ∷ xs) (inr later) = inr (Some-map f P xs later)
