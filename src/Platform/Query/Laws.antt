-- ===== src/Platform/Query/Laws.antt =====
-- Edits of the documents of a collection, seen through filters and sorting.
use nexusflow_backend.Prelude.{
  suc, ◌≤◌, ◌≡◌, refl, ap, Bool, true, false, Some, ◌⊎◌, if◌then◌else◌, List, [], ◌∷◌, map, Option,
  none, some, select, length, arith, Bool-cases, inl, inr,
}
use nexusflow_backend.Platform.{Doc, edit}
use nexusflow_backend.Platform.Query.{sort, place, first_of}

abbrev pub map_some : {A : Type 0} → (A → A) → Option A → Option A
map_some f none = none
map_some f (some a) = some (f a)

module _ {A : Type 0} where
  place-ne : (before : A → A → Bool) (a : A) (xs : List A) → first_of (place before a xs) ≡ none → ⊥
  unfolding place
  place-ne before a [] h = cc
  place-ne before a (x ∷ xs) h = ground arith

  -- A sorted list without a first item comes from the empty list.
  pub first-sort-none :
      (before : A → A → Bool) (xs : List A) → first_of (sort before xs) ≡ none → xs ≡ []
  unfolding sort
  first-sort-none before [] h = refl
  first-sort-none before (x ∷ xs) h = absurd (place-ne before x (sort before xs) h)

  -- The first of at most one item is that item.
  pub first-sort-one :
      (before : A → A → Bool) (xs : List A) (x : A)
      → first_of (sort before xs) ≡ some x
      → length xs ≤ 1
      → xs ≡ x ∷ []
  unfolding sort place
  first-sort-one before [] x h k = cc
  first-sort-one before (y ∷ []) x h k = ap (λ z. z ∷ []) (ground arith)
  first-sort-one before (y ∷ z ∷ zs) x h k = absurd (omega arith)

  module _ (e : A → A) where
    place-map :
        (before : A → A → Bool)
        → ((a b : A) → before (e a) (e b) ≡ before a b)
        → (a : A) (xs : List A) → place before (e a) (map e xs) ≡ map e (place before a xs)
    unfolding place
    place-map before h a [] = refl
    place-map before h a (x ∷ xs) = elim (Bool-cases (before x a)) [
      | inl first ↦ rw (h x a, first, place-map before h a xs) refl
      | inr second ↦ rw (h x a, second) refl
    ]

    -- An edit that keeps the order keeps the sorting.
    pub sort-map :
        (before : A → A → Bool)
        → ((a b : A) → before (e a) (e b) ≡ before a b)
        → (xs : List A) → sort before (map e xs) ≡ map e (sort before xs)
    unfolding sort
    sort-map before h [] = refl
    sort-map before h (x ∷ xs) =
        rw (sort-map before h xs, place-map before h x (sort before xs)) refl

    pub first-map : (xs : List A) → first_of (map e xs) ≡ map_some e (first_of xs)
    first-map [] = refl
    first-map (x ∷ xs) = refl

    -- An edit that keeps the filter.
    pub select-map :
        (m : A → Bool)
        → ((a : A) → m (e a) ≡ m a)
        → (xs : List A) → select m (map e xs) ≡ map e (select m xs)
    select-map m h [] = refl
    select-map m h (x ∷ xs) = elim (Bool-cases (m x)) [
      | inl passes ↦ rw (h x, passes, select-map m h xs) refl
      | inr fails ↦ rw (h x, fails, select-map m h xs) refl
    ]

    pub length-map : (xs : List A) → length (map e xs) ≡ length xs
    length-map [] = refl
    length-map (x ∷ xs) = ap (λ n. suc n) (length-map xs)

    -- An edit after which no new item passes the filter.
    pub select-map_twice :
        (m : A → Bool)
        → ((a : A) → m a ≡ false → m (e a) ≡ false)
        → (xs : List A) → select m (map e xs) ≡ select m (map e (select m xs))
    select-map_twice m h [] = refl
    select-map_twice m h (x ∷ xs) = elim (Bool-cases (m x)) [
      | inl passes ↦ rw passes (rw (select-map_twice m h xs) refl)
      | inr fails ↦ rw (fails, h x fails, select-map_twice m h xs) refl
    ]

    pub length-select-map_le :
        (m : A → Bool)
        → ((a : A) → m a ≡ false → m (e a) ≡ false)
        → (xs : List A) → length (select m (map e xs)) ≤ length (select m xs)
    length-select-map_le m h [] = omega arith
    length-select-map_le m h (x ∷ xs) = ground (arith, h x, length-select-map_le m h xs)

-- An edit of some documents keeps what the edit of every body keeps.
pub edit_keeps :
    {D : Type 0} {V : Type 0} (p : Doc D → Bool) (f : D → D) (view : Doc D → V)
    → ((d : Doc D) → view (record d { body = f d.body }) ≡ view d)
    → (d : Doc D) → view (edit p f d) ≡ view d
edit_keeps p f view h d = elim (Bool-cases (p d)) [
  | inl passes ↦ rw passes (h d)
  | inr fails ↦ rw fails refl
]

-- What some member of a sorted list has, some member of the list has.
module _ {A : Type 0} (P : A → Type 0) (before : A → A → Bool) where
  Some-if :
      (b : Bool) (a x : A) (rest xs : List A)
      → Some P (if b then x ∷ rest else a ∷ x ∷ xs)
      → (P x ⊎ Some P rest) ⊎ Some P (a ∷ x ∷ xs)
  Some-if true a x rest xs h = inl h
  Some-if false a x rest xs h = inr h

  Some-place : (a : A) (xs : List A) → Some P (place before a xs) → Some P (a ∷ xs)
  unfolding place
  Some-place a [] h = h
  Some-place a (x ∷ xs) h = elim (Some-if (before x a) a x (place before a xs) xs h) [
    | inl (inl here) ↦ inr (inl here)
    | inl (inr placed) ↦ elim (Some-place a xs placed) [
      | inl here ↦ inl here
      | inr later ↦ inr (inr later)
    ]
    | inr all ↦ all
  ]

  pub Some-sort : (xs : List A) → Some P (sort before xs) → Some P xs
  unfolding sort
  Some-sort [] h = h
  Some-sort (x ∷ xs) h = elim (Some-place x (sort before xs) h) [
    | inl here ↦ inl here
    | inr later ↦ inr (Some-sort xs later)
  ]
