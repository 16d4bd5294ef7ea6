-- ===== src/Platform/Query.antt =====
-- The queries of Mongoose that the services use, over the documents of a collection.
pub mod Laws
use Prim.Native.Nat.{compare, Ordering}
use Prim.Native.String.compare
use text.Mathlib.Text.{is_lt}
use nexusflow_backend.Prelude.{
  ℕ, ◌≡◌, refl, ap, Bool, true, false, not, ◌||◌, ◌&&◌, String, List, [], ◌∷◌, ◌++◌, map, Option,
  none, some, if◌then◌else◌, select, find, any, arith, ltb, ◌==◌, ◌===◌,
}
use nexusflow_backend.Platform.{Doc, Platform}

-- `a._id < b._id`
abbrev pub id_less : String → String → Bool
id_less a b = is_lt (Prim.Native.String.compare a b)

-- The document that `findOne` with a `sort` answers.
abbrev pub first_of : {A : Type 0} → List A → Option A
first_of [] = none
first_of (x ∷ xs) = some x

module _ {ℓ} {A : Type ℓ} (before : A → A → Bool) where
  -- Puts `a` behind the items of a sorted list that go before it.
  pub place : A → List A → List A
  place a [] = a ∷ []
  place a (x ∷ xs) = let rest = place a xs in if before x a then x ∷ rest else a ∷ x ∷ xs

  -- `sort`: items that compare equal keep their order.
  unfoldable pub sort : List A → List A
  unfolding place
  sort [] = []
  sort (x ∷ xs) = place x (sort xs)

module _ ⦃p : Platform⦄ {D : Type 0} where
  -- `find(filter)`
  abbrev pub find_all : (Doc D → Bool) → p.Collection D → List (Doc D)
  find_all matches c = select matches (p.docs c)

  -- `findOne(filter)`
  abbrev pub find_one : (Doc D → Bool) → p.Collection D → Option (Doc D)
  find_one matches c = find matches (p.docs c)

  -- `countDocuments(filter) > 0`
  abbrev pub has_some : (Doc D → Bool) → p.Collection D → Bool
  has_some matches c = any matches (p.docs c)

  -- `findOne({ _id })`, `findById`
  abbrev pub find_by_id : String → p.Collection D → Option (Doc D)
  find_by_id id c = find (λ d. d.id === id) (p.docs c)

  -- `document.save()` and `updateOne({ _id }, …)`: an edit of the document with that `_id`.
  abbrev pub update_by_id : String → (D → D) → p.Collection D → p.Collection D
  update_by_id id f c = p.update_many (λ d. d.id === id) f c

  -- `create` under a unique index: `none` is the error with code 11000.
  abbrev pub create : (D → D → Bool) → D → p.Collection D → Option (Doc D × p.Collection D)
  create clashes b c = if any (λ d. clashes d.body b) (p.docs c) then none else some (p.insert b c)
