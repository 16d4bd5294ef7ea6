-- ===== src/Platform.antt =====
-- What the program is given and does not implement: the documents of MongoDB behind Mongoose, the
-- cache of cache-manager, and the conversions of numbers and dates to text. Each is a parameter
-- with the documented behaviour that the program relies on.
pub mod Query
pub mod Memory
use nexusflow_backend.Prelude.{
  ℕ, ◌+◌, ◌<◌, ◌≤◌, ◌≡◌, ◌≢◌, Bool, String, List, [], ◌∷◌, ◌++◌, map, Option, none, some, Number,
  if◌then◌else◌, select, not, All,
}

-- A stored document: its `_id` and its fields.
pub record Doc (D : Type 0) : Type 0 where
  pub id : String
  pub body : D

abbrev pub edit : {D : Type 0} → (Doc D → Bool) → (D → D) → Doc D → Doc D
edit p f d = if p d then record d { body = f d.body } else d

abbrev pub update_first : {D : Type 0} → (Doc D → Bool) → (D → D) → List (Doc D) → List (Doc D)
update_first p f [] = []
update_first p f (d ∷ ds) =
    let rest = update_first p f ds in if p d then record d { body = f d.body } ∷ ds else d ∷ rest

pub record Platform : Type 1 where
  -- A collection, and its documents in natural order.
  pub Collection : Type 0 → Type 0
  pub docs : {D : Type 0} → Collection D → List (Doc D)
  -- `insertOne`: the new document gets an `_id` that no document of the collection has.
  pub insert : {D : Type 0} → D → Collection D → Doc D × Collection D
  pub docs-insert :
      {D : Type 0} (b : D) (c : Collection D) → docs (insert b c).1 ≡ docs c ++ (insert b c).0 ∷ []
  pub body-insert : {D : Type 0} (b : D) (c : Collection D) → (insert b c).0.body ≡ b
  pub fresh-insert :
      {D : Type 0} (b : D) (c : Collection D) → All (λ d. d.id ≢ (insert b c).0.id) (docs c)
  -- `updateMany` and `deleteMany` by a filter.
  pub update_many : {D : Type 0} → (Doc D → Bool) → (D → D) → Collection D → Collection D
  pub docs-update_many :
      {D : Type 0} (p : Doc D → Bool) (f : D → D) (c : Collection D)
      → docs (update_many p f c) ≡ map (edit p f) (docs c)
  -- `updateOne`, of the first document that passes.
  pub update_one : {D : Type 0} → (Doc D → Bool) → (D → D) → Collection D → Collection D
  pub docs-update_one :
      {D : Type 0} (p : Doc D → Bool) (f : D → D) (c : Collection D)
      → docs (update_one p f c) ≡ update_first p f (docs c)
  pub delete_many : {D : Type 0} → (Doc D → Bool) → Collection D → Collection D
  pub docs-delete_many :
      {D : Type 0} (p : Doc D → Bool) (c : Collection D)
      → docs (delete_many p c) ≡ select (λ d. not (p d)) (docs c)
  -- `Types.ObjectId.isValid`
  pub is_object_id : String → Bool
  -- A cache with a time to live, read and written at a time of its own clock.
  pub Cache : Type 0 → Type 0
  pub cache_get : {V : Type 0} → ℕ → String → Cache V → Option V
  pub cache_set : {V : Type 0} → ℕ → String → V → ℕ → Cache V → Cache V
  pub cache_del : {V : Type 0} → String → Cache V → Cache V
  pub get-set_live :
      {V : Type 0} (t t' ttl : ℕ) (k : String) (v : V) (c : Cache V)
      → t' < t + ttl
      → cache_get t' k (cache_set t k v ttl c) ≡ some v
  pub get-set_expired :
      {V : Type 0} (t t' ttl : ℕ) (k : String) (v : V) (c : Cache V)
      → 0 < ttl
      → t + ttl < t'
      → cache_get t' k (cache_set t k v ttl c) ≡ none
  pub get-set_ne :
      {V : Type 0} (t t' ttl : ℕ) (k j : String) (v : V) (c : Cache V)
      → k ≢ j
      → cache_get t' j (cache_set t k v ttl c) ≡ cache_get t' j c
  pub get-del_self :
      {V : Type 0} (t : ℕ) (k : String) (c : Cache V) → cache_get t k (cache_del k c) ≡ none
  pub get-del_ne :
      {V : Type 0} (t : ℕ) (k j : String) (c : Cache V)
      → k ≢ j
      → cache_get t j (cache_del k c) ≡ cache_get t j c
  -- `Number(text)`, `String(number)` and `date.toISOString()`.
  pub parse_number : String → Number
  pub show_number : Number → String
  pub iso_string : ℕ → String
