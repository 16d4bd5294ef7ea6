-- ===== src/Platform/Memory.antt =====
-- A platform held in memory, at which the theorems about the services can be tried: collections
-- are lists with a counter for new ids, the cache is a list of entries with their time of expiry.
use text.Mathlib.TextLemmas.{append_cancel_left, append-ne-nil_of_right_ne-nil}
use nexusflow_backend.Prelude.{
  ℕ, zero, suc, ◌+◌, ◌<◌, ◌≤◌, ◌≡◌, ◌≢◌, refl, sym, ◌∙◌, Bool, false, not, String, List, [], ◌∷◌,
  ◌++◌, map, Option, none, some, nan, is_finite, if◌then◌else◌, select, All, All-select, All-append,
  arith, ltb, lt→ltb, le→ltb, ◌===◌, ◌⧺◌, is_empty, Bool-cases, inl, inr, eq_of_===, ===_refl,
  ===_ne,
}
use nexusflow_backend.Platform.{Doc, Platform, edit, update_first}

-- The id of the document that came n-th.
abbrev pub id_of : ℕ → String
id_of zero = "1"
id_of (suc n) = "1" ⧺ id_of n

id_of-ne-blank : (n : ℕ) → id_of n ≢ ""
id_of-ne-blank zero e = cc
id_of-ne-blank (suc n) e = append-ne-nil_of_right_ne-nil "1" (id_of-ne-blank n) e

pub id_of-ne : (n m : ℕ) → n < m → id_of n ≢ id_of m
id_of-ne zero (suc m) h e = id_of-ne-blank m (sym (append_cancel_left "1" "" (id_of m) e))
id_of-ne (suc n) (suc m) h e =
    id_of-ne n m (ground arith) (append_cancel_left "1" (id_of n) (id_of m) e)
id_of-ne n zero h e = absurd (ground arith)

abbrev pub as_doc : {D : Type 0} → ℕ × D → Doc D
as_doc e = record { id = id_of e.0; body = e.1 }

pub record Memory (D : Type 0) : Type 0 where
  pub next : ℕ
  pub entries : List (ℕ × D)
  pub below : All (λ e. e.0 < next) entries

module _ {D : Type 0} where
  abbrev pub docs_of : Memory D → List (Doc D)
  docs_of c = map as_doc c.entries

  pub grow : (n m : ℕ) (es : List (ℕ × D)) → n < m → All (λ e. e.0 < n) es → All (λ e. e.0 < m) es
  grow n m [] h k = tt
  grow n m (e ∷ es) h k = (ground arith, grow n m es h k.1)

  pub below_insert :
      (b : D) (c : Memory D) → All (λ e. e.0 < suc c.next) (c.entries ++ (c.next, b) ∷ [])
  below_insert b c =
      All-append _ c.entries ((c.next, b) ∷ [])
        (grow c.next (suc c.next) c.entries (omega arith) c.below) (omega arith, tt)

  abbrev pub insert_doc : D → Memory D → Doc D × Memory D
  insert_doc b c = (
    as_doc (c.next, b),
    record { next = suc c.next; entries = c.entries ++ (c.next, b) ∷ []; below = below_insert b c },
  )

  pub docs-insert_doc :
      (es : List (ℕ × D)) (e : ℕ × D) → map as_doc (es ++ e ∷ []) ≡ map as_doc es ++ as_doc e ∷ []
  docs-insert_doc [] e = refl
  docs-insert_doc (x ∷ es) e = rw (docs-insert_doc es e) refl

  pub fresh_doc :
      (n : ℕ) (es : List (ℕ × D))
      → All (λ e. e.0 < n) es
      → All (λ d. d.id ≢ id_of n) (map as_doc es)
  fresh_doc n [] h = tt
  fresh_doc n (e ∷ es) h = (id_of-ne e.0 n h.0, fresh_doc n es h.1)

  abbrev pub edit_entry : (Doc D → Bool) → (D → D) → ℕ × D → ℕ × D
  edit_entry p f e = (e.0, (edit p f (as_doc e)).body)

  pub edits-below :
      (p : Doc D → Bool) (f : D → D) (n : ℕ) (es : List (ℕ × D))
      → All (λ e. e.0 < n) es
      → All (λ e. e.0 < n) (map (edit_entry p f) es)
  edits-below p f n [] h = tt
  edits-below p f n (e ∷ es) h = (h.0, edits-below p f n es h.1)

  pub docs-edits :
      (p : Doc D → Bool) (f : D → D) (es : List (ℕ × D))
      → map as_doc (map (edit_entry p f) es) ≡ map (edit p f) (map as_doc es)
  docs-edits p f [] = refl
  docs-edits p f (e ∷ es) = elim (Bool-cases (p (as_doc e))) [
    | inl passes ↦ rw (passes, docs-edits p f es) refl
    | inr fails ↦ rw (fails, docs-edits p f es) refl
  ]

  abbrev pub edit_first : (Doc D → Bool) → (D → D) → List (ℕ × D) → List (ℕ × D)
  edit_first p f [] = []
  edit_first p f (e ∷ es) =
      let rest = edit_first p f es in if p (as_doc e) then (e.0, f e.1) ∷ es else e ∷ rest

  pub first-below :
      (p : Doc D → Bool) (f : D → D) (n : ℕ) (es : List (ℕ × D))
      → All (λ e. e.0 < n) es
      → All (λ e. e.0 < n) (edit_first p f es)
  first-below p f n [] h = tt
  first-below p f n (e ∷ es) h = elim (Bool-cases (p (as_doc e))) [
    | inl passes ↦ rw passes (h.0, h.1)
    | inr fails ↦ rw fails (h.0, first-below p f n es h.1)
  ]

  pub docs-first :
      (p : Doc D → Bool) (f : D → D) (es : List (ℕ × D))
      → map as_doc (edit_first p f es) ≡ update_first p f (map as_doc es)
  docs-first p f [] = refl
  docs-first p f (e ∷ es) = elim (Bool-cases (p (as_doc e))) [
    | inl passes ↦ rw passes refl
    | inr fails ↦ rw (fails, docs-first p f es) refl
  ]

  pub docs-select :
      (p : Doc D → Bool) (es : List (ℕ × D))
      → map as_doc (select (λ e. not (p (as_doc e))) es) ≡ select (λ d. not (p d)) (map as_doc es)
  docs-select p [] = refl
  docs-select p (e ∷ es) = elim (Bool-cases (p (as_doc e))) [
    | inl passes ↦ rw (passes, docs-select p es) refl
    | inr fails ↦ rw (fails, docs-select p es) refl
  ]

-- The entries of a cache: key, value and the time from which it is gone.
abbrev pub Entry : Type 0 → Type 0
Entry V = String × V × ℕ

module _ {V : Type 0} where
  abbrev pub get_entry : ℕ → String → List (Entry V) → Option V
  get_entry t k [] = none
  get_entry t k ((j, v, gone) ∷ rest) =
      let below = get_entry t k rest in
      if j === k then (if ltb t gone then some v else none) else below

  abbrev pub del_entry : String → List (Entry V) → List (Entry V)
  del_entry k = select (λ e. not (e.0 === k))

  pub get-del_entry :
      (t : ℕ) (k : String) (c : List (Entry V)) → get_entry t k (del_entry k c) ≡ none
  get-del_entry t k [] = refl
  get-del_entry t k ((j, v, gone) ∷ rest) = ground (arith, get-del_entry t k rest)

  pub get-del_entry_ne :
      (t : ℕ) (k j : String) (c : List (Entry V))
      → k ≢ j
      → get_entry t j (del_entry k c) ≡ get_entry t j c
  get-del_entry_ne t k j [] h = refl
  get-del_entry_ne t k j ((i, v, gone) ∷ rest) h = elim (Bool-cases (i === k)) [
    | inl is_it ↦
        let other : (i === j) ≡ false = ===_ne i j (λ e. h (sym (eq_of_=== i k is_it) ∙ e)) in
        rw (is_it, other) (get-del_entry_ne t k j rest h)
    | inr another ↦ rw another (ground (arith, get-del_entry_ne t k j rest h))
  ]

pub late : (t t' ttl : ℕ) → t + ttl < t' → t + ttl ≤ t'
late t t' ttl h = omega arith

instance abbrev pub memory : Platform
memory = record {
  Collection = Memory;
  docs = docs_of;
  insert = insert_doc;
  docs-insert = λ b c. docs-insert_doc c.entries (c.next, b);
  body-insert = λ b c. refl;
  fresh-insert = λ b c. fresh_doc c.next c.entries c.below;
  update_many = λ p f c. record {
    next = c.next;
    entries = map (edit_entry p f) c.entries;
    below = edits-below p f c.next c.entries c.below;
  };
  docs-update_many = λ p f c. docs-edits p f c.entries;
  update_one = λ p f c. record {
    next = c.next;
    entries = edit_first p f c.entries;
    below = first-below p f c.next c.entries c.below;
  };
  docs-update_one = λ p f c. docs-first p f c.entries;
  delete_many = λ p c. record {
    next = c.next;
    entries = select (λ e. not (p (as_doc e))) c.entries;
    below = All-select _ (λ e. not (p (as_doc e))) c.entries c.below;
  };
  docs-delete_many = λ p c. docs-select p c.entries;
  is_object_id = λ s. not (is_empty s);
  Cache = λ V. List (Entry V);
  cache_get = get_entry;
  cache_set = λ t k v ttl c. (k, v, t + ttl) ∷ c;
  cache_del = del_entry;
  get-set_live = λ t t' ttl k v c h. rw (===_refl k, lt→ltb t' (t + ttl) h) refl;
  get-set_expired =
      λ t t' ttl k v c positive h. rw (===_refl k, le→ltb t' (t + ttl) (late t t' ttl h)) refl;
  get-set_ne = λ t t' ttl k j v c h. rw (===_ne k j h) refl;
  get-del_self = get-del_entry;
  get-del_ne = get-del_entry_ne;
  parse_number = λ s. nan;
  show_number = λ n. if is_finite n then "0" else "NaN";
  iso_string = λ t. "1970-01-01T00:00:00.000Z";
}

-- A collection that holds the documents of the list, the last one first.
abbrev pub holding : {D : Type 0} → List D → memory.Collection D
holding [] = record { next = zero; entries = []; below = tt }
holding (b ∷ bs) = (insert_doc b (holding bs)).1
