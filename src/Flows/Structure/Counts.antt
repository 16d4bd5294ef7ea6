-- ===== src/Flows/Structure/Counts.antt =====
-- The connections that are counted for each node.
use nexusflow_backend.Prelude.{
  ℕ, suc, ◌+◌, ◌≤◌, ◌≡◌, true, String, List, [], ◌∷◌, some, ◌≢◌, ◌===◌, ===_refl, eq_of_===,
  ===_sym, length, select, if◌then◌else◌, arith, inl, inr, subst, not, false, ◌&&◌, Bool-cases,
  get_or, none, refl, Bool,
}
use nexusflow_backend.Action.{ok}
use nexusflow_backend.Flows.Schemas.{Node, Edge}
use nexusflow_backend.Flows.Structure.{
  count_up, bump, Count, is_inherited, connection_counts, reject_connected_twice, check_counts,
}

-- The edges that end at a node.
abbrev pub into : String → List Edge → List Edge
into target = select (λ (e : Edge). e.target === target)

-- The count that is kept for a key, 0 for NaN.
pub counted : String → List (String × Count) → ℕ
counted target [] = 0
counted target ((key, count) ∷ rest) =
    if key === target then get_or count 0 else counted target rest

-- An object has a number of its own for the key as soon as it is counted.
abbrev pub is_counted : String → Bool
is_counted key = not (is_inherited key) && not (key === "__proto__")

counted-bump :
    (t u : String) (counts : List (String × Count))
    → is_inherited u ≡ false
    → counted u (bump t counts) ≡ (if t === u then suc (counted u counts) else counted u counts)
unfolding counted bump
counted-bump t u [] plain = elim (Bool-cases (t === u)) [
  | inl same ↦ rw (eq_of_=== t u same, plain, ===_refl u) refl
  | inr other ↦ rw other refl
]
counted-bump t u ((key, none) ∷ rest) plain = ground (
  arith,
  eq_of_=== key t,
  eq_of_=== key u,
  eq_of_=== t u,
  ===_refl key,
  ===_sym key t,
  ===_sym t u,
  counted-bump t u rest plain,
)
counted-bump t u ((key, some count) ∷ rest) plain = ground (
  arith,
  eq_of_=== key t,
  eq_of_=== key u,
  eq_of_=== t u,
  ===_refl key,
  ===_sym key t,
  ===_sym t u,
  counted-bump t u rest plain,
)

neither : (a b : Bool) → (not a && not b) ≡ true → (a ≡ false) × (b ≡ false)
neither false false h = (refl, refl)
neither false true h = absurd (cc)
neither true b h = absurd (cc)

counted-count_up :
    (t u : String) (counts : List (String × Count))
    → is_counted u ≡ true
    → counted u (count_up t counts) ≡ (if t === u then suc (counted u counts) else counted u counts)
unfolding count_up
counted-count_up t u counts plain =
    let (own, other_name) = neither (is_inherited u) (u === "__proto__") plain in
    elim (Bool-cases (t === "__proto__")) [
      | inr kept ↦ rw kept (counted-bump t u counts own)
      | inl ignored ↦ elim (Bool-cases (t === u)) [
        | inr other ↦ rw (ignored, other) refl
        | inl same ↦
            let as_u = subst (λ v. (v === "__proto__") ≡ true) (eq_of_=== t u same) ignored in
            absurd (cc)
      ]
    ]

counted-connection_counts :
    (u : String) (es : List Edge) (counts : List (String × Count))
    → is_counted u ≡ true
    → counted u (connection_counts es counts) ≡ length (into u es) + counted u counts
unfolding connection_counts
counted-connection_counts u [] counts plain = omega arith
counted-connection_counts u (e ∷ es) counts plain = ground (
  arith,
  counted-connection_counts u es (count_up e.target counts) plain,
  counted-count_up e.target u counts plain,
)

pub enters :
    (edges : List Edge) (id : String)
    → is_counted id ≡ true
    → counted id (connection_counts edges []) ≤ 1
    → length (into id edges) ≤ 1
unfolding counted
enters edges id plain h = omega (arith, counted-connection_counts id edges [] plain)

module _ {S : Type 0} where
  rejects :
      (nodes : List Node) (id : String) (s s' : S) {u : Unit {0}}
      → reject_connected_twice nodes id s ≢ (ok u, s')
  unfolding reject_connected_twice
  rejects nodes id s s' h = ground arith

  pub check_counts_ok :
      (nodes : List Node) (counts : List (String × Count)) (u : String) (s s' : S) {r : Unit {0}}
      → check_counts nodes counts s ≡ (ok r, s')
      → (counted u counts ≤ 1) × (s' ≡ s)
  unfolding check_counts counted
  check_counts_ok nodes [] u s s' h = ground arith
  check_counts_ok nodes ((id, none) ∷ rest) u s s' {r} h =
      ground (arith, check_counts_ok nodes rest u s s' {r = r})
  check_counts_ok nodes ((id, some count) ∷ rest) u s s' {r} h =
      ground (arith, rejects nodes id s s' {u = r}, check_counts_ok nodes rest u s s' {r = r})
