-- ===== src/Flows/Logic/Routes.antt =====
-- What the paths of the logic look like, and that their search ends.
use nexusflow_backend.Prelude.{
  ℕ, ◌<◌, ◌≤◌, Bool, true, false, not, ◌&&◌, String, List, [], ◌∷◌, some, ◌≡◌, refl, ap, arith, All,
  All-map, any, select, length, length-select-le, if◌then◌else◌, Bool-cases, Option-cases, inl, inr,
  ◌===◌, eq_of_===, ===_refl, ===_sym,
}
use nexusflow_backend.Flows.Schemas.{Edge}
use nexusflow_backend.Flows.Logic.Steps.{function, Handle}
use nexusflow_backend.Flows.Logic.Paths.{LogicPath, node_by_id, outgoing}
use nexusflow_backend.Flows.Logic.Build.{is_output_step}

abbrev pub visits : List String → String → Bool
visits visited id = any (λ seen. seen === id) visited

module _ (edges : List Edge) where
  -- An edge leads from one node to the other.
  abbrev pub IsLinked : String → String → Type 0
  IsLinked from to = any (λ (e : Edge). e.source === from && e.target === to) edges ≡ true

  -- From a node along edges, through functions that were not visited before, to one output at the
  -- end.
  abbrev pub IsRoute : String → List String → LogicPath → Type 0
  IsRoute from visited [] = ⊥
  IsRoute from visited (step ∷ []) = IsLinked from step.id × (is_output_step step ≡ true)
  IsRoute from visited (step ∷ next ∷ rest) =
      IsLinked from step.id
      × (step.step_type ≡ function)
      × (visits visited step.id ≡ false)
      × IsRoute step.id (step.id ∷ visited) (next ∷ rest)

All-if :
    {A : Type 0} (P : A → Type 0) (b : Bool) (x : A) (xs : List A)
    → (b ≡ true → P x)
    → All P xs
    → All P (if b then x ∷ xs else xs)
All-if P true x xs h k = (h refl, k)
All-if P false x xs h k = k

pub IsLinked-outgoing :
    (from : String) (es : List Edge)
    → All (λ (e : Edge). IsLinked es from e.target) (outgoing es from)
IsLinked-outgoing from [] = tt
IsLinked-outgoing from (e ∷ es) =
    let later =
      All-map (λ (x : Edge). IsLinked es from x.target)
        (λ (x : Edge). IsLinked (e ∷ es) from x.target) (outgoing es from) (λ x h. ground arith)
        (IsLinked-outgoing from es) in
    All-if (λ (x : Edge). IsLinked (e ∷ es) from x.target) (e.source === from) e (outgoing es from)
      (λ leaves. rw (leaves, ===_refl e.target) refl) later

pub node_by_id-same :
    (hs : List Handle) (id : String) (h : Handle) → node_by_id hs id ≡ some h → h.node.id ≡ id
unfolding node_by_id
node_by_id-same [] id h e = absurd (cc)
node_by_id-same (x ∷ hs) id h e = elim (Option-cases (node_by_id hs id)) [
  | inr (y, later) ↦ node_by_id-same hs id h (ground arith)
  | inl missing ↦ ground (arith, eq_of_=== x.node.id id)
]

abbrev pub IsNode : List Handle → String → Type 0
IsNode handles id = any (λ (x : Handle). x.node.id === id) handles ≡ true

pub node_by_id-IsNode :
    (hs : List Handle) (id : String) (h : Handle) → node_by_id hs id ≡ some h → IsNode hs h.node.id
unfolding node_by_id
node_by_id-IsNode [] id h e = absurd (cc)
node_by_id-IsNode (x ∷ hs) id h e = elim (Option-cases (node_by_id hs id)) [
  | inr (y, later) ↦ ground (arith, node_by_id-IsNode hs id h)
  | inl missing ↦ ground (arith, ===_refl h.node.id)
]

-- How many nodes were not visited yet.
pub unvisited : List Handle → List String → ℕ
unvisited handles visited = length (select (λ (x : Handle). not (visits visited x.node.id)) handles)

unvisited_mono :
    (hs : List Handle) (id : String) (visited : List String)
    → unvisited hs (id ∷ visited) ≤ unvisited hs visited
unfolding unvisited
unvisited_mono [] id visited = omega arith
unvisited_mono (x ∷ hs) id visited = ground (arith, unvisited_mono hs id visited)

pub unvisited-lt :
    (hs : List Handle) (id : String) (visited : List String)
    → IsNode hs id
    → visits visited id ≡ false
    → unvisited hs (id ∷ visited) < unvisited hs visited
unfolding unvisited
unvisited-lt [] id visited h k = absurd (cc)
unvisited-lt (x ∷ hs) id visited h k = elim (Bool-cases (x.node.id === id)) [
  | inl here ↦
      let same = eq_of_=== x.node.id id here in
      ground (
        arith,
        unvisited_mono hs id visited,
        ===_refl id,
        ap (visits visited) same,
        ap (λ s. id === s) same,
      )
  | inr there ↦ ground (arith, unvisited-lt hs id visited, ===_sym x.node.id id)
]

pub unvisited-le : (handles : List Handle) → unvisited handles [] ≤ length handles
unfolding unvisited
unvisited-le handles = length-select-le (λ (x : Handle). not (visits [] x.node.id)) handles
