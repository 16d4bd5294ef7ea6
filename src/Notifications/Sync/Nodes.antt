-- ===== src/Notifications/Sync/Nodes.antt =====
-- Rules for the nodes of a flow, and those for nodes that are gone.
use nexusflow_backend.Prelude.{
  ℕ, Bool, true, false, not, ◌&&◌, String, List, [], ◌∷◌, any, select, ◌≡◌, refl, ◌∙◌, sym, inl,
  inr, ◌===◌, Bool-cases, arith, All, ===_refl,
}
use nexusflow_backend.Platform.{Doc, Platform}
use nexusflow_backend.Notifications.Schemas.{AlertPolicy, AlertRule, Store}
use nexusflow_backend.Notifications.Sync.{
  SyncNode, is_rule_of, has_node, default_rule, without_stale,
}

module _ (flow_id user_id : String) (nodes : List SyncNode) where
  -- A rule of the flow and the user is for one of the nodes.
  abbrev pub IsOnNode : AlertRule → Type 0
  IsOnNode r =
      (r.flow_id === flow_id && r.user_id === user_id) ≡ true → has_node nodes r.node_id ≡ true

  abbrev pub stale_of : List (Doc AlertRule) → List (Doc AlertRule)
  stale_of ds =
      select (λ d. not (has_node nodes d.body.node_id)) (select (is_rule_of flow_id user_id) ds)

  any_or :
      (f : Doc AlertRule → Bool) (x : Doc AlertRule) (xs : List (Doc AlertRule))
      → any f xs ≡ true
      → any f (x ∷ xs) ≡ true
  any_or f x xs h = ground arith

  -- Every stale document is among the stale ones by its id.
  stale_there :
      (before ds : List (Doc AlertRule))
      → ((f : Doc AlertRule → Bool) → any f (stale_of ds) ≡ true → any f before ≡ true)
      → All (λ d. any (λ e. e.id === d.id) before ≡ false → IsOnNode d.body) ds
  stale_there before [] h = tt
  stale_there before (d ∷ ds) h = elim (Bool-cases (is_rule_of flow_id user_id d)) [
    | inr foreign ↦ (
      λ kept mine. absurd (differs (sym mine ∙ foreign)),
      stale_there before ds (λ f k. h f (rw foreign k)),
    )
    | inl mine ↦ elim (Bool-cases (has_node nodes d.body.node_id)) [
      | inl there ↦ (λ kept _. there, stale_there before ds (λ f k. h f (rw (mine, there) k)))
      | inr gone ↦ (
        λ kept _. absurd (
            differs
              (sym (h (λ e. e.id === d.id) (rw (mine, gone) (rw (===_refl d.id) refl))) ∙ kept)),
        stale_there before ds (λ f k. h f (rw (mine, gone) (any_or f d (stale_of ds) k))),
      )
    ]
  ]
    where
      differs : true ≡ false → ⊥
      differs e = cc

  All-kept :
      (gone : Doc AlertRule → Bool) (ds : List (Doc AlertRule))
      → All (λ d. gone d ≡ false → IsOnNode d.body) ds
      → All (λ d. IsOnNode d.body) (select (λ d. not (gone d)) ds)
  All-kept gone [] h = tt
  All-kept gone (d ∷ ds) h = elim (Bool-cases (gone d)) [
    | inl goes ↦ rw goes (All-kept gone ds h.1)
    | inr stays ↦ rw stays (h.0 stays, All-kept gone ds h.1)
  ]

  module _ ⦃p : Platform⦄ (now : ℕ) where
    pub without_stale-IsOnNode :
        (s : Store p)
        → All (λ d. IsOnNode d.body) (p.docs (without_stale flow_id user_id now nodes s))
    without_stale-IsOnNode s =
        rw (p.docs-delete_many (λ d. any (λ e. e.id === d.id) (stale_of (p.docs s.rules))) s.rules)
          (All-kept (λ d. any (λ e. e.id === d.id) (stale_of (p.docs s.rules))) (p.docs s.rules)
            (stale_there (stale_of (p.docs s.rules)) (p.docs s.rules) (λ f k. k)))

    pub default_rule-IsOnNode :
        (node : SyncNode) (policy : AlertPolicy)
        → has_node nodes node.node_id ≡ true
        → IsOnNode (default_rule flow_id user_id now node policy)
    unfolding default_rule
    default_rule-IsOnNode node policy h mine = h

  pub every_there :
      (before ns : List SyncNode)
      → ((f : SyncNode → Bool) → any f ns ≡ true → any f before ≡ true)
      → All (λ n. has_node before n.node_id ≡ true) ns
  every_there before [] h = tt
  every_there before (n ∷ ns) h = (
    h (λ m. m.node_id === n.node_id) (rw (===_refl n.node_id) refl),
    every_there before ns (λ f k. h f (behind f n ns k)),
  )
    where
      behind :
          (f : SyncNode → Bool) (n : SyncNode) (ns : List SyncNode)
          → any f ns ≡ true
          → any f (n ∷ ns) ≡ true
      behind f n ns k = ground arith
