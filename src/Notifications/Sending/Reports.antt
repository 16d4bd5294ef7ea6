-- ===== src/Notifications/Sending/Reports.antt =====
-- Which tokens Firebase reports dead, and that `sendAlertToFlowOwner` collects exactly these.
use nexusflow_backend.Prelude.{
  Some, ◌≡◌, refl, ap, ◌∙◌, sym, subst, true, false, not, ◌&&◌, String, List, [], ◌∷◌, any,
  distinct_from, All, All-append, All-map, arith, ◌===◌, eq_of_===, ===_refl, Bool-cases, ◌⊎◌, inl,
  inr, is_empty, any-append,
}
use nexusflow_backend.Action.{HttpError, Result, ok, err}
use nexusflow_backend.Platform.{Platform}
use nexusflow_backend.Notifications.Sending.{
  SendResponse, BatchResponse, MulticastMessage, Push, Progress, collect_dead_tokens, is_dead,
  message_for, send_batches, added,
}

-- The text is one of the tokens.
abbrev pub IsOneOf : List String → String → Type 0
IsOneOf tokens t = any (λ x. t === x) tokens ≡ true

-- The answer at the place of the token says that it is dead.
abbrev pub IsReportedDead : List String → List SendResponse → String → Type 0
IsReportedDead (t ∷ ts) (r ∷ rs) u = ((t ≡ u) × (is_dead r ≡ true)) ⊎ IsReportedDead ts rs u
IsReportedDead [] rs u = ⊥
IsReportedDead _ [] u = ⊥

pub reported-All :
    (P : String → Type 0) (ts : List String) (rs : List SendResponse) {u : String}
    → All P ts
    → IsReportedDead ts rs u
    → P u
reported-All P [] rs h dead = absurd dead
reported-All P (t ∷ ts) [] h dead = absurd dead
reported-All P (t ∷ ts) (r ∷ rs) h (inl (same, dead)) = subst P same h.0
reported-All P (t ∷ ts) (r ∷ rs) h (inr later) = reported-All P ts rs h.1 later

collected_reported :
    (ts : List String) (rs : List SendResponse)
    → All (IsReportedDead ts rs) (collect_dead_tokens ts rs)
unfolding collect_dead_tokens
collected_reported [] rs = tt
collected_reported (t ∷ ts) [] = tt
collected_reported (t ∷ ts) (r ∷ rs) =
    let later =
      All-map (IsReportedDead ts rs) (IsReportedDead (t ∷ ts) (r ∷ rs)) (collect_dead_tokens ts rs)
        (λ u. inr) (collected_reported ts rs) in
    elim (Bool-cases (is_dead r && not (is_empty t))) [
      | inl dead ↦ rw dead (inl (refl, ground arith), later)
      | inr alive ↦ rw alive later
    ]

reported_collected :
    (ts : List String) (rs : List SendResponse) (u : String)
    → is_empty u ≡ false
    → IsReportedDead ts rs u
    → IsOneOf (collect_dead_tokens ts rs) u
unfolding collect_dead_tokens
reported_collected [] rs u given dead = absurd dead
reported_collected (t ∷ ts) [] u given dead = absurd dead
reported_collected (t ∷ ts) (r ∷ rs) u given (inl (same, dead)) =
    let here : (is_dead r && not (is_empty t)) ≡ true = rw (same, dead, given) refl in
    rw here (rw (same, ===_refl u) refl)
reported_collected (t ∷ ts) (r ∷ rs) u given (inr later) =
    elim (Bool-cases (is_dead r && not (is_empty t))) [
      | inl dead ↦ rw dead (ground (arith, reported_collected ts rs u given later))
      | inr alive ↦ rw alive (reported_collected ts rs u given later)
    ]

pub distinct_keeps :
    (seen ts : List String) (u : String)
    → IsOneOf ts u
    → any (λ x. u === x) seen ≡ false
    → IsOneOf (distinct_from ◌===◌ seen ts) u
distinct_keeps seen [] u h new = absurd (ground arith)
distinct_keeps seen (t ∷ ts) u h new = elim (Bool-cases (u === t)) [
  | inl same ↦
      let unseen : any (λ x. t === x) seen ≡ false =
        subst (λ v. any (λ x. v === x) seen ≡ false) (eq_of_=== u t same) new in
      rw unseen (rw same refl)
  | inr other ↦ elim (Bool-cases (any (λ x. t === x) seen)) [
    | inl is_seen ↦ rw is_seen (distinct_keeps seen ts u (ground arith) new)
    | inr is_new ↦
        rw is_new
          (let rest = distinct_keeps (t ∷ seen) ts u (ground arith) (ground arith) in ground arith)
  ]
]

ok-injective : {a b : BatchResponse} → ◌≡◌ {A = Result BatchResponse} (ok a) (ok b) → a ≡ b
ok-injective {a} h = ap (λ r. answer_or a r) h
  where
    answer_or : BatchResponse → Result BatchResponse → BatchResponse
    answer_or a (ok b) = b
    answer_or a (err e) = a

module _ ⦃p : Platform⦄ (send : MulticastMessage → Result BatchResponse) (push : Push) where
  -- Firebase answered the message for the batch, and reports the token dead at its place.
  abbrev pub IsDeadIn : List String → String → Type 0
  IsDeadIn batch u =
      (result : BatchResponse) × (send (message_for push batch) ≡ ok result)
      × IsReportedDead batch result.responses u

  -- A loop that ends well had an answer for its first batch, and went on.
  answered :
      (b : List String) (bs : List (List String)) (done done' : Progress)
      → send_batches send push (b ∷ bs) done ≡ ok done'
      → (result : BatchResponse) × (send (message_for push b) ≡ ok result)
        × (send_batches send push bs (added done b result) ≡ ok done')
  unfolding send_batches
  answered b bs done done' h = by_answer (send (message_for push b)) refl h
    where
      by_answer :
          (r : Result BatchResponse)
          → send (message_for push b) ≡ r
          → (elim r [ err e ↦ err e | ok result ↦ send_batches send push bs (added done b result) ])
            ≡ ok done'
          → (result : BatchResponse) × (send (message_for push b) ≡ ok result)
            × (send_batches send push bs (added done b result) ≡ ok done')
      by_answer (err e) answer m = absurd (cc m)
      by_answer (ok result) answer m = (result, answer, m)

  first_or_later :
      (b : List String) (bs : List (List String)) (done : Progress) (e : HttpError)
      → send_batches send push (b ∷ bs) done ≡ err e
      → (send (message_for push b) ≡ err e)
        ⊎ ((result : BatchResponse) × (send_batches send push bs (added done b result) ≡ err e))
  unfolding send_batches
  first_or_later b bs done e h = by_answer (send (message_for push b)) refl h
    where
      by_answer :
          (r : Result BatchResponse)
          → send (message_for push b) ≡ r
          → (elim r [ err x ↦ err x | ok result ↦ send_batches send push bs (added done b result) ])
            ≡ err e
          → (send (message_for push b) ≡ err e)
            ⊎ ((result : BatchResponse) × (send_batches send push bs (added done b result) ≡ err e))
      by_answer (err x) answer m = inl (answer ∙ ap (rejection x) m)
        where
          rejection : HttpError → Result Progress → Result BatchResponse
          rejection x (err y) = err y
          rejection x (ok p) = err x
      by_answer (ok result) answer m = inr (result, m)

  -- A loop that fails had a batch rejected.
  pub rejected :
      (bs : List (List String)) (done : Progress) (e : HttpError)
      → send_batches send push bs done ≡ err e
      → Some (λ b. send (message_for push b) ≡ err e) bs
  unfolding send_batches
  rejected [] done e h = absurd (cc h)
  rejected (b ∷ bs) done e h = elim (first_or_later b bs done e h) [
    | inl first ↦ inl first
    | inr (result, later) ↦ inr (rejected bs (added done b result) e later)
  ]

  -- What the loop collects was reported.
  pub collected :
      (Q : String → Type 0) (bs : List (List String)) (done done' : Progress)
      → send_batches send push bs done ≡ ok done'
      → All (λ b. (u : String) → IsDeadIn b u → Q u) bs
      → All Q done.dead_tokens
      → All Q done'.dead_tokens
  unfolding send_batches
  collected Q [] done done' h k q =
      let same : done ≡ done' = ground arith in subst (λ d. All Q d.dead_tokens) same q
  collected Q (b ∷ bs) done done' h k q =
      let (result, answer, m) = answered b bs done done' h in
      let dead = collect_dead_tokens b result.responses in
      collected Q bs (added done b result) done' m k.1 (
        All-append Q done.dead_tokens dead q (
          All-map (IsReportedDead b result.responses) Q dead
            (λ u reported. k.0 u (result, answer, reported))
            (collected_reported b result.responses)))

  -- What is reported is collected.
  pub every_collected :
      (bs : List (List String)) (done done' : Progress) (u : String)
      → send_batches send push bs done ≡ ok done'
      → is_empty u ≡ false
      → (IsOneOf done.dead_tokens u → IsOneOf done'.dead_tokens u)
        × All (λ b. IsDeadIn b u → IsOneOf done'.dead_tokens u) bs
  unfolding send_batches
  every_collected [] done done' u h given =
      let same : done ≡ done' = ground arith in
      (λ k. subst (λ d. IsOneOf d.dead_tokens u) same k, tt)
  every_collected (b ∷ bs) done done' u h given =
      let (result, answer, m) = answered b bs done done' h in
      let dead = collect_dead_tokens b result.responses in
      let (kept, rest) = every_collected bs (added done b result) done' u m given in
      let joined = any-append (λ x. u === x) done.dead_tokens dead in
      (
        λ k. kept (ground arith),
        (
          λ (result', answer', reported).
              let same : result' ≡ result = ok-injective (sym answer' ∙ answer) in
              let there =
                reported_collected b result.responses u given
                  (subst (λ r. IsReportedDead b r.responses u) same reported) in
              kept (ground arith),
          rest,
        ),
      )
