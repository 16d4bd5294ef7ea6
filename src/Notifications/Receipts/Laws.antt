-- ===== src/Notifications/Receipts/Laws.antt =====
-- Handling a notification.
use nexusflow_backend.Prelude.{
  ℕ, All-find, Bool, true, false, ◌&&◌, String, List, [], ◌∷◌, map, Option, none, some, find,
  is_some, ◌≡◌, refl, ◌⊎◌, inl, inr, All, ◌===◌, Bool-cases, Option-cases, arith, find-passes,
  eq_of_===,
}
use nexusflow_backend.Action.{HttpError, forbidden, not_found, Result, ok, err}
use nexusflow_backend.Platform.{Doc, Platform, edit}
use nexusflow_backend.Notifications.Schemas.{Notification, Incident, Store}
use nexusflow_backend.Notifications.Receipts.{
  handled, swept, acknowledged, is_pending_beside, get_owned_notification, acknowledge,
  mark_notification_handled,
}

-- The notification is about the incident and the user's.
abbrev pub concerns : String → String → Doc Notification → Bool
concerns user_id incident_id e = e.body.incident_id === incident_id && e.body.user_id === user_id

every_handled :
    (user_id : String) (now : ℕ) (d : Doc Notification) (ds : List (Doc Notification))
    → All
        (λ e. concerns user_id d.body.incident_id e ≡ true → is_some e.body.handled_at ≡ true)
        (map
          (edit (is_pending_beside user_id d) (swept now))
          (map (edit (λ e. e.id === d.id) (handled now)) ds))
every_handled user_id now d [] = tt
every_handled user_id now d (e ∷ ds) = elim (Bool-cases (e.id === d.id)) [
  | inl itself ↦ rw itself (λ h. ground arith, every_handled user_id now d ds)
  | inr other ↦ elim (Bool-cases (is_pending_beside user_id d e)) [
    | inl pending ↦ rw (other, pending) (λ h. refl, every_handled user_id now d ds)
    | inr done ↦ rw (other, done) (λ h. ground arith, every_handled user_id now d ds)
  ]
]

-- The incident is the one, and the user's.
abbrev pub is_incident : String → String → Doc Incident → Bool
is_incident user_id incident_id i = i.id === incident_id && i.body.user_id === user_id

every_acknowledged :
    (user_id id : String) (now : ℕ) (ds : List (Doc Incident))
    → All
        (λ i. is_incident user_id id i ≡ true → i.body.user_acknowledged_at ≡ some now)
        (map (edit (λ i. i.id === id) (acknowledged now)) ds)
every_acknowledged user_id id now [] = tt
every_acknowledged user_id id now (i ∷ ds) = elim (Bool-cases (i.id === id)) [
  | inl it ↦ rw it (λ h. refl, every_acknowledged user_id id now ds)
  | inr other ↦ rw other (λ h. ground arith, every_acknowledged user_id id now ds)
]

none_to_acknowledge :
    (user_id id : String) (now : ℕ) (ds : List (Doc Incident))
    → find (is_incident user_id id) ds ≡ none
    → All (λ i. is_incident user_id id i ≡ true → i.body.user_acknowledged_at ≡ some now) ds
none_to_acknowledge user_id id now [] h = tt
none_to_acknowledge user_id id now (i ∷ ds) h =
    (λ k. absurd (ground arith), none_to_acknowledge user_id id now ds (ground arith))

module _ ⦃p : Platform⦄ (user_id notification_id : String) (now : ℕ) where
  -- What handling promises: no notification of the user about the incident is pending, and the
  -- user's incident is acknowledged now.
  pub record IsHandled (s : Store p) (d : Doc Notification)
      (r : Result (Doc Notification) × Store p) : Type 0 where
    pub owned : (d.body.user_id === user_id) ≡ true
    pub answer : r.0 ≡ ok (record d { body = handled now d.body })
    pub none_pending :
        All
          (λ e. concerns user_id d.body.incident_id e ≡ true → is_some e.body.handled_at ≡ true)
          (p.docs r.1.notifications)
    pub rest : r.1 ≡ record s { notifications = r.1.notifications; incidents = r.1.incidents }
    pub found : find (λ e. e.id === notification_id) (p.docs s.notifications) ≡ some d
    pub seen :
        All
          (λ i.
            is_incident user_id d.body.incident_id i ≡ true
            → i.body.user_acknowledged_at ≡ some now)
          (p.docs r.1.incidents)

  -- Why a request to handle a notification is refused: its id is none, it is missing, or another
  -- user's.
  abbrev pub IsRefused : Store p → Type 0
  IsRefused s =
      (p.is_object_id notification_id ≡ false)
      ⊎ (find (λ e. e.id === notification_id) (p.docs s.notifications) ≡ none)
      ⊎ ((d : Doc Notification) × (find (λ e. e.id === notification_id) (p.docs s.notifications)
            ≡ some d)
          × ((d.body.user_id === user_id) ≡ false))

  owned_cases :
      (s : Store p)
      → ((e : HttpError) × IsRefused s
          × (get_owned_notification user_id notification_id s ≡ (err e, s)))
        ⊎ ((d : Doc Notification) × (get_owned_notification user_id notification_id s ≡ (ok d, s))
            × (find (λ e. e.id === notification_id) (p.docs s.notifications) ≡ some d)
            × ((d.body.user_id === user_id) ≡ true))
  unfolding get_owned_notification
  owned_cases s = elim (Bool-cases (p.is_object_id notification_id)) [
    | inr bad ↦
        inl (not_found "Notification not found.", inl bad, rw (get_owned_notification, bad) refl)
    | inl valid ↦
        elim (Option-cases (find (λ d. d.id === notification_id) (p.docs s.notifications))) [
          | inl missing ↦ inl (
            not_found "Notification not found.",
            inr (inl missing),
            rw (get_owned_notification, valid, missing) refl,
          )
          | inr (d, found) ↦ elim (Bool-cases (d.body.user_id === user_id)) [
            | inl mine ↦ inr (d, rw (get_owned_notification, valid, found, mine) refl, found, mine)
            | inr foreign ↦ inl (
              forbidden "You are not allowed to update this notification.",
              inr (inr (d, found, foreign)),
              rw (get_owned_notification, valid, found, foreign) refl,
            )
          ]
        ]
  ]

  acknowledged_after :
      (d : Doc Notification) (found : Option (Doc Incident)) (s : Store p)
      → find (is_incident user_id d.body.incident_id) (p.docs s.incidents) ≡ found
      → All
          (λ i.
            is_incident user_id d.body.incident_id i ≡ true
            → i.body.user_acknowledged_at ≡ some now)
          (p.docs (acknowledge now found s).incidents)
  acknowledged_after d none s h =
      none_to_acknowledge user_id d.body.incident_id now (p.docs s.incidents) h
  acknowledged_after d (some i) s h =
      let passes =
        find-passes (is_incident user_id d.body.incident_id) (p.docs s.incidents) {x = i} h in
      let same : i.id ≡ d.body.incident_id = eq_of_=== i.id d.body.incident_id (ground arith) in
      rw (p.docs-update_many (λ e. e.id === i.id) (acknowledged now) s.incidents, same)
        (every_acknowledged user_id d.body.incident_id now (p.docs s.incidents))

  -- If the incidents of the stored notifications are named by ids: a request to handle a
  -- notification throws and changes nothing only if its id is none, no stored notification has
  -- it, or the first that has it is another user's. Any other succeeds with that notification:
  -- none of the user about its incident is pending any more, the user's incident is acknowledged
  -- now, and nothing but notifications and incidents changes.
  pub mark_notification_handled_holds :
      (s : Store p)
      → All (λ d. p.is_object_id d.body.incident_id ≡ true) (p.docs s.notifications)
      → ((e : HttpError) × IsRefused s
          × (mark_notification_handled user_id notification_id now s ≡ (err e, s)))
        ⊎ ((d : Doc Notification) × IsHandled s d
              (mark_notification_handled user_id notification_id now s))
  unfolding mark_notification_handled
  mark_notification_handled_holds s ids = elim (owned_cases s) [
    | inl (e, why, refused) ↦ inl (e, why, rw (mark_notification_handled, refused) refl)
    | inr (d, owned, found, mine) ↦
        let valid =
          All-find (λ d. p.is_object_id d.body.incident_id ≡ true) (λ e. e.id === notification_id)
            (p.docs s.notifications) {x = d} found ids in
        let swept_all =
          p.docs-update_many (is_pending_beside user_id d) (swept now)
            (p.update_many (λ e. e.id === d.id) (handled now) s.notifications) in
        let handled_one = p.docs-update_many (λ e. e.id === d.id) (handled now) s.notifications in
        let pending = every_handled user_id now d (p.docs s.notifications) in
        elim (Option-cases (find (is_incident user_id d.body.incident_id) (p.docs s.incidents))) [
          | inl missing ↦ inr (
            d,
            rw (mark_notification_handled, owned, valid, missing)
                (record {
                  owned = mine;
                  answer = refl;
                  found = found;
                  rest = refl;
                  none_pending = rw (swept_all, handled_one) pending;
                  seen = acknowledged_after d none s missing;
                }),
          )
          | inr (i, there) ↦ inr (
            d,
            rw (mark_notification_handled, owned, valid, there)
                (record {
                  owned = mine;
                  answer = refl;
                  found = found;
                  rest = refl;
                  none_pending = rw (swept_all, handled_one) pending;
                  seen = acknowledged_after d (some i) s there;
                }),
          )
        ]
  ]
