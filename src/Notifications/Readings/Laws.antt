-- ===== src/Notifications/Readings/Laws.antt =====
-- What a reading does to the incidents, and when it does nothing.
use nexusflow_backend.Prelude.{
  ℕ, ◌≡◌, refl, false, not, ◌||◌, String, List, [], ◌∷◌, some, Number, Bool-cases, Option-cases,
  inl, inr, get_or, is_empty, trim, ◌⧺◌,
}
use nexusflow_backend.Action.{Result, ok, err, continue, Action, pure}
use nexusflow_backend.Platform.{Doc, Platform}
use nexusflow_backend.Notifications.Schemas.{AlertRule, Store}
use nexusflow_backend.Notifications.Condition.{matches_operator}
use nexusflow_backend.Notifications.Cooldown.{TriggerConfig, should_trigger_rule}
use nexusflow_backend.Notifications.Policy.{normalize_reading_key}
use nexusflow_backend.Notifications.Payload.{entry}
use nexusflow_backend.Notifications.Sending.{Firebase, get_flow_owner_id}
use nexusflow_backend.Notifications.Alerts.Open.{HasOneOpen, fire_alert_from_rule-HasOneOpen}
use nexusflow_backend.Notifications.Readings.{
  Reading, Counts, no_rules, Verdict, counted, finite_reading, rule_bounds, notifications_enabled,
  verdict_of, evaluate_rule, process_rules, rules_for, process_sensor_reading,
}

module _ ⦃p : Platform⦄ where
  pub continue-pure_keeps :
      {A B : Type 0} (f : A → B) (r : Result A) (s : Store p)
      → HasOneOpen s
      → HasOneOpen (continue r (λ a. pure (f a)) s).1
  continue-pure_keeps f (ok a) s h = h
  continue-pure_keeps f (err e) s h = h

module _ ⦃p : Platform⦄ (firebase : Firebase) (config : TriggerConfig) (wall : ℕ) where
  -- A reading comes to nothing, or is held against the rules.
  process_cases {ℓ} :
      (P : Result Counts × Store p → Type ℓ) (reading : Reading) (s : Store p)
      → P (ok no_rules, s)
      → P (
          process_rules firebase config wall reading
            (get_or reading.occurred_at wall)
            (rules_for reading s)
            no_rules
            s)
      → P (process_sensor_reading firebase config wall reading s)
  unfolding process_sensor_reading
  process_cases P reading s nothing rules =
      elim (Bool-cases (not (p.is_object_id reading.flow_id) || is_empty (trim reading.node_id))) [
        | inl refused ↦ rw (process_sensor_reading, refused) nothing
        | inr read ↦ elim (Option-cases (get_flow_owner_id reading.flow_id s)) [
          | inl missing ↦ rw (process_sensor_reading, read, missing) nothing
          | inr (user_id, found) ↦
              elim (Bool-cases (notifications_enabled reading.flow_id user_id s)) [
                | inl on ↦ rw (process_sensor_reading, read, found, on) rules
                | inr off ↦ rw (process_sensor_reading, read, found, off) nothing
              ]
        ]
      ]

  evaluate_rule-HasOneOpen :
      (reading : Reading) (occurred_at : ℕ) (d : Doc AlertRule) (value : Number) (s : Store p)
      → HasOneOpen s
      → HasOneOpen (evaluate_rule firebase config wall reading occurred_at d value s).1
  unfolding evaluate_rule
  evaluate_rule-HasOneOpen reading occurred_at d value s h =
      let (fires, triggers) =
        should_trigger_rule config wall (reading.flow_id ⧺ ":" ⧺ d.id) d.body.module_id occurred_at
          s.triggers in
      elim (Bool-cases (matches_operator d.body.operator value (rule_bounds d.body))) [
        | inr fails ↦ rw (evaluate_rule, fails) h
        | inl matched ↦ elim (Bool-cases fires) [
          | inr waits ↦ rw (evaluate_rule, matched, waits) h
          | inl due ↦
              rw (evaluate_rule, matched, due)
                (continue-pure_keeps verdict_of _ _ (
                  fire_alert_from_rule-HasOneOpen firebase wall _ (record s { triggers = triggers })
                    h))
        ]
      ]

  continue-HasOneOpen :
      (r : Result Verdict) (s : Store p) (f : Verdict → Action (Store p) Counts)
      → HasOneOpen s
      → ((v : Verdict) (s : Store p) → HasOneOpen s → HasOneOpen (f v s).1)
      → HasOneOpen (continue r f s).1
  continue-HasOneOpen (ok v) s f h k = k v s h
  continue-HasOneOpen (err e) s f h k = h

  process_rules-HasOneOpen :
      (reading : Reading) (occurred_at : ℕ) (ds : List (Doc AlertRule)) (c : Counts) (s : Store p)
      → HasOneOpen s
      → HasOneOpen (process_rules firebase config wall reading occurred_at ds c s).1
  unfolding process_rules
  process_rules-HasOneOpen reading occurred_at [] c s h = h
  process_rules-HasOneOpen reading occurred_at (d ∷ ds) c s h =
      elim (Option-cases
        (finite_reading (entry (normalize_reading_key d.body.reading_key) reading.readings))) [
          | inl missing ↦
              rw (process_rules, missing) (process_rules-HasOneOpen reading occurred_at ds c s h)
          | inr (value, given) ↦
              rw (process_rules, given)
                (continue-HasOneOpen
                  (evaluate_rule firebase config wall reading occurred_at d value s).0
                  (evaluate_rule firebase config wall reading occurred_at d value s).1
                  (λ v. process_rules firebase config wall reading occurred_at ds (counted v c))
                  (evaluate_rule-HasOneOpen reading occurred_at d value s h)
                  (λ v s' h'. process_rules-HasOneOpen reading occurred_at ds (counted v c) s' h'))
        ]

  -- A sensor reading keeps the invariant that no subject has more than one open incident, also
  -- where sending fails half way through the rules.
  pub process_sensor_reading-HasOneOpen :
      (reading : Reading) (s : Store p)
      → HasOneOpen s
      → HasOneOpen (process_sensor_reading firebase config wall reading s).1
  process_sensor_reading-HasOneOpen reading s h =
      process_cases (λ r. HasOneOpen r.1) reading s h
        (process_rules-HasOneOpen reading (get_or reading.occurred_at wall) (rules_for reading s)
          no_rules s h)

  pub process_off :
      (reading : Reading) (user_id : String) (s : Store p)
      → get_flow_owner_id reading.flow_id s ≡ some user_id
      → notifications_enabled reading.flow_id user_id s ≡ false
      → process_sensor_reading firebase config wall reading s ≡ (ok no_rules, s)
  unfolding process_sensor_reading
  process_off reading user_id s owner off =
      elim (Bool-cases (not (p.is_object_id reading.flow_id) || is_empty (trim reading.node_id))) [
        | inl refused ↦ rw (process_sensor_reading, refused) refl
        | inr read ↦ rw (process_sensor_reading, read, owner, off) refl
      ]
