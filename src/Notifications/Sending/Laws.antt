-- ===== src/Notifications/Sending/Laws.antt =====
-- Sending a message to the phones of a user: the batches, and the tokens that Firebase rejects.
use nexusflow_backend.Prelude.{
  subst, ◌⊎◌, ℕ, zero, suc, ◌<◌, ◌≡◌, refl, ap, Bool, String, List, [], ◌∷◌, map, length, any,
  distinct, distinct_from, All, All-map, arith, ◌===◌, ===_refl, Bool-cases, Option-cases, inl, inr,
  ◌&&◌, is_empty, some, Some, false, All-split,
}
use nexusflow_backend.Action.{HttpError, Result, ok, err, continue}
use nexusflow_backend.Notifications.Sending.Batches.{
  concat, IsBatch, concat-batches, IsBatch-batches,
}
use nexusflow_backend.Notifications.Sending.Reports.{
  IsOneOf, rejected, reported-All, distinct_keeps, IsDeadIn, collected, every_collected,
}
use nexusflow_backend.Platform.{Doc, Platform, edit}
use nexusflow_backend.Notifications.Schemas.{NotificationDeviceToken, Store}
use nexusflow_backend.Notifications.Sending.{
  batches, create_token_batches, Firebase, Push, Progress, send_batches, invalidated,
  invalidate_device_tokens, active_tokens, get_flow_owner_id, send_to_tokens,
  send_alert_to_flow_owner, get_messaging_client, message_for, is_given, finish, nothing_yet,
  nothing_sent, Delivery,
}

-- The batches of any tokens, of a size above zero, are the tokens cut in order, each batch with
-- at least one token and at most as many as the size.
pub create_token_batches_cut :
    (tokens : List String) (size : ℕ)
    → 0 < size
    → (concat (create_token_batches tokens size) ≡ tokens)
      × All (IsBatch size) (create_token_batches tokens size)
unfolding create_token_batches
create_token_batches_cut tokens zero h = absurd (omega arith)
create_token_batches_cut tokens (suc size) h = (
  concat-batches (length tokens) size tokens (omega arith),
  IsBatch-batches (length tokens) size tokens,
)

module _ (P : String → Type 0) where
  All-distinct : (seen ts : List String) → All P ts → All P (distinct_from ◌===◌ seen ts)
  All-distinct seen [] h = tt
  All-distinct seen (t ∷ ts) h = elim (Bool-cases (any (λ x. t === x) seen)) [
    | inl is_seen ↦ rw is_seen (All-distinct seen ts h.1)
    | inr is_new ↦ rw is_new (h.0, All-distinct (t ∷ seen) ts h.1)
  ]

each_own : (ts : List String) → All (IsOneOf ts) ts
each_own [] = tt
each_own (t ∷ ts) = (
  rw (===_refl t) refl,
  All-map (IsOneOf ts) (IsOneOf (t ∷ ts)) ts (λ u h. ground arith) (each_own ts),
)

within : (P : String → Type 0) (bs : List (List String)) → All P (concat bs) → All (All P) bs
within P [] h = tt
within P (b ∷ bs) h = let (first, later) = All-split P b (concat bs) h in (first, within P bs later)

-- What holds of each element holds of some element of the list, for every element.
each_of_its_own :
    {A B : Type 0} (xs : List A) (P : A → B → Type 0)
    → All (λ x. (u : B) → P x u → Some (λ y. P y u) xs) xs
each_of_its_own [] P = tt
each_of_its_own (x ∷ xs) P =
    (λ u. inl, All-map _ _ xs (λ y h u k. inr (h u k)) (each_of_its_own xs P))

module _ ⦃p : Platform⦄ (firebase : Firebase) (push : Push) (now : ℕ) where
  -- A document whose token is among the dead ones and is active.
  abbrev pub goes : List String → Doc NotificationDeviceToken → Bool
  goes dead d = any (λ t. t === d.body.fcm_token) dead && d.body.is_active

  none_goes :
      (ds : List (Doc NotificationDeviceToken)) → ds ≡ map (edit (goes []) (invalidated now)) ds
  none_goes [] = refl
  none_goes (d ∷ ds) = ap (λ r. d ∷ r) (none_goes ds)

  abbrev batches_of : List String → List (List String)
  batches_of tokens = create_token_batches tokens 500

  abbrev has_credentials : Bool
  has_credentials =
      is_given firebase.project_id
      && is_given firebase.client_email
      && is_given firebase.private_key

  -- What is left after sending to some tokens: if it succeeds, exactly those that Firebase reported
  -- dead, all of them sent to, are invalidated, and nothing happens if it fails.
  pub record IsSent (tokens : List String) (before : Store p) (r : Result Delivery × Store p)
      : Type 0 where
    pub dead : List String
    pub sent : All (IsOneOf tokens) dead
    pub reported :
        All (λ u. Some (λ b. IsDeadIn firebase.send_each push b u) (batches_of tokens)) dead
    pub complete :
        {d : Delivery}
        → r.0 ≡ ok d
        → (u : String) → is_empty u ≡ false
        → All (λ b. IsDeadIn firebase.send_each push b u → IsOneOf dead u) (batches_of tokens)
    pub failed :
        {e : HttpError}
        → r.0 ≡ err e
        → (r.1 ≡ before)
          × ((has_credentials ≡ false)
              ⊎ Some (λ b. firebase.send_each (message_for push b) ≡ err e) (batches_of tokens))
    pub tokens_after :
        p.docs r.1.tokens ≡ map (edit (goes dead) (invalidated now)) (p.docs before.tokens)
    pub rest : r.1 ≡ record before { tokens = r.1.tokens }

  send_failed :
      (e : HttpError) (tokens : List String) (s : Store p)
      → (has_credentials ≡ false)
        ⊎ Some (λ b. firebase.send_each (message_for push b) ≡ err e) (batches_of tokens)
      → IsSent tokens s (err e, s)
  send_failed e tokens s why = record {
    dead = [];
    sent = tt;
    reported = tt;
    complete = λ h u given. absurd (cc h);
    failed = λ {e = e'} h.
        let same : e ≡ e' = ground arith in
        (
          refl,
          subst
              (λ x.
                (has_credentials ≡ false)
                ⊎ Some (λ b. firebase.send_each (message_for push b) ≡ err x) (batches_of tokens))
              same why,
        );
    tokens_after = none_goes (p.docs s.tokens);
    rest = refl;
  }

  none_to_send : (s : Store p) → IsSent [] s (ok nothing_sent, s)
  unfolding create_token_batches batches
  none_to_send s = record {
    dead = [];
    sent = tt;
    reported = tt;
    complete = λ h u given. tt;
    failed = λ h. absurd (cc h);
    tokens_after = none_goes (p.docs s.tokens);
    rest = refl;
  }

  send_done :
      (tokens : List String) (s : Store p) (done : Progress)
      → send_batches firebase.send_each push (batches_of tokens) nothing_yet ≡ ok done
      → IsSent tokens s (finish tokens done now s)
  unfolding invalidate_device_tokens
  send_done tokens s done h =
      let send = firebase.send_each in
      let bs = batches_of tokens in
      let Reported : String → Type 0 = λ u. Some (λ b. IsDeadIn send push b u) bs in
      let batched = (create_token_batches_cut tokens 500 (omega arith)).0 in
      record {
        dead = distinct ◌===◌ done.dead_tokens;
        sent = All-distinct (IsOneOf tokens) [] _ (
            collected send push (IsOneOf tokens) bs nothing_yet done h
              (All-map (All (IsOneOf tokens)) _ bs
                (λ b own u (result, answer, dead).
                  reported-All (IsOneOf tokens) b result.responses own dead)
                (within (IsOneOf tokens) bs (rw batched (each_own tokens))))
              tt);
        reported = All-distinct Reported [] _ (
            collected send push Reported bs nothing_yet done h
              (each_of_its_own bs (λ b u. IsDeadIn send push b u)) tt);
        complete = λ m u given.
            All-map _ _ bs (λ b known dead. distinct_keeps [] done.dead_tokens u (known dead) refl)
              (every_collected send push bs nothing_yet done u h given).1;
        failed = λ m. absurd (cc m);
        tokens_after = p.docs-update_many _ _ s.tokens;
        rest = refl;
      }

  IsSent-send :
      (tokens : List String) (s : Store p)
      → IsSent tokens s (send_to_tokens firebase push now tokens s)
  unfolding send_to_tokens get_messaging_client
  IsSent-send [] s = none_to_send s
  IsSent-send (t ∷ ts) s = elim (Bool-cases has_credentials) [
    | inr bad ↦ rw bad (send_failed _ (t ∷ ts) s (inl bad))
    | inl fine ↦ rw fine (by_loop _ refl)
  ]
    where
      by_loop :
          (r : Result Progress)
          → send_batches firebase.send_each push (batches_of (t ∷ ts)) nothing_yet ≡ r
          → IsSent (t ∷ ts) s (continue r (λ done. finish (t ∷ ts) done now) s)
      by_loop (err e) h =
          send_failed e (t ∷ ts) s (inr (rejected firebase.send_each push _ nothing_yet e h))
      by_loop (ok done) h = send_done (t ∷ ts) s done h

  -- Sending an alert of an owned flow touches nothing but the tokens of phones. If it is
  -- answered, the active tokens with a text that Firebase reported dead at its place in one of
  -- the batches are invalidated, all of them sent to, and all others stay as they are. It fails
  -- only if a credential is missing or Firebase rejects a batch, and then nothing changes.
  pub send_alert_to_flow_owner-IsSent :
      (owner : String) (s : Store p)
      → get_flow_owner_id push.flow_id s ≡ some owner
      → IsSent (active_tokens owner s) s (send_alert_to_flow_owner firebase push now s)
  unfolding send_alert_to_flow_owner
  send_alert_to_flow_owner-IsSent owner s h =
      rw (send_alert_to_flow_owner, h) (IsSent-send (active_tokens owner s) s)

  pub send_alert_to_flow_owner-rest :
      (s : Store p)
      → (send_alert_to_flow_owner firebase push now s).1
        ≡ record s { tokens = (send_alert_to_flow_owner firebase push now s).1.tokens }
  unfolding send_alert_to_flow_owner
  send_alert_to_flow_owner-rest s = elim (Option-cases (get_flow_owner_id push.flow_id s)) [
    | inl missing ↦ rw (send_alert_to_flow_owner, missing) refl
    | inr (owner, found) ↦
        rw (send_alert_to_flow_owner, found) ((IsSent-send (active_tokens owner s) s).rest)
  ]
