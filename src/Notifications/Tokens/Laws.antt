-- ===== src/Notifications/Tokens/Laws.antt =====
-- Registering the token of a phone.
use nexusflow_backend.Prelude.{
  ℕ, Bool, true, not, ◌&&◌, ◌≡◌, refl, ap, ◌∙◌, inl, inr, String, List, [], ◌∷◌, ◌++◌, map, none,
  some, any, find, ◌===◌, arith, All, Bool-cases, Option-cases, ===_refl, subst,
}
use nexusflow_backend.Action.{Result, ok}
use nexusflow_backend.Platform.{Doc, Platform}
use nexusflow_backend.Notifications.Schemas.{NotificationDeviceToken, Store}
use nexusflow_backend.Notifications.Tokens.{
  RegisterNotificationDevice, registered, is_taken, is_of, register_device_token,
}
use nexusflow_backend.Notifications.Tokens.Apart.{
  AreApart, AreApart-append, AreApart-saved, AreApart-select, IsOurs, IsOurs-after_delete, apart,
  new_apart, no_clash, ours, saved_as,
}

any_last :
    (test : Doc NotificationDeviceToken → Bool) (d : Doc NotificationDeviceToken)
    (ds : List (Doc NotificationDeviceToken))
    → test d ≡ true
    → any test (ds ++ d ∷ []) ≡ true
any_last test d [] h = rw h
any_last test d (x ∷ xs) h = rw (any_last test d xs h) (ground arith)

module _ (user_id : String) (dto : RegisterNotificationDevice) (now : ℕ) where
  -- The registered token is there and active.
  abbrev pub is_registered : Doc NotificationDeviceToken → Bool
  is_registered d =
      d.body.fcm_token === dto.fcm_token && is_of user_id dto.device_id d && d.body.is_active

  saved_there :
      (d : Doc NotificationDeviceToken) (ds : List (Doc NotificationDeviceToken))
      → find (is_of user_id dto.device_id) ds ≡ some d
      → any is_registered (map (saved_as user_id dto now d.id) ds) ≡ true
  saved_there d [] k = cc
  saved_there d (x ∷ xs) k = elim (Bool-cases (is_of user_id dto.device_id x)) [
    | inl is_it ↦
        let same : x ≡ d = ground arith in
        subst (λ y. any is_registered (map (saved_as user_id dto now y.id) (x ∷ xs)) ≡ true) same
          (rw (===_refl x.id)
            (rw (===_refl dto.fcm_token, ===_refl user_id, ===_refl dto.device_id)))
    | inr other ↦
        let behind : find (is_of user_id dto.device_id) xs ≡ some d = ground arith in
        ground (arith, saved_there d xs behind)
  ]

module _ ⦃p : Platform⦄ (user_id : String) (dto : RegisterNotificationDevice) (now : ℕ) where
  -- What a registration promises of the answer and of the tokens after it.
  pub record IsRegistered (r : Result String × Store p) : Type 0 where
    pub id : String
    pub answer : r.0 ≡ ok id
    pub apart : AreApart (p.docs r.1.tokens)
    pub there : any (is_registered user_id dto now) (p.docs r.1.tokens) ≡ true

  registered_over :
      (s : Store p) (d : Doc NotificationDeviceToken)
      → AreApart (p.docs s.tokens)
      → All (IsOurs user_id dto now) (p.docs s.tokens)
      → find (is_of user_id dto.device_id) (p.docs s.tokens) ≡ some d
      → IsRegistered (
        ok d.id,
        record s {
          tokens = p.update_many (λ e. e.id === d.id) (λ _. registered user_id dto now) s.tokens;
        },
      )
  registered_over s d h o k = record {
    id = d.id;
    answer = refl;
    apart =
        rw (p.docs-update_many (λ e. e.id === d.id) (λ _. registered user_id dto now) s.tokens)
          (AreApart-saved user_id dto now d _ h o k);
    there =
        rw (p.docs-update_many (λ e. e.id === d.id) (λ _. registered user_id dto now) s.tokens)
          (saved_there user_id dto now d _ k);
  }

  registered_new :
      (s : Store p)
      → AreApart (p.docs s.tokens)
      → All (IsOurs user_id dto now) (p.docs s.tokens)
      → find (is_of user_id dto.device_id) (p.docs s.tokens) ≡ none
      → IsRegistered (
        ok (p.insert (registered user_id dto now) s.tokens).0.id,
        record s { tokens = (p.insert (registered user_id dto now) s.tokens).1 },
      )
  registered_new s h o k =
      let b = registered user_id dto now in
      let id = (p.insert b s.tokens).0.id in
      let new : (p.insert b s.tokens).0 ≡ ours user_id dto now id =
        ap (λ x. record { id = id; body = x }) (p.body-insert b s.tokens) in
      let others : All (λ d. apart d (ours user_id dto now id) ≡ true) (p.docs s.tokens) =
        new_apart user_id dto now id (p.docs s.tokens) o k (p.fresh-insert b s.tokens) in
      let docs : p.docs (p.insert b s.tokens).1 ≡ p.docs s.tokens ++ ours user_id dto now id ∷ [] =
        p.docs-insert b s.tokens ∙ ap (λ d. p.docs s.tokens ++ d ∷ []) new in
      record {
        id = id;
        answer = refl;
        apart = rw docs (AreApart-append (ours user_id dto now id) (p.docs s.tokens) h others);
        there = rw docs (
            any_last (is_registered user_id dto now) (ours user_id dto now id) (p.docs s.tokens)
              (rw (===_refl dto.fcm_token, ===_refl user_id, ===_refl dto.device_id)));
      }

  -- Among tokens with unique texts and unique devices of a user, registering a phone always
  -- succeeds, keeps both unique, and leaves the token there and active.
  pub register_device_token-IsRegistered :
      (s : Store p)
      → AreApart (p.docs s.tokens)
      → IsRegistered (register_device_token user_id dto now s)
  unfolding register_device_token
  register_device_token-IsRegistered s h =
      let c = p.delete_many (is_taken user_id dto) s.tokens in
      let s' = record s { tokens = c } in
      let left = p.docs-delete_many (is_taken user_id dto) s.tokens in
      let apart : AreApart (p.docs c) =
        rw left (AreApart-select (λ d. not (is_taken user_id dto d)) _ h) in
      let free : All (IsOurs user_id dto now) (p.docs c) =
        rw left (IsOurs-after_delete user_id dto now _) in
      elim (Option-cases (find (is_of user_id dto.device_id) (p.docs c))) [
        | inl absent ↦
            rw (absent, no_clash user_id dto now (p.docs c) free absent)
              (registered_new s' apart free absent)
        | inr (d, there) ↦ rw there (registered_over s' d apart free there)
      ]
