-- ===== src/Notifications/Tokens/Apart.antt =====
-- Tokens that the unique indexes of the collection allow beside each other.
use nexusflow_backend.Prelude.{
  ℕ, Bool, true, false, not, ◌&&◌, ◌≡◌, refl, ◌∙◌, inl, inr, String, List, [], ◌∷◌, ◌++◌, map, none,
  some, any, find, select, ◌===◌, arith, All, All-append, All-select, Bool-cases, ===_sym, ===_ne,
  ◌≢◌, ===_refl, eq_of_===, find-passes, subst,
}
use nexusflow_backend.Platform.{Doc, edit}
use nexusflow_backend.Notifications.Schemas.{NotificationDeviceToken}
use nexusflow_backend.Notifications.Tokens.{
  RegisterNotificationDevice, token_clashes, registered, is_taken, is_of,
}

-- Two documents differ in their ids, in their texts, and in their users or devices.
abbrev pub apart : Doc NotificationDeviceToken → Doc NotificationDeviceToken → Bool
apart d e = not (d.id === e.id) && not (token_clashes d.body e.body)

-- What the indexes of the collection promise: any two documents are apart.
abbrev pub AreApart : List (Doc NotificationDeviceToken) → Type 0
AreApart [] = Unit
AreApart (d ∷ ds) = All (λ e. apart d e ≡ true) ds × AreApart ds

pub AreApart-select :
    (keep : Doc NotificationDeviceToken → Bool) (ds : List (Doc NotificationDeviceToken))
    → AreApart ds
    → AreApart (select keep ds)
AreApart-select keep [] h = tt
AreApart-select keep (d ∷ ds) h = elim (Bool-cases (keep d)) [
  | inl kept ↦ rw kept (All-select (λ e. apart d e ≡ true) keep ds h.0, AreApart-select keep ds h.1)
  | inr dropped ↦ rw dropped (AreApart-select keep ds h.1)
]

pub AreApart-append :
    (new : Doc NotificationDeviceToken) (ds : List (Doc NotificationDeviceToken))
    → AreApart ds
    → All (λ d. apart d new ≡ true) ds
    → AreApart (ds ++ new ∷ [])
AreApart-append new [] h k = (tt, tt)
AreApart-append new (d ∷ ds) h k =
    (All-append (λ e. apart d e ≡ true) ds (new ∷ []) h.0 (k.0, tt), AreApart-append new ds h.1 k.1)

module _ (user_id : String) (dto : RegisterNotificationDevice) (now : ℕ) where
  -- A document with the text of the token is that of the user's device.
  abbrev pub IsOurs : Doc NotificationDeviceToken → Type 0
  IsOurs d = (d.body.fcm_token === dto.fcm_token) ≡ true → is_of user_id dto.device_id d ≡ true

  pub IsOurs-after_delete :
      (ds : List (Doc NotificationDeviceToken))
      → All IsOurs (select (λ d. not (is_taken user_id dto d)) ds)
  IsOurs-after_delete [] = tt
  IsOurs-after_delete (d ∷ ds) = elim (Bool-cases (is_taken user_id dto d)) [
    | inl taken ↦ rw taken (IsOurs-after_delete ds)
    | inr free ↦ rw free (λ h. ground arith, IsOurs-after_delete ds)
  ]

  abbrev pub ours : String → Doc NotificationDeviceToken
  ours id = record { id = id; body = registered user_id dto now }

  -- A document of another user or device is apart from the registered one.
  apart_left :
      (d : Doc NotificationDeviceToken) (id : String)
      → IsOurs d
      → is_of user_id dto.device_id d ≡ false
      → (d.id === id) ≡ false
      → apart d (ours id) ≡ true
  apart_left d id h other ne = ground (arith, h)

  apart_sym : (d e : Doc NotificationDeviceToken) → apart d e ≡ apart e d
  apart_sym d e = rw (
    ===_sym d.id e.id,
    ===_sym d.body.fcm_token e.body.fcm_token,
    ===_sym d.body.user_id e.body.user_id,
    ===_sym d.body.device_id e.body.device_id,
  )

  -- Of two documents that are apart only one can be that of the user's device.
  one_is_of :
      (d e : Doc NotificationDeviceToken)
      → apart d e ≡ true
      → is_of user_id dto.device_id d ≡ true
      → is_of user_id dto.device_id e ≡ false
  one_is_of d e h k =
      let u = eq_of_=== d.body.user_id user_id (ground arith) in
      let v = eq_of_=== d.body.device_id dto.device_id (ground arith) in
      ground
        (arith, ===_sym d.body.user_id e.body.user_id, ===_sym d.body.device_id e.body.device_id)

  -- The edit that saves the registered token under the id of the document that was found.
  abbrev pub saved_as : String → Doc NotificationDeviceToken → Doc NotificationDeviceToken
  saved_as id = edit (λ d. d.id === id) (λ _. registered user_id dto now)

  saved_idle :
      (id : String) (ds : List (Doc NotificationDeviceToken))
      → All (λ e. (e.id === id) ≡ false) ds
      → map (saved_as id) ds ≡ ds
  saved_idle id [] h = refl
  saved_idle id (e ∷ ds) h = rw (h.0, saved_idle id ds h.1)

  -- The documents behind that of the user's device.
  after_ours :
      (d : Doc NotificationDeviceToken) (ds : List (Doc NotificationDeviceToken))
      → is_of user_id dto.device_id d ≡ true
      → All (λ e. apart d e ≡ true) ds
      → All IsOurs ds
      → All (λ e. (e.id === d.id) ≡ false) ds × All (λ e. apart (ours d.id) e ≡ true) ds
  after_ours d [] k h o = (tt, tt)
  after_ours d (e ∷ ds) k h o =
      let other = one_is_of d e h.0 k in
      let (ids, rest) = after_ours d ds k h.1 o.1 in
      let ne : (e.id === d.id) ≡ false = ground (arith, ===_sym e.id d.id) in
      ((ne, ids), (apart_sym (ours d.id) e ∙ apart_left e d.id o.0 other ne, rest))

  pub found_is_of :
      (ds : List (Doc NotificationDeviceToken)) (d : Doc NotificationDeviceToken)
      → find (is_of user_id dto.device_id) ds ≡ some d
      → is_of user_id dto.device_id d ≡ true
  found_is_of ds d h = find-passes (is_of user_id dto.device_id) ds h

  -- The document that was found is among the documents.
  found_apart :
      (x d : Doc NotificationDeviceToken) (ds : List (Doc NotificationDeviceToken))
      → All (λ e. apart x e ≡ true) ds
      → find (is_of user_id dto.device_id) ds ≡ some d
      → apart x d ≡ true
  found_apart x d [] h k = cc
  found_apart x d (e ∷ ds) h k = elim (Bool-cases (is_of user_id dto.device_id e)) [
    | inl is_it ↦ let same : e ≡ d = ground arith in subst (λ y. apart x y ≡ true) same h.0
    | inr other ↦ found_apart x d ds h.1 (ground arith)
  ]

  saved_apart :
      (x d : Doc NotificationDeviceToken) (ds : List (Doc NotificationDeviceToken))
      → IsOurs x
      → is_of user_id dto.device_id x ≡ false
      → All (λ e. apart x e ≡ true) ds
      → All (λ e. apart x e ≡ true) (map (saved_as d.id) ds)
  saved_apart x d [] o other h = tt
  saved_apart x d (e ∷ ds) o other h = elim (Bool-cases (e.id === d.id)) [
    | inl is_it ↦
        rw is_it (apart_left x e.id o other (ground arith), saved_apart x d ds o other h.1)
    | inr another ↦ rw another (h.0, saved_apart x d ds o other h.1)
  ]

  pub AreApart-saved :
      (d : Doc NotificationDeviceToken) (ds : List (Doc NotificationDeviceToken))
      → AreApart ds
      → All IsOurs ds
      → find (is_of user_id dto.device_id) ds ≡ some d
      → AreApart (map (saved_as d.id) ds)
  AreApart-saved d [] h o k = tt
  AreApart-saved d (x ∷ xs) h o k = elim (Bool-cases (is_of user_id dto.device_id x)) [
    | inl is_it ↦
        let same : x ≡ d = ground arith in
        let (ids, rest) = after_ours x xs is_it h.0 o.1 in
        subst (λ y. AreApart (map (saved_as y.id) (x ∷ xs))) same
          (rw (===_refl x.id, saved_idle x.id xs ids) (rest, h.1))
    | inr other ↦
        let behind : find (is_of user_id dto.device_id) xs ≡ some d = ground arith in
        let ne : (x.id === d.id) ≡ false = ground (arith, found_apart x d xs h.0 behind) in
        rw ne (saved_apart x d xs o.0 other h.0, AreApart-saved d xs h.1 o.1 behind)
  ]

  -- Without a document of the user's device nothing clashes with the new one.
  pub no_clash :
      (ds : List (Doc NotificationDeviceToken))
      → All IsOurs ds
      → find (is_of user_id dto.device_id) ds ≡ none
      → any (λ d. token_clashes d.body (registered user_id dto now)) ds ≡ false
  no_clash [] o k = refl
  no_clash (d ∷ ds) o k = ground (arith, o.0, no_clash ds o.1)

  pub new_apart :
      (id : String) (ds : List (Doc NotificationDeviceToken))
      → All IsOurs ds
      → find (is_of user_id dto.device_id) ds ≡ none
      → All (λ d. d.id ≢ id) ds
      → All (λ d. apart d (ours id) ≡ true) ds
  new_apart id [] o k h = tt
  new_apart id (d ∷ ds) o k h =
      let ne : (d.id === id) ≡ false = ===_ne d.id id h.0 in
      (apart_left d id o.0 (ground arith) ne, new_apart id ds o.1 (ground arith) h.1)
