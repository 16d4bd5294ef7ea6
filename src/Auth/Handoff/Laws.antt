-- ===== src/Auth/Handoff/Laws.antt =====
-- A code is good for one exchange.
use nexusflow_backend.Prelude.{
  ℕ, ◌<◌, Bool, true, String, map, none, some, find, leb, ◌===◌, ◌≡◌, refl, ◌⊎◌, inl, inr,
  Bool-cases, Option-cases, arith,
}
use nexusflow_backend.Action.{HttpError, bad_request, unauthorized, Result, ok, err}
use nexusflow_backend.Platform.{Doc, Platform, edit}
use nexusflow_backend.Auth.Handoff.{GoogleAuthHandoff, consumed, is_open, take_handoff, consume}

abbrev pub has_hash : String → Doc GoogleAuthHandoff → Bool
has_hash hash d = d.body.code_hash === hash

abbrev pub taken : Doc GoogleAuthHandoff → ℕ → Doc GoogleAuthHandoff → Doc GoogleAuthHandoff
taken t at = edit (λ e. e.id === t.id) (consumed at)

module _ ⦃p : Platform⦄ (sha256 : String → String) where
  -- What an exchange that succeeds shows: the first hand-off with the code's hash was not consumed
  -- and not expired, the client knows its verifier, and an open hand-off of the hash was taken.
  pub record IsExchanged (code code_verifier : String) (now later : ℕ)
      (c : p.Collection GoogleAuthHandoff) (r : Result String × p.Collection GoogleAuthHandoff)
      : Type 0 where
    pub first : Doc GoogleAuthHandoff
    pub found : find (has_hash (sha256 code)) (p.docs c) ≡ some first
    pub unconsumed : first.body.consumed_at ≡ none
    pub unexpired : now < first.body.expires_at
    pub knows : (sha256 code_verifier === first.body.code_challenge) ≡ true
    pub handoff : Doc GoogleAuthHandoff
    pub open_still : find (is_open (sha256 code) later) (p.docs c) ≡ some handoff
    pub answer : r.0 ≡ ok handoff.body.user_id
    pub taken_after : p.docs r.1 ≡ map (taken handoff later) (p.docs c)

  -- An exchange of a code either throws and changes nothing, or the first hand-off with its hash
  -- was not consumed and not expired, the verifier fits its challenge, and an open hand-off of
  -- the hash is consumed and its user answered.
  pub consume_all_or_nothing :
      (code code_verifier : String) (now later : ℕ) (c : p.Collection GoogleAuthHandoff)
      → ((e : HttpError) × (consume sha256 code code_verifier now later c ≡ (err e, c)))
        ⊎ IsExchanged code code_verifier now later c (consume sha256 code code_verifier now later c)
  unfolding consume
  consume_all_or_nothing code code_verifier now later c =
      elim (Option-cases (find (has_hash (sha256 code)) (p.docs c))) [
        | inl missing ↦ inl (bad_request "google_code_invalid", rw (consume, missing) refl)
        | inr (d, found) ↦ elim (Option-cases d.body.consumed_at) [
          | inr (t, used) ↦ inl (bad_request "google_code_consumed", rw (consume, found, used) refl)
          | inl unconsumed ↦ elim (Bool-cases (leb d.body.expires_at now)) [
            | inl expired ↦
                inl
                  (bad_request "google_code_expired", rw (consume, found, unconsumed, expired) refl)
            | inr live ↦ elim (Bool-cases (sha256 code_verifier === d.body.code_challenge)) [
              | inr wrong ↦ inl (
                unauthorized "google_pkce_invalid",
                rw (consume, found, unconsumed, live, wrong) refl,
              )
              | inl knows ↦ elim (Option-cases (find (is_open (sha256 code) later) (p.docs c))) [
                | inl gone ↦ inl (
                  bad_request "google_code_consumed",
                  rw (consume, found, unconsumed, live, knows, take_handoff, gone) refl,
                )
                | inr (t, opened) ↦ inr (
                    rw (consume, found, unconsumed, live, knows, take_handoff, opened)
                      (record {
                        first = d;
                        found = found;
                        unconsumed = unconsumed;
                        unexpired = ground arith;
                        knows = knows;
                        handoff = t;
                        open_still = opened;
                        answer = refl;
                        taken_after = p.docs-update_many (λ e. e.id === t.id) (consumed later) c;
                      }))
              ]
            ]
          ]
        ]
      ]
