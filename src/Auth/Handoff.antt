-- ===== src/Auth/Handoff.antt =====
-- The hand-off of a Google sign-in to the mobile application, from
-- auth/services/google-auth-handoff.service.ts: a code that is good for one exchange, by the client
-- that knows the verifier of the challenge it was made for.
pub mod Laws
use nexusflow_backend.Prelude.{
  ℕ, ◌+◌, ◌*◌, Bool, true, false, not, ◌&&◌, String, Option, none, some, is_some, any, leb, ltb,
  ◌===◌, if◌then◌else◌,
}
use nexusflow_backend.Action.{
  HttpError, bad_request, unauthorized, internal_server_error, Result, ok, err, Action, pure, reads,
  writes, throw_if, or_throw, ◌>>=◌, ◌>>◌,
}
use nexusflow_backend.Platform.{Doc, Platform}
use nexusflow_backend.Platform.Query.{find_one, update_by_id}

pub record GoogleAuthHandoff : Type 0 where
  pub code_hash : String
  pub user_id : String
  pub code_challenge : String
  pub expires_at : ℕ
  pub consumed_at : Option ℕ

abbrev pub new_handoff : String → String → String → ℕ → GoogleAuthHandoff
new_handoff code_hash user_id code_challenge expires_at = record {
  code_hash = code_hash;
  user_id = user_id;
  code_challenge = code_challenge;
  expires_at = expires_at;
  consumed_at = none;
}

abbrev pub consumed : ℕ → GoogleAuthHandoff → GoogleAuthHandoff
consumed at h = record h { consumed_at = some at }

-- A hand-off that `findOneAndUpdate` may still take.
abbrev pub is_open : String → ℕ → Doc GoogleAuthHandoff → Bool
is_open code_hash now d =
    d.body.code_hash === code_hash && not (is_some d.body.consumed_at) && ltb now d.body.expires_at

-- `sha256` is the digest of node:crypto as a text; comparing two texts in constant time is comparing
-- them.
module _ ⦃p : Platform⦄ (sha256 : String → String) where
  -- What the index on `expiresAt` has MongoDB do at some time: of the hand-offs that have expired,
  -- those that its monitor has come to are deleted.
  abbrev pub expire :
      (Doc GoogleAuthHandoff → Bool)
      → ℕ
      → p.Collection GoogleAuthHandoff
      → p.Collection GoogleAuthHandoff
  expire comes_to at c = p.delete_many (λ d. comes_to d && leb d.body.expires_at at) c

  -- `create`, with the random code and the time to live given.
  unfoldable pub create :
      String → String → String → ℕ → ℕ → Action (p.Collection GoogleAuthHandoff) String
  create code user_id code_challenge ttl_seconds now c =
      if any (λ d. d.body.code_hash === sha256 code) (p.docs c)
      then (err (internal_server_error "Internal server error"), c)
      else (
        ok code,
        (p.insert (new_handoff (sha256 code) user_id code_challenge (now + ttl_seconds * 1000))
            c).1,
      )

  -- `findOneAndUpdate`: the user, if a hand-off is still open.
  abbrev pub take_handoff : String → ℕ → Action (p.Collection GoogleAuthHandoff) String
  take_handoff code_hash now c = elim (find_one (is_open code_hash now) c) [
    | none ↦ (err (bad_request "google_code_consumed"), c)
    | some d ↦ (ok d.body.user_id, update_by_id d.id (consumed now) c)
  ]

  -- `consume`: the checks at `now`, the update at `later`. The id of the user.
  unfoldable pub consume : String → String → ℕ → ℕ → Action (p.Collection GoogleAuthHandoff) String
  consume code code_verifier now later = do
    found ← reads (find_one (λ d. d.body.code_hash === sha256 code))
    existing ← or_throw (bad_request "google_code_invalid") found
    throw_if (is_some existing.body.consumed_at) (bad_request "google_code_consumed")
    throw_if (leb existing.body.expires_at now) (bad_request "google_code_expired")
    throw_if (not (sha256 code_verifier === existing.body.code_challenge))
        (unauthorized "google_pkce_invalid")
    take_handoff (sha256 code) later
