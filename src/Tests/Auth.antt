-- ===== src/Tests/Auth.antt =====
-- The exchange of a code, with texts standing for their own digests.
use nexusflow_backend.Prelude.{◌≡◌, ◌⊎◌, [], ◌∷◌, String, true}
use nexusflow_backend.Action.{HttpError, err}
use nexusflow_backend.Platform.Memory.{memory, holding}
use nexusflow_backend.Auth.Handoff.{GoogleAuthHandoff, new_handoff, consume, expire}
use nexusflow_backend.Auth.Handoff.Laws.{IsExchanged, consume_all_or_nothing}

abbrev digest : String → String
digest s = s

abbrev handoffs : memory.Collection GoogleAuthHandoff
handoffs = holding (new_handoff "code" "u" "verifier" 180000 ∷ [])

consume_all_or_nothing_example :
    ((e : HttpError) × (consume digest "code" "verifier" 1000 1001 handoffs ≡ (err e, handoffs)))
    ⊎ IsExchanged digest "code" "verifier" 1000 1001 handoffs
        (consume digest "code" "verifier" 1000 1001 handoffs)
consume_all_or_nothing_example = consume_all_or_nothing digest "code" "verifier" 1000 1001 handoffs

abbrev exchanged : memory.Collection GoogleAuthHandoff
exchanged = (consume digest "code" "verifier" 1000 1001 handoffs).1

abbrev left : memory.Collection GoogleAuthHandoff
left = expire digest (λ d. true) 180000 exchanged
