-- ===== src/Auth/Tests.antt =====
-- The key check of app/auth.py on a table with a live key and a revoked one.
use inference_proxy.Prelude.{String, true, false, none, some, List, [], ◌∷◌, ◌≡◌, ◌↔◌}
use inference_proxy.Auth.{
  Client, ApiKey, refresh_key_cache, validate_api_key, resolve_principal, resolve_requester_role,
}
use inference_proxy.Auth.Keys.{Presents, IdentityOf, valid_iff_issued, identity_issued}

abbrev digest : String → String
digest s = s

abbrev clients : List Client
clients =
    (record { id = 1; disabled = false; privileged = true })
    ∷ (record { id = 2; disabled = true; privileged = false })
    ∷ []

abbrev keys : List ApiKey
keys =
    (record { id = 7; client_id = 1; key_hash = "hmp-a"; revoked = false })
    ∷ (record { id = 8; client_id = 1; key_hash = "hmp-b"; revoked = true })
    ∷ (record { id = 9; client_id = 2; key_hash = "hmp-c"; revoked = false })
    ∷ []

valid_iff_issued_example :
    (validate_api_key digest (refresh_key_cache keys clients) (some "Bearer hmp-a") none ≡ true)
    ↔ Presents digest keys clients (some "Bearer hmp-a") none
valid_iff_issued_example = valid_iff_issued digest keys clients (some "Bearer hmp-a") none

identity_issued_example :
    (validate_api_key digest (refresh_key_cache keys clients) (some "Bearer hmp-a") none ≡ true
      → (p : Presents digest keys clients (some "Bearer hmp-a") none) × IdentityOf digest keys
          clients
          (some "Bearer hmp-a")
          none
          p)
    × (validate_api_key digest (refresh_key_cache keys clients) (some "Bearer hmp-a") none ≡ false
        → (resolve_principal digest (refresh_key_cache keys clients) (some "Bearer hmp-a") none
            ≡ none)
          × (resolve_requester_role digest
                (refresh_key_cache keys clients)
                (some "Bearer hmp-a")
                none
              ≡ none))
identity_issued_example = identity_issued digest keys clients (some "Bearer hmp-a") none
