-- ===== src/Server/Auth/Tests.antt =====
-- Tokens of a service account, asked for at several times (be/server/src/auth.rs).
use pictophone.Base.{ℕ, none, List, [], ◌∷◌}
use pictophone.Base.Result.{ok}
use pictophone.Server.Auth.{Source, service_account_token, cached_tokens}
use pictophone.Server.Auth.Lifetime.{
  AllLast, cached_tokens-AllLast, service_account_token-LastsLong,
}

abbrev source : Source
source =
    service_account_token (λ claims. ok "signed") "me@example.com" "firestore" ("platform" ∷ [])

-- The second call is served from the cache, the third not.
abbrev times : List ℕ
times = 1000 ∷ 4000 ∷ 4400 ∷ []

cached_tokens-AllLast_example : AllLast (cached_tokens source none times)
cached_tokens-AllLast_example = cached_tokens-AllLast source none times (
    service_account_token-LastsLong (λ claims. ok "signed") "me@example.com" "firestore"
      ("platform" ∷ []))
