-- ===== src/Server/Auth.antt =====
-- be/server/src/auth.rs: the tokens of a service account and of the instance, and the cache of the
-- last token. A time is in whole seconds since the epoch. What signs the claims and what the metadata
-- server answers are parameters.
pub mod Lifetime
mod Tests
use Prim.Native.Nat.{◌*◌}
use Prim.Native.String.{◌++◌ as ◌<>◌}
use pictophone.Base.{ℕ, ◌+◌, ◌-◌, String, Option, none, some, List, [], ◌∷◌, ltb, if◌then◌else◌}
use pictophone.Base.Result.{Result, ok, err, ◌>>=◌}
use pictophone.Server.{ServerError}

pub record Token : Type 0 where
  pub token : String
  pub expiration : ℕ

-- `trait Source`, at the time of the call.
abbrev pub Source : Type 0
Source = ℕ → Result ServerError Token

-- `Claims`, with the parts of the key that are read.
pub record Claims : Type 0 where
  pub iss : String
  pub aud : String
  pub exp : ℕ
  pub iat : ℕ
  pub subject : Option String
  pub scope : String

-- `join(" ")` on the scopes.
abbrev pub join_scopes : List String → String
join_scopes [] = ""
join_scopes (scope ∷ []) = scope
join_scopes (scope ∷ (next ∷ scopes)) = (scope <> " ") <> join_scopes (next ∷ scopes)

-- `Claims::new` at the time `now`, and the expiry.
unfoldable pub new_claims : String → String → List String → ℕ → Claims × ℕ
new_claims client_email audience scopes now =
    let expiry = now + 3600 in
    (
      record {
        iss = client_email;
        aud = audience;
        exp = expiry;
        iat = now;
        subject = some client_email;
        scope = join_scopes scopes;
      },
      expiry,
    )

-- `token` of `ServiceAccountTokenSource`; `sign_claims` is the signer with the key.
unfoldable pub service_account_token :
    (Claims → Result ServerError String) → String → String → List String → Source
service_account_token sign_claims client_email audience scopes now =
    let (claims, expiry) = new_claims client_email audience scopes now in
    sign_claims claims >>= λ signed. ok (record { token = signed; expiration = expiry })

-- `TokenResponse`, as far as it is used.
pub record TokenResponse : Type 0 where
  pub access_token : String
  pub expires_in : ℕ

-- `token` of `InstanceTokenSource`, from what the metadata server answers, or an error.
unfoldable pub instance_token : Result ServerError TokenResponse → Source
instance_token response now =
    response >>= λ r. ok (record { token = r.access_token; expiration = now + r.expires_in })

-- The part of `CachedTokenSource::token` after the cache did not serve: a new token is kept.
abbrev pub refreshed :
    Option Token → Result ServerError Token → Result ServerError Token × Option Token
refreshed cache (err e) = (err e, cache)
refreshed cache (ok token) = (ok token, some token)

-- `CachedTokenSource::token` at the time `now`, and the cache after it, for calls that come one after
-- the other. The difference of times
-- stops at the epoch, which no time is less than.
unfoldable pub cached_token : Source → ℕ → Option Token → Result ServerError Token × Option Token
cached_token source now none = refreshed none (source now)
cached_token source now (some token) =
    if ltb now (token.expiration - 5 * 60)
    then (ok token, some token)
    else refreshed (some token) (source now)

-- A row of calls, each at its time.
abbrev pub cached_tokens : Source → Option Token → List ℕ → List (ℕ × Result ServerError Token)
cached_tokens source cache [] = []
cached_tokens source cache (now ∷ times) =
    let (result, cache') = cached_token source now cache in
    (now, result) ∷ cached_tokens source cache' times
