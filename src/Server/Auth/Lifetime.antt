-- ===== src/Server/Auth/Lifetime.antt =====
-- How long the tokens of be/server/src/auth.rs last.
use Prim.Native.Nat.{◌*◌}
use pictophone.Base.{
  ℕ, ◌+◌, ◌-◌, ◌<◌, String, Option, none, some, List, [], ◌∷◌, ltb, ◌≡◌, refl, arith, Bool-cases,
  inl, inr,
}
use pictophone.Base.Result.{Result, ok, err, >>=-eq-ok}
use pictophone.Server.{ServerError}
use pictophone.Server.Auth.{
  Token, Source, Claims, new_claims, service_account_token, refreshed, cached_token, cached_tokens,
}

-- Every token that was returned lasts for more than five minutes from its call on.
abbrev pub AllLast : List (ℕ × Result ServerError Token) → Type 0
AllLast [] = Unit
AllLast ((now, ok token) ∷ results) = (now + 300 < token.expiration) × AllLast results
AllLast ((now, err e) ∷ results) = AllLast results

-- A source whose tokens last longer than that when they are made.
abbrev pub LastsLong : Source → Type 0
LastsLong source = (now : ℕ) (token : Token) → source now ≡ ok token → now + 300 < token.expiration

refreshed-last :
    (now : ℕ) (cache : Option Token) (r : Result ServerError Token)
    (rest : Option Token → List (ℕ × Result ServerError Token))
    → ((token : Token) → r ≡ ok token → now + 300 < token.expiration)
    → ((c : Option Token) → AllLast (rest c))
    → AllLast ((now, (refreshed cache r).0) ∷ rest (refreshed cache r).1)
refreshed-last now cache (err e) rest lasts all = all cache
refreshed-last now cache (ok token) rest lasts all = (lasts token refl, all (some token))

-- Over a source whose tokens last for more than five minutes from when they are made, every token
-- that the cache returns in a row of calls at any times lasts for more than five minutes from its
-- call on, whether it was kept or is new.
pub cached_tokens-AllLast :
    (source : Source) (cache : Option Token) (times : List ℕ)
    → LastsLong source
    → AllLast (cached_tokens source cache times)
unfolding cached_token
cached_tokens-AllLast source cache [] long = tt
cached_tokens-AllLast source none (now ∷ times) long =
    refreshed-last now none (source now) (λ c. cached_tokens source c times) (long now)
      (λ c. cached_tokens-AllLast source c times long)
cached_tokens-AllLast source (some token) (now ∷ times) long =
    elim (Bool-cases (ltb now (token.expiration - 5 * 60))) [
      | inl fresh ↦ rw fresh (ground arith, cached_tokens-AllLast source (some token) times long)
      | inr stale ↦ rw stale (
          refreshed-last now (some token) (source now) (λ c. cached_tokens source c times)
            (long now) (λ c. cached_tokens-AllLast source c times long))
    ]

-- The tokens of a service account are claims that were issued when they were made and expire an hour
-- later, as the token does.
pub service_account_token-LastsLong :
    (sign_claims : Claims → Result ServerError String) (client_email audience : String)
    (scopes : List String)
    → LastsLong (service_account_token sign_claims client_email audience scopes)
unfolding service_account_token new_claims
service_account_token-LastsLong sign_claims client_email audience scopes now token made =
    let (signed, _, same) =
      >>=-eq-ok (sign_claims (new_claims client_email audience scopes now).0)
        (λ signed'. ok (record { token = signed'; expiration = now + 3600 })) made in
    ground (arith, same)
