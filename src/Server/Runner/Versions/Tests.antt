-- ===== src/Server/Runner/Versions/Tests.antt =====
-- Two versions of the logic, one of them in the cache (be/server/src/runner.rs).
use pictophone.Base.{
  String, none, some, List, [], ◌∷◌, str_eq, if◌then◌else◌, ◌||◌, ◌≡◌, ap, eq_iff, arith,
  Bool-cases, inl, inr,
}
use pictophone.Base.Map.{lookup, or_default}
use pictophone.Base.Outcome.{Outcome}
use pictophone.Base.Result.{Result, ok}
use pictophone.Handler.{AnyhowError, impl, main}
use pictophone.Handler.Model.{Blob, no_return, blobs}
use pictophone.Server.{ServerError}
use pictophone.Server.Runner.Versions.{
  MetadataMap, get_binary_version, Provider, Module, load_binary, run_version,
}
use pictophone.Server.Runner.Versions.Cache.{IsCurrent, run_uncached, run_version_lem}

-- A binary is its version: "1.0" answers nothing, "2.0" is the logic.
abbrev provider : Provider String
provider = record {
  default = ok "2.0";
  load = λ version.
      if str_eq version "1.0" || str_eq version "2.0" then ok (some version) else ok none;
}

abbrev from_binary : String → Result ServerError (Blob → Outcome AnyhowError Blob)
from_binary bin =
    if str_eq bin "1.0" then ok (λ request. Outcome.ok no_return) else ok (main impl blobs)

abbrev cache : List (String × Module blobs provider from_binary)
cache = ("1.0", λ request. Outcome.ok no_return) ∷ []

cache_current :
    (version : String) (module' : Module blobs provider from_binary)
    → lookup version cache ≡ some module'
    → load_binary blobs provider from_binary version ≡ ok module'
unfolding lookup load_binary
cache_current version module' found = elim (Bool-cases (str_eq "1.0" version)) [
  | inl same ↦
      let here : version ≡ "1.0" = ground (arith, eq_iff "1.0" version) in
      let head : some (λ request. Outcome.ok no_return) ≡ some module' = rw same at found in
      rw here (ap (λ o. ok (or_default module' o)) head)
  | inr other ↦ cc (rw other at found)
]

cache-IsCurrent : IsCurrent blobs provider from_binary cache
cache-IsCurrent = record { each = cache_current }

abbrev metadata : MetadataMap
metadata = ("x-impl", some "1.0") ∷ []

run_version_lem_example :
    ((run_version blobs provider from_binary
        (get_binary_version metadata)
        (record { method = none })
        cache).0
      ≡ run_uncached blobs provider from_binary
          (get_binary_version metadata)
          (record { method = none }))
    × IsCurrent blobs provider from_binary
        (run_version blobs provider from_binary
          (get_binary_version metadata)
          (record { method = none })
          cache).1
run_version_lem_example =
    run_version_lem blobs provider from_binary (get_binary_version metadata)
      (record { method = none }) cache cache-IsCurrent
