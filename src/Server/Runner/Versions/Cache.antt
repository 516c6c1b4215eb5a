-- ===== src/Server/Runner/Versions/Cache.antt =====
-- The cache of modules in be/server/src/runner.rs against runs without a cache.
use pictophone.Base.{
  ◌≡◌, refl, sym, ◌∙◌, arith, str_eq, eq_iff, Bool-cases, String, Option, some, List, Option-cases,
  inl, inr,
}
use pictophone.Base.Map.{lookup, insert, lookup-insert}
use pictophone.Base.Outcome.{Outcome}
use pictophone.Base.Result.{Result, ok, err, ◌>>=◌}
use pictophone.Dolt
use pictophone.Handler.{AnyhowError, Codec}
use pictophone.Server.{ServerError}
use pictophone.Server.Runner.{or_failed, run}
use pictophone.Server.Runner.Versions.{
  Provider, Module, load_binary, remember, load_module, resolve, execute, run_encoded, run_resolved,
  run_version,
}

module _ {S Bin : Type 0} (C : Codec S) (provider : Provider Bin)
    (from_binary : Bin → Result ServerError (C.Bytes → Outcome AnyhowError C.Bytes)) where
  -- Every module of the cache is what would be loaded for its version now.
  pub record IsCurrent (modules : List (String × Module C provider from_binary)) : Type 0 where
    pub each :
        (version : String) (module' : Module C provider from_binary)
        → lookup version modules ≡ some module'
        → load_binary C provider from_binary version ≡ ok module'

  insert-IsCurrent :
      (version : String) (module' : Module C provider from_binary)
      (modules : List (String × Module C provider from_binary))
      → load_binary C provider from_binary version ≡ ok module'
      → IsCurrent modules
      → IsCurrent (insert version module' modules)
  insert-IsCurrent version module' modules e c = record {
    each = λ v m found. elim (Bool-cases (str_eq version v)) [
      | inl same ↦
          let here : v ≡ version = ground (arith, eq_iff version v) in
          let it : m ≡ module' = cc (sym (lookup-insert version v module' modules), same, found) in
          rw (here, it) e
      | inr other ↦ c.each v m (rw other at (sym (lookup-insert version v module' modules) ∙ found))
    ];
  }

  remember_lem :
      (version : String) (modules : List (String × Module C provider from_binary))
      (r : Result ServerError (Module C provider from_binary))
      → load_binary C provider from_binary version ≡ r
      → IsCurrent modules
      → ((remember C provider from_binary version modules r).0 ≡ r)
        × IsCurrent (remember C provider from_binary version modules r).1
  remember_lem version modules (ok module') e c =
      (refl, insert-IsCurrent version module' modules e c)
  remember_lem version modules (err error) e c = (refl, c)

  load_module_lem :
      (version : String) (modules : List (String × Module C provider from_binary))
      → IsCurrent modules
      → ((load_module C provider from_binary version modules).0
          ≡ load_binary C provider from_binary version)
        × IsCurrent (load_module C provider from_binary version modules).1
  unfolding load_module
  load_module_lem version modules c = elim (Option-cases (lookup version modules)) [
    | inl missing ↦ rw (missing, load_module) (remember_lem version modules _ refl c)
    | inr (module', found) ↦ rw (found, load_module, c.each version module' found) (refl, c)
  ]

  -- The same without a cache.
  abbrev pub run_uncached :
      Option String → Dolt.Request C.Bytes → Result ServerError (Dolt.Response C.Bytes)
  run_uncached version request = resolve C provider from_binary version >>= λ v.
      or_failed (C.encode_request request) >>= λ req_buf.
      load_binary C provider from_binary v >>= execute C provider from_binary req_buf

  run_encoded_lem :
      (modules : List (String × Module C provider from_binary)) (version : String)
      (r : Result ServerError C.Bytes)
      → IsCurrent modules
      → ((run_encoded C provider from_binary modules version r).0 ≡ (
          r >>= λ req_buf.
          load_binary C provider from_binary version >>= execute C provider from_binary req_buf))
        × IsCurrent (run_encoded C provider from_binary modules version r).1
  run_encoded_lem modules version (err e) c = (refl, c)
  run_encoded_lem modules version (ok req_buf) c =
      let (loaded, kept) = load_module_lem version modules c in (rw loaded, kept)

  run_resolved_lem :
      (request : Dolt.Request C.Bytes) (modules : List (String × Module C provider from_binary))
      (r : Result ServerError String)
      → IsCurrent modules
      → ((run_resolved C provider from_binary request modules r).0 ≡ (
          r >>= λ v. or_failed (C.encode_request request) >>= λ req_buf.
          load_binary C provider from_binary v >>= execute C provider from_binary req_buf))
        × IsCurrent (run_resolved C provider from_binary request modules r).1
  run_resolved_lem request modules (err e) c = (refl, c)
  run_resolved_lem request modules (ok version) c = run_encoded_lem modules version _ c

  -- If every module of the cache is the one that would be loaded for its version, then a run returns
  -- what it would return without a cache, errors included, and the cache stays so.
  pub run_version_lem :
      (version : Option String) (request : Dolt.Request C.Bytes)
      (modules : List (String × Module C provider from_binary))
      → IsCurrent modules
      → ((run_version C provider from_binary version request modules).0
          ≡ run_uncached version request)
        × IsCurrent (run_version C provider from_binary version request modules).1
  unfolding run_version
  run_version_lem version request modules c =
      run_resolved_lem request modules (resolve C provider from_binary version) c

  -- With its version's module at hand a request is run by that module.
  pub run_uncached-run :
      (version : Option String) (v : String) (module' : Module C provider from_binary)
      (request : Dolt.Request C.Bytes)
      → resolve C provider from_binary version ≡ ok v
      → load_binary C provider from_binary v ≡ ok module'
      → run_uncached version request ≡ run C module' request
  unfolding run
  run_uncached-run version v module' request e f = rw (e, f) refl
