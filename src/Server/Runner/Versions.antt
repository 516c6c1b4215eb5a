-- ===== src/Server/Runner/Versions.antt =====
-- `Runner::run` of be/server/src/runner.rs with its choice of a version and its cache of modules, and
-- `get_binary_version` of be/server/src/main.rs. The provider of binaries and the WASM engine are
-- parameters; a module is what its `main` does.
pub mod Cache
mod Tests
use pictophone.Base.{String, Option, none, some, List, ◌∷◌}
use pictophone.Base.Map.{lookup, insert}
use pictophone.Base.Outcome.{Outcome}
use pictophone.Base.Result.{Result, ok, err, ◌>>=◌}
use pictophone.Dolt
use pictophone.Handler.{AnyhowError, Codec}
use pictophone.Server.{ServerError}
use pictophone.Server.Runner.{or_failed, exit}

-- The entries of a `MetadataMap`; `none` is a value that is not a text.
abbrev pub MetadataMap : Type 0
MetadataMap = List (String × Option String)

-- A `Version` is its `semver`.
pub get_binary_version : MetadataMap → Option String
get_binary_version metadata = elim (lookup "x-impl" metadata) [ none ↦ none | some field ↦ field ]

-- `trait Provider`
pub record Provider (Bin : Type 0) : Type 0 where
  pub default : Result ServerError String
  pub load : String → Result ServerError (Option Bin)

module _ {S Bin : Type 0} (C : Codec S) (provider : Provider Bin)
    (from_binary : Bin → Result ServerError (C.Bytes → Outcome AnyhowError C.Bytes)) where
  abbrev pub Module : Type 0
  Module = C.Bytes → Outcome AnyhowError C.Bytes

  -- What `load_module` does for a version that is not in the cache, up to the write.
  pub load_binary : String → Result ServerError Module
  load_binary version = do found ← provider.load version; bin ← or_failed found; from_binary bin

  -- The write to the cache, where there is a module.
  abbrev pub remember :
      String
      → List (String × Module)
      → Result ServerError Module
      → Result ServerError Module × List (String × Module)
  remember version modules (ok module') = (ok module', insert version module' modules)
  remember version modules (err e) = (err e, modules)

  -- `Runner::load_module` on a cache, and the cache after it.
  pub load_module :
      String → List (String × Module) → Result ServerError Module × List (String × Module)
  load_module version modules = elim (lookup version modules) [
    | some module' ↦ (ok module', modules)
    | none ↦ remember version modules (load_binary version)
  ]

  -- The `if let` on the version.
  abbrev pub resolve : Option String → Result ServerError String
  resolve none = provider.default
  resolve (some version) = ok version

  -- The part of `Runner::run` after the module is loaded.
  abbrev pub execute : C.Bytes → Module → Result ServerError (Dolt.Response C.Bytes)
  execute req_buf module' = do buf ← exit (module' req_buf); or_failed (C.decode_response buf)

  abbrev pub run_loaded :
      C.Bytes
      → Result ServerError Module × List (String × Module)
      → Result ServerError (Dolt.Response C.Bytes) × List (String × Module)
  run_loaded req_buf (loaded, modules) = (loaded >>= execute req_buf, modules)

  abbrev pub run_encoded :
      List (String × Module)
      → String
      → Result ServerError C.Bytes
      → Result ServerError (Dolt.Response C.Bytes) × List (String × Module)
  run_encoded modules version (err e) = (err e, modules)
  run_encoded modules version (ok req_buf) = run_loaded req_buf (load_module version modules)

  abbrev pub run_resolved :
      Dolt.Request C.Bytes
      → List (String × Module)
      → Result ServerError String
      → Result ServerError (Dolt.Response C.Bytes) × List (String × Module)
  run_resolved request modules (err e) = (err e, modules)
  run_resolved request modules (ok version) =
      run_encoded modules version (or_failed (C.encode_request request))

  -- `Runner::run` on a cache, and the cache after it.
  pub run_version :
      Option String
      → Dolt.Request C.Bytes
      → List (String × Module)
      → Result ServerError (Dolt.Response C.Bytes) × List (String × Module)
  run_version version request modules = run_resolved request modules (resolve version)
