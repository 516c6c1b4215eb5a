-- ===== src/Server/Runner/Filesystem.antt =====
-- The provider of be/server/src/binaries.rs, which reads a binary from a file of its version's name.
-- `read` is `fs::read` on a path, and `join` is `PathBuf::join`.
use Prim.Native.String.{◌++◌ as ◌<>◌}
use pictophone.Base.{String, Option, none, some}
use pictophone.Base.Result.{Result, ok, err}
use pictophone.Server.{ServerError, runner_failed}
use pictophone.Server.Runner.Versions.{Provider}

-- `std::io::ErrorKind`, as far as it is told apart.
pub data ErrorKind : Type 0 where
  not_found : ErrorKind
  other : ErrorKind

-- The `match` of `load` on what was read.
abbrev pub loaded : {Bin : Type 0} → Result ErrorKind Bin → Result ServerError (Option Bin)
loaded (ok bin) = ok (some bin)
loaded (err not_found) = ok none
loaded (err other) = err runner_failed

-- `Filesystem`, with its default version and its path.
unfoldable pub filesystem :
    {Bin : Type 0}
    → (String → Result ErrorKind Bin)
    → (String → String → String)
    → String
    → String
    → Provider Bin
filesystem read join default bin_path = record {
  default = ok default;
  load = λ version. loaded (read (join bin_path (("v" <> version) <> ".wasm")));
}
