-- ===== src/Server/Runner.antt =====
-- `Runner::run` of be/server/src/runner.rs: the logic runs as a WASM program that reads a request
-- from its standard input and writes a response to its standard output. What the program does is
-- its `main`; one that fails or panics ends with a trap, which `run` returns as an error.
pub mod Versions
pub mod Filesystem
use pictophone.Base.{Option}
use pictophone.Base.Outcome.{Outcome}
use pictophone.Base.Result.{Result, ok, err, ◌>>=◌}
use pictophone.Dolt.{Request, Response}
use pictophone.Handler.{AnyhowError, Codec}
use pictophone.Server.{ServerError, runner_failed}

-- A codec's error, passed on by `?`.
abbrev pub or_failed : {A : Type 0} → Option A → Result ServerError A
or_failed Option.none = err runner_failed
or_failed (Option.some a) = ok a

abbrev pub exit : {A : Type 0} → Outcome AnyhowError A → Result ServerError A
exit (Outcome.ok a) = ok a
exit (Outcome.err e) = err runner_failed
exit Outcome.panic = err runner_failed

module _ {S : Type 0} (C : Codec S) (program : C.Bytes → Outcome AnyhowError C.Bytes) where
  unfoldable pub run : Request C.Bytes → Result ServerError (Response C.Bytes)
  run request = do
    req_buf ← or_failed (C.encode_request request)
    buf ← exit (program req_buf)
    or_failed (C.decode_response buf)
