-- ===== src/Server/Refinement.antt =====
-- The server over its log (be/server/src/main.rs, runner.rs) beside the logic (be/logic/src) run on
-- a state that is never serialized.
pub mod Queries
pub mod Concurrent
use pictophone.Base.{ℕ, ◌+◌, ◌≡◌, refl, Option, none, some, List, [], ◌∷◌, ◌++◌, map, length}
use pictophone.Base.Map.{or_old}
use pictophone.Base.Outcome.{Outcome}
use pictophone.Base.Result.{Result, ok}
use pictophone.Dolt
use pictophone.Logic
use pictophone.Logic.Invariant.{IsValidStore}
use pictophone.Handler.{
  impl, IsWellFormed, ActionRequest, ActionResponse, AnyhowError, Codec, IsLawfulCodec, transpose,
  handle_parsed_action, handle_action, respond_method, main,
}
use pictophone.Handler.Dispatch.{KeepsStore, handle_parsed_action_total}
use pictophone.Server
use pictophone.Server.{ServerError, fold_state}
use pictophone.Server.Log.{fold_log, respond_to_pushed}
use pictophone.Server.Runner.{run}

-- The state after an action, without any bytes.
abbrev pub applied : Option Logic.State → ActionRequest → Option Logic.State
applied s request = elim (handle_parsed_action impl s request) [
  | Outcome.ok (next, response) ↦ or_old next s
  | Outcome.err e ↦ s
  | Outcome.panic ↦ s
]

abbrev pub state_after : Option Logic.State → List ActionRequest → Option Logic.State
state_after s [] = s
state_after s (r ∷ rs) = state_after (applied s r) rs

map_ok-append :
    {B : Type 0} (before : List B) (action : B) (later : List (Result ServerError B))
    → map ok (before ++ (action ∷ [])) ++ later ≡ map ok before ++ (ok action ∷ later)
map_ok-append [] action later = refl
map_ok-append (a ∷ before) action later = rw (map_ok-append before action later)

-- A well-formed action on a valid state has an answer.
pub answered :
    (s : Option Logic.State) (request : ActionRequest)
    → IsValidStore s
    → IsWellFormed request
    → (next : Option Logic.State) × (response : ActionResponse) × (handle_parsed_action impl s
          request
        ≡ Outcome.ok (next, response))
      × IsValidStore next
answered s request v w =
    go (handle_parsed_action impl s request) refl (handle_parsed_action_total s request v w)
  where
    go :
        (r : Outcome AnyhowError (Option Logic.State × ActionResponse))
        → handle_parsed_action impl s request ≡ r
        → KeepsStore r
        → (next : Option Logic.State) × (response : ActionResponse) × (handle_parsed_action impl s
              request
            ≡ Outcome.ok (next, response))
          × IsValidStore next
    go (Outcome.ok (next, response)) e k = (next, response, e, k)
    go (Outcome.err error) e k = absurd k
    go Outcome.panic e k = absurd k

module _ (C : Codec Logic.State) where
  -- The runner with the logic as its program.
  abbrev pub run_logic : Dolt.Request C.Bytes → Result ServerError (Dolt.Response C.Bytes)
  run_logic = run C (main impl C)

  -- The bytes hold the state.
  abbrev pub Holds : Option C.Bytes → Option Logic.State → Type 0
  Holds none none = Unit {0}
  Holds none (some s) = ⊥
  Holds (some b) none = ⊥
  Holds (some b) (some s) = C.from_slice b ≡ some s

  -- The log holds the encodings of the well-formed requests.
  abbrev pub Decodes : List C.Bytes → List ActionRequest → Type 0
  Decodes [] [] = Unit {0}
  Decodes [] (r ∷ rs) = ⊥
  Decodes (a ∷ log) [] = ⊥
  Decodes (a ∷ log) (r ∷ rs) = (C.decode_action a ≡ some r) × IsWellFormed r × Decodes log rs

module _ (C : Codec Logic.State) (L : IsLawfulCodec C) where
  pub held :
      (b : Option C.Bytes) (s : Option Logic.State) (e : AnyhowError)
      → Holds C b s
      → transpose C.from_slice e b ≡ Outcome.ok s
  held none none e h = refl
  held none (some s) e h = absurd h
  held (some b) none e h = absurd h
  held (some b) (some s) e h = rw h refl

  pub stored :
      (s : Option Logic.State) (e : AnyhowError)
      → (b : Option C.Bytes) × (transpose C.to_vec e s ≡ Outcome.ok b) × Holds C b s
  stored none e = (none, refl, tt)
  stored (some s) e = let (b, to, from) = L.from_slice-to_vec s in (some b, rw to refl, from)

  Holds-or_old :
      (b b' : Option C.Bytes) (s s' : Option Logic.State)
      → Holds C b' s'
      → Holds C b s
      → Holds C (or_old b' b) (or_old s' s)
  Holds-or_old b none s none h' h = h
  Holds-or_old b none s (some s') h' h = absurd h'
  Holds-or_old b (some b') s none h' h = absurd h'
  Holds-or_old b (some b') s (some s') h' h = h'

  -- The whole program on one action.
  pub main_action :
      (bytes : Option C.Bytes) (s next : Option Logic.State) (a : C.Bytes) (request : ActionRequest)
      (response : ActionResponse)
      → Holds C bytes s
      → C.decode_action a ≡ some request
      → handle_parsed_action impl s request ≡ Outcome.ok (next, response)
      → (b : Option C.Bytes) × (r : C.Bytes) × (fold_state (run_logic C) bytes a
          ≡ ok (or_old b bytes, r))
        × Holds C b next
        × (C.decode_action_response r ≡ some response)
  unfolding fold_state run main respond_method handle_action
  main_action bytes s next a request response h d e =
      let call : Dolt.ActionRequest C.Bytes = record { state = bytes; action = a } in
      let (req, encoded, decoded) =
        L.decode-encode_request (record { method = some (Dolt.action_request call) }) in
      let (r, replied, read) = L.decode-encode_action_response response in
      let (b, kept, holds) = stored next AnyhowError.json_error in
      let (buf, sent, received) =
        L.decode-encode_response
          (record { method = some (Dolt.action_response (record { state = b; response = r })) }) in
      (
        b,
        r,
        rw
            (
              encoded,
              decoded,
              held bytes s AnyhowError.json_error h,
              d,
              e,
              replied,
              kept,
              sent,
              received,
            )
            refl,
        holds,
        read,
      )

  pub Holds-applied :
      (bytes b : Option C.Bytes) (s next : Option Logic.State) (request : ActionRequest)
      (response : ActionResponse)
      → handle_parsed_action impl s request ≡ Outcome.ok (next, response)
      → Holds C bytes s
      → Holds C b next
      → Holds C (or_old b bytes) (applied s request)
  Holds-applied bytes b s next request response e h k =
      rw (e, applied) (Holds-or_old bytes b s next k h)

  pub applied-IsValidStore :
      (s next : Option Logic.State) (request : ActionRequest) (response : ActionResponse)
      → handle_parsed_action impl s request ≡ Outcome.ok (next, response)
      → IsValidStore s
      → IsValidStore next
      → IsValidStore (applied s request)
  applied-IsValidStore s none request response e v w = rw (e, applied) v
  applied-IsValidStore s (some t) request response e v w = rw (e, applied) w

  pub fold_log_lem :
      (bytes : Option C.Bytes) (s : Option Logic.State) (log : List C.Bytes)
      (rs : List ActionRequest)
      → Holds C bytes s
      → IsValidStore s
      → Decodes C log rs
      → (b : Option C.Bytes) × (fold_log (run_logic C) bytes log ≡ ok b)
        × Holds C b (state_after s rs)
        × IsValidStore (state_after s rs)
  unfolding fold_log
  fold_log_lem bytes s [] [] h v d = (bytes, refl, h, v)
  fold_log_lem bytes s [] (r ∷ rs) h v d = absurd d
  fold_log_lem bytes s (a ∷ log) [] h v d = absurd d
  fold_log_lem bytes s (a ∷ log) (request ∷ rs) h v (d, w, ds) =
      let (next, response, e, valid) = answered s request v w in
      let (b, r, folded, holds, read) = main_action bytes s next a request response h d e in
      let (b', more, holds', valid') =
        fold_log_lem (or_old b bytes) (applied s request) log rs
          (Holds-applied bytes b s next request response e h holds)
          (applied-IsValidStore s next request response e v valid) ds in
      (b', rw folded more, holds', valid')

  -- If the stored actions decode to well-formed requests, and the datastore pushes an action behind
  -- them and returns their count, then a well-formed action is answered by the server: the answer
  -- decodes to what the logic's dispatch responds to it in the state, never serialized, after the
  -- earlier requests, whatever comes later in the log.
  pub server_answers :
      (push_action : C.Bytes → List C.Bytes → Result ServerError ℕ × List C.Bytes)
      (before : List C.Bytes) (requests : List ActionRequest) (action : C.Bytes)
      (request : ActionRequest) (later : List (Result ServerError C.Bytes))
      → push_action action before ≡ (ok (length before + 1), before ++ (action ∷ []))
      → Decodes C before requests
      → C.decode_action action ≡ some request
      → IsWellFormed request
      → (next : Option Logic.State) × (response : ActionResponse) × (r : C.Bytes)
        × (Server.handle_action (run_logic C) push_action later action before
            ≡ (ok r, before ++ (action ∷ [])))
        × (C.decode_action_response r ≡ some response)
        × (handle_parsed_action impl (state_after none requests) request
            ≡ Outcome.ok (next, response))
  unfolding Server.handle_action
  server_answers push_action before requests action request later pushes ds d w =
      let (b, folded, holds, valid) = fold_log_lem none none before requests tt tt ds in
      let (next, response, e, valid') = answered (state_after none requests) request valid w in
      let (b', r, step, holds', read) =
        main_action b (state_after none requests) next action request response holds d e in
      let reply =
        respond_to_pushed (run_logic C) before action r later b (or_old b' b) folded step in
      (next, response, r, rw (pushes, map_ok-append before action later, reply) refl, read, e)
