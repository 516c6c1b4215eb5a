-- ===== src/Lib.antt =====
-- Pictophone is a game in which players write a story together, each seeing only the last sentences
-- of it. This library models the program from the state of the games to the client in the browser.
--
-- The parts of the program and their modules:
-- - Messages.antt, Dolt.antt: the messages of be/proto/server/pictophone/messages.proto and of
--   be/proto/dolt.proto, as the Rust side holds them. A `oneof` is an Option of a data type.
-- - Logic.antt: be/logic/src/main.rs. `State`, `Game` and `StartedGame` are the source's types, and
--   `create_game`, `join_game`, `start_game`, `make_move` and `get_game` its handlers. A handler
--   returns an Outcome: `ok` and `err` are Rust's Ok and Err, and `panic` stands for an `unwrap`, a
--   division or a slice that panics. `&mut` on the state is a new state. The map of games is an
--   association list (Base/Map.antt), since nothing depends on the order of its keys.
-- - Handler.antt: be/logic/src/handler.rs, over be/proto/server/pictophone/log.proto: the trait
--   `Handler`, `handle_parsed_action`, `handle_parsed_query`, and the program `main` from the bytes of
--   its standard input to those of its standard output. serde_json and prost are the parameter
--   `Codec`, with the laws `IsLawfulCodec`; Handler/Model.antt meets them.
-- - Server.antt: be/server/src/main.rs and `end_after_error` of be/server/src/util/mod.rs. The server
--   keeps a log of actions and no other state: `fold_state` runs the logic on one action,
--   `state_stream` on the log, `handle_action` pushes an action and answers it, by `respond_to`, and
--   `handle_query` answers a query in every state. The push is a parameter. A stream is the list of
--   what it yields. Server/Log.antt and Server/Refinement.antt are about what it computes from a
--   log, Server/Refinement/Concurrent.antt about clients that push at the same time.
-- - Server/Api.antt: the gRPC methods of be/server/src/proto.rs over a server of byte strings.
-- - Server/Runner.antt: `Runner::run` of be/server/src/runner.rs with the WASM program as a function;
--   Server/Runner/Versions.antt: its choice of a version and `load_module` with the cache of modules;
--   Server/Runner/Filesystem.antt: the provider of be/server/src/binaries.rs.
-- - Server/Datastore.antt: the watching and caching part of be/server/src/datastore.rs.
--   Server/Datastore/Push.antt: its documents, its fetches and `push_action`. What a call of Firestore
--   does is the parameter `FirestoreClient`; Push/Laws.antt states what the code relies on, that a
--   transaction is committed as a whole and only while what it read still holds, and Push/Model.antt
--   meets it. `push_action` stands at one call at a time (`Pc`, `advance`), and Push/Tasks.antt lets
--   the calls of any number of tasks interleave in any order. Server/Datastore/Document.antt: how
--   documents are read, be/serde_firestore/src/lib.rs. Server/Datastore/Local.antt: the vector of
--   be/server/src/util/aovec.rs and the local datastore over it.
-- - Server/Auth.antt: the tokens of be/server/src/auth.rs and the cache of the last one.
-- - Pb.antt: the message classes of fe/src/gen/pictophone/v0_1_pb.js, one module for each class and
--   one definition for each of its functions: constructor, getters, setters, `toObject`,
--   `deserializeBinary` and `serializeBinary`. The package google-protobuf (`jspb`) is not in the
--   repository: Pb/Runtime.antt has its functions as the parameter `Jspb` and what the classes rely
--   on as the laws `IsLawful`; Pb/Runtime/Model.antt meets them. A class's mutation of a message,
--   a reader or a writer is a new one.
-- - Fe.antt: the client. Fe/Navigation.antt is fe/src/navigation.ts; Fe/App.antt is the state machine
--   of fe/src/App.tsx: `newState`, `fold`, the requests that it sends through the classes of Pb, and
--   what each view shows and offers; Fe/App/Sealed.antt is `sealState`,
--   Fe/App/Shown.antt `App`, with what the user dispatches as a parameter, and Fe/App/Feeds.antt what
--   it hears from `getGame`, from firebase and from the address bar, with the class `Nav`.
--   Fe/App/Accepted.antt sets the page of a game beside the logic.
--   Fe/Watch.antt and Fe/Watch/Fold.antt are fe/src/watch.ts: a `Watchable` is a value with its later
--   values and their times; in `mapFold` and `App` a promise that rejects is the last of them, `none`.
--   Those of the other functions do not reject. Fe/Client.antt is the stub of
--   fe/src/gen/pictophone/V0_1ServiceClientPb.ts over the parameter `GrpcWeb`, and Fe/Config.antt
--   fe/src/config.ts.
--
-- How they interact: the client's `fold` builds requests with the message classes and sends them by
-- the stub; a gRPC method of the server wraps its request as an action, which the server pushes to
-- the log in the datastore; the server watches the log and runs the logic, as a program over bytes,
-- on every action of it; the program decodes the state and the action and calls a handler of Logic.
--
-- Bounds and fuel: `u32` numbers are below 2 ^ 32, and a conversion of a length to `u32` panics
-- beyond. The loop of a `deserializeBinaryFromReader` runs for at most one round more than its
-- reader has bytes; each round reads a field, which takes at least a byte. The loop of `fetch_action`
-- runs for at most one round more than the index, since each round adds an entry to the cache. What
-- `mapFold` makes can go on for ever: `map_fold` has the number of changes to take as an argument, and
-- what is stated of it holds for every number.
--
-- In be/server `u64` counts wrap at 2 ^ 64, and a count of 2 ^ 63 does not fit a document. The loop of
-- `push_action` is not on fuel: a task makes as many calls as its turns come.
--
-- Not modelled: the listen request behind the reported counts, and of an instance of the local
-- datastore the watching, which the source leaves as `todo!()`; the signing of claims, the decoding
-- of keys and the requests over HTTP in be/server/src/auth.rs; the WASM engine; the reading of the
-- server's configuration; `inspect` of fe/src/watch.ts; markup, and the start-up of the server and
-- the client, which only do input and output; be/doltc.
-- What the logic's `main` does after a short write to its standard output is left out.
pub mod Base
pub mod Messages
pub mod Dolt
pub mod Logic
pub mod Handler
pub mod Pb
pub mod Fe
pub mod Server
