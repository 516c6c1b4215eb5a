-- ===== src/Pb.antt =====
-- The message classes of fe/src/gen/pictophone/v0_1_pb.js over the runtime `google-protobuf`,
-- which is a parameter. One module for each class, with the class's functions under their names.
pub mod Runtime
mod Tests
pub mod CreateGameRequest
pub mod UnknownError
pub mod GameAlreadyExistsError
pub mod CreateGameResponse
pub mod JoinGameRequest
pub mod GameNotFoundError
pub mod GameAlreadyStartedError
pub mod JoinGameResponse
pub mod StartGameRequest
pub mod PlayerNotInGameError
pub mod InvalidGameParametersError
pub mod StartGameResponse
pub mod MakeMoveRequest
pub mod NotYourTurnError
pub mod GameNotStartedError
pub mod GameAlreadyOverError
pub mod MakeMoveResponse
pub mod GetGameRequest
pub mod Game
pub mod GetGameResponse
pub mod MoveAbortedError
pub mod EmptyHandError
