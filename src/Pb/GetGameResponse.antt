-- ===== src/Pb/GetGameResponse.antt =====
-- `GetGameResponse` of fe/src/gen/pictophone/v0_1_pb.js and of its v0_1_pb.d.ts.
pub mod RoundTrip
use mathlib.Core.Option
use pictophone.Base.{ℕ, String, Bool, Option, some, none, List, [], ◌∷◌, ◌==◌, if◌then◌else◌}
use pictophone.Pb.Runtime.{Jspb, is_set}
use pictophone.Pb.Runtime.Loop.{read_fields, put_string, put_uint32, put_repeated, put_message}
use pictophone.Pb.UnknownError
use pictophone.Pb.PlayerNotInGameError
use pictophone.Pb.Game

-- `AsObject`, what `toObject` returns.
pub record Object : Type 0 where
  pub unknown_error : Option UnknownError.Object
  pub player_not_in_game_error : Option PlayerNotInGameError.Object
  pub game : Option Game.Object

-- `oneofGroups_[0]`
abbrev pub oneof_group : List ℕ
oneof_group = 1 ∷ 2 ∷ []

module _ (J : Jspb) where
  -- The constructor, without data.
  unfoldable pub new : J.Message
  new = J.initialize [] (oneof_group ∷ [])

  unfoldable pub get_error_case : J.Message → ℕ
  get_error_case this = J.compute_oneof_case this oneof_group

  unfoldable pub get_unknown_error : J.Message → Option J.Message
  get_unknown_error this = J.get_wrapper_field this 1

  unfoldable pub set_unknown_error : J.Message → Option J.Message → J.Message
  set_unknown_error this value = J.set_oneof_wrapper_field this 1 oneof_group value

  unfoldable pub clear_unknown_error : J.Message → J.Message
  unfolding set_unknown_error
  clear_unknown_error this = set_unknown_error this none

  unfoldable pub has_unknown_error : J.Message → Bool
  has_unknown_error this = is_set (J.get_field this 1)

  unfoldable pub get_player_not_in_game_error : J.Message → Option J.Message
  get_player_not_in_game_error this = J.get_wrapper_field this 2

  unfoldable pub set_player_not_in_game_error : J.Message → Option J.Message → J.Message
  set_player_not_in_game_error this value = J.set_oneof_wrapper_field this 2 oneof_group value

  unfoldable pub clear_player_not_in_game_error : J.Message → J.Message
  unfolding set_player_not_in_game_error
  clear_player_not_in_game_error this = set_player_not_in_game_error this none

  unfoldable pub has_player_not_in_game_error : J.Message → Bool
  has_player_not_in_game_error this = is_set (J.get_field this 2)

  unfoldable pub get_game : J.Message → Option J.Message
  get_game this = J.get_wrapper_field this 3

  unfoldable pub set_game : J.Message → Option J.Message → J.Message
  set_game this value = J.set_wrapper_field this 3 value

  unfoldable pub clear_game : J.Message → J.Message
  unfolding set_game
  clear_game this = set_game this none

  unfoldable pub has_game : J.Message → Bool
  has_game this = is_set (J.get_field this 3)

  -- With `includeInstance` not set.
  unfoldable pub to_object : J.Message → Object
  unfolding get_unknown_error get_player_not_in_game_error get_game
  to_object msg = record {
    unknown_error = Option.map (UnknownError.to_object J) (get_unknown_error msg);
    player_not_in_game_error =
        Option.map (PlayerNotInGameError.to_object J) (get_player_not_in_game_error msg);
    game = Option.map (Game.to_object J) (get_game msg);
  }

  -- The `switch` on the field number: the message and the reader after it.
  unfoldable pub switch : ℕ → J.Message → J.Reader → J.Message × J.Reader
  unfolding set_unknown_error set_player_not_in_game_error set_game
  switch field msg reader =
      if field == 1
      then (let (value, reader') =
            J.read_message reader (UnknownError.new J)
              (UnknownError.deserialize_binary_from_reader J) in
          (set_unknown_error msg (some value), reader'))
      else if field == 2
      then (let (value, reader') =
            J.read_message reader (PlayerNotInGameError.new J)
              (PlayerNotInGameError.deserialize_binary_from_reader J) in
          (set_player_not_in_game_error msg (some value), reader'))
      else if field == 3
      then (let (value, reader') =
            J.read_message reader (Game.new J) (Game.deserialize_binary_from_reader J) in
          (set_game msg (some value), reader'))
      else (msg, J.skip_field reader)

  unfoldable pub deserialize_binary_from_reader : J.Message → J.Reader → J.Message × J.Reader
  unfolding switch
  deserialize_binary_from_reader msg reader = read_fields J switch msg reader

  unfoldable pub deserialize_binary : J.Bytes → J.Message
  unfolding new deserialize_binary_from_reader
  deserialize_binary bytes = (deserialize_binary_from_reader new (J.new_reader bytes)).0

  unfoldable pub serialize_binary_to_writer : J.Message → J.Writer → J.Writer
  unfolding get_unknown_error get_player_not_in_game_error get_game
  serialize_binary_to_writer message writer =
      let w1 =
        put_message J writer 1 (get_unknown_error message)
          (UnknownError.serialize_binary_to_writer J) in
      let w2 =
        put_message J w1 2 (get_player_not_in_game_error message)
          (PlayerNotInGameError.serialize_binary_to_writer J) in
      put_message J w2 3 (get_game message) (Game.serialize_binary_to_writer J)

  unfoldable pub serialize_binary : J.Message → J.Bytes
  unfolding serialize_binary_to_writer
  serialize_binary this = J.get_result_buffer (serialize_binary_to_writer this J.new_writer)
