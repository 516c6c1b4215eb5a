-- ===== src/Pb/CreateGameRequest.antt =====
-- `CreateGameRequest` of fe/src/gen/pictophone/v0_1_pb.js and of its v0_1_pb.d.ts.
pub mod RoundTrip
use mathlib.Core.Option
use pictophone.Base.{ℕ, String, Bool, Option, some, none, List, [], ◌∷◌, ◌==◌, if◌then◌else◌}
use pictophone.Pb.Runtime.{Jspb, is_set}
use pictophone.Pb.Runtime.Loop.{read_fields, put_string, put_uint32, put_repeated, put_message}

-- `AsObject`, what `toObject` returns.
pub record Object : Type 0 where
  pub game_id : String
  pub player_id : String

module _ (J : Jspb) where
  -- The constructor, without data.
  unfoldable pub new : J.Message
  new = J.initialize [] []

  unfoldable pub get_game_id : J.Message → String
  get_game_id this = J.get_text_with_default this 1 ""

  unfoldable pub set_game_id : J.Message → String → J.Message
  set_game_id this value = J.set_proto3_string_field this 1 value

  unfoldable pub get_player_id : J.Message → String
  get_player_id this = J.get_text_with_default this 2 ""

  unfoldable pub set_player_id : J.Message → String → J.Message
  set_player_id this value = J.set_proto3_string_field this 2 value

  -- With `includeInstance` not set.
  unfoldable pub to_object : J.Message → Object
  to_object msg = record {
    game_id = J.get_text_with_default msg 1 "";
    player_id = J.get_text_with_default msg 2 "";
  }

  -- The `switch` on the field number: the message and the reader after it.
  unfoldable pub switch : ℕ → J.Message → J.Reader → J.Message × J.Reader
  unfolding set_game_id set_player_id
  switch field msg reader =
      if field == 1
      then (let (value, reader') = J.read_string reader in (set_game_id msg value, reader'))
      else if field == 2
      then (let (value, reader') = J.read_string reader in (set_player_id msg value, reader'))
      else (msg, J.skip_field reader)

  unfoldable pub deserialize_binary_from_reader : J.Message → J.Reader → J.Message × J.Reader
  unfolding switch
  deserialize_binary_from_reader msg reader = read_fields J switch msg reader

  unfoldable pub deserialize_binary : J.Bytes → J.Message
  unfolding new deserialize_binary_from_reader
  deserialize_binary bytes = (deserialize_binary_from_reader new (J.new_reader bytes)).0

  unfoldable pub serialize_binary_to_writer : J.Message → J.Writer → J.Writer
  unfolding get_game_id get_player_id
  serialize_binary_to_writer message writer =
      let w1 = put_string J writer 1 (get_game_id message) in
      put_string J w1 2 (get_player_id message)

  unfoldable pub serialize_binary : J.Message → J.Bytes
  unfolding serialize_binary_to_writer
  serialize_binary this = J.get_result_buffer (serialize_binary_to_writer this J.new_writer)
