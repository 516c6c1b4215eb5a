-- ===== src/Pb/Game/YourTurn.antt =====
-- `Game.YourTurn` of fe/src/gen/pictophone/v0_1_pb.js and of its v0_1_pb.d.ts.
pub mod RoundTrip
use mathlib.Core.Option
use pictophone.Base.{ℕ, String, Bool, Option, some, none, List, [], ◌∷◌, ◌==◌, if◌then◌else◌}
use pictophone.Pb.Runtime.{Jspb, is_set}
use pictophone.Pb.Runtime.Loop.{read_fields, put_string, put_uint32, put_repeated, put_message}

-- `AsObject`, what `toObject` returns.
pub record Object : Type 0 where
  pub context_list : List String

module _ (J : Jspb) where
  -- The constructor, without data.
  unfoldable pub new : J.Message
  new = J.initialize (1 ∷ []) []

  unfoldable pub get_context_list : J.Message → List String
  get_context_list this = J.get_repeated_field this 1

  unfoldable pub set_context_list : J.Message → List String → J.Message
  set_context_list this value = J.set_field this 1 value

  -- The last argument is the optional index.
  unfoldable pub add_context : J.Message → String → Option ℕ → J.Message
  add_context this value opt_index = J.add_to_repeated_field this 1 value opt_index

  unfoldable pub clear_context_list : J.Message → J.Message
  unfolding set_context_list
  clear_context_list this = set_context_list this []

  -- With `includeInstance` not set.
  unfoldable pub to_object : J.Message → Object
  to_object msg = record { context_list = J.get_repeated_field msg 1 }

  -- The `switch` on the field number: the message and the reader after it.
  unfoldable pub switch : ℕ → J.Message → J.Reader → J.Message × J.Reader
  unfolding add_context
  switch field msg reader =
      if field == 1
      then (let (value, reader') = J.read_string reader in (add_context msg value none, reader'))
      else (msg, J.skip_field reader)

  unfoldable pub deserialize_binary_from_reader : J.Message → J.Reader → J.Message × J.Reader
  unfolding switch
  deserialize_binary_from_reader msg reader = read_fields J switch msg reader

  unfoldable pub deserialize_binary : J.Bytes → J.Message
  unfolding new deserialize_binary_from_reader
  deserialize_binary bytes = (deserialize_binary_from_reader new (J.new_reader bytes)).0

  unfoldable pub serialize_binary_to_writer : J.Message → J.Writer → J.Writer
  unfolding get_context_list
  serialize_binary_to_writer message writer = put_repeated J writer 1 (get_context_list message)

  unfoldable pub serialize_binary : J.Message → J.Bytes
  unfolding serialize_binary_to_writer
  serialize_binary this = J.get_result_buffer (serialize_binary_to_writer this J.new_writer)
