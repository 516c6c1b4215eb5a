-- ===== src/Fe/App/Requests.antt =====
-- The content of the requests of fe/src/App.tsx for a move and for a start.
use pictophone.Base.{◌≡◌, ◌<◌, ◌^◌, ap, arith, String}
use pictophone.Pb.Runtime.{Jspb, IsLawful}
use pictophone.Pb.Runtime.Steps.Cases.{text_or_restored}
use pictophone.Pb.StartGameRequest
use pictophone.Pb.MakeMoveRequest
use pictophone.Fe.App.{UserInfo, submit_request, start_request}

module _ (J : Jspb) (L : IsLawful J) (user : UserInfo) (game_id : String) where
  pub submit_request_object :
      (sentence : String)
      → MakeMoveRequest.to_object J (submit_request J game_id user sentence)
        ≡ record { game_id = game_id; player_id = user.uid; sentence = sentence }
  unfolding submit_request MakeMoveRequest.to_object MakeMoveRequest.new MakeMoveRequest.set_game_id
      MakeMoveRequest.set_player_id MakeMoveRequest.set_sentence
  submit_request_object sentence =
      simp (L.get_text_with_default_lem, L.get_field-set_proto3_string_field, text_or_restored)

  pub start_request_object :
      StartGameRequest.to_object J (start_request J game_id user)
      ≡ record { game_id = game_id; player_id = user.uid; window_size = 2; length = 5 }
  unfolding start_request StartGameRequest.to_object StartGameRequest.new
      StartGameRequest.set_game_id StartGameRequest.set_player_id StartGameRequest.set_window_size
      StartGameRequest.set_length
  start_request_object = simp (
    L.get_text_with_default_lem, L.get_number_with_default_lem, L.get_field-set_proto3_string_field,
    L.get_field-set_proto3_int_field, text_or_restored,
  )

  -- The numbers of a start are 32-bit numbers.
  pub start_request_small :
      (StartGameRequest.get_window_size J (start_request J game_id user) < 2 ^ 32)
      × (StartGameRequest.get_length J (start_request J game_id user) < 2 ^ 32)
  unfolding StartGameRequest.to_object StartGameRequest.get_window_size StartGameRequest.get_length
  start_request_small =
      let window = ap (λ o. o.window_size) start_request_object in
      let rounds = ap (λ o. o.length) start_request_object in
      (rw window (omega arith), rw rounds (omega arith))
