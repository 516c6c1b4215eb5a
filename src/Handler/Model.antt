-- ===== src/Handler/Model.antt =====
-- A codec that meets the laws: a byte string is the value that it stands for.
use pictophone.Base.{◌≡◌, refl, Option, none, some}
use pictophone.Dolt
use pictophone.Logic
use pictophone.Handler.{
  ActionRequest, ActionResponse, QueryRequest, QueryResponse, Codec, IsLawfulCodec,
}

pub data Blob : Type 0 where
  a_state : Logic.State → Blob
  an_action : ActionRequest → Blob
  an_action_response : ActionResponse → Blob
  a_query : QueryRequest → Blob
  a_query_response : QueryResponse → Blob
  no_call : Blob
  call_action : Blob → Blob
  call_action_on : Blob → Blob → Blob
  call_query : Blob → Blob
  call_query_on : Blob → Blob → Blob
  no_return : Blob
  return_action : Blob → Blob
  return_action_with : Blob → Blob → Blob
  return_query : Blob → Blob

abbrev encode_action_call : Option Blob → Blob → Blob
encode_action_call none action = call_action action
encode_action_call (some state) action = call_action_on state action

abbrev encode_query_call : Option Blob → Blob → Blob
encode_query_call none query = call_query query
encode_query_call (some state) query = call_query_on state query

abbrev encode_call : Option (Dolt.RequestMethod Blob) → Blob
encode_call none = no_call
encode_call (some (Dolt.action_request call)) = encode_action_call call.state call.action
encode_call (some (Dolt.query_request call)) = encode_query_call call.state call.query

abbrev action_call : Option Blob → Blob → Dolt.Request Blob
action_call state action = record {
  method = some (Dolt.action_request (record { state = state; action = action }));
}

abbrev query_call : Option Blob → Blob → Dolt.Request Blob
query_call state query = record {
  method = some (Dolt.query_request (record { state = state; query = query }));
}

abbrev decode_call : Blob → Option (Dolt.Request Blob)
decode_call no_call = some (record { method = none })
decode_call (call_action action) = some (action_call none action)
decode_call (call_action_on state action) = some (action_call (some state) action)
decode_call (call_query query) = some (query_call none query)
decode_call (call_query_on state query) = some (query_call (some state) query)
decode_call _ = none

abbrev encode_action_return : Option Blob → Blob → Blob
encode_action_return none response = return_action response
encode_action_return (some state) response = return_action_with state response

abbrev encode_return : Option (Dolt.ResponseMethod Blob) → Blob
encode_return none = no_return
encode_return (some (Dolt.action_response r)) = encode_action_return r.state r.response
encode_return (some (Dolt.query_response r)) = return_query r.response

abbrev action_return : Option Blob → Blob → Dolt.Response Blob
action_return state response = record {
  method = some (Dolt.action_response (record { state = state; response = response }));
}

abbrev decode_return : Blob → Option (Dolt.Response Blob)
decode_return no_return = some (record { method = none })
decode_return (return_action response) = some (action_return none response)
decode_return (return_action_with state response) = some (action_return (some state) response)
decode_return (return_query response) =
    some (record { method = some (Dolt.query_response (record { response = response })) })
decode_return _ = none

abbrev pub blobs : Codec Logic.State
blobs = record {
  Bytes = Blob;
  from_slice = λ b. elim b [ a_state s ↦ some s | _ ↦ none ];
  to_vec = λ s. some (a_state s);
  decode_action = λ b. elim b [ an_action r ↦ some r | _ ↦ none ];
  encode_action_response = λ r. some (an_action_response r);
  decode_query = λ b. elim b [ a_query r ↦ some r | _ ↦ none ];
  encode_query_response = λ r. some (a_query_response r);
  decode_request = decode_call;
  encode_response = λ r. some (encode_return r.method);
  encode_action = λ r. some (an_action r);
  encode_query = λ r. some (a_query r);
  decode_action_response = λ b. elim b [ an_action_response r ↦ some r | _ ↦ none ];
  decode_query_response = λ b. elim b [ a_query_response r ↦ some r | _ ↦ none ];
  encode_request = λ r. some (encode_call r.method);
  decode_response = decode_return;
}

decode-encode_action_call :
    (state : Option Blob) (action : Blob)
    → decode_call (encode_action_call state action) ≡ some (action_call state action)
decode-encode_action_call none action = refl
decode-encode_action_call (some state) action = refl

decode-encode_query_call :
    (state : Option Blob) (query : Blob)
    → decode_call (encode_query_call state query) ≡ some (query_call state query)
decode-encode_query_call none query = refl
decode-encode_query_call (some state) query = refl

decode-encode_call :
    (method : Option (Dolt.RequestMethod Blob))
    → decode_call (encode_call method) ≡ some (record { method = method })
decode-encode_call none = refl
decode-encode_call (some (Dolt.action_request call)) =
    decode-encode_action_call call.state call.action
decode-encode_call (some (Dolt.query_request call)) = decode-encode_query_call call.state call.query

decode-encode_action_return :
    (state : Option Blob) (response : Blob)
    → decode_return (encode_action_return state response) ≡ some (action_return state response)
decode-encode_action_return none response = refl
decode-encode_action_return (some state) response = refl

decode-encode_return :
    (method : Option (Dolt.ResponseMethod Blob))
    → decode_return (encode_return method) ≡ some (record { method = method })
decode-encode_return none = refl
decode-encode_return (some (Dolt.action_response r)) =
    decode-encode_action_return r.state r.response
decode-encode_return (some (Dolt.query_response r)) = refl

pub blobs-IsLawfulCodec : IsLawfulCodec blobs
blobs-IsLawfulCodec = record {
  from_slice-to_vec = λ s. (a_state s, refl, refl);
  decode-encode_action = λ r w. (an_action r, refl, refl);
  decode-encode_query = λ r. (a_query r, refl, refl);
  decode-encode_action_response = λ r. (an_action_response r, refl, refl);
  decode-encode_query_response = λ r. (a_query_response r, refl, refl);
  decode-encode_request = λ r. (encode_call r.method, refl, decode-encode_call r.method);
  decode-encode_response = λ r. (encode_return r.method, refl, decode-encode_return r.method);
}
