-- ===== src/Dolt.antt =====
-- The messages of be/proto/dolt.proto between the server and the logic, over a type of byte strings
-- for what is serialized inside them.
use pictophone.Base.{Option}

pub record ActionRequest (B : Type 0) : Type 0 where
  pub state : Option B
  pub action : B

pub record QueryRequest (B : Type 0) : Type 0 where
  pub state : Option B
  pub query : B

pub data RequestMethod (B : Type 0) : Type 0 where
  action_request : ActionRequest B → RequestMethod B
  query_request : QueryRequest B → RequestMethod B

pub record Request (B : Type 0) : Type 0 where
  pub method : Option (RequestMethod B)

pub record ActionResponse (B : Type 0) : Type 0 where
  pub state : Option B
  pub response : B

pub record QueryResponse (B : Type 0) : Type 0 where
  pub response : B

pub data ResponseMethod (B : Type 0) : Type 0 where
  action_response : ActionResponse B → ResponseMethod B
  query_response : QueryResponse B → ResponseMethod B

pub record Response (B : Type 0) : Type 0 where
  pub method : Option (ResponseMethod B)
