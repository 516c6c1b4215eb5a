-- ===== src/Handler/Reach.antt =====
-- The states that actions lead to: the logic's answer to each action, and the server's rule
-- (`new_state_bytes.or(state_bytes)` in be/server/src/main.rs) that no new state keeps the old one.
use pictophone.Base.{String, ◌≡◌, refl, inl, inr, Option, none, some, Option-cases}
use pictophone.Base.Outcome.{Outcome, ok, err, panic}
use pictophone.Logic
use pictophone.Logic.Invariant.{IsValidStore}
use pictophone.Logic.Growth.{
  Grows, Grows-refl, Grows-trans, Puts-Grows, Touches, create_game-Touches, join_game-Touches,
  start_game-Touches, make_move-Touches,
}
use pictophone.Base.Map.{or_default, or_old}
use pictophone.Handler.{
  impl, IsWellFormed, ActionMethod, create_game_request, join_game_request, start_game_request,
  make_move_request, ActionRequest, ActionReply, ActionResponse, respond, create_reply, join_reply,
  start_reply, make_reply, handle_method, handle_parsed_action,
}
use pictophone.Handler.Dispatch.{handle_parsed_action_total}

-- One well-formed action, answered.
pub data Step (s t : Option Logic.State) : Type 0 where
  act :
      (request : ActionRequest) (next : Option Logic.State) (response : ActionResponse)
      → IsWellFormed request
      → handle_parsed_action impl s request ≡ ok (next, response)
      → t ≡ or_old next s
      → Step s t

pub data Reach (s : Option Logic.State) : Option Logic.State → Type 0 where
  here : Reach s s
  after : {t u : Option Logic.State} → Reach s t → Step t u → Reach s u

or_old-IsValidStore :
    (next s : Option Logic.State)
    → IsValidStore next
    → IsValidStore s
    → IsValidStore (or_old next s)
or_old-IsValidStore none s a b = b
or_old-IsValidStore (some t) s a b = a

Step-IsValidStore : {s t : Option Logic.State} → Step s t → IsValidStore s → IsValidStore t
Step-IsValidStore {s} (act request next response w e same) v =
    rw same (or_old-IsValidStore next s (rw e at (handle_parsed_action_total s request v w)) v)

-- Every state that well-formed actions lead to from the empty store is valid.
pub Reach-IsValidStore : {t : Option Logic.State} → Reach none t → IsValidStore t
Reach-IsValidStore here = tt
Reach-IsValidStore (after r st) = Step-IsValidStore st (Reach-IsValidStore r)

-- Every started game of the first store continues in the second.
abbrev pub StoreGrows : Option Logic.State → Option Logic.State → Type 0
StoreGrows s t = Grows (or_default Logic.default_state s) (or_default Logic.default_state t)

or_old-StoreGrows :
    (s next : Option Logic.State)
    → ((t : Logic.State) → next ≡ some t → Grows (or_default Logic.default_state s) t)
    → StoreGrows s (or_old next s)
or_old-StoreGrows s none h = Grows-refl _
or_old-StoreGrows s (some t) h = h t refl

respond_inv :
    {E : Type 0} (reply : Option E → ActionReply) (r : Outcome E (Option Logic.State))
    (t : Logic.State) (response : ActionResponse)
    → respond reply r ≡ ok (some t, response)
    → r ≡ ok (some t)
respond_inv reply (ok state) t response e = cc
respond_inv reply (err error) t response e = cc
respond_inv reply panic t response e = cc

touched :
    {E : Type 0} (k : String) (s : Option Logic.State) (reply : Option E → ActionReply)
    (r : Outcome E (Option Logic.State)) (t : Logic.State) (response : ActionResponse)
    → Touches k s r
    → respond reply r ≡ ok (some t, response)
    → Grows (or_default Logic.default_state s) t
touched k s reply r t response h e = Puts-Grows k s t (h t (respond_inv reply r t response e))

method-Grows :
    (s : Option Logic.State) (m : ActionMethod) (t : Logic.State) (response : ActionResponse)
    → handle_method impl s m ≡ ok (some t, response)
    → Grows (or_default Logic.default_state s) t
unfolding handle_method
method-Grows s (create_game_request r) t response =
    touched r.game_id s create_reply _ t response (create_game-Touches s r)
method-Grows s (join_game_request r) t response =
    touched r.game_id s join_reply _ t response (join_game-Touches s r)
method-Grows s (start_game_request r) t response =
    touched r.game_id s start_reply _ t response (start_game-Touches s r)
method-Grows s (make_move_request r) t response =
    touched r.game_id s make_reply _ t response (make_move-Touches s r)

Step-StoreGrows : {s t : Option Logic.State} → Step s t → StoreGrows s t
unfolding handle_parsed_action
Step-StoreGrows {s} (act request next response w e same) = elim (Option-cases request.method) [
  | inl missing ↦ absurd (rw missing at w)
  | inr (m, found) ↦
      rw same
        (or_old-StoreGrows s next (λ t new. method-Grows s m t response (rw (found, new) at e)))
]

-- A game once started keeps its players, its window and its length through any actions, and its
-- story is only ever added to.
pub Reach-StoreGrows : {s t : Option Logic.State} → Reach s t → StoreGrows s t
Reach-StoreGrows {s} here = Grows-refl (or_default Logic.default_state s)
Reach-StoreGrows {s} (after {t = t} {u = u} r st) =
    Grows-trans _ (or_default Logic.default_state t) _ (Reach-StoreGrows r) (Step-StoreGrows st)
