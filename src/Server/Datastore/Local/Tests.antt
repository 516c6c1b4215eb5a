-- ===== src/Server/Datastore/Local/Tests.antt =====
-- A vector that is watched while elements are pushed (be/server/src/util/aovec.rs).
use pictophone.Base.{ℕ, [], ◌∷◌, map, length, ◌≡◌}
use pictophone.Base.Result.{ok, values}
use pictophone.Server.{ServerError}
use pictophone.Server.Datastore.{range, fill_in_gaps}
use pictophone.Server.Datastore.Local.{AoVec, new, watch}
use pictophone.Server.Datastore.Local.Offsets.{push_all, since, fill_in_gaps-watch}

abbrev subscribed : AoVec ℕ
subscribed = push_all (7 ∷ []) new

fill_in_gaps-watch_example :
    values (
      fill_in_gaps {E = ServerError} (
        map ok (
          watch
            (push_all (8 ∷ 9 ∷ []) subscribed)
            (since subscribed (push_all (1 ∷ []) (push_all (8 ∷ 9 ∷ []) subscribed))))))
    ≡ range 0 (length (push_all (1 ∷ []) (push_all (8 ∷ 9 ∷ []) subscribed)).vec)
fill_in_gaps-watch_example = fill_in_gaps-watch subscribed (8 ∷ 9 ∷ []) (1 ∷ [])
