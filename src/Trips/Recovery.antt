-- ===== src/Trips/Recovery.antt =====
-- What a reconciliation counts.
use travel_web_api.Db.Monad.{Db}
use travel_web_api.Db.Trips.{UserTrip}
use travel_web_api.Prelude.{length, ◌+◌, ◌≡◌, List}
use travel_web_api.Python.{Python}
use travel_web_api.Trips.Reconciliation.{ReconciliationResult}

-- The trips of `ts` are counted one by one.
record HasCounted (ts : List UserTrip) (before after : ReconciliationResult) : Type 0 where
  same_claimed : after.claimed ≡ before.claimed
  each_once : after.recovered + after.unresolved ≡ before.recovered + before.unresolved + length ts
