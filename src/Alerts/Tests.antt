-- ===== src/Alerts/Tests.antt =====
-- A budget of two alerts an hour.
use tr_shared_lib.Base.{◌+◌, false, List, [], ◌∷◌, ◌≡◌, refl, arith}
use tr_shared_lib.Base.Dict.{insert, lookup}
use tr_shared_lib.Alerts.{
  hour, new_budget, count_of, started_of, roll, spend, allow, alert_task_failed_permanently,
}
use tr_shared_lib.Alerts.Budget.{Call, allowed, calls_of, smaller, allowed_lem}

abbrev calls : List Call
calls = ("a", 5) ∷ ("b", 6) ∷ ("a", 7) ∷ ("a", 8) ∷ []

-- After more than an hour there is a new budget.
refilled : allowed "a" (("a", 5) ∷ ("a", 6) ∷ ("a", 6 + hour) ∷ []) (new_budget 1) ≡ 2
unfolding allowed allow roll spend count_of started_of new_budget insert lookup
refilled = refl

no_webhook : (alert_task_failed_permanently "" "lead" "sync" 5 (new_budget 1)).0 ≡ false
unfolding alert_task_failed_permanently
no_webhook = refl

allowed_lem_example : allowed "a" calls (new_budget 2) ≡ smaller 2 (calls_of "a" calls)
allowed_lem_example = allowed_lem "a" 2 5 calls (omega arith)
