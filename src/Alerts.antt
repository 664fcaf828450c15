-- ===== src/Alerts.antt =====
-- The budget of the Slack alerts in src/tr_shared/alerts/slack.py, and the alert of a task that failed for
-- good. A time is a whole number of microseconds; the layout of a message is left out.
pub mod Budget
mod Tests
use tr_shared_lib.Base.{
  ℕ, zero, suc, ◌+◌, ◌-◌, String, Option, none, some, Bool, true, false, List, [], ◌∷◌, ltb, leb,
  str_eq, if◌then◌else◌,
}
use tr_shared_lib.Base.Dict.{Dict, lookup, insert}
use Prim.Native.String

pub record SlackAlertBudget : Type 0 where
  pub per_hour : ℕ
  pub counts : Dict ℕ
  pub window_started : Dict ℕ

abbrev pub hour : ℕ
hour = 3600000000

unfoldable pub new_budget : ℕ → SlackAlertBudget
new_budget per_hour = record { per_hour = per_hour; counts = []; window_started = [] }

-- `self._counts[key]`; a read enters a missing key with 0, as the `defaultdict` does
unfoldable pub count_of : String → Dict ℕ → ℕ
count_of key counts = elim (lookup key counts) [ some n ↦ n | none ↦ 0 ]

-- `self._window_started.setdefault(key, now)`
unfoldable pub started_of : String → ℕ → Dict ℕ → ℕ
started_of key now window_started = elim (lookup key window_started) [ some t ↦ t | none ↦ now ]

-- the budget with its window of the key: a new one where the old one is over
unfoldable pub roll : String → ℕ → SlackAlertBudget → SlackAlertBudget
roll key now b =
    let started = started_of key now b.window_started in
    if ltb hour (now - started)
    then record b {
      counts = insert key 0 b.counts;
      window_started = insert key now b.window_started;
    }
    else record b { window_started = insert key started b.window_started }

unfoldable pub spend : String → SlackAlertBudget → Bool × SlackAlertBudget
spend key b =
    let count = count_of key b.counts in
    if leb b.per_hour count
    then (false, record b { counts = insert key count b.counts })
    else (true, record b { counts = insert key (count + 1) b.counts })

unfoldable pub allow : String → ℕ → SlackAlertBudget → Bool × SlackAlertBudget
allow key now b = spend key (roll key now b)

-- `alert_task_failed_permanently`: whether a message is sent, and the budget
unfoldable pub alert_task_failed_permanently :
    String → String → String → ℕ → SlackAlertBudget → Bool × SlackAlertBudget
alert_task_failed_permanently webhook_url service task_name now b =
    if str_eq webhook_url ""
    then (false, b)
    else allow (String.◌++◌ service (String.◌++◌ ":task:" task_name)) now b
