-- ===== src/Alerts/Budget.antt =====
-- How many alerts get through.
use tr_shared_lib.Base.{
  ℕ, ◌+◌, ◌≤◌, String, Option, none, some, Bool, true, false, List, [], ◌∷◌, ltb, leb, str_eq,
  eq_iff, if◌then◌else◌, ◌≡◌, All, arith, Bool-cases, inl, inr,
}
use tr_shared_lib.Base.Dict.{Dict, lookup, insert, lookup-insert}
use tr_shared_lib.Alerts.{
  SlackAlertBudget, hour, new_budget, count_of, started_of, roll, spend, allow,
}

-- a call of `allow`: the key and the time
abbrev pub Call : Type 0
Call = String × ℕ

abbrev pub one_if : Bool → ℕ
one_if true = 1
one_if false = 0

-- how many of the calls with this key are allowed, one after the other
unfoldable pub allowed : String → List Call → SlackAlertBudget → ℕ
allowed key [] b = 0
allowed key ((other_key, now) ∷ calls) b =
    let (answer, b') = allow other_key now b in
    (if str_eq other_key key then one_if answer else 0) + allowed key calls b'

unfoldable pub calls_of : String → List Call → ℕ
calls_of key [] = 0
calls_of key ((other_key, now) ∷ calls) =
    (if str_eq other_key key then 1 else 0) + calls_of key calls

abbrev pub smaller : ℕ → ℕ → ℕ
smaller a b = if leb a b then a else b

-- within an hour from this time
abbrev pub IsWithin : ℕ → Call → Type 0
IsWithin first (key, now) = (first ≤ now) × (now ≤ first + hour)

count_of-insert :
    (key other_key : String) (n : ℕ) (counts : Dict ℕ)
    → count_of key (insert other_key n counts)
      ≡ (if str_eq other_key key then n else count_of key counts)
unfolding count_of
count_of-insert key other_key n counts = ground (arith, lookup-insert other_key key n counts)

started_of-insert :
    (key other_key : String) (first t : ℕ) (started : Dict ℕ)
    → started_of key first (insert other_key t started)
      ≡ (if str_eq other_key key then t else started_of key first started)
unfolding started_of
started_of-insert key other_key first t started =
    ground (arith, lookup-insert other_key key t started)

-- What a call leaves of another key.
abbrev Keeps : String → ℕ → SlackAlertBudget → SlackAlertBudget → Type 0
Keeps key first b b' =
    (count_of key b'.counts ≡ count_of key b.counts)
    × (started_of key first b'.window_started ≡ started_of key first b.window_started)
    × (b'.per_hour ≡ b.per_hour)

allow-other :
    (key other_key : String) (now first : ℕ) (b : SlackAlertBudget)
    → str_eq other_key key ≡ false
    → Keeps key first b (allow other_key now b).1
unfolding allow roll spend
allow-other key other_key now first b h =
    let started = started_of other_key now b.window_started in
    ground (
      arith,
      h,
      started_of-insert key other_key first now b.window_started,
      started_of-insert key other_key first started b.window_started,
      count_of-insert key other_key 0 b.counts,
      count_of-insert key other_key (count_of other_key b.counts) b.counts,
      count_of-insert key other_key (count_of other_key b.counts + 1) b.counts,
      count_of-insert key other_key (count_of other_key (insert other_key 0 b.counts))
          (insert other_key 0 b.counts),
      count_of-insert key other_key (count_of other_key (insert other_key 0 b.counts) + 1)
          (insert other_key 0 b.counts),
    )

-- A key that is not in the budget has the window that a call opens.
started_of-later :
    (key : String) (now first : ℕ) (started : Dict ℕ)
    → first ≤ now
    → first ≤ started_of key first started
    → first ≤ started_of key now started
unfolding started_of
started_of-later key now first started h e = go (lookup key started) e
  where
    go :
        (found : Option ℕ)
        → first ≤ (elim found as (λ _. ℕ) [ some t ↦ t | none ↦ first ])
        → first ≤ (elim found as (λ _. ℕ) [ some t ↦ t | none ↦ now ])
    go none e' = h
    go (some t) e' = e'

-- A call of the key within the hour: it is allowed exactly when the budget is not spent.
allow-same :
    (key : String) (now first : ℕ) (b : SlackAlertBudget)
    → first ≤ started_of key first b.window_started
    → IsWithin first (key, now)
    → ((allow key now b).0 ≡ ltb (count_of key b.counts) b.per_hour)
      × (count_of key (allow key now b).1.counts
          ≡ count_of key b.counts + one_if (ltb (count_of key b.counts) b.per_hour))
      × (first ≤ started_of key first (allow key now b).1.window_started)
      × ((allow key now b).1.per_hour ≡ b.per_hour)
unfolding allow roll spend
allow-same key now first b h within =
    let started = started_of key now b.window_started in
    ground (
      arith,
      h,
      within.0,
      within.1,
      started_of-later key now first b.window_started within.0 h,
      started_of-insert key key first started b.window_started,
      count_of-insert key key (count_of key b.counts) b.counts,
      count_of-insert key key (count_of key b.counts + 1) b.counts,
      eq_iff key key,
    )

count-bounded :
    (key : String) (first : ℕ) (calls : List Call) (b : SlackAlertBudget)
    → All (IsWithin first) calls
    → first ≤ started_of key first b.window_started
    → count_of key b.counts ≤ b.per_hour
    → count_of key b.counts + allowed key calls b
      ≡ smaller b.per_hour (count_of key b.counts + calls_of key calls)
unfolding allowed calls_of
count-bounded key first [] b within fresh h = ground (arith, h)
count-bounded key first ((other_key, now) ∷ calls) b within fresh h =
    let b' = (allow other_key now b).1 in
    elim (Bool-cases (str_eq other_key key)) [
      | inl same ↦
          let e : other_key ≡ key = (eq_iff other_key key).0 same in
          let (answer, count, started, limit) = allow-same key now first b fresh within.0 in
          ground (
            arith,
            e,
            same,
            h,
            answer,
            count,
            limit,
            count-bounded key first calls (allow key now b).1 within.1 started
                (ground (arith, count, limit, h)),
          )
      | inr different ↦
          let (count, started, limit) = allow-other key other_key now first b different in
          ground (
            arith,
            different,
            count,
            limit,
            count-bounded key first calls b' within.1 (rw started fresh)
                (ground (arith, count, limit, h)),
          )
    ]

-- Any calls of `allow` on a new budget, all within an hour of some time: of the calls with one key
-- exactly as many are allowed as there are, or as the budget has for an hour where there are more.
pub allowed_lem :
    (key : String) (per_hour first : ℕ) (calls : List Call)
    → All (IsWithin first) calls
    → allowed key calls (new_budget per_hour) ≡ smaller per_hour (calls_of key calls)
unfolding new_budget started_of count_of lookup
allowed_lem key per_hour first calls within =
    ground (arith, count-bounded key first calls (new_budget per_hour) within)
