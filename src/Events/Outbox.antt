-- ===== src/Events/Outbox.antt =====
-- `drain_outbox` of src/tr_shared/events/outbox_drainer.py. The table of undelivered events is the
-- list of its rows, and each statement is what its SQL does to them; the database may refuse a
-- transaction. The producer, JSON and the clock are parameters.
pub mod Updates
pub mod Rows
mod Tests
use tr_shared_lib.Base.{
  ℕ, ◌+◌, ◌≤◌, String, Option, none, some, Bool, true, false, ◌&&◌, not, List, [], ◌∷◌, map, take,
  leb, str_eq, if◌then◌else◌,
}
use tr_shared_lib.Base.Effect.{
  Exn, cancelled, other, value_error, Result, ok, raised, Effect, pure, raise, try, modify, ◌>>=◌,
  ◌>>◌,
}
use tr_shared_lib.Events.RetryPolicy.{RetryPolicy, delay_for}

-- A stored value: one that the driver has decoded already, or a text, which is empty for a null.
pub data RowValue (J : Type 0) : Type 0 where
  decoded : J → RowValue J
  encoded : String → RowValue J

-- A row of `{schema}.{table_name}`.
pub record Row (J : Type 0) : Type 0 where
  pub id : String
  pub event_type : String
  pub tenant_id : String
  pub actor_id : Option String
  pub row_data : RowValue J
  pub row_metadata : RowValue J
  pub retry_count : ℕ
  pub next_retry_at : ℕ
  pub is_published : Bool
  pub dead_letter : Bool
  pub last_error : String

-- what `producer.publish` is called with
pub record Publication (J : Type 0) : Type 0 where
  pub event_type : String
  pub tenant_id : String
  pub content : J
  pub actor_id : Option String
  pub metadata : J
  pub correlation_id : Option String

pub record Drain (J S : Type 0) : Type 0 where
  pub publish : Publication J → Effect S (Unit {0})
  -- a transaction on the database, before its statement takes effect
  pub transaction : Effect S (Unit {0})
  pub on_dead_letter : Row J → Effect S (Unit {0})
  pub loads : String → Option J
  pub correlation_id : J → Option String
  pub clock : S → ℕ
  pub text_of : Exn → String
  -- `text[:500]`
  pub cut : String → String
  pub policy : RetryPolicy
  pub batch_size : ℕ

-- the table, with the state of the parameters
pub record Database (J S : Type 0) : Type 0 where
  pub rows : List (Row J)
  pub outside : S

-- `{published, retried, dead_lettered}`
pub record Counts : Type 0 where
  pub published : ℕ
  pub retried : ℕ
  pub dead_lettered : ℕ

-- what became of one row
pub data Fate : Type 0 where
  delivered postponed buried : Fate

unfoldable pub count : Fate → Counts → Counts
count delivered c = record c { published = c.published + 1 }
count postponed c = record c { retried = c.retried + 1 }
count buried c = record c { dead_lettered = c.dead_lettered + 1 }

module _ {J S : Type 0} (d : Drain J S) where
  -- the WHERE clause
  unfoldable pub is_due : ℕ → Row J → Bool
  is_due now row = not row.is_published && not row.dead_letter && leb row.next_retry_at now

  unfoldable pub due : ℕ → List (Row J) → List (Row J)
  due now [] = []
  due now (row ∷ rows) = let rest = due now rows in if is_due now row then row ∷ rest else rest

  -- ORDER BY next_retry_at ASC
  unfoldable pub insert_row : Row J → List (Row J) → List (Row J)
  insert_row row [] = row ∷ []
  insert_row row (r ∷ rows) =
      let rest = insert_row row rows in
      if leb row.next_retry_at r.next_retry_at then row ∷ r ∷ rows else r ∷ rest

  unfoldable pub order : List (Row J) → List (Row J)
  order [] = []
  order (row ∷ rows) = insert_row row (order rows)

  unfoldable pub select : ℕ → List (Row J) → List (Row J)
  select now rows = take d.batch_size (order (due now rows))

  -- `UPDATE … WHERE id = :id`
  unfoldable pub update : (Row J → Row J) → String → List (Row J) → List (Row J)
  update change id [] = []
  update change id (row ∷ rows) =
      (if str_eq row.id id then change row else row) ∷ update change id rows

  abbrev pub outside : {A : Type 0} → Effect S A → Effect (Database J S) A
  outside m s = let (r, o) = m s.outside in (r, record s { outside = o })

  unfoldable pub execute : (Row J → Row J) → String → Effect (Database J S) (Unit {0})
  execute change id = do
    outside d.transaction
    modify (λ s. record s { rows = update change id s.rows })

  unfoldable pub mark_published : Row J → Row J
  mark_published row = record row { is_published = true }

  unfoldable pub mark_dead : ℕ → String → Row J → Row J
  mark_dead n err row = record row { dead_letter = true; retry_count = n; last_error = err }

  unfoldable pub mark_retry : ℕ → ℕ → String → Row J → Row J
  mark_retry n next_at err row = record row {
    retry_count = n;
    next_retry_at = next_at;
    last_error = err;
  }

  -- `value if isinstance(value, dict) else json.loads(value)`
  unfoldable pub decode : RowValue J → Result J
  decode (decoded value) = ok value
  decode (encoded text) = elim (d.loads text) [ none ↦ raised value_error | some value ↦ ok value ]

  -- `json.loads(row["metadata"] or "{}")`
  unfoldable pub decode_metadata : RowValue J → Result J
  decode_metadata (decoded value) = ok value
  decode_metadata (encoded text) = decode (encoded (if str_eq text "" then "{}" else text))

  unfoldable pub publication : Row J → J → J → Publication J
  publication row content metadata = record {
    event_type = row.event_type;
    tenant_id = row.tenant_id;
    content = content;
    actor_id = row.actor_id;
    metadata = metadata;
    correlation_id = d.correlation_id metadata;
  }

  unfoldable pub bury : Row J → ℕ → String → Effect (Database J S) Fate
  bury row n err = do
    execute (mark_dead n (d.cut err)) row.id
    try (outside (d.on_dead_letter (record row { retry_count = n; last_error = err })))
        (λ _. pure tt)
    pure buried

  unfoldable pub postpone : Row J → ℕ → String → Effect (Database J S) Fate
  postpone row n err s =
      let next_at = d.clock s.outside + delay_for d.policy n in
      (execute (mark_retry n next_at (d.cut err)) row.id >> pure postponed) s

  -- the `except` clause
  unfoldable pub after_failure : Row J → Exn → Effect (Database J S) Fate
  after_failure row exc =
      if leb d.policy.max_retries (row.retry_count + 1)
      then bury row (row.retry_count + 1) (d.text_of exc)
      else postpone row (row.retry_count + 1) (d.text_of exc)

  unfoldable pub publish_row : Row J → J → J → Effect (Database J S) (Unit {0})
  publish_row row content metadata = do
    outside (d.publish (publication row content metadata))
    execute mark_published row.id

  unfoldable pub after_publish : Row J → Result (Unit {0}) → Effect (Database J S) Fate
  after_publish row (ok x) = pure delivered
  after_publish row (raised cancelled) = raise cancelled
  after_publish row (raised exc) = after_failure row exc

  -- The two decodings come before the `try`.
  unfoldable pub drain_row : Row J → Result J → Result J → Effect (Database J S) Fate
  drain_row row (raised e) metadata s = raise e s
  drain_row row (ok content) (raised e) s = raise e s
  drain_row row (ok content) (ok metadata) s =
      let (r, s') = publish_row row content metadata s in after_publish row r s'

  unfoldable pub drain_rows : List (Row J) → Effect (Database J S) Counts
  drain_rows [] = pure (record { published = 0; retried = 0; dead_lettered = 0 })
  drain_rows (row ∷ rows) =
      drain_row row (decode row.row_data) (decode_metadata row.row_metadata) >>= λ fate.
      drain_rows rows >>= λ counts. pure (count fate counts)

  -- the SELECT in its transaction, then row after row
  unfoldable pub drain_outbox : Effect (Database J S) Counts
  drain_outbox = outside d.transaction >> λ s. drain_rows (select (d.clock s.outside) s.rows) s
