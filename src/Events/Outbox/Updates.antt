-- ===== src/Events/Outbox/Updates.antt =====
-- What the statements of `drain_outbox` for one row do to the table.
use tr_shared_lib.Base.{
  ℕ, ◌+◌, ◌≤◌, ◌<◌, ◌≡◌, refl, sym, String, Bool, true, false, List, leb, if◌then◌else◌, arith,
}
use tr_shared_lib.Base.Effect.{Exn, cancelled, Result, ok, raised, pure, ◌>>◌}
use tr_shared_lib.Events.Outbox.{
  Row, Drain, Database, Fate, delivered, postponed, buried, update, execute, mark_published,
  mark_dead, mark_retry, bury, postpone, after_failure, publish_row, after_publish, drain_row,
}
use tr_shared_lib.Events.RetryPolicy.{delay_for}

module _ {J S : Type 0} (d : Drain J S) where
  -- what the statements for a row have done to the table
  abbrev pub Updated : Row J → Fate → List (Row J) → List (Row J) → Type 0
  Updated row delivered before after = after ≡ update d (mark_published d) row.id before
  Updated row postponed before after =
      (row.retry_count + 1 < d.policy.max_retries)
      × ((next_at : ℕ) × (err : String) × (after
            ≡ update d (mark_retry d (row.retry_count + 1) next_at err) row.id before))
  Updated row buried before after =
      (d.policy.max_retries ≤ row.retry_count + 1)
      × ((err : String) × (after ≡ update d (mark_dead d (row.retry_count + 1) err) row.id before))

  execute_then :
      {A : Type 0} (change : Row J → Row J) (id : String) (s : Database J S) (a b : A)
      → ((execute d change id >> pure a) s).0 ≡ ok b
      → (a ≡ b) × ((execute d change id >> pure a) s).1.rows ≡ update d change id s.rows
  unfolding execute
  execute_then change id s a b h = (ground (arith, h), ground (arith, h))

  postpone-Updated :
      (row : Row J) (err : String) (s : Database J S) (fate : Fate)
      → row.retry_count + 1 < d.policy.max_retries
      → (postpone d row (row.retry_count + 1) err s).0 ≡ ok fate
      → Updated row fate s.rows (postpone d row (row.retry_count + 1) err s).1.rows
  unfolding postpone
  postpone-Updated row err s fate lt h =
      let next_at = d.clock s.outside + delay_for d.policy (row.retry_count + 1) in
      let change = mark_retry d (row.retry_count + 1) next_at (d.cut err) in
      let (same, rows) = execute_then change row.id s postponed fate h in
      rw (sym same) (lt, (next_at, d.cut err, rows))

  bury_lem :
      (row : Row J) (err : String) (s : Database J S) (fate : Fate)
      → (bury d row (row.retry_count + 1) err s).0 ≡ ok fate
      → (buried ≡ fate)
        × ((bury d row (row.retry_count + 1) err s).1.rows
            ≡ update d (mark_dead d (row.retry_count + 1) (d.cut err)) row.id s.rows)
  unfolding bury execute
  bury_lem row err s fate h = (ground (arith, h), ground (arith, h))

  after_failure-Updated :
      (row : Row J) (exc : Exn) (s : Database J S) (fate : Fate)
      → (after_failure d row exc s).0 ≡ ok fate
      → Updated row fate s.rows (after_failure d row exc s).1.rows
  unfolding after_failure
  after_failure-Updated row exc s fate h =
      split (leb d.policy.max_retries (row.retry_count + 1)) refl h
    where
      split :
          (last : Bool)
          → leb d.policy.max_retries (row.retry_count + 1) ≡ last
          → ((if last
                then bury d row (row.retry_count + 1) (d.text_of exc)
                else postpone d row (row.retry_count + 1) (d.text_of exc))
              s).0
            ≡ ok fate
          → Updated row fate s.rows
              ((if last
                  then bury d row (row.retry_count + 1) (d.text_of exc)
                  else postpone d row (row.retry_count + 1) (d.text_of exc))
                s).1.rows
      split true q h' =
          let (same, rows) = bury_lem row (d.text_of exc) s fate h' in
          rw (sym same) (ground (arith, q), (d.cut (d.text_of exc), rows))
      split false q h' = postpone-Updated row (d.text_of exc) s fate (ground (arith, q)) h'

  after_publish-Updated :
      (row : Row J) (r : Result (Unit {0})) (before : List (Row J)) (s : Database J S) (fate : Fate)
      → (r ≡ ok tt → s.rows ≡ update d (mark_published d) row.id before)
      → ((e : Exn) → r ≡ raised e → s.rows ≡ before)
      → (after_publish d row r s).0 ≡ ok fate
      → Updated row fate before (after_publish d row r s).1.rows
  unfolding after_publish
  after_publish-Updated row (ok x) before s fate done kept h =
      let same : delivered ≡ fate = ground (arith, h) in rw (sym same) (done refl)
  after_publish-Updated row (raised cancelled) before s fate done kept h =
      absurd (ground (arith, h))
  after_publish-Updated row (raised exc) before s fate done kept h =
      rw (sym (kept exc refl)) (after_failure-Updated row exc s fate h)

  publish_row-ok :
      (row : Row J) (content metadata : J) (s : Database J S)
      → (publish_row d row content metadata s).0 ≡ ok tt
      → (publish_row d row content metadata s).1.rows ≡ update d (mark_published d) row.id s.rows
  unfolding publish_row execute
  publish_row-ok row content metadata s h = ground (arith, h)

  publish_row-raised :
      (row : Row J) (content metadata : J) (s : Database J S) (e : Exn)
      → (publish_row d row content metadata s).0 ≡ raised e
      → (publish_row d row content metadata s).1.rows ≡ s.rows
  unfolding publish_row execute
  publish_row-raised row content metadata s e h = ground (arith, h)

  pub drain_row-Updated :
      (row : Row J) (content metadata : J) (s : Database J S) (fate : Fate)
      → (drain_row d row (ok content) (ok metadata) s).0 ≡ ok fate
      → Updated row fate s.rows (drain_row d row (ok content) (ok metadata) s).1.rows
  unfolding drain_row
  drain_row-Updated row content metadata s fate h =
      after_publish-Updated row (publish_row d row content metadata s).0 s.rows
        (publish_row d row content metadata s).1 fate (publish_row-ok row content metadata s)
        (publish_row-raised row content metadata s) h
