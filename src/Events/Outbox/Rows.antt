-- ===== src/Events/Outbox/Rows.antt =====
-- What `drain_outbox` does to the rows of the table.
use tr_shared_lib.Base.{
  ℕ, suc, ◌+◌, ◌≤◌, ◌<◌, ◌≡◌, ◌≢◌, ◌⊎◌, inl, inr, refl, eq_iff, String, true, List, [], ◌∷◌, length,
  arith,
}
use tr_shared_lib.Base.Effect.{
  Exn, cancelled, Result, ok, raised, Effect, pure, bind-ok, bind-raised, ◌>>=◌,
}
use tr_shared_lib.Events.Outbox.{
  Row, Drain, Database, Counts, Fate, delivered, postponed, buried, count, update, outside, execute,
  mark_published, mark_dead, mark_retry, bury, postpone, after_failure, publish_row, publication,
  after_publish, drain_row, drain_rows, drain_outbox, select, decode, decode_metadata,
}
use tr_shared_lib.Events.Outbox.Updates.{Updated, drain_row-Updated}

-- the rows of a drain in one number
abbrev pub total : Counts → ℕ
total c = c.published + c.retried + c.dead_lettered

count-total : (fate : Fate) (c : Counts) → total (count fate c) ≡ suc (total c)
unfolding count
count-total delivered c = omega arith
count-total postponed c = omega arith
count-total buried c = omega arith

module _ {J S : Type 0} (d : Drain J S) where
  drain_rows-total :
      (rows : List (Row J)) (s : Database J S) (c : Counts)
      → (drain_rows d rows s).0 ≡ ok c
      → total c ≡ length rows
  unfolding drain_rows
  drain_rows-total [] s c h = ground (arith, h)
  drain_rows-total (row ∷ rows) s c h =
      let first = drain_row d row (decode d row.row_data) (decode_metadata d row.row_metadata) in
      let rest = drain_rows d rows in
      let (fate, _, h') =
        bind-ok first (λ fate. rest >>= λ counts. pure (count fate counts)) s c h in
      let (counts, got, e) = bind-ok rest (λ counts. pure (count fate counts)) (first s).1 c h' in
      ground (arith, e, count-total fate counts, drain_rows-total rows (first s).1 counts got)

  -- If a drain returns, its three counts add up to the number of rows that it selected: every one of
  -- them was published, is retried later, or was dead-lettered.
  pub drain_outbox-total :
      (s : Database J S) (c : Counts)
      → (drain_outbox d s).0 ≡ ok c
      → (let s' = (outside d d.transaction s).1 in
          total c ≡ length (select d (d.clock s'.outside) s'.rows))
  unfolding drain_outbox
  drain_outbox-total s c h =
      let (x, _, h') =
        bind-ok (outside d d.transaction)
          (λ _ s'. drain_rows d (select d (d.clock s'.outside) s'.rows) s') s c h in
      let s' = (outside d d.transaction s).1 in
      drain_rows-total (select d (d.clock s'.outside) s'.rows) s' c h'

  -- The rows with this id have become what the function says, and the others are what they were.
  abbrev pub Becomes : (Row J → Row J) → String → List (Row J) → List (Row J) → Type 0
  Becomes change id [] [] = Unit
  Becomes change id [] (r' ∷ rows') = ⊥
  Becomes change id (r ∷ rows) [] = ⊥
  Becomes change id (r ∷ rows) (r' ∷ rows') =
      (r.id ≡ id → r' ≡ change r) × (r.id ≢ id → r' ≡ r) × Becomes change id rows rows'

  update-Becomes :
      (change : Row J → Row J) (id : String) (rows : List (Row J))
      → Becomes change id rows (update d change id rows)
  unfolding update
  update-Becomes change id [] = tt
  update-Becomes change id (r ∷ rows) = (
    λ e. ground (arith, e, eq_iff r.id id),
    λ ne. ground (arith, ne, eq_iff r.id id),
    update-Becomes change id rows,
  )

  -- what the table holds after a row came to its end
  abbrev pub Settled : Row J → Fate → List (Row J) → List (Row J) → Type 0
  Settled row delivered before after =
      Becomes (λ r. record r { is_published = true }) row.id before after
  Settled row postponed before after =
      (row.retry_count + 1 < d.policy.max_retries)
      × ((next_at : ℕ) × (err : String) × Becomes
            (λ r. record r {
              retry_count = row.retry_count + 1;
              next_retry_at = next_at;
              last_error = err;
            })
            row.id before after)
  Settled row buried before after =
      (d.policy.max_retries ≤ row.retry_count + 1)
      × ((err : String) × Becomes
            (λ r. record r {
              dead_letter = true;
              retry_count = row.retry_count + 1;
              last_error = err;
            })
            row.id before after)

  Updated-Settled :
      (row : Row J) (fate : Fate) (before after : List (Row J))
      → Updated d row fate before after
      → Settled row fate before after
  unfolding mark_published mark_dead mark_retry
  Updated-Settled row delivered before after h =
      rw h (update-Becomes (mark_published d) row.id before)
  Updated-Settled row postponed before after (lt, (next_at, err, h)) = (
    lt,
    (
      next_at,
      err,
      rw h (update-Becomes (mark_retry d (row.retry_count + 1) next_at err) row.id before),
    ),
  )
  Updated-Settled row buried before after (le, (err, h)) =
      (le, (err, rw h (update-Becomes (mark_dead d (row.retry_count + 1) err) row.id before)))

  -- the call of the producer for a row
  abbrev pub sent : Row J → J → J → Effect S (Unit {0})
  sent row content metadata = d.publish (record {
    event_type = row.event_type;
    tenant_id = row.tenant_id;
    content = content;
    actor_id = row.actor_id;
    metadata = metadata;
    correlation_id = d.correlation_id metadata;
  })

  -- The producer took the event and the database the transaction after it; or one of the two, no
  -- cancellation, did not.
  abbrev pub Happened : Fate → Result (Unit {0}) × S → Type 0
  Happened delivered r = (r.0 ≡ ok tt) × ((d.transaction r.1).0 ≡ ok tt)
  Happened postponed r =
      (e : Exn) × (e ≢ cancelled)
      × ((r.0 ≡ raised e) ⊎ ((r.0 ≡ ok tt) × ((d.transaction r.1).0 ≡ raised e)))
  Happened buried r =
      (e : Exn) × (e ≢ cancelled)
      × ((r.0 ≡ raised e) ⊎ ((r.0 ≡ ok tt) × ((d.transaction r.1).0 ≡ raised e)))

  publish_row-outcome :
      (row : Row J) (content metadata : J) (s : Database J S)
      → (let r = sent row content metadata s.outside in
          let answer = (publish_row d row content metadata s).0 in
          (answer ≡ ok tt → (r.0 ≡ ok tt) × ((d.transaction r.1).0 ≡ ok tt))
          × ((e : Exn)
              → answer ≡ raised e
              → (r.0 ≡ raised e) ⊎ ((r.0 ≡ ok tt) × ((d.transaction r.1).0 ≡ raised e))))
  unfolding publish_row execute publication
  publish_row-outcome row content metadata s =
      let publish = outside d (sent row content metadata) in
      let mark = execute d (mark_published d) row.id in
      let s' = (publish s).1 in
      (
        λ h. (ground (arith, h), ground (arith, h)),
        λ e h. elim (bind-raised publish (λ _. mark) s e h) [
          | inl refused ↦ inl refused
          | inr later ↦
              let (x, taken, raised_later) = later in inr (taken, ground (arith, raised_later))
        ],
      )

  after_failure_fails :
      (row : Row J) (exc : Exn) (s : Database J S) → (after_failure d row exc s).0 ≢ ok delivered
  unfolding after_failure bury postpone execute
  after_failure_fails row exc s h = ground (arith, h)

  after_publish-Happened :
      (row : Row J) (r : Result (Unit {0})) (s : Database J S) (fate : Fate)
      (attempt : Result (Unit {0}) × S)
      → (r ≡ ok tt → (attempt.0 ≡ ok tt) × ((d.transaction attempt.1).0 ≡ ok tt))
      → ((e : Exn)
          → r ≡ raised e
          → (attempt.0 ≡ raised e)
            ⊎ ((attempt.0 ≡ ok tt) × ((d.transaction attempt.1).0 ≡ raised e)))
      → (after_publish d row r s).0 ≡ ok fate
      → Happened fate attempt
  unfolding after_publish
  after_publish-Happened row (ok x) s delivered attempt done failed h = done refl
  after_publish-Happened row (ok x) s postponed attempt done failed h = absurd (ground (arith, h))
  after_publish-Happened row (ok x) s buried attempt done failed h = absurd (ground (arith, h))
  after_publish-Happened row (raised cancelled) s fate attempt done failed h =
      absurd (ground (arith, h))
  after_publish-Happened row (raised exc) s delivered attempt done failed h =
      absurd (after_failure_fails row exc s h)
  after_publish-Happened row (raised exc) s postponed attempt done failed h =
      (exc, (λ e. ground (arith, e)), failed exc refl)
  after_publish-Happened row (raised exc) s buried attempt done failed h =
      (exc, (λ e. ground (arith, e)), failed exc refl)

  -- A row that came to its end, its data and metadata being `content` and `metadata`. It counts as
  -- delivered exactly if the producer took its event and the database the transaction for the mark, and
  -- otherwise one of the two raised something other than a cancellation. In the table the rows with its
  -- id are then published; or, with the row's count up by one, dead-lettered where that reaches
  -- `max_retries` and set up for a retry where it does not. Rows with another id stay what they are.
  pub drain_row-Settled :
      (row : Row J) (content metadata : J) (s : Database J S) (fate : Fate)
      → (drain_row d row (ok content) (ok metadata) s).0 ≡ ok fate
      → Happened fate (sent row content metadata s.outside)
        × Settled row fate s.rows (drain_row d row (ok content) (ok metadata) s).1.rows
  drain_row-Settled row content metadata s fate h =
      let published = publish_row d row content metadata s in
      let (done, failed) = publish_row-outcome row content metadata s in
      (
        unfold drain_row in
            after_publish-Happened row published.0 published.1 fate
              (sent row content metadata s.outside) done failed h,
        Updated-Settled row fate s.rows (drain_row d row (ok content) (ok metadata) s).1.rows
            (drain_row-Updated d row content metadata s fate h),
      )
