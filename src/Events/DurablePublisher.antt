-- ===== src/Events/DurablePublisher.antt =====
-- `DurableEventPublisher.publish` of src/tr_shared/events/durable_publisher.py: an event is written to the
-- outbox within the caller's transaction. The new id and JSON are parameters; `J` is a value of JSON.
use tr_shared_lib.Base.{
  String, Option, Bool, true, false, List, [], ◌∷◌, ◌++◌, if◌then◌else◌, ◌≡◌, arith,
}
use tr_shared_lib.Base.Effect.{other, Result, ok, raised, Effect}

-- what the INSERT writes; the database gives the other columns their defaults
pub record OutboxEntry : Type 0 where
  pub id : String
  pub event_type : String
  pub tenant_id : String
  pub actor_id : Option String
  pub content : String
  pub metadata : String

-- The caller's session: whether it is in a transaction, the rows that only the transaction sees, and
-- those that are committed.
pub record Session : Type 0 where
  pub in_transaction : Bool
  pub uncommitted : List OutboxEntry
  pub committed : List OutboxEntry

unfoldable pub entry_of :
    {J : Type 0}
    → (J → Result String)
    → String
    → String
    → String
    → J
    → Option String
    → J
    → Result OutboxEntry
entry_of dumps event_id event_type tenant_id content actor_id metadata = elim (dumps content) [
  | raised e ↦ raised e
  | ok text ↦ elim (dumps metadata) [
    | raised e ↦ raised e
    | ok metadata_text ↦ ok (record {
      id = event_id;
      event_type = event_type;
      tenant_id = tenant_id;
      actor_id = actor_id;
      content = text;
      metadata = metadata_text;
    })
  ]
]

unfoldable pub insert_entry : Result OutboxEntry → Effect Session String
insert_entry (raised e) s = (raised e, s)
insert_entry (ok entry) s = (ok entry.id, record s { uncommitted = s.uncommitted ++ (entry ∷ []) })

-- `metadata` is the caller's, or an empty object
unfoldable pub publish :
    {J : Type 0}
    → (J → Result String)
    → String
    → String
    → String
    → J
    → Option String
    → J
    → Effect Session String
publish dumps event_id event_type tenant_id content actor_id metadata s =
    if s.in_transaction
    then insert_entry (entry_of dumps event_id event_type tenant_id content actor_id metadata) s
    else (raised other, s)

-- what the caller does after it
unfoldable pub commit : Session → Session
commit s = record s {
  in_transaction = false;
  committed = s.committed ++ s.uncommitted;
  uncommitted = [];
}

unfoldable pub rollback : Session → Session
rollback s = record s { in_transaction = false; uncommitted = [] }

-- Whatever `publish` does, nothing is committed by it, and a rollback leaves no trace of it.
publish-rollback :
    {J : Type 0} (dumps : J → Result String) (event_id event_type tenant_id : String) (content : J)
    (actor_id : Option String) (metadata : J) (s : Session)
    → let after = publish dumps event_id event_type tenant_id content actor_id metadata s in
      (after.1.committed ≡ s.committed) × (rollback after.1 ≡ rollback s)
unfolding publish rollback insert_entry
publish-rollback dumps event_id event_type tenant_id content actor_id metadata s = ground arith

-- Where `publish` returns, the session was in a transaction, and a commit adds the event as its last
-- row, under the id that was returned.
publish-commit :
    {J : Type 0} (dumps : J → Result String) (event_id event_type tenant_id : String) (content : J)
    (actor_id : Option String) (metadata : J) (s : Session) (id : String) (entry : OutboxEntry)
    → entry_of dumps event_id event_type tenant_id content actor_id metadata ≡ ok entry
    → (publish dumps event_id event_type tenant_id content actor_id metadata s).0 ≡ ok id
    → let after = publish dumps event_id event_type tenant_id content actor_id metadata s in
      (s.in_transaction ≡ true)
      × (id ≡ entry.id)
      × ((commit after.1).committed ≡ s.committed ++ (s.uncommitted ++ (entry ∷ [])))
unfolding publish commit insert_entry
publish-commit dumps event_id event_type tenant_id content actor_id metadata s id entry made h =
    ground (arith, made, h)
