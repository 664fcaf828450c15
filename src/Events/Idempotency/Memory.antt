-- ===== src/Events/Idempotency/Memory.antt =====
-- What the in-memory checker remembers.
use tr_shared_lib.Base.{
  ℕ, zero, suc, ◌+◌, ◌≤◌, String, ◌≡◌, refl, ap, ◌∙◌, true, false, List, [], ◌∷◌, ◌++◌, length,
  drop, ltb, arith, eq_iff, length-append, length-drop, Bool-cases, inl, inr,
}
use mathlib.Core.List.{append_assoc}
use tr_shared_lib.Base.Effect.{ok}
use tr_shared_lib.Events.Idempotency.{
  ProcessedRedis, Checked, member, remember, evict_past, evict, is_processed, mark_processed,
}

length-remember-le : (id : String) (ids : List String) → length (remember id ids) ≤ length ids + 1
unfolding remember
length-remember-le id ids = ground (arith, length-append ids (id ∷ []))

length-evict_past-le :
    (limit count : ℕ) (ids : List String)
    → 1 ≤ count
    → length ids ≤ limit + 1
    → length (evict_past limit count ids) ≤ limit
unfolding evict_past
length-evict_past-le limit count ids p h = ground (arith, length-drop count ids)

drop-append :
    {A : Type 0} (n : ℕ) (xs ys : List A) → n ≤ length xs → drop n (xs ++ ys) ≡ drop n xs ++ ys
drop-append zero xs ys h = refl
drop-append (suc n) [] ys h = absurd (omega arith)
drop-append (suc n) (x ∷ xs) ys h = drop-append n xs ys (omega arith)

-- `id` is remembered, with at most `n` entries that came after it.
abbrev IsRecent : String → ℕ → List String → Type 0
IsRecent id n ids = (old new : List String) × (ids ≡ old ++ id ∷ new) × (length new ≤ n)

remember-IsRecent :
    (id j : String) (n : ℕ) (ids : List String)
    → IsRecent id n ids
    → IsRecent id (n + 1) (remember j ids)
unfolding remember
remember-IsRecent id j n ids (old, new, e, le) = elim (Bool-cases (member j ids)) [
  | inl there ↦ (old, new, rw there e, omega arith)
  | inr new_key ↦ (
    old,
    new ++ j ∷ [],
    rw (new_key, e) (append_assoc old (id ∷ new) (j ∷ [])),
    omega (arith, length-append new (j ∷ [])),
  )
]

evict_past-IsRecent :
    (limit count n : ℕ) (id : String) (ids : List String)
    → n + count ≤ limit
    → IsRecent id n ids
    → IsRecent id n (evict_past limit count ids)
unfolding evict_past
evict_past-IsRecent limit count n id ids fits (old, new, e, le) =
    elim (Bool-cases (ltb limit (length ids))) [
      | inl full ↦ (
        drop count old,
        new,
        rw full (
            ap (drop count) e
            ∙ drop-append count old (id ∷ new)
                (ground (arith, ap (length {0}) e, length-append old (id ∷ new)))),
        le,
      )
      | inr room ↦ (old, new, rw room e, le)
    ]

member-append_right : (id : String) (old new : List String) → member id (old ++ id ∷ new) ≡ true
member-append_right id [] new = ground (arith, eq_iff id id)
member-append_right id (j ∷ old) new = ground (arith, member-append_right id old new)

-- Several marks, one after the other.
unfoldable pub mark_all : {R : Type 0} → ProcessedRedis R → List String → Checked R → Checked R
mark_all redis [] s = s
mark_all redis (id ∷ ids) s = mark_all redis ids (mark_processed redis id s).1

module _ {R : Type 0} (redis : ProcessedRedis R) where
  -- Marking keeps the memory at 10 000 entries at most.
  pub mark_processed-bounded :
      (id : String) (s : Checked R)
      → length s.checker.ids ≤ 10_000
      → length (mark_processed redis id s).1.checker.ids ≤ 10_000
  unfolding mark_processed evict
  mark_processed-bounded id s h = ground (
    arith,
    length-evict_past-le 10_000 5_000 (remember id s.checker.ids),
    length-remember-le id s.checker.ids,
  )

  mark_processed-ids :
      (id : String) (s : Checked R)
      → (mark_processed redis id s).1.checker.ids ≡ evict (remember id s.checker.ids)
  unfolding mark_processed
  mark_processed-ids id s = ground arith

  mark_processed-IsRecent :
      (id j : String) (n : ℕ) (s : Checked R)
      → n + 1 ≤ 5_000
      → IsRecent id n s.checker.ids
      → IsRecent id (n + 1) (mark_processed redis j s).1.checker.ids
  unfolding evict
  mark_processed-IsRecent id j n s le h = rw (mark_processed-ids j s) (
      evict_past-IsRecent 10_000 5_000 (n + 1) id (remember j s.checker.ids) (omega arith)
        (remember-IsRecent id j n s.checker.ids h))

  mark_all-member :
      (id : String) (n : ℕ) (later : List String) (s : Checked R)
      → n + length later ≤ 5_000
      → IsRecent id n s.checker.ids
      → member id (mark_all redis later s).checker.ids ≡ true
  unfolding mark_all
  mark_all-member id n [] s le (old, new, e, _) = rw e (member-append_right id old new)
  mark_all-member id n (j ∷ later) s le h =
      mark_all-member id (n + 1) later (mark_processed redis j s).1 (omega arith)
        (mark_processed-IsRecent id j n s (omega arith) h)

  mark_processed-IsRecent_new :
      (id : String) (s : Checked R)
      → member id s.checker.ids ≡ false
      → IsRecent id 0 (mark_processed redis id s).1.checker.ids
  unfolding evict remember
  mark_processed-IsRecent_new id s fresh =
      rw (mark_processed-ids id s, fresh)
        (evict_past-IsRecent 10_000 5_000 0 id (s.checker.ids ++ id ∷ []) (omega arith)
          (s.checker.ids, [], refl, omega arith))

  -- A processed event that was not remembered before is answered as a duplicate after it is marked
  -- and at most 5 000 further events are, with no question to Redis.
  pub is_processed-mark_all :
      (id : String) (later : List String) (s : Checked R)
      → member id s.checker.ids ≡ false
      → length later ≤ 5_000
      → (let s' = mark_all redis later (mark_processed redis id s).1 in
          is_processed redis id s' ≡ (ok true, s'))
  unfolding is_processed
  is_processed-mark_all id later s fresh le =
      let there =
        mark_all-member id 0 later (mark_processed redis id s).1 (omega arith)
          (mark_processed-IsRecent_new id s fresh) in
      ground (arith, there)
