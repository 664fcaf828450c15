-- ===== src/Cache/Service/Scan.antt =====
-- That the SCAN loops end.
use tr_shared_lib.Base.{
  ℕ, zero, suc, ◌+◌, ◌<◌, String, Option, none, some, true, false, List, [], ◌++◌, ◌==◌, ◌≡◌, ◌≢◌,
  refl, ◌⊎◌, inl, inr, arith, Bool-cases,
}
use tr_shared_lib.Base.Effect.{
  cancelled, redis_error, redis_connection, redis_timeout, os_error, value_error, other, Result, ok,
  raised, Effect, pure, bind-ok, ◌>>=◌,
}
use tr_shared_lib.Cache.Backend.{Backend}
use tr_shared_lib.Cache.Service.{
  Codec, silent, delete_batch, delete_from, delete_pattern, scan_from, scan_keys,
}

-- The cursor of a round of SCAN is 0, which ends the loop, or nearer to the end than the one before.
abbrev pub Advances : {S F B M : Type 0} → Backend S F B M → (ℕ → ℕ) → Type 0
Advances {S} cache distance =
    (cursor : ℕ) (pattern : String) (count : ℕ) (s : S) (next : ℕ) (batch : List String)
    → (cache.scan cursor pattern count s).0 ≡ ok (next, batch)
    → next ≢ 0
    → distance next < distance cursor

-- It has a result, or was cancelled.
abbrev pub Ends : {A : Type 0} → Result (Option A) → Type 0
Ends {A} r = ((a : A) × (r ≡ ok (some a))) ⊎ (r ≡ raised cancelled)

module _ {S F B M V : Type 0} (cache : Backend S F B M) (c : Codec V) where
  silent-Ends :
      {A : Type 0} (default : A) (m : Effect S (Option A)) (s : S)
      → (m s).0 ≢ ok none
      → Ends (silent cache c (some default) m s).0
  unfolding silent
  silent-Ends {A} default m s h = go (m s) h
    where
      go :
          (r : Result (Option A) × S)
          → r.0 ≢ ok none
          → Ends
              (let (x, s') = r in
                elim x as (λ _. Result (Option A) × S) [
                  | ok a ↦ (ok a, s')
                  | raised cancelled ↦ (raised cancelled, s')
                  | raised e ↦ pure (some default) s'
                ]).0
      go (ok none, s') h' = elim (h' refl) [ ]
      go (ok (some a), s') h' = inl (a, refl)
      go (raised redis_error, s') h' = inl (default, refl)
      go (raised redis_connection, s') h' = inl (default, refl)
      go (raised redis_timeout, s') h' = inl (default, refl)
      go (raised os_error, s') h' = inl (default, refl)
      go (raised value_error, s') h' = inl (default, refl)
      go (raised cancelled, s') h' = inr refl
      go (raised other, s') h' = inl (default, refl)

  module _ (distance : ℕ → ℕ) (advances : Advances cache distance) where
    scan_from-returns :
        (fuel : ℕ) (pattern : String) (count cursor : ℕ) (keys : List String) (s : S)
        → distance cursor < fuel
        → (scan_from cache c fuel pattern count cursor keys s).0 ≢ ok none
    unfolding scan_from
    scan_from-returns zero pattern count cursor keys s h e = omega (arith, h)
    scan_from-returns (suc fuel) pattern count cursor keys s h e =
        let (found, got, last) =
          bind-ok (cache.scan cursor pattern count)
            (λ (found : ℕ × List String).
              elim (found.0 == 0) as (λ _. Effect S (Option (List String))) [
                | true ↦ pure (some (keys ++ found.1))
                | false ↦ scan_from cache c fuel pattern count found.0 (keys ++ found.1)
              ])
            s none e in
        let s' = (cache.scan cursor pattern count s).1 in
        let nearer = advances cursor pattern count s found.0 found.1 got in
        elim (Bool-cases (found.0 == 0)) [
          | inl ended ↦ ground (arith, rw ended at last)
          | inr goes_on ↦
              scan_from-returns fuel pattern count found.0 (keys ++ found.1) s'
                (omega (arith, h, nearer (ground (arith, goes_on)))) (rw goes_on at last)
        ]

    delete_from-returns :
        (fuel : ℕ) (pattern : String) (cursor deleted_count : ℕ) (s : S)
        → distance cursor < fuel
        → (delete_from cache c fuel pattern cursor deleted_count s).0 ≢ ok none
    unfolding delete_from
    delete_from-returns zero pattern cursor deleted_count s h e = omega (arith, h)
    delete_from-returns (suc fuel) pattern cursor deleted_count s h e =
        let after = λ (found : ℕ × List String) (deleted : ℕ).
          elim (found.0 == 0) as (λ _. Effect S (Option ℕ)) [
            | true ↦ pure (some (deleted_count + deleted))
            | false ↦ delete_from cache c fuel pattern found.0 (deleted_count + deleted)
          ] in
        let (found, got, rest) =
          bind-ok (cache.scan cursor pattern 100)
            (λ (found : ℕ × List String). delete_batch cache c found.1 >>= after found) s none e in
        let s' = (cache.scan cursor pattern 100 s).1 in
        let (deleted, purged, last) =
          bind-ok (delete_batch cache c found.1) (after found) s' none rest in
        let nearer = advances cursor pattern 100 s found.0 found.1 got in
        elim (Bool-cases (found.0 == 0)) [
          | inl ended ↦ ground (arith, rw ended at last)
          | inr goes_on ↦
              delete_from-returns fuel pattern found.0 (deleted_count + deleted)
                (delete_batch cache c found.1 s').1
                (omega (arith, h, nearer (ground (arith, goes_on)))) (rw goes_on at last)
        ]

    -- Where each cursor of SCAN is nearer to the end of the iteration than the one before, and the fuel
    -- exceeds the distance from the start: `scan_keys` and `delete_pattern` end with a result, or
    -- were cancelled.
    pub scan_loops-Ends :
        (fuel : ℕ) (pattern : String) (count : ℕ) (s : S)
        → distance 0 < fuel
        → Ends (scan_keys cache c fuel pattern count s).0
          × Ends (delete_pattern cache c fuel pattern s).0
    unfolding scan_keys delete_pattern
    scan_loops-Ends fuel pattern count s h = (
      silent-Ends [] (scan_from cache c fuel pattern count 0 []) s
          (scan_from-returns fuel pattern count 0 [] s h),
      silent-Ends 0 (delete_from cache c fuel pattern 0 0) s
          (delete_from-returns fuel pattern 0 0 s h),
    )
