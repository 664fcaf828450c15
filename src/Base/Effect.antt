-- ===== src/Base/Effect.antt =====
-- Methods that change state and may raise. What was written before a raise stays written, so the
-- state comes back beside the exception too.
use mathlib.Core.Path.{◌≡◌, refl}
use mathlib.Core.Logic.{◌⊎◌, inl, inr}
use mathlib.Core.Bool.{Bool, true, false}
use native.Mathlib.Omega.{arith}
use tr_shared_lib.Base.Tests.{if◌then◌else◌}

-- The exceptions that some `except` clause of the program tells apart; the rest are `other`.
pub data Exn : Type 0 where
  redis_error redis_connection redis_timeout os_error value_error cancelled other : Exn

pub data Result {ℓ} (A : Type ℓ) : Type ℓ where
  ok : A → Result A
  raised : Exn → Result A

abbrev pub Effect : Type 0 → Type 0 → Type 0
Effect S A = S → Result A × S

module _ {S A : Type 0} where
  abbrev pub pure : A → Effect S A
  pure a s = (ok a, s)

  abbrev pub raise : Exn → Effect S A
  raise e s = (raised e, s)

  -- `try: m; except Exception: handler`; a cancellation is no `Exception`
  abbrev pub try : Effect S A → (Exn → Effect S A) → Effect S A
  try m handler s =
      let (r, s') = m s in
      elim r [
        | ok a ↦ (ok a, s')
        | raised cancelled ↦ (raised cancelled, s')
        | raised e ↦ handler e s'
      ]

infixl 5 ◌>>=◌ ◌>>◌
abbrev pub ◌>>=◌ : {S A B : Type 0} → Effect S A → (A → Effect S B) → Effect S B
◌>>=◌ m f s = let (r, s') = m s in elim r [ ok a ↦ f a s' | raised e ↦ (raised e, s') ]

abbrev pub ◌>>◌ : {S A B : Type 0} → Effect S A → Effect S B → Effect S B
m >> k = m >>= λ _. k

-- a statement under `if` with no `else`
abbrev pub when : {S : Type 0} → Bool → Effect S (Unit {0}) → Effect S (Unit {0})
when b m = if b then m else pure tt

abbrev pub modify : {S : Type 0} → (S → S) → Effect S (Unit {0})
modify f s = (ok tt, f s)

-- What a block that returned has done: its first step returned, and so did the rest.
pub bind-ok :
    {S A B : Type 0} (m : Effect S A) (f : A → Effect S B) (s : S) (b : B)
    → ((m >>= f) s).0 ≡ ok b
    → (a : A) × ((m s).0 ≡ ok a) × ((f a (m s).1).0 ≡ ok b)
bind-ok {S} {A} {B} m f s b = go (m s)
  where
    go :
        (r : Result A × S)
        → (let (x, s') = r in
            elim x as (λ _. Result B × S) [ ok a ↦ f a s' | raised e ↦ (raised e, s') ]).0
          ≡ ok b
        → (a : A) × (r.0 ≡ ok a) × ((f a r.1).0 ≡ ok b)
    go (ok a, s') h = (a, refl, h)
    go (raised e, s') h = cc

-- What a block that raised has done: its first step raised, or it returned and the rest raised.
pub bind-raised :
    {S A B : Type 0} (m : Effect S A) (f : A → Effect S B) (s : S) (e : Exn)
    → ((m >>= f) s).0 ≡ raised e
    → ((m s).0 ≡ raised e) ⊎ ((a : A) × ((m s).0 ≡ ok a) × ((f a (m s).1).0 ≡ raised e))
bind-raised {S} {A} {B} m f s e = go (m s)
  where
    go :
        (r : Result A × S)
        → (let (x, s') = r in
            elim x as (λ _. Result B × S) [ ok a ↦ f a s' | raised e' ↦ (raised e', s') ]).0
          ≡ raised e
        → (r.0 ≡ raised e) ⊎ ((a : A) × (r.0 ≡ ok a) × ((f a r.1).0 ≡ raised e))
    go (ok a, s') h = inr (a, refl, h)
    go (raised e', s') h = inl (ground (arith, h))

-- A block keeps what both of its steps keep.
pub bind-keeps :
    {S A B : Type 0} (P : S → Type 0) (m : Effect S A) (f : A → Effect S B) (s : S)
    → P (m s).1
    → ((a : A) (s' : S) → P s' → P (f a s').1)
    → P ((m >>= f) s).1
bind-keeps {S} {A} {B} P m f s p step = go (m s) p
  where
    go :
        (r : Result A × S)
        → P r.1
        → P
            (let (x, s') = r in
              elim x as (λ _. Result B × S) [ ok a ↦ f a s' | raised e ↦ (raised e, s') ]).1
    go (ok a, s') p' = step a s' p'
    go (raised e, s') p' = p'

-- The same, where the second step is looked at only as it is run.
pub bind-keeps_ran :
    {S A B : Type 0} (P : S → Type 0) (m : Effect S A) (f : A → Effect S B) (s : S)
    → P (m s).1
    → ((a : A) → (m s).0 ≡ ok a → P (m s).1 → P (f a (m s).1).1)
    → P ((m >>= f) s).1
bind-keeps_ran {S} {A} {B} P m f s p step = go (m s) p step
  where
    go :
        (r : Result A × S)
        → P r.1
        → ((a : A) → r.0 ≡ ok a → P r.1 → P (f a r.1).1)
        → P
            (let (x, s') = r in
              elim x as (λ _. Result B × S) [ ok a ↦ f a s' | raised e ↦ (raised e, s') ]).1
    go (ok a, s') p' step' = step' a refl p'
    go (raised e, s') p' step' = p'

-- A block whose first step returned goes on with the second.
pub bind-ran :
    {S A B : Type 0} (m : Effect S A) (f : A → Effect S B) (s : S) (a : A)
    → (m s).0 ≡ ok a
    → (m >>= f) s ≡ f a (m s).1
bind-ran m f s a h = ground (arith, h)

pub when-keeps :
    {S : Type 0} (P : S → Type 0) (b : Bool) (m : Effect S (Unit {0})) (s : S)
    → P s
    → (b ≡ true → P (m s).1)
    → P (when b m s).1
when-keeps P true m s p h = h refl
when-keeps P false m s p h = p

-- Nothing but a cancellation comes out of it.
abbrev pub OnlyCancelled : {S A : Type 0} → Effect S A → Type 0
OnlyCancelled {S} m = (s : S) (e : Exn) → (m s).0 ≡ raised e → e ≡ cancelled

pub bind-OnlyCancelled :
    {S A B : Type 0} (m : Effect S A) (f : A → Effect S B)
    → OnlyCancelled m
    → ((a : A) → OnlyCancelled (f a))
    → OnlyCancelled (m >>= f)
bind-OnlyCancelled {S} {A} {B} m f quiet step s = go (m s) (quiet s)
  where
    go :
        (r : Result A × S)
        → ((e : Exn) → r.0 ≡ raised e → e ≡ cancelled)
        → (e : Exn)
        → (let (x, s') = r in
            elim x as (λ _. Result B × S) [ ok a ↦ f a s' | raised e ↦ (raised e, s') ]).0
          ≡ raised e
        → e ≡ cancelled
    go (ok a, s') quiet' e h = step a s' e h
    go (raised e', s') quiet' e h = quiet' e (ground (arith, h))

pub try-OnlyCancelled :
    {S : Type 0} (m : Effect S (Unit {0})) → OnlyCancelled (try m (λ _. pure tt))
try-OnlyCancelled m s e h = ground (arith, h)
