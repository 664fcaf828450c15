-- ===== src/Http/Client/Laws.antt =====
-- What one call of `_request` sends, how long it pauses, and what it reports to the breaker.
use tr_shared_lib.Base.{
  ℕ, zero, suc, ◌+◌, ◌^◌, ◌≤◌, ◌<◌, ◌≡◌, ◌≢◌, Bool, false, Option, List, [], ◌∷◌, ◌++◌, arith, refl,
  sym, ap, ◌∙◌,
}
use mathlib.Core.List.{append_assoc, append-nil}
use tr_shared_lib.Base.Text.{Text}
use tr_shared_lib.Http.CircuitBreaker.{CircuitBreaker, is_open, record_success, record_failure}
use tr_shared_lib.Http.Client.{
  Attempt, Outcome, returned, circuit_open, client_error, crashed, exhausted, Client, Verdict,
  fail_round, settle, judge, loop, request,
}

-- 2 ^ from, 2 ^ (from + 1), …: `n` pauses
abbrev pub backoff : ℕ → ℕ → List ℕ
backoff from zero = []
backoff from (suc n) = 2 ^ from ∷ backoff (from + 1) n

failure_count-record_failure :
    (b : CircuitBreaker) (now : ℕ) → (record_failure now b).failure_count ≡ b.failure_count + 1
unfolding record_failure
failure_count-record_failure b now = ground arith

failure_count-record_success : (b : CircuitBreaker) → (record_success b).failure_count ≡ 0
unfolding record_success
failure_count-record_success b = ground arith

failure_count-is_open :
    (b : CircuitBreaker) (now : ℕ) → (is_open now b).1.failure_count ≡ b.failure_count
unfolding is_open
failure_count-is_open b now = ground arith

-- What a call that may send `rounds` requests has told the breaker, by how it ended: `before` and
-- `after` are the breaker's failure counts.
abbrev pub Reported : {J : Type 0} → ℕ → ℕ → Outcome J → ℕ → Type 0
Reported before rounds (returned r) after = after ≡ 0
Reported before rounds circuit_open after = after ≡ before
Reported before rounds (client_error status) after = (before ≤ after) × (after < before + rounds)
Reported before rounds crashed after = (before ≤ after) × (after < before + rounds)
Reported before rounds exhausted after = after ≡ before + rounds

Reported-suc :
    {J : Type 0} (before rounds : ℕ) (o : Outcome J) (after : ℕ)
    → o ≢ circuit_open
    → Reported (before + 1) rounds o after
    → Reported before (suc rounds) o after
Reported-suc before rounds (returned r) after ne h = h
Reported-suc before rounds circuit_open after ne h = absurd (ne refl)
Reported-suc before rounds (client_error status) after ne h = omega arith
Reported-suc before rounds crashed after ne h = omega arith
Reported-suc before rounds exhausted after ne h = omega arith

settle-Reported :
    {J : Type 0} (before next rounds : ℕ) (c : Client) (v : Verdict J) (rest : Outcome J × Client)
    → c.circuit.failure_count ≡ before
    → next ≡ before + 1
    → (rest.0 ≢ circuit_open) × Reported next rounds rest.0 rest.1.circuit.failure_count
    → ((settle c v rest).0 ≢ circuit_open)
      × Reported before (suc rounds) (settle c v rest).0 (settle c v rest).1.circuit.failure_count
unfolding settle
settle-Reported before next rounds c (Verdict.done r) rest e s h =
    ((λ p. cc), failure_count-record_success c.circuit)
settle-Reported before next rounds c (Verdict.refuse status) rest e s h = ((λ p. cc), omega arith)
settle-Reported before next rounds c Verdict.abort rest e s h = ((λ p. cc), omega arith)
settle-Reported before next rounds c Verdict.retry rest e s h =
    (h.0, Reported-suc before rounds rest.0 rest.1.circuit.failure_count h.0 (rw s at h.1))

-- From `c` to `c'` some number of requests from 1 to `left + 1` was sent, with one pause less, the
-- pauses being 2 ^ attempt, 2 ^ (attempt + 1), … seconds.
abbrev pub Sends : ℕ → ℕ → Client → Client → Type 0
Sends left attempt c c' =
    (n : ℕ) × (n ≤ left) × (c'.sent ≡ c.sent + suc n) × (c'.slept ≡ c.slept ++ backoff attempt n)

-- A round with no round after it.
settle-Sends_last :
    {J : Type 0} (attempt now : ℕ) (c : Client) (b : CircuitBreaker) (v : Verdict J) (o : Outcome J)
    → Sends 0 attempt c
        (settle
          (record c { circuit = b; sent = c.sent + 1 })
          v
          (o, fail_round 0 attempt now (record c { circuit = b; sent = c.sent + 1 }))).1
unfolding settle
settle-Sends_last attempt now c b (Verdict.done r) o =
    (0, omega arith, omega arith, sym (append-nil _))
settle-Sends_last attempt now c b (Verdict.refuse status) o =
    (0, omega arith, omega arith, sym (append-nil _))
settle-Sends_last attempt now c b Verdict.abort o =
    (0, omega arith, omega arith, sym (append-nil _))
settle-Sends_last attempt now c b Verdict.retry o =
    (0, omega arith, omega arith, sym (append-nil _))

slept-fail_round :
    (left attempt now : ℕ) (c : Client)
    → (fail_round (suc left) attempt now c).slept ≡ c.slept ++ 2 ^ attempt ∷ []
slept-fail_round left attempt now c = ground arith

settle-Sends :
    {J : Type 0} (left attempt now : ℕ) (c : Client) (b : CircuitBreaker) (v : Verdict J)
    (rest : Outcome J × Client)
    → Sends left
        (attempt + 1)
        (fail_round (suc left) attempt now (record c { circuit = b; sent = c.sent + 1 }))
        rest.1
    → Sends (suc left) attempt c (settle (record c { circuit = b; sent = c.sent + 1 }) v rest).1
unfolding settle
settle-Sends left attempt now c b (Verdict.done r) rest h =
    (0, omega arith, omega arith, sym (append-nil _))
settle-Sends left attempt now c b (Verdict.refuse status) rest h =
    (0, omega arith, omega arith, sym (append-nil _))
settle-Sends left attempt now c b Verdict.abort rest h =
    (0, omega arith, omega arith, sym (append-nil _))
settle-Sends left attempt now c b Verdict.retry rest (n, le, sent, slept) = (
  suc n,
  omega arith,
  omega arith,
  slept
      ∙ ap (λ l. l ++ backoff (attempt + 1) n)
          (slept-fail_round left attempt now (record c { circuit = b; sent = c.sent + 1 }))
      ∙ append_assoc c.slept (2 ^ attempt ∷ []) (backoff (attempt + 1) n),
)

module _ {J : Type 0} (raises : ℕ → Bool) (decode : Text → Option J)
    (attempts : ℕ → Attempt × ℕ × (CircuitBreaker → CircuitBreaker)) where
  -- No other call reports to the breaker while this one runs: its failure count stays.
  abbrev pub IsQuiet : Type 0
  IsQuiet =
      (n : ℕ) (b : CircuitBreaker)
      → (let (result, now, others) = attempts n in (others b).failure_count ≡ b.failure_count)

  loop-Reported :
      (left attempt : ℕ) (c : Client)
      → IsQuiet
      → ((loop raises decode attempts left attempt c).0 ≢ circuit_open)
        × Reported c.circuit.failure_count left
            (loop raises decode attempts left attempt c).0
            (loop raises decode attempts left attempt c).1.circuit.failure_count
  unfolding loop
  loop-Reported zero attempt c quiet = ((λ p. cc), omega arith)
  loop-Reported (suc left) attempt c quiet =
      let (result, now, others) = attempts attempt in
      let counted = record c { circuit = others c.circuit; sent = c.sent + 1 } in
      settle-Reported c.circuit.failure_count (record_failure now (others c.circuit)).failure_count
        left counted (judge raises decode result)
        (loop raises decode attempts left (attempt + 1) (fail_round left attempt now counted))
        (quiet attempt c.circuit)
        (failure_count-record_failure (others c.circuit) now
          ∙ ap (λ (n : ℕ). n + 1) (quiet attempt c.circuit))
        (loop-Reported left (attempt + 1) (fail_round left attempt now counted) quiet)

  loop-Sends :
      (left attempt : ℕ) (c : Client)
      → Sends left attempt c (loop raises decode attempts (suc left) attempt c).1
  unfolding loop
  loop-Sends zero attempt c =
      let (result, now, others) = attempts attempt in
      settle-Sends_last attempt now c (others c.circuit) (judge raises decode result) exhausted
  loop-Sends (suc left) attempt c =
      let (result, now, others) = attempts attempt in
      let counted = record c { circuit = others c.circuit; sent = c.sent + 1 } in
      settle-Sends left attempt now c (others c.circuit) (judge raises decode result)
        (loop raises decode attempts (suc left) (attempt + 1)
          (fail_round (suc left) attempt now counted))
        (loop-Sends left (attempt + 1) (fail_round (suc left) attempt now counted))

  loop-Sends_of_suc :
      (rounds left : ℕ) (c : Client)
      → rounds ≡ suc left
      → Sends left 0 c (loop raises decode attempts rounds 0 c).1
  loop-Sends_of_suc rounds left c e = rw e (loop-Sends left 0 c)

  -- A call that the breaker admits, with one retry at least, sends between one and `max_retries`
  -- requests, and between them sleeps 1, 2, 4, … seconds, whatever the requests do.
  pub request-Sends :
      (now left : ℕ) (c : Client)
      → c.max_retries ≡ suc left
      → (is_open now c.circuit).0 ≡ false
      → Sends left 0 c (request raises decode attempts now c).1
  unfolding request
  request-Sends now left c e admitted =
      rw admitted
        (loop-Sends_of_suc c.max_retries left (record c { circuit = (is_open now c.circuit).1 }) e)

  -- Where no other call tells the breaker anything while this one runs, by how an admitted call ends:
  -- after a success the breaker's failure count is 0; after a client
  -- error or an uncaught exception it has grown by fewer than `max_retries`, and after all retries
  -- have failed by exactly `max_retries`.
  pub request-Reported :
      (now : ℕ) (c : Client)
      → IsQuiet
      → (is_open now c.circuit).0 ≡ false
      → let (o, c') = request raises decode attempts now c in
        (o ≢ circuit_open)
        × Reported c.circuit.failure_count c.max_retries o c'.circuit.failure_count
  unfolding request
  request-Reported now c quiet admitted = rw admitted (
      rw (failure_count-is_open c.circuit now) at
        (loop-Reported c.max_retries 0 (record c { circuit = (is_open now c.circuit).1 }) quiet))
