-- ===== src/Http/Client.antt =====
-- src/tr_shared/http/client.py: `ServiceHTTPClient._request`, to which every verb method goes.
-- httpx, the clock, `json` and the other calls on the breaker are parameters. The record keeps what a caller can count: the requests
-- that were sent and the pauses between them.
pub mod Laws
mod Tests
use tr_shared_lib.Base.{
  ℕ, zero, suc, ◌+◌, ◌^◌, ◌<◌, Bool, true, false, ◌&&◌, Option, none, some, List, [], ◌∷◌, ◌++◌,
  leb, ltb, ◌==◌, if◌then◌else◌,
}
use tr_shared_lib.Base.Text.{Text, codes, lower, contains}
use tr_shared_lib.Http.CircuitBreaker.{CircuitBreaker, is_open, record_success, record_failure}

-- `content_type` is the header, empty where there is none.
pub record Response : Type 0 where
  pub status_code : ℕ
  pub content_type : Text
  pub text : Text

-- What `await client.request(…)` does: it answers, raises `httpx.RequestError`, or raises an
-- exception that no clause catches.
pub data Attempt : Type 0 where
  response : Response → Attempt
  request_error other_error : Attempt

-- What the method returns, over the values `J` of `json`.
pub data Reply (J : Type 0) : Type 0 where
  no_content : Reply J
  raw : Text → Reply J
  json : J → Reply J

pub data Outcome (J : Type 0) : Type 0 where
  returned : Reply J → Outcome J
  circuit_open : Outcome J
  client_error : ℕ → Outcome J
  crashed : Outcome J
  exhausted : Outcome J

pub record Client : Type 0 where
  pub max_retries : ℕ
  pub circuit : CircuitBreaker
  pub sent : ℕ
  pub slept : List ℕ

-- How the body of the loop takes one attempt.
data Verdict (J : Type 0) : Type 0 where
  done : Reply J → Verdict J
  refuse : ℕ → Verdict J
  retry abort : Verdict J

-- `ServiceHTTPClient.__init__`, its client not yet built
unfoldable pub new : ℕ → CircuitBreaker → Client
new max_retries circuit = record {
  max_retries = max_retries;
  circuit = circuit;
  sent = 0;
  slept = [];
}

-- A failed round: the breaker is told, and `if attempt < self.max_retries - 1` the call sleeps for
-- `2**attempt` seconds. `left` is the number of rounds after this one.
abbrev fail_round : ℕ → ℕ → ℕ → Client → Client
fail_round left attempt now c = record c {
  circuit = record_failure now c.circuit;
  slept = if left == 0 then c.slept else c.slept ++ 2 ^ attempt ∷ [];
}

-- How a round ends, given what the rounds after it would do.
settle : {J : Type 0} → Client → Verdict J → Outcome J × Client → Outcome J × Client
settle c (Verdict.done reply) rest =
    (returned reply, record c { circuit = record_success c.circuit })
settle c (Verdict.refuse status) rest = (client_error status, c)
settle c Verdict.abort rest = (crashed, c)
settle c Verdict.retry rest = rest

-- `raises` is `raise_for_status` by the status; `decode` is `response.json()`, `none` where that
-- raises.
module _ {J : Type 0} (raises : ℕ → Bool) (decode : Text → Option J) where
  parse_body : Response → Reply J
  parse_body r =
      if r.status_code == 204
      then no_content
      else if contains (lower r.content_type) (codes "application/json")
      then elim (decode r.text) [ none ↦ raw r.text | some value ↦ json value ]
      else raw r.text

  judge : Attempt → Verdict J
  judge (response r) =
      if raises r.status_code
      then if leb 400 r.status_code && ltb r.status_code 500
        then Verdict.refuse r.status_code
        else Verdict.retry
      else Verdict.done (parse_body r)
  judge request_error = Verdict.retry
  judge other_error = Verdict.abort

  -- `attempts` says what the request of each round does, the time at its end, and what other calls of
  -- the client have done to the breaker by then, since this one last told it something: in the pause
  -- before the request, and while its answer was awaited.
  module _ (attempts : ℕ → Attempt × ℕ × (CircuitBreaker → CircuitBreaker)) where
    -- the `for` loop, by the rounds left
    loop : ℕ → ℕ → Client → Outcome J × Client
    unfolding settle
    loop zero attempt c = (exhausted, c)
    loop (suc left) attempt c =
        let (result, now, others) = attempts attempt in
        let counted = record c { circuit = others c.circuit; sent = c.sent + 1 } in
        settle counted (judge result)
          (loop left (attempt + 1) (fail_round left attempt now counted))

    pub request : ℕ → Client → Outcome J × Client
    unfolding loop judge parse_body
    request now c =
        let (blocked, circuit) = is_open now c.circuit in
        let asked = record c { circuit = circuit } in
        if blocked then (circuit_open, asked) else loop c.max_retries 0 asked
