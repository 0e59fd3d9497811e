-- ===== src/Collect/Request.antt =====
-- `RequestBudget` and `bounded_request_json` (src/gapforge/collectors/base.py). The client is a
-- parameter: the reply to each request, numbered by the requests that the budget has paid for.
use gapforge.Common.{
  ℕ, zero, suc, ◌+◌, String, Bool, true, false, not, ◌&&◌, ◌||◌, Option, none, some, List, [], leb,
  nat_beq, if◌then◌else◌,
}
use gapforge.Common.Int.{ℤ, pos, ltb_ℤ}
use gapforge.Json.{Json}
use gapforge.Collect.Body.{Stream, Body, whole, too_long, broken_off, read_body}

abbrev pub max_response_bytes : ℕ
max_response_bytes = 2000000

-- How sending a request ends: a timeout or a network error, another exception, or a response with
-- its status, its `content-length` header and its body.
pub data Reply : Type 0 where
  transport_error other_error : Reply
  response : ℕ → Option String → Stream → Reply

-- `client.send`, `raise_for_status` (whether it accepts a status), `int` of a header, and
-- `json.loads`.
pub record Client : Type 0 where
  pub reply : ℕ → Reply
  pub is_success : ℕ → Bool
  pub parse_int : String → Option ℤ
  pub loads : List ℕ → Option Json

-- 429, 500, 502, 503, 504
abbrev pub is_transient_status : ℕ → Bool
is_transient_status s =
    nat_beq s 429 || nat_beq s 500 || nat_beq s 502 || nat_beq s 503 || nat_beq s 504

-- How one attempt ends: with JSON, with an exception that the loop catches (retryable or not), with
-- a `CollectorResponseError`, or with an exception that passes through.
pub data Attempt : Type 0 where
  got : Json → Attempt
  caught : Bool → Attempt
  refused escaped : Attempt

abbrev pub is_empty : String → Bool
is_empty String.[] = true
is_empty (String.◌∷◌ _ _) = false

-- The check of the declared length; `refused` covers a length that is no number.
abbrev pub length_accepted : Client → Option String → Bool
length_accepted client none = true
length_accepted client (some s) =
    is_empty s
    || elim (client.parse_int s) [ none ↦ false | some n ↦ not (ltb_ℤ (pos max_response_bytes) n) ]

abbrev pub decoded : Client → Body → Attempt
decoded client (whole bytes) = elim (client.loads bytes) [ some j ↦ got j | none ↦ refused ]
decoded client too_long = refused
decoded client broken_off = caught true

unfoldable pub attempt : Client → Reply → Attempt
attempt client transport_error = caught true
attempt client other_error = escaped
attempt client (response status declared body) =
    if is_transient_status status
    then caught true
    else if not (client.is_success status)
    then caught false
    else if length_accepted client declared
    then decoded client (read_body max_response_bytes [] body)
    else refused

pub data RequestOutcome : Type 0 where
  fetched : Json → RequestOutcome
  budget_exceeded bad_attempts refused escaped : RequestOutcome
  failed : Bool → RequestOutcome  -- `CollectorResponseError` after the loop, retryable or not

-- The rest of the loop, with `n` attempts left: the outcome, and what the budget has used.
unfoldable pub request_loop : Client → ℕ → ℕ → ℕ → RequestOutcome × ℕ
unfolding attempt
request_loop client maximum zero used = (RequestOutcome.failed true, used)
request_loop client maximum (suc n) used =
    let rest = request_loop client maximum n (used + 1) in
    if leb maximum used
    then (RequestOutcome.budget_exceeded, used)
    else elim (attempt client (client.reply used)) [
      | Attempt.got j ↦ (RequestOutcome.fetched j, used + 1)
      | Attempt.refused ↦ (RequestOutcome.refused, used + 1)
      | Attempt.escaped ↦ (RequestOutcome.escaped, used + 1)
      | Attempt.caught retryable ↦
          if not retryable || nat_beq n 0 || leb maximum (used + 1)
          then (RequestOutcome.failed retryable, used + 1)
          else rest
    ]

unfoldable pub bounded_request_json : Client → ℕ → ℕ → ℕ → RequestOutcome × ℕ
unfolding request_loop
bounded_request_json client maximum attempts used =
    if leb 1 attempts && leb attempts 3
    then request_loop client maximum attempts used
    else (RequestOutcome.bad_attempts, used)
