-- ===== src/Collect/Requests.antt =====
-- The bounds of a collector's requests.
use gapforge.Common.{
  ℕ, zero, suc, ◌+◌, ◌≤◌, ◌<◌, ◌≡◌, ◌≢◌, inl, inr, refl, subst, String, Bool, true, not, ◌&&◌, ◌||◌,
  Option, some, List, [], arith, leb, nat_beq, if◌then◌else◌, Bool-cases, length,
}
use gapforge.Json.{Json}
use gapforge.Collect.Body.{
  Stream, Body, whole, too_long, broken_off, read_body, read_body-bounded, contents, arrives,
  read_body-contents,
}
use gapforge.Collect.Request.{
  max_response_bytes, Reply, transport_error, other_error, response, Client, is_transient_status,
  Attempt, length_accepted, decoded, attempt, RequestOutcome, fetched, request_loop,
  bounded_request_json,
}

-- What a result tells of the requests from `used` on, of which there are at most `n`.
pub record Bounded (client : Client) (maximum n used : ℕ) (r : RequestOutcome × ℕ) : Type 0 where
  pub paid : used ≤ r.1
  pub few : r.1 ≤ used + n
  pub in_budget : used ≤ maximum → r.1 ≤ maximum
  pub genuine :
      (j : Json)
      → r.0 ≡ fetched j
      → (i : ℕ) × (used ≤ i) × (i < r.1) × (attempt client (client.reply i) ≡ Attempt.got j)

settled :
    (client : Client) (maximum n used : ℕ) (o : RequestOutcome)
    → used < maximum
    → ((j : Json) → o ≡ fetched j → attempt client (client.reply used) ≡ Attempt.got j)
    → Bounded client maximum (suc n) used (o, used + 1)
settled client maximum n used o room real = record {
  paid = omega arith;
  few = omega arith;
  in_budget = λ _. omega arith;
  genuine = λ j e. (used, omega arith, omega arith, real j e);
}

later :
    (client : Client) (maximum n used : ℕ) (r : RequestOutcome × ℕ)
    → used < maximum
    → Bounded client maximum n (used + 1) r
    → Bounded client maximum (suc n) used r
later client maximum n used r room b = record {
  paid = omega (arith, b.paid);
  few = omega (arith, b.few);
  in_budget = λ _. b.in_budget (omega arith);
  genuine = λ j e. let (i, low, high, real) = b.genuine j e in (i, omega arith, high, real);
}

unmoved :
    (client : Client) (maximum n used : ℕ) (o : RequestOutcome)
    → ((j : Json) → o ≢ fetched j)
    → Bounded client maximum n used (o, used)
unmoved client maximum n used o none_got = record {
  paid = omega arith;
  few = omega arith;
  in_budget = λ h. h;
  genuine = λ j e. absurd (none_got j e);
}

after_attempt :
    (client : Client) (maximum n used : ℕ) (rest : RequestOutcome × ℕ) (a : Attempt)
    → used < maximum
    → attempt client (client.reply used) ≡ a
    → Bounded client maximum n (used + 1) rest
    → Bounded client maximum (suc n) used (elim a [
      | Attempt.got j ↦ (RequestOutcome.fetched j, used + 1)
      | Attempt.refused ↦ (RequestOutcome.refused, used + 1)
      | Attempt.escaped ↦ (RequestOutcome.escaped, used + 1)
      | Attempt.caught retryable ↦
          if not retryable || nat_beq n 0 || leb maximum (used + 1)
          then (RequestOutcome.failed retryable, used + 1)
          else rest
    ])
after_attempt client maximum n used rest (Attempt.got j) room is b =
    settled client maximum n used (RequestOutcome.fetched j) room (λ k e. ground (arith, is, e))
after_attempt client maximum n used rest Attempt.refused room is b =
    settled client maximum n used RequestOutcome.refused room (λ k e. absurd (ground (arith, e)))
after_attempt client maximum n used rest Attempt.escaped room is b =
    settled client maximum n used RequestOutcome.escaped room (λ k e. absurd (ground (arith, e)))
after_attempt client maximum n used rest (Attempt.caught retryable) room is b =
    elim (Bool-cases (not retryable || nat_beq n 0 || leb maximum (used + 1))) [
      | inl stop ↦ rw stop (
          settled client maximum n used (RequestOutcome.failed retryable) room
            (λ k e. absurd (ground (arith, e))))
      | inr again ↦ rw again (later client maximum n used rest room b)
    ]

request_loop-Bounded :
    (client : Client) (maximum n used : ℕ)
    → Bounded client maximum n used (request_loop client maximum n used)
unfolding request_loop
request_loop-Bounded client maximum zero used =
    unmoved client maximum zero used (RequestOutcome.failed true)
      (λ j e. absurd (ground (arith, e)))
request_loop-Bounded client maximum (suc n) used = elim (Bool-cases (leb maximum used)) [
  | inl spent ↦ rw spent (
      unmoved client maximum (suc n) used RequestOutcome.budget_exceeded
        (λ j e. absurd (ground (arith, e))))
  | inr room ↦ rw room (
      after_attempt client maximum n used (request_loop client maximum n (used + 1))
        (attempt client (client.reply used)) (ground (arith, room)) refl
        (request_loop-Bounded client maximum n (used + 1)))
]

-- A bounded request always ends, after at most three requests and within the budget, and the JSON
-- that it returns is what one of these requests was answered with.
pub requests_bounded :
    (client : Client) (maximum attempts used : ℕ)
    → Bounded client maximum 3 used (bounded_request_json client maximum attempts used)
unfolding bounded_request_json
requests_bounded client maximum attempts used =
    elim (Bool-cases (leb 1 attempts && leb attempts 3)) [
      | inl fine ↦ rw fine (
          widen (request_loop client maximum attempts used) (ground (arith, fine))
            (request_loop-Bounded client maximum attempts used))
      | inr bad ↦ rw bad (
          unmoved client maximum 3 used RequestOutcome.bad_attempts
            (λ j e. absurd (ground (arith, e))))
    ]
  where
    widen :
        (r : RequestOutcome × ℕ)
        → attempts ≤ 3
        → Bounded client maximum attempts used r
        → Bounded client maximum 3 used r
    widen r three b = record {
      paid = b.paid;
      few = omega (arith, b.few);
      in_budget = b.in_budget;
      genuine = b.genuine;
    }

-- JSON is taken only from a response that `raise_for_status` accepts, whose declared length, if any,
-- is within the limit, and whose body has arrived to its end and is, as a whole, within the limit;
-- it is what the whole body parses to.
pub got_json_bounded :
    (client : Client) (r : Reply) (j : Json)
    → attempt client r ≡ Attempt.got j
    → (status : ℕ) × (declared : Option String) × (s : Stream) × (r ≡ response status declared s)
      × (client.is_success status ≡ true)
      × (length_accepted client declared ≡ true)
      × (arrives s ≡ true)
      × (client.loads (contents s) ≡ some j)
      × (length (contents s) ≤ max_response_bytes)
unfolding attempt
got_json_bounded client transport_error j h = absurd (ground (arith, h))
got_json_bounded client other_error j h = absurd (ground (arith, h))
got_json_bounded client (response status declared s) j h =
    elim (Bool-cases (is_transient_status status)) [
      | inl transient ↦ absurd (bad (rw (transient, attempt) at h))
      | inr lasting ↦ elim (Bool-cases (client.is_success status)) [
        | inr error ↦ absurd (bad (rw (lasting, error, attempt) at h))
        | inl success ↦ elim (Bool-cases (length_accepted client declared)) [
          | inr long ↦ absurd (refused_not (rw (lasting, success, long, attempt) at h))
          | inl short ↦
              let (bytes, is, json) =
                read (read_body max_response_bytes [] s)
                  (rw (lasting, success, short, attempt) at h) in
              let (all, ended) = read_body-contents max_response_bytes [] bytes s is in
              (
                status,
                declared,
                s,
                refl,
                success,
                short,
                ended,
                subst (λ b. client.loads b ≡ some j) all json,
                subst (λ b. length b ≤ max_response_bytes) all
                    (read_body-bounded max_response_bytes [] bytes s (omega arith) is),
              )
        ]
      ]
    ]
  where
    bad : {b : Bool} → Attempt.caught b ≡ Attempt.got j → ⊥
    bad e = absurd (ground (arith, e))

    refused_not : Attempt.refused ≡ Attempt.got j → ⊥
    refused_not e = absurd (ground (arith, e))

    read :
        (b : Body)
        → decoded client b ≡ Attempt.got j
        → (bytes : List ℕ) × (b ≡ whole bytes) × (client.loads bytes ≡ some j)
    read (whole bytes) e = (bytes, refl, ground (arith, e))
    read too_long e = absurd (ground (arith, e))
    read broken_off e = absurd (ground (arith, e))
