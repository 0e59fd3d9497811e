-- ===== src/Collect/Fetches.antt =====
-- What a static fetch connects to, and what it returns.
use gapforge.Common.{
  ℕ, zero, suc, ◌+◌, ◌≤◌, ◌≡◌, inl, inr, refl, subst, String, true, not, Option, none, some, List,
  [], ◌∷◌, arith, if◌then◌else◌, Bool-cases, Option-cases, length, All, string_eq,
}
use gapforge.Collect.Fetch.{
  Address, Response, Net, Failure, content_unavailable, Try, done, failed, ◌then◌, given,
  validate_url, is_public, check_addresses, pin, Trace, request_pinned, Landing, sent, on_response,
  on_request, follow, fetch_approved, fetch, host_of,
}

-- The address is the one of a name.
abbrev pub IsPublicName : Net → String → Type 0
IsPublicName net a = (x : Address) × (net.address_of a ≡ some x) × (is_public x ≡ true)

-- A connection that is safe: some URL with this host is valid, every address that the host resolves
-- to is public, and the connection goes to the first of them.
pub record IsPinned (net : Net) (c : String × String) : Type 0 where
  pub url : String
  pub valid : validate_url (net.split url) ≡ done c.0
  pub rest : List String
  pub resolved : net.resolve c.0 ≡ c.1 ∷ rest
  pub public : All (IsPublicName net) (c.1 ∷ rest)

check_addresses-All :
    (net : Net) (names : List String)
    → check_addresses net names ≡ done tt
    → All (IsPublicName net) names
unfolding check_addresses
check_addresses-All net [] h = tt
check_addresses-All net (a ∷ names) h = elim (Option-cases (net.address_of a)) [
  | inl e ↦ absurd (ground (arith, h, e))
  | inr (x, e) ↦ elim (Bool-cases (is_public x)) [
    | inl p ↦ ((x, e, p), check_addresses-All net names (rw (e, p, check_addresses) at h))
    | inr p ↦ absurd (failed_not (rw (e, p, check_addresses) at h))
  ]
]
  where
    failed_not : {f : Failure} → ◌≡◌ {A = Try (Unit {0})} (failed f) (done tt) → ⊥
    failed_not e = absurd (ground (arith, e))

pub then-eq-done :
    {A B : Type 0} (m : Try A) (f : A → Try B) (b : B)
    → (m then f) ≡ done b
    → (a : A) × (m ≡ done a) × (f a ≡ done b)
then-eq-done (done a) f b h = (a, refl, h)
then-eq-done (failed e) f b h = absurd (cc)

pin-eq-done :
    (net : Net) (names : List String) (a : String)
    → pin net names ≡ done a
    → (rest : List String) × (names ≡ a ∷ rest) × All (IsPublicName net) (a ∷ rest)
unfolding pin
pin-eq-done net [] a h = absurd (cc)
pin-eq-done net (x ∷ xs) a h =
    let (_, checked, same) = then-eq-done (check_addresses net (x ∷ xs)) (λ _. done x) a h in
    let e : x ≡ a = ground (arith, same) in
    (
      xs,
      rw e refl,
      subst (λ y. All (IsPublicName net) (y ∷ xs)) e (check_addresses-All net (x ∷ xs) checked),
    )

request_pinned-IsPinned :
    (net : Net) (url : String) (c : String × String)
    → request_pinned net url ≡ done c
    → IsPinned net c
unfolding request_pinned
request_pinned-IsPinned net url c h =
    let (host, valid, rest) = then-eq-done (validate_url (net.split url)) _ c h in
    let (a, pinned, same) =
      then-eq-done (pin net (net.resolve host)) (λ a. done (host, a)) c rest in
    let (others, resolved, public) = pin-eq-done net (net.resolve host) a pinned in
    let e : (host, a) ≡ c = done_same (host, a) c same in
    subst (IsPinned net) e
      (record { url = url; valid = valid; rest = others; resolved = resolved; public = public })
  where
    done_same : (p q : String × String) → done p ≡ done q → p ≡ q
    done_same p q e = cc

-- The trace of a fetch with `n` hops left.
abbrev Safe : Net → ℕ → Trace → Type 0
Safe net n trace = All (IsPinned net) trace × (length trace ≤ n)

on_response-Safe :
    (net : Net) (n : ℕ) (url : String) (next : String → Try Landing × Trace) (r : Try Response)
    → ((u : String) → Safe net n (next u).1)
    → Safe net n (on_response net url next r).1
unfolding on_response
on_response-Safe net n url next (failed e) h = (tt, omega arith)
on_response-Safe net n url next (done r) h = elim (Bool-cases (not r.is_redirect)) [
  | inl page ↦ rw page (tt, omega arith)
  | inr moved ↦ elim (Bool-cases (given r.location)) [
    | inl there ↦ rw (moved, there) (h (net.join url (host_of r.location)))
    | inr absent ↦ rw (moved, absent) (tt, omega arith)
  ]
]

on_request-Safe :
    (net : Net) (n : ℕ) (url : String) (next : String → Try Landing × Trace)
    (c : Try (String × String))
    → ((u : String) → Safe net n (next u).1)
    → ((p : String × String) → c ≡ done p → IsPinned net p)
    → Safe net (suc n) (on_request net url next c).1
unfolding on_request
on_request-Safe net n url next (failed e) h safe = (tt, omega arith)
on_request-Safe net n url next (done (host, address)) h safe =
    let rest = on_response-Safe net n url next (sent net url address) h in
    ((safe (host, address) refl, rest.0), omega (arith, rest.1))

follow-Safe : (net : Net) (n : ℕ) (url : String) → Safe net (suc n) (follow net n url).1
unfolding follow
follow-Safe net zero url =
    on_request-Safe net 0 url (λ _. (failed content_unavailable, [])) (request_pinned net url)
      (λ u. (tt, omega arith)) (request_pinned-IsPinned net url)
follow-Safe net (suc n) url =
    on_request-Safe net (suc n) url (follow net n) (request_pinned net url) (follow-Safe net n)
      (request_pinned-IsPinned net url)

-- A fetch always ends, after at most one connection more than the redirects that are allowed. Each
-- one goes to a host of a valid URL, all of whose addresses are public, and to the first of these:
-- a redirect cannot lead to a private address.
pub fetch_connects_safely :
    (net : Net) (max_redirects max_bytes : ℕ) (url : String)
    → All (IsPinned net) (fetch net max_redirects max_bytes url).1
      × (length (fetch net max_redirects max_bytes url).1 ≤ max_redirects + 1)
unfolding fetch fetch_approved
fetch_connects_safely net max_redirects max_bytes url = safe (net.require_approved url)
  where
    safe :
        (o : Option String)
        → All (IsPinned net) (fetch_approved net max_redirects max_bytes o).1
          × (length (fetch_approved net max_redirects max_bytes o).1 ≤ max_redirects + 1)
    safe none = (tt, omega arith)
    safe (some original) =
        let (all, few) = follow-Safe net max_redirects original in (all, omega (arith, few))
