-- ===== src/Collect/Fetch.antt =====
-- `StaticFetcher` (src/gapforge/security/static_fetch.py). `urlsplit`, `urljoin`, `ipaddress`,
-- name resolution, the HTTP client, the decoder and the text extractor are parameters. A fetch also
-- returns its trace: the hosts that it connected to, each with the address it was pinned to.
use gapforge.Common.{
  ℕ, zero, suc, String, Bool, true, false, not, ◌&&◌, ◌||◌, Option, none, some, List, [], ◌∷◌,
  value_error, Result, raise_if, leb, nat_beq, ◌==◌, string_eq, if◌then◌else◌,
}
use gapforge.Common.Int.{ℤ, pos, ltb_ℤ}
use gapforge.Collect.Body.{Stream, Body, whole, too_long, broken_off, read_body}
use gapforge.Collect.Request.{is_empty}

-- `urlsplit`. `port` is `none` where reading it raises, and `some none` where the URL has no port.
pub record Url : Type 0 where
  pub scheme : String
  pub hostname : Option String
  pub username : Option String
  pub password : Option String
  pub port : Option (Option ℕ)

-- The properties of an address that `public_ip` asks for.
pub record Address : Type 0 where
  pub is_private : Bool
  pub is_loopback : Bool
  pub is_link_local : Bool
  pub is_multicast : Bool
  pub is_reserved : Bool
  pub is_unspecified : Bool

pub record Response : Type 0 where
  pub is_redirect : Bool
  pub location : Option String
  pub is_success : Bool
  pub content_type : String  -- the part before `;`, in lower case
  pub content_length : Option String
  pub body : Stream

-- `send` answers a URL at an address; `none` is an `httpx.HTTPError`. `visible_text` is the decoded
-- body of the content type, its markup removed, its white space collapsed, cut to 20000 characters.
pub record Net : Type 0 where
  pub split : String → Url
  pub join : String → String → String
  pub resolve : String → List String
  pub address_of : String → Option Address
  pub send : String → String → Option Response
  pub parse_int : String → Option ℤ
  pub require_approved : String → Option String
  pub visible_text : String → List ℕ → String

pub data Failure : Type 0 where
  unsafe_url content_unavailable http_error invalid_value : Failure

-- A step that either fails or goes on.
pub data Try {ℓ} (A : Type ℓ) : Type ℓ where
  done : A → Try A
  failed : Failure → Try A

infixl 5 ◌then◌
abbrev pub ◌then◌ {ℓ κ} : {A : Type ℓ} {B : Type κ} → Try A → (A → Try B) → Try B
(done a) then f = f a
(failed e) then f = failed e

abbrev pub given : Option String → Bool
given none = false
given (some s) = not (is_empty s)

abbrev pub allowed_port : Option ℕ → Bool
allowed_port none = true
allowed_port (some p) = nat_beq p 80 || nat_beq p 443

abbrev pub host_of : Option String → String
host_of none = ""
host_of (some h) = h

abbrev pub check_port : Url → Try String
check_port u = elim u.port [
  | none ↦ failed unsafe_url
  | some p ↦ if allowed_port p then done (host_of u.hostname) else failed unsafe_url
]

-- `validate_url`; the port that it also returns only shapes the request.
unfoldable pub validate_url : Url → Try String
validate_url u =
    if not (u.scheme == "http" || u.scheme == "https")
    then failed unsafe_url
    else if not (given u.hostname) || given u.username || given u.password
    then failed unsafe_url
    else check_port u

abbrev pub is_public : Address → Bool
is_public a = not (
    a.is_private || a.is_loopback || a.is_link_local || a.is_multicast || a.is_reserved
    || a.is_unspecified)

-- `any(not public_ip(address) for address in addresses)`, negated: `ip_address` raises `ValueError`
-- on a text that is no address, if none before it was rejected.
unfoldable pub check_addresses : Net → List String → Try (Unit {0})
check_addresses net [] = done tt
check_addresses net (a ∷ rest) =
    let others = check_addresses net rest in
    elim (net.address_of a) [
      | none ↦ failed invalid_value
      | some address ↦ if is_public address then others else failed unsafe_url
    ]

-- The first address, if there is one and all are public.
unfoldable pub pin : Net → List String → Try String
unfolding check_addresses
pin net [] = failed unsafe_url
pin net (a ∷ rest) = check_addresses net (a ∷ rest) then λ _. done a

abbrev pub Trace : Type 0
Trace = List (String × String)

-- `_request_pinned`: what was connected to, and the response.
unfoldable pub request_pinned : Net → String → Try (String × String)
unfolding validate_url pin
request_pinned net url =
    validate_url (net.split url) then λ host. pin net (net.resolve host) then λ a. done (host, a)

-- Where the loop of redirects stops: at a page, with its URL and response, or with a failure.
pub record Landing : Type 0 where
  pub url : String
  pub page : Response

abbrev pub sent : Net → String → String → Try Response
sent net url address = elim (net.send url address) [ none ↦ failed http_error | some r ↦ done r ]

-- One response of the loop; `next` goes on at another URL.
unfoldable pub on_response :
    Net → String → (String → Try Landing × Trace) → Try Response → Try Landing × Trace
on_response net url next (failed e) = (failed e, [])
on_response net url next (done r) =
    if not r.is_redirect
    then (done (record { url = url; page = r }), [])
    else if given r.location
    then next (net.join url (host_of r.location))
    else (failed content_unavailable, [])

unfoldable pub on_request :
    Net → String → (String → Try Landing × Trace) → Try (String × String) → Try Landing × Trace
unfolding on_response
on_request net url next (failed e) = (failed e, [])
on_request net url next (done (host, address)) =
    let rest = on_response net url next (sent net url address) in (rest.0, (host, address) ∷ rest.1)

-- The loop, with `n` redirects left. A redirect past the last, like one without a location, is
-- `ContentUnavailableError`.
unfoldable pub follow : Net → ℕ → String → Try Landing × Trace
unfolding request_pinned on_request
follow net zero url =
    on_request net url (λ _. (failed content_unavailable, [])) (request_pinned net url)
follow net (suc n) url = on_request net url (follow net n) (request_pinned net url)

-- `_bounded_body`
abbrev pub body_of : Body → Try (List ℕ)
body_of (whole bytes) = done bytes
body_of too_long = failed content_unavailable
body_of broken_off = failed http_error

unfoldable pub bounded_body : Net → ℕ → Response → Try (List ℕ)
bounded_body net max_bytes r =
    let all = body_of (read_body max_bytes [] r.body) in
    if not (given r.content_length) then all else elim (net.parse_int (host_of r.content_length)) [
      | none ↦ failed invalid_value
      | some n ↦ if ltb_ℤ (pos max_bytes) n then failed content_unavailable else all
    ]

abbrev pub is_allowed_type : String → Bool
is_allowed_type t = t == "text/html" || t == "text/plain"

-- The snapshot, without its digest and its time.
pub record Snapshot : Type 0 where
  pub url : String
  pub final_url : String
  pub text : String
  pub content_type : String
  pub bytes : List ℕ

unfoldable pub snapshot_of : Net → ℕ → String → Landing → Try Snapshot
unfolding bounded_body
snapshot_of net max_bytes original l =
    if not l.page.is_success
    then failed http_error
    else if not (is_allowed_type l.page.content_type)
    then failed content_unavailable
    else bounded_body net max_bytes l.page then λ bytes.
        let text = net.visible_text l.page.content_type bytes in
        if is_empty text
        then failed content_unavailable
        else done (record {
          url = original;
          final_url = l.url;
          text = text;
          content_type = l.page.content_type;
          bytes = bytes;
        })

unfoldable pub fetch_approved : Net → ℕ → ℕ → Option String → Try Snapshot × Trace
unfolding follow snapshot_of
fetch_approved net max_redirects max_bytes none = (failed unsafe_url, [])
fetch_approved net max_redirects max_bytes (some original) =
    let (landing, trace) = follow net max_redirects original in
    (landing then λ l. snapshot_of net max_bytes original l, trace)

-- `fetch`: every failure becomes CONTENT_UNAVAILABLE with its class.
unfoldable pub fetch : Net → ℕ → ℕ → String → Try Snapshot × Trace
unfolding fetch_approved
fetch net max_redirects max_bytes url =
    fetch_approved net max_redirects max_bytes (net.require_approved url)

-- The constructor's checks, the timeout aside.
unfoldable pub check_limits : ℕ → ℕ → Result (Unit {0})
check_limits max_redirects max_bytes =
    raise_if (not (leb max_redirects 5) || not (leb 1 max_bytes && leb max_bytes 2000000))
      value_error
