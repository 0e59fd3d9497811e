-- ===== src/Collect/Examples.antt =====
-- A client that is rate limited once, and a page behind a redirect.
use gapforge.Common.{
  ℕ, ◌+◌, ◌≤◌, ◌≡◌, refl, String, true, false, Option, none, some, [], ◌∷◌, nat_beq, length, All,
  if◌then◌else◌, ◌==◌, string_eq,
}
use gapforge.Json.{null}
use gapforge.Collect.Body.{Stream, eof, chunk, read_body, contents, arrives}
use gapforge.Collect.Request.{
  max_response_bytes, Reply, response, Client, Attempt, length_accepted, attempt,
  bounded_request_json,
}
use gapforge.Collect.Requests.{Bounded, requests_bounded, got_json_bounded}
use gapforge.Collect.Fetch.{
  Address, Response, Net, done, Snapshot, validate_url, check_addresses, pin, request_pinned,
  on_response, on_request, follow, bounded_body, snapshot_of, fetch_approved, fetch,
}
use gapforge.Collect.Snapshots.{IsSound, fetched_IsSound}
use gapforge.Collect.Fetches.{IsPinned, fetch_connects_safely}

abbrev good : Reply
good = response 200 none (chunk (110 ∷ 117 ∷ []) (chunk (108 ∷ 108 ∷ []) eof))

abbrev client : Client
client = record {
  reply = λ i. if nat_beq i 0 then response 429 none eof else good;
  is_success = λ s. nat_beq s 200;
  parse_int = λ _. none;
  loads = λ _. some null;
}

requests_bounded_example : Bounded client 5 3 0 (bounded_request_json client 5 3 0)
requests_bounded_example = requests_bounded client 5 3 0

got_null : attempt client good ≡ Attempt.got null
unfolding attempt read_body
got_null = refl

got_json_bounded_example :
    (status : ℕ) × (declared : Option String) × (s : Stream) × (good ≡ response status declared s)
    × (client.is_success status ≡ true)
    × (length_accepted client declared ≡ true)
    × (arrives s ≡ true)
    × (client.loads (contents s) ≡ some null)
    × (length (contents s) ≤ max_response_bytes)
got_json_bounded_example = got_json_bounded client good null got_null

abbrev public_address : Address
public_address = record {
  is_private = false;
  is_loopback = false;
  is_link_local = false;
  is_multicast = false;
  is_reserved = false;
  is_unspecified = false;
}

abbrev moved : Response
moved = record {
  is_redirect = true;
  location = some "/b";
  is_success = false;
  content_type = "";
  content_length = none;
  body = eof;
}

abbrev page : Response
page = record {
  is_redirect = false;
  location = none;
  is_success = true;
  content_type = "text/plain";
  content_length = none;
  body = chunk (104 ∷ 105 ∷ []) eof;
}

abbrev net : Net
net = record {
  split = λ _. record {
    scheme = "https";
    hostname = some "example.org";
    username = none;
    password = none;
    port = some none;
  };
  join = λ _ location. location;
  resolve = λ _. "93.184.216.34" ∷ [];
  address_of = λ _. some public_address;
  send = λ url _. some (if url == "/b" then page else moved);
  parse_int = λ _. none;
  require_approved = some;
  visible_text = λ _ _. "hi";
}

fetch_connects_safely_example :
    All (IsPinned net) (fetch net 5 1000000 "https://example.org/a").1
    × (length (fetch net 5 1000000 "https://example.org/a").1 ≤ 5 + 1)
fetch_connects_safely_example = fetch_connects_safely net 5 1000000 "https://example.org/a"

abbrev snapshot : Snapshot
snapshot = record {
  url = "https://example.org/a";
  final_url = "/b";
  text = "hi";
  content_type = "text/plain";
  bytes = 104 ∷ 105 ∷ [];
}

fetched : (fetch net 5 1000000 "https://example.org/a").0 ≡ done snapshot
unfolding fetch fetch_approved follow on_request on_response request_pinned pin check_addresses
    validate_url snapshot_of bounded_body read_body
fetched = refl

fetched_IsSound_example : IsSound net 5 1000000 "https://example.org/a" snapshot
fetched_IsSound_example = fetched_IsSound net 5 1000000 "https://example.org/a" snapshot fetched
