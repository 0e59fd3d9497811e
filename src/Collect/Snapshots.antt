-- ===== src/Collect/Snapshots.antt =====
-- What the snapshot of a static fetch rests on.
use gapforge.Common.{
  ℕ, ◌≤◌, ◌≡◌, inl, inr, refl, ap, subst, String, true, false, some, List, [], arith, Bool-cases,
  Option-cases, length,
}
use gapforge.Collect.Body.{
  Body, whole, too_long, broken_off, read_body, read_body-bounded, contents, arrives,
  read_body-contents,
}
use gapforge.Collect.Request.{is_empty}
use gapforge.Collect.Fetch.{
  Response, Net, Failure, done, failed, Landing, follow, body_of, bounded_body, is_allowed_type,
  Snapshot, snapshot_of, fetch_approved, fetch,
}
use gapforge.Collect.Fetches.{then-eq-done}

-- What a snapshot rests on: the page where the loop of redirects landed.
pub record IsSound (net : Net) (max_redirects max_bytes : ℕ) (url : String) (s : Snapshot)
    : Type 0 where
  pub approved : net.require_approved url ≡ some s.url
  pub page : Landing
  pub landed : (follow net max_redirects s.url).0 ≡ done page
  pub final : page.url ≡ s.final_url
  pub success : page.page.is_success ≡ true
  pub typed : s.content_type ≡ page.page.content_type
  pub allowed : is_allowed_type page.page.content_type ≡ true
  pub arrived : arrives page.page.body ≡ true
  pub body : s.bytes ≡ contents page.page.body
  pub extracted : s.text ≡ net.visible_text page.page.content_type (contents page.page.body)
  pub short : length s.bytes ≤ max_bytes
  pub visible : is_empty s.text ≡ false

body_of-eq-done : (b : Body) (bytes : List ℕ) → body_of b ≡ done bytes → b ≡ whole bytes
body_of-eq-done (whole xs) bytes h = ground (arith, h)
body_of-eq-done too_long bytes h = absurd (cc)
body_of-eq-done broken_off bytes h = absurd (cc)

bounded_body-contents :
    (net : Net) (max_bytes : ℕ) (r : Response) (bytes : List ℕ)
    → bounded_body net max_bytes r ≡ done bytes
    → (bytes ≡ contents r.body) × (arrives r.body ≡ true) × (length bytes ≤ max_bytes)
unfolding bounded_body
bounded_body-contents net max_bytes r bytes h =
    let read : read_body max_bytes [] r.body ≡ whole bytes =
      body_of-eq-done (read_body max_bytes [] r.body) bytes (ground (arith, h)) in
    let (all, ended) = read_body-contents max_bytes [] bytes r.body read in
    (all, ended, read_body-bounded max_bytes [] bytes r.body (omega arith) read)

-- What `snapshot_of` has checked.
abbrev Checked : Net → ℕ → String → Landing → Snapshot → Type 0
Checked net max_bytes original l s =
    (s.url ≡ original)
    × (l.url ≡ s.final_url)
    × (l.page.is_success ≡ true)
    × (s.content_type ≡ l.page.content_type)
    × (is_allowed_type l.page.content_type ≡ true)
    × (arrives l.page.body ≡ true)
    × (s.bytes ≡ contents l.page.body)
    × (s.text ≡ net.visible_text l.page.content_type (contents l.page.body))
    × (length s.bytes ≤ max_bytes)
    × (is_empty s.text ≡ false)

abbrev taken : Net → String → Landing → List ℕ → Snapshot
taken net original l bytes = record {
  url = original;
  final_url = l.url;
  text = net.visible_text l.page.content_type bytes;
  content_type = l.page.content_type;
  bytes = bytes;
}

done_same : {A : Type 0} (x y : A) → done x ≡ done y → x ≡ y
done_same x y e = cc

snapshot_of-Checked :
    (net : Net) (max_bytes : ℕ) (original : String) (l : Landing) (s : Snapshot)
    → snapshot_of net max_bytes original l ≡ done s
    → Checked net max_bytes original l s
unfolding snapshot_of
snapshot_of-Checked net max_bytes original l s h = elim (Bool-cases (l.page.is_success)) [
  | inr e ↦ absurd (no (rw (e, snapshot_of) at h))
  | inl success ↦ elim (Bool-cases (is_allowed_type l.page.content_type)) [
    | inr e ↦ absurd (no (rw (success, e, snapshot_of) at h))
    | inl allowed ↦
        let (bytes, read, rest) =
          then-eq-done (bounded_body net max_bytes l.page) _ s
            (rw (success, allowed, snapshot_of) at h) in
        let (all, arrived, short) = bounded_body-contents net max_bytes l.page bytes read in
        elim (Bool-cases (is_empty (net.visible_text l.page.content_type bytes))) [
          | inl e ↦ absurd (no (rw e at rest))
          | inr visible ↦
              subst (Checked net max_bytes original l)
                (done_same (taken net original l bytes) s (rw visible at rest))
                (
                  refl,
                  refl,
                  success,
                  refl,
                  allowed,
                  arrived,
                  all,
                  ap (net.visible_text l.page.content_type) all,
                  short,
                  visible,
                )
        ]
  ]
]
  where
    no : {e : Failure} → failed e ≡ done s → ⊥
    no x = absurd (cc)

-- A snapshot that a fetch returns is of an approved URL. It was taken of the page at which the
-- redirects ended, which answered with success and an allowed content type. It holds that page's whole
-- body, which has arrived to its end and is within the limit, and the text extracted from it, which
-- is not empty.
pub fetched_IsSound :
    (net : Net) (max_redirects max_bytes : ℕ) (url : String) (s : Snapshot)
    → (fetch net max_redirects max_bytes url).0 ≡ done s
    → IsSound net max_redirects max_bytes url s
unfolding fetch fetch_approved
fetched_IsSound net max_redirects max_bytes url s h =
    elim (Option-cases (net.require_approved url)) [
      | inl e ↦ absurd (no (rw e at h))
      | inr (original, e) ↦
          let (page, landed, rest) =
            then-eq-done (follow net max_redirects original).0 (snapshot_of net max_bytes original)
              s (rw e at h) in
          let (same, final, success, typed, allowed, arrived, body, extracted, short, visible) =
            snapshot_of-Checked net max_bytes original page s rest in
          record {
            approved = rw same e;
            page = page;
            landed = rw same landed;
            final = final;
            success = success;
            typed = typed;
            allowed = allowed;
            arrived = arrived;
            body = body;
            extracted = extracted;
            short = short;
            visible = visible;
          }
    ]
  where
    no : {e : Failure} → failed e ≡ done s → ⊥
    no x = absurd (cc)
