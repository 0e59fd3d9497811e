-- ===== src/Collect/Body.antt =====
-- A response's body, read chunk by chunk under a limit.
use mathlib.Core.List.{append-nil, append_assoc}
use gapforge.Common.{
  ℕ, ◌≤◌, ◌≡◌, refl, ◌∙◌, Bool, true, false, [], List, ◌++◌, arith, ltb, length, if◌then◌else◌,
  Bool-cases, inl, inr,
}

-- The chunks that arrive, up to the end or to a network error.
pub data Stream : Type 0 where
  eof cut : Stream
  chunk : List ℕ → Stream → Stream

pub data Body : Type 0 where
  whole : List ℕ → Body
  too_long broken_off : Body

-- `body.extend(chunk)`, then the limit, for each chunk.
unfoldable pub read_body : ℕ → List ℕ → Stream → Body
read_body limit body eof = whole body
read_body limit body cut = broken_off
read_body limit body (chunk bytes rest) =
    let body' = body ++ bytes in
    let all = read_body limit body' rest in if ltb limit (length body') then too_long else all

pub read_body-bounded :
    (limit : ℕ) (body bytes : List ℕ) (s : Stream)
    → length body ≤ limit
    → read_body limit body s ≡ whole bytes
    → length bytes ≤ limit
unfolding read_body
read_body-bounded limit body bytes eof short h = ground (arith, h, short)
read_body-bounded limit body bytes cut short h = absurd (ground (arith, h))
read_body-bounded limit body bytes (chunk b rest) short h =
    elim (Bool-cases (ltb limit (length (body ++ b)))) [
      | inl long ↦ absurd (ground (arith, h, long))
      | inr fine ↦
          read_body-bounded limit (body ++ b) bytes rest (ground (arith, fine))
            (ground (arith, h, fine))
    ]

-- What a stream carries, and whether it arrives to its end.
abbrev pub contents : Stream → List ℕ
contents eof = []
contents cut = []
contents (chunk bytes rest) = bytes ++ contents rest

abbrev pub arrives : Stream → Bool
arrives eof = true
arrives cut = false
arrives (chunk _ rest) = arrives rest

-- A body that is read is all of what the stream carries.
pub read_body-contents :
    (limit : ℕ) (body bytes : List ℕ) (s : Stream)
    → read_body limit body s ≡ whole bytes
    → (bytes ≡ body ++ contents s) × (arrives s ≡ true)
unfolding read_body
read_body-contents limit body bytes eof h = (ground (arith, h, append-nil body), refl)
read_body-contents limit body bytes cut h = absurd (ground (arith, h))
read_body-contents limit body bytes (chunk b rest) h =
    elim (Bool-cases (ltb limit (length (body ++ b)))) [
      | inl long ↦ absurd (ground (arith, h, long))
      | inr fine ↦
          let (all, ended) =
            read_body-contents limit (body ++ b) bytes rest (ground (arith, h, fine)) in
          (all ∙ append_assoc body b (contents rest), ended)
    ]
