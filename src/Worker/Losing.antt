-- ===== src/Worker/Losing.antt =====
-- A worker whose task has gone to another, or is leased no more, while it was being handled.
use gapforge.Common.{ℕ, ◌≡◌, Bool, true, some, List, [], ◌∷◌, Exn, Result, ok, err}
use gapforge.Queue.Model.{Task, Db}
use gapforge.Queue.Repository.{renew_lease}
use gapforge.Worker.Runtime.{Config}

module _ (c : Config) (t : Task) where
  -- Heartbeats that all renewed the lease: from the moments `ms` and the tables before them to the
  -- moments that are left and the tables after them. Between them the others do what they do.
  pub data Renewed : List ℕ → Db → List ℕ → Db → Type 0 where
    none_yet : (ms : List ℕ) (db : Db) → Renewed ms db ms db
    one_more :
        {ms rest : List ℕ} {db db' last : Db} (now : ℕ) (t' : Task)
        → renew_lease t.id c.worker_id c.lease_duration now (c.others now db) ≡ ok (some t', db')
        → Renewed ms db' rest last
        → Renewed (now ∷ ms) db rest last

  -- The moment of the next transaction: of the next heartbeat, or of the report.
  abbrev pub next_moment : List ℕ → ℕ → ℕ
  next_moment [] reported_at = reported_at
  next_moment (now ∷ _) reported_at = now

  -- How a turn ends that has lost its task: a heartbeat stops it in good order, and a report raises.
  abbrev pub Ends : List ℕ → Result Bool → Type 0
  Ends [] res = (e : Exn) × (res ≡ err e)
  Ends (_ ∷ _) res = res ≡ ok true
