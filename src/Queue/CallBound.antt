-- ===== src/Queue/CallBound.antt =====
-- What the limiter of provider calls grants.
use gapforge.Common.{
  ℕ, ◌+◌, ◌≤◌, ◌<◌, ◌≡◌, inl, inr, String, Option, some, ok, arith, Option-cases, nat_eq, string_eq,
}
use gapforge.Queue.Model.{RunStatus, Run, Journal, CallLease, Db, get_run}
use gapforge.Queue.ProviderCalls.{active_leases, grant, acquire}

pub acquire-grant :
    (max_parallel id k : ℕ) (journal : Journal) (owner : String) (duration now : ℕ) (db db' : Db)
    (o : Option CallLease)
    → acquire max_parallel id k journal owner duration now db ≡ ok (o, db')
    → (r : Run) × (get_run k db ≡ some r)
      × (grant max_parallel id r journal owner duration now db ≡ ok (o, db'))
unfolding acquire
acquire-grant max_parallel id k journal owner duration now db db' o h =
    elim (Option-cases (get_run k db)) [
      | inl e ↦ absurd (ground (arith, e))
      | inr (r, e) ↦ (r, e, ground (arith, e))
    ]

-- A granted lease belongs to a running run before its deadline, and ends by that deadline.
pub acquire_within_run :
    (max_parallel id k : ℕ) (journal : Journal) (owner : String) (duration now : ℕ) (db db' : Db)
    (l : CallLease)
    → acquire max_parallel id k journal owner duration now db ≡ ok (some l, db')
    → (r : Run) × (get_run k db ≡ some r)
      × (r.status ≡ RunStatus.running)
      × (now < r.deadline_at)
      × (l.lease_expires_at ≤ r.deadline_at)
      × (l.lease_expires_at ≤ now + duration)
      × (active_leases r.id now db.leases < max_parallel)
acquire_within_run max_parallel id k journal owner duration now db db' l h =
    let (r, e, g) = acquire-grant max_parallel id k journal owner duration now db db' (some l) h in
    let (active, early, by_run, by_time, room) = granted r g in
    (r, e, active, early, by_run, by_time, room)
  where
    granted :
        (r : Run)
        → grant max_parallel id r journal owner duration now db ≡ ok (some l, db')
        → (r.status ≡ RunStatus.running)
          × (now < r.deadline_at)
          × (l.lease_expires_at ≤ r.deadline_at)
          × (l.lease_expires_at ≤ now + duration)
          × (active_leases r.id now db.leases < max_parallel)
    granted r g = unfold grant in ground arith
