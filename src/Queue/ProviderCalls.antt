-- ===== src/Queue/ProviderCalls.antt =====
-- `ProviderCallJournal`, `AgentCallLimiter` and `DurableAgentCallAdmission` of
-- src/gapforge/queue/control.py. Texts are read by their length and by whether they are blank.
use Prim.Native.Nat.{min}
use Prim.Native.String.{count}
use gapforge.Common.{
  ℕ, ◌+◌, String, Bool, false, not, ◌&&◌, ◌||◌, Option, none, some, List, [], ◌∷◌, ◌++◌,
  lookup_error, value_error, permission_error, integrity_error, Result, ok, err, ◌>>◌, raise_if,
  ltb, leb, ◌==◌, nat_eq, string_eq, if◌then◌else◌, count_if, length, any,
}
use gapforge.Common.Text.{is_blank}
use gapforge.Rows.{row, delete}
use gapforge.Queue.Model.{
  Run, Task, Journal, CallLease, Db, get_run, get_task, lease_key, is_running, is_leased,
}
use gapforge.Queue.Repository.{owned_by}

-- A text of 1 to `maximum` characters that is not blank.
abbrev pub is_label : String → ℕ → Bool
is_label s maximum = not (is_blank s) && leb (count s) maximum

-- `__post_init__`; the types that it checks first hold here.
unfoldable pub check_journal : Journal → Result (Unit {0})
check_journal j = do
  raise_if (not (is_label j.operation 80)) value_error
  raise_if (not (is_label j.output_schema_name 200)) value_error
  raise_if (not (is_label j.provider 32)) value_error
  raise_if (not (is_label j.effort 16)) value_error
  raise_if (ltb 160 (count j.requested_model)) value_error
  raise_if (not (length j.output_schema_sha256 == 32)) value_error
  raise_if (not (length j.request_sha256 == 32)) value_error
  raise_if (ltb 1 j.repair_attempt) value_error

-- The bounds that both constructors put on `max_parallel`.
unfoldable pub check_max_parallel : ℕ → Result ℕ
check_max_parallel n = do raise_if (ltb n 1) value_error; raise_if (ltb 2 n) value_error; ok n

abbrev pub is_active_lease : ℕ → ℕ → CallLease → Bool
is_active_lease run_id now l = l.run_id == run_id && ltb now l.lease_expires_at

-- `SELECT count(*)` over the leases of the run that have not expired.
abbrev pub active_leases : ℕ → ℕ → List CallLease → ℕ
active_leases run_id now ls = count_if (is_active_lease run_id now) ls

abbrev pub owns_task : ℕ → String → Option Task → Bool
owns_task run_id owner none = false
owns_task run_id owner (some t) =
    t.run_id == run_id && is_leased t.status && owned_by owner t.lease_owner

-- `created_at` is the server's clock, which is taken to show `now` too.
abbrev pub new_lease : ℕ → ℕ → String → ℕ → ℕ → Journal → CallLease
new_lease id run_id owner expires_at created_at journal = record {
  id = id;
  run_id = run_id;
  lease_owner = owner;
  lease_expires_at = expires_at;
  created_at = created_at;
  journal = journal;
}

-- The table's `UNIQUE (run_id, call_key)`.
abbrev pub has_call : ℕ → ℕ → List CallLease → Bool
has_call run_id call_id ls = any (λ l. l.run_id == run_id && l.journal.call_id == call_id) ls

-- `acquire` behind its guards on the arguments and on the task, for the locked run.
unfoldable pub grant : ℕ → ℕ → Run → Journal → String → ℕ → ℕ → Db → Result (Option CallLease × Db)
grant max_parallel id r journal owner lease_duration now db =
    if not (is_running r.status) || leb r.deadline_at now
    then ok (none, db)
    else if leb max_parallel (active_leases r.id now db.leases)
    then ok (none, db)
    else if has_call r.id journal.call_id db.leases
    then err integrity_error
    else (let l = new_lease id r.id owner (min (now + lease_duration) r.deadline_at) now journal in
        ok (some l, record db { leases = db.leases ++ l ∷ [] }))

unfoldable pub acquire : ℕ → ℕ → ℕ → Journal → String → ℕ → ℕ → Db → Result (Option CallLease × Db)
unfolding grant
acquire max_parallel id run_id journal owner lease_duration now db = do
  raise_if (not (is_label owner 160)) value_error
  raise_if (ltb lease_duration 1) value_error
  raise_if (not (owns_task run_id owner (get_task journal.task_id db))) permission_error
  elim (get_run run_id db) [
    | none ↦ err lookup_error
    | some r ↦ grant max_parallel id r journal owner lease_duration now db
  ]

unfoldable pub release : ℕ → String → Db → Result Db
release lease_id owner db = elim (row lease_key lease_id db.leases) [
  | none ↦ ok db
  | some l ↦ do
    raise_if (not (l.lease_owner == owner)) permission_error
    ok (record db { leases = delete lease_key lease_id db.leases })
]
