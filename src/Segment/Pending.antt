-- ===== src/Segment/Pending.antt =====
-- internal/segment/repo.go, the table segment_pending_eval: a map from its primary key. A claim
-- updates whatever due rows the ranking and the limits leave.
use osscdp.Prelude.{
  ℕ, ◌+◌, ◌-◌, ◌*◌, ◌^◌, String, Bool, true, false, not, ◌&&◌, Option, none, some, is_some, ltb,
  leb, if◌then◌else◌,
}
use osscdp.Segment.Membership.{Key, is_key}

-- The columns but the key.
pub record Pending : Type 0 where
  pub due_at : ℕ
  pub reason : String
  pub claimed_at : Option ℕ
  pub attempts : ℕ
  pub parked_at : Option ℕ
  pub last_error : Option String

abbrev pub PendingTable : Type 0
PendingTable = Key → Option Pending

abbrev pub set_pending : Key → Option Pending → PendingTable → PendingTable
set_pending k row t k' = if is_key k k' then row else t k'

-- UpsertPendingTx
unfoldable pub upsert_pending : Key → ℕ → String → PendingTable → PendingTable
upsert_pending k due_at reason t =
    set_pending k
      (some (record {
        due_at = due_at;
        reason = reason;
        claimed_at = none;
        attempts = 0;
        parked_at = none;
        last_error = none;
      }))
      t

-- DeletePendingTx
unfoldable pub delete_pending : Key → PendingTable → PendingTable
delete_pending k t = set_pending k none t

-- CurrentDueAt: the due_at, and whether the row is parked.
pub current_due_at : Key → PendingTable → Option (ℕ × Bool)
current_due_at k t = elim (t k) [ none ↦ none | some p ↦ some (p.due_at, is_some p.parked_at) ]

abbrev is_stale : ℕ → Option ℕ → Bool
is_stale t none = true
is_stale t (some claimed) = ltb claimed t

-- The WHERE of ClaimDuePending.
abbrev pub is_due : ℕ → ℕ → Pending → Bool
is_due now reclaim p =
    leb p.due_at now && not (is_some p.parked_at) && is_stale (now - reclaim) p.claimed_at

claim_row : ℕ → Bool → Option Pending → Option Pending
claim_row now takes none = none
claim_row now takes (some p) = some (if takes then record p { claimed_at = some now } else p)

is_due_row : ℕ → ℕ → Option Pending → Bool
is_due_row now reclaim none = false
is_due_row now reclaim (some p) = is_due now reclaim p

-- ClaimDuePending
pub claim_due : ℕ → ℕ → (Key → Bool) → PendingTable → PendingTable
unfolding claim_row is_due_row
claim_due now reclaim chosen t k = claim_row now (is_due_row now reclaim (t k) && chosen k) (t k)

-- FailPending, its base and cap in whole seconds; none where there is no row. `message` is the error,
-- cut to 500 bytes.
fail_row : ℕ → ℕ → ℕ → ℕ → String → Pending → Pending
fail_row base cap_seconds max_attempts now message p =
    let parks = leb max_attempts (p.attempts + 1) in
    let delay = base * 2 ^ p.attempts in
    record p {
      attempts = p.attempts + 1;
      last_error = some message;
      claimed_at = none;
      parked_at = if parks then some now else none;
      due_at =
          if parks
          then p.due_at
          else now + 1_000_000_000 * (if leb cap_seconds delay then cap_seconds else delay);
    }

pub fail_pending : Key → ℕ → ℕ → ℕ → ℕ → String → PendingTable → PendingTable × Option (ℕ × Bool)
unfolding fail_row
fail_pending k base cap_seconds max_attempts now message t = elim (t k) [
  | none ↦ (t, none)
  | some p ↦
      let p' = fail_row base cap_seconds max_attempts now message p in
      (set_pending k (some p') t, some (p'.attempts, is_some p'.parked_at))
]

-- UnparkPending
pub unpark_pending : Key → ℕ → PendingTable → PendingTable × Bool
unpark_pending k now t = elim (t k) [
  | none ↦ (t, false)
  | some p ↦
      if is_some p.parked_at
      then (
        set_pending k
            (some (record p {
              parked_at = none;
              attempts = 0;
              last_error = none;
              due_at = now;
              claimed_at = none;
            }))
            t,
        true,
      )
      else (t, false)
]
