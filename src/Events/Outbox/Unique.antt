-- ===== src/Events/Outbox/Unique.antt =====
-- internal/events/repo.go: the unique key of the outbox, and what Enqueue does to the hash of every
-- event.
use osscdp.Prelude.{
  ℕ, String, ◌==◌, Bool, true, false, none, some, List, [], ◌∷◌, ◌++◌, eqb_refl, if◌then◌else◌, ◌≡◌,
  refl, ap, ◌≢◌, ◌⊎◌, ◌∙◌, arith, inl, inr, Option-cases, eq_iff, is_some,
}
use osscdp.Events.Outbox.{
  Row, is_row, find_hash, enqueue_row, EnqueueResult, inserted, duplicate, conflict, compared,
}

is_row_self : (r : Row) → is_row r.tenant_id r.event_id r ≡ true
is_row_self r = rw (eqb_refl r.tenant_id, (eq_iff r.event_id r.event_id).1 refl) refl

if-compared : (b : Bool) → compared b ≡ (if b then duplicate else conflict)
unfolding compared
if-compared true = refl
if-compared false = refl

not-inserted : (b : Bool) → (if b then duplicate else conflict) ≢ inserted
not-inserted true h = ground arith
not-inserted false h = ground arith

find_hash-append :
    (t : ℕ) (e : String) (rows : List Row) (r : Row)
    → find_hash t e (rows ++ r ∷ []) ≡ (
        if is_some (find_hash t e rows)
        then find_hash t e rows
        else if is_row t e r
        then some r.payload_hash
        else none)
unfolding find_hash
find_hash-append t e [] r = refl
find_hash-append t e (q ∷ rows) r = ground (arith, find_hash-append t e rows r)

pub enqueue_row-new :
    (r : Row) (rows : List Row)
    → find_hash r.tenant_id r.event_id rows ≡ none
    → enqueue_row r rows ≡ (rows ++ r ∷ [], inserted)
unfolding enqueue_row
enqueue_row-new r rows k = rw (k, enqueue_row) refl

pub enqueue_row-old :
    (r : Row) (rows : List Row) {h : String}
    → find_hash r.tenant_id r.event_id rows ≡ some h
    → enqueue_row r rows ≡ (rows, (if h == r.payload_hash then duplicate else conflict))
unfolding compared enqueue_row
enqueue_row-old r rows {h} k =
    rw (k, enqueue_row) (ap (λ (o : EnqueueResult). (rows, o)) (if-compared (h == r.payload_hash)))

-- A hash that is found is found for ever.
pub find_hash-kept :
    (t : ℕ) (e h : String) (r : Row) (rows : List Row)
    → find_hash t e rows ≡ some h
    → find_hash t e (enqueue_row r rows).0 ≡ some h
find_hash-kept t e h r rows k = elim (Option-cases (find_hash r.tenant_id r.event_id rows)) [
  | inl n ↦ rw (enqueue_row-new r rows n, find_hash-append t e rows r, k) refl
  | inr (h', n) ↦ rw (enqueue_row-old r rows n) k
]

-- The row of an event that Enqueue inserts is there, with its hash.
pub find_hash-enqueue :
    (r : Row) (rows : List Row)
    → (enqueue_row r rows).1 ≡ inserted
    → find_hash r.tenant_id r.event_id (enqueue_row r rows).0 ≡ some r.payload_hash
find_hash-enqueue r rows k = elim (Option-cases (find_hash r.tenant_id r.event_id rows)) [
  | inl n ↦
      rw
        (enqueue_row-new r rows n, find_hash-append r.tenant_id r.event_id rows r, n, is_row_self r)
        refl
  | inr (h', n) ↦ absurd (not-inserted (h' == r.payload_hash) (rw (enqueue_row-old r rows n) at k))
]

pub enqueue_row-duplicate :
    (r : Row) (rows : List Row)
    → find_hash r.tenant_id r.event_id rows ≡ some r.payload_hash
    → enqueue_row r rows ≡ (rows, duplicate)
enqueue_row-duplicate r rows k =
    enqueue_row-old r rows k ∙ rw ((eq_iff r.payload_hash r.payload_hash).1 refl) refl

-- Whether the outbox holds the event already.
pub enqueue_row-cases :
    (r : Row) (rows : List Row)
    → (enqueue_row r rows ≡ (rows ++ r ∷ [], inserted))
      ⊎ ((enqueue_row r rows).0 ≡ rows) × ((enqueue_row r rows).1 ≢ inserted)
enqueue_row-cases r rows = elim (Option-cases (find_hash r.tenant_id r.event_id rows)) [
  | inl n ↦ inl (enqueue_row-new r rows n)
  | inr (h', n) ↦ inr (rw (enqueue_row-old r rows n) (refl, not-inserted (h' == r.payload_hash)))
]
