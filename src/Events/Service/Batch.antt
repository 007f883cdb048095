-- ===== src/Events/Service/Batch.antt =====
-- internal/events/service.go: the counters of a batch.
use osscdp.Prelude.{
  ℕ, zero, suc, String, List, [], ◌∷◌, ◌+◌, some, Result, ok, err, length, get_elem?, length-append,
  ◌≡◌, ◌≢◌, refl, sym, ap, ◌∙◌, arith, inl, inr,
}
use osscdp.Events.Normalize.{EventError, IncomingEvent, Call}
use osscdp.Events.Outbox.{Row, EnqueueResult, inserted, duplicate, conflict, enqueue_row}
use osscdp.Events.Outbox.Unique.{enqueue_row-cases}
use osscdp.Events.Service.{
  Env, Ingested, accepted_event, duplicate_event, conflict_event, refused_event, BatchItem,
  BatchResult, tallied, reported, stored, prepare, ingest, ingest_batch,
}

-- How many rows an outcome stands for.
abbrev added : Ingested → ℕ
added (accepted_event id) = 1
added (duplicate_event id) = 0
added (conflict_event id) = 0
added (refused_event e) = 0

added-reported : (id : String) (o : EnqueueResult) → o ≢ inserted → added (reported id o) ≡ 0
unfolding reported
added-reported id inserted h = absurd (h refl)
added-reported id duplicate h = refl
added-reported id conflict h = refl

length-enqueue :
    (row : Row) (rows : List Row)
    → length (enqueue_row row rows).0
      ≡ length rows + added (reported row.event_id (enqueue_row row rows).1)
unfolding reported
length-enqueue row rows = elim (enqueue_row-cases row rows) [
  | inl e ↦ rw e (length-append rows (row ∷ []))
  | inr (e, n) ↦ rw (e, added-reported row.event_id (enqueue_row row rows).1 n) (omega arith)
]

-- Each item has the place of its event, from `i` on.
abbrev pub Placed : ℕ → List BatchItem → Type 0
Placed i items = (j : ℕ) (item : BatchItem) → get_elem? items j ≡ some item → item.index ≡ i + j

some-injective : {a b : BatchItem} → some a ≡ some b → a ≡ b
some-injective h = cc

Placed-cons :
    (i : ℕ) (o : Ingested) (items : List BatchItem)
    → Placed (suc i) items
    → Placed i ((record { index = i; outcome = o }) ∷ items)
Placed-cons i o items x zero item h =
    ap (λ (b : BatchItem). b.index) (sym (some-injective h)) ∙ omega arith
Placed-cons i o items x (suc j) item h = x j item h ∙ omega arith

placed :
    (i : ℕ) (o : Ingested) (items all : List BatchItem)
    → all ≡ (record { index = i; outcome = o }) ∷ items
    → Placed (suc i) items
    → Placed i all
placed i o items all e x = rw e (Placed-cons i o items x)

module _ (env : Env) where
  length-stored :
      (row : Result EventError Row) (rows : List Row)
      → length (stored env row rows).0 ≡ length rows + added (stored env row rows).1
  unfolding stored
  length-stored (err e) rows = omega arith
  length-stored (ok row) rows = length-enqueue row rows

  -- The counters once one outcome stands in front.
  tallied-counts :
      (i : ℕ) (o : Ingested) (b : BatchResult)
      → ((tallied i o b).accepted ≡ added o + b.accepted)
        × ((tallied i o b).accepted + (tallied i o b).duplicates + (tallied i o b).rejected
            ≡ suc (b.accepted + b.duplicates + b.rejected))
        × ((tallied i o b).results ≡ (record { index = i; outcome = o }) ∷ b.results)
  unfolding tallied
  tallied-counts i (accepted_event id) b = (omega arith, omega arith, refl)
  tallied-counts i (duplicate_event id) b = (omega arith, omega arith, refl)
  tallied-counts i (conflict_event id) b = (omega arith, omega arith, refl)
  tallied-counts i (refused_event e) b = (omega arith, omega arith, refl)

  -- A batch adds as many rows as it counts as accepted, the three counters add up to the events of
  -- the batch, and the results are one for each event, each with the place of its event.
  pub ingest_batch-counts :
      (tenant source : ℕ) (calls : ℕ → Call) (i : ℕ) (rs : List IncomingEvent) (rows : List Row)
      → let out = ingest_batch env tenant source calls i rs rows in
        (length out.0 ≡ length rows + out.1.accepted)
        × (out.1.accepted + out.1.duplicates + out.1.rejected ≡ length rs)
        × (length out.1.results ≡ length rs)
        × Placed i out.1.results
  unfolding ingest_batch ingest
  ingest_batch-counts tenant source calls i [] rows =
      (omega arith, refl, refl, λ j item h. absurd (ground arith))
  ingest_batch-counts tenant source calls i (r ∷ rs) rows =
      let row = prepare env r tenant source "" (calls i) in
      let one = stored env row rows in
      let rest = ingest_batch env tenant source calls (suc i) rs one.0 in
      let (n, sums, l, x) = ingest_batch-counts tenant source calls (suc i) rs one.0 in
      let (a, s, items) = tallied-counts i one.1 rest.1 in
      let first = length-stored row rows in
      (
        omega arith,
        omega arith,
        ap length items ∙ ap suc l,
        placed i one.1 rest.1.results (tallied i one.1 rest.1).results items x,
      )
