-- ===== src/Activation/Service/Once.antt =====
-- A send that is enqueued again.
use osscdp.Prelude.{
  ℕ, ◌≡◌, refl, sym, ap, ◌∙◌, String, Bool, false, Option, none, some, List, [], ◌∷◌, ◌++◌, arith,
  Result, ok, err, inl, inr, eqb_refl, Option-cases, ok-injective, >>=-eq-ok,
}
use osscdp.Activation.Task.{create_task}
use osscdp.Activation.Task.Create.{create_task-again}
use osscdp.Activation.Service.{
  ServiceError, Db, Env, Send, JourneySubscription, find_subscription, ensure_subscription,
  enqueue_send, enqueue_journey_send, task_of, consent_denied, failing_at,
}

find_subscription-append :
    (tenant dest id : ℕ) (ss : List JourneySubscription)
    → find_subscription tenant dest ss ≡ none
    → find_subscription tenant dest
        (ss ++ record { id = id; tenant_id = tenant; destination_id = dest } ∷ [])
      ≡ some id
unfolding find_subscription
find_subscription-append tenant dest id [] h = ground (arith, eqb_refl tenant, eqb_refl dest)
find_subscription-append tenant dest id (s ∷ ss) h =
    ground (arith, find_subscription-append tenant dest id ss)

-- A subscription that is found is used as it is.
ensure_subscription-found :
    (tenant dest id found : ℕ) (db : Db)
    → find_subscription tenant dest db.journey_subscriptions ≡ some found
    → ensure_subscription tenant dest id db ≡ (db, found)
unfolding ensure_subscription
ensure_subscription-found tenant dest id found db h = ground arith

-- The subscription that is made is found afterwards.
find_subscription-ensure :
    (tenant dest id : ℕ) (db : Db)
    → find_subscription tenant dest (ensure_subscription tenant dest id db).0.journey_subscriptions
      ≡ some (ensure_subscription tenant dest id db).1
unfolding ensure_subscription
find_subscription-ensure tenant dest id db =
    elim (Option-cases (find_subscription tenant dest db.journey_subscriptions)) [
      | inl n ↦ ground (arith, find_subscription-append tenant dest id db.journey_subscriptions)
      | inr (found, y) ↦ ground arith
    ]

-- What a successful EnqueueSend has done.
pub enqueue_send-ok :
    (env : Env) (s : Send) (sub id : ℕ) (db : Db) {out : Db × Bool}
    → enqueue_send env s sub id db ≡ ok out
    → (denied : Bool) × ((
      record db { tasks = (create_task (task_of env s sub id denied) db.tasks).0 },
      (create_task (task_of env s sub id denied) db.tasks).1,
    )
        ≡ out)
unfolding enqueue_send
enqueue_send-ok env s sub id db h =
    let (denied, e, m) = >>=-eq-ok (consent_denied env s db.destinations) _ h in
    (denied, ok-injective m)

failing_at-ok :
    (db : Db) (r : Result ServiceError (Db × Bool)) {out : Db × Bool}
    → failing_at db r ≡ ok out
    → r ≡ ok out
unfolding failing_at
failing_at-ok db (ok x) h = ap ok (ok-injective h)
failing_at-ok db (err x) h = absurd (ground arith)

enqueue_journey_send_lem :
    (env : Env) (s : Send) (sub id : ℕ) (db : Db)
    → let (db', found) = ensure_subscription s.tenant_id s.destination_id sub db in
      enqueue_journey_send env s sub id db ≡ failing_at db' (enqueue_send env s found id db')
unfolding enqueue_journey_send
enqueue_journey_send_lem env s sub id db = refl

module _ (env : Env) (consent : Option (ℕ → ℕ → String → String → Result ServiceError String))
    (s : Send) (payload : String) where
  enqueue_send-again :
      (sub id id' : ℕ) (db : Db) {out out' : Db × Bool}
      → enqueue_send env s sub id db ≡ ok out
      → enqueue_send
          (record env { consent = consent })
          (record s { payload = payload })
          sub
          id'
          out.0
        ≡ ok out'
      → (out'.0 ≡ out.0) × (out'.1 ≡ false)
  unfolding task_of
  enqueue_send-again sub id id' db {out} {out'} h k =
      let (d, e) = enqueue_send-ok env s sub id db h in
      let (d', e') =
        enqueue_send-ok (record env { consent = consent }) (record s { payload = payload }) sub id'
          out.0 k in
      let again =
        create_task-again (task_of env s sub id d)
          (task_of (record env { consent = consent }) (record s { payload = payload }) sub id' d')
          db.tasks refl refl in
      ground arith

  -- A send of a journey that is enqueued once more, with the consent and the payload of that time and
  -- with other ids at hand for new rows, changes no row of the database and creates no task.
  pub enqueue_journey_send-again :
      (sub sub' id id' : ℕ) (db : Db) {out out' : Db × Bool}
      → enqueue_journey_send env s sub id db ≡ ok out
      → enqueue_journey_send
          (record env { consent = consent })
          (record s { payload = payload })
          sub'
          id'
          out.0
        ≡ ok out'
      → (out'.0 ≡ out.0) × (out'.1 ≡ false)
  enqueue_journey_send-again sub sub' id id' db {out} {out'} h k =
      let db' = (ensure_subscription s.tenant_id s.destination_id sub db).0 in
      let found = (ensure_subscription s.tenant_id s.destination_id sub db).1 in
      let h' : enqueue_send env s found id db' ≡ ok out =
        failing_at-ok db' _ (sym (enqueue_journey_send_lem env s sub id db) ∙ h) in
      let (d, e) = enqueue_send-ok env s found id db' h' in
      let subs : out.0.journey_subscriptions ≡ db'.journey_subscriptions =
        ap (λ (o : Db × Bool). o.0.journey_subscriptions) (sym e) in
      let same : ensure_subscription s.tenant_id s.destination_id sub' out.0 ≡ (out.0, found) =
        ensure_subscription-found s.tenant_id s.destination_id sub' found out.0
          (rw subs (find_subscription-ensure s.tenant_id s.destination_id sub db)) in
      let reached : failing_at out.0 (
            enqueue_send (record env { consent = consent }) (record s { payload = payload }) found
              id' out.0)
          ≡ enqueue_journey_send (record env { consent = consent }) (record s { payload = payload })
              sub' id' out.0 =
        rw
          (enqueue_journey_send_lem (record env { consent = consent })
            (record s { payload = payload }) sub' id' out.0)
          (rw same) in
      enqueue_send-again found id id' db' h' (failing_at-ok out.0 _ (reached ∙ k))
