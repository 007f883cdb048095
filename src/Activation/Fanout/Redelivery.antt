-- ===== src/Activation/Fanout/Redelivery.antt =====
-- A membership change that is delivered again.
use osscdp.Prelude.{
  ℕ, String, Bool, true, Option, none, some, List, [], ◌∷◌, ◌≡◌, refl, sym, ap, ◌∙◌, subst, arith,
  inl, inr, Result, ok, err, Result-cases,
}
use osscdp.Profile.Merge.{CustomerProfile}
use osscdp.Activation.Task.{KeyParts, Task, has_key, any_task}
use osscdp.Activation.Task.Create.{create_task-keeps, create_task-has, create_task-present}
use osscdp.Activation.Service.{ServiceError, Db, Env, parts_of, task_of, enqueue_send}
use osscdp.Activation.Service.Once.{enqueue_send-ok}
use osscdp.Activation.Fanout.{
  SegmentSubscription, MembershipChange, FanoutError, send_error, send_to, active_subscriptions,
  enqueue_each, with_payload, with_read, fan_out, on_membership_changed,
}

-- The task of a subscription, by its unique key.
abbrev pub has_task :
    (KeyParts → String) → MembershipChange → SegmentSubscription → List Task → Bool
has_task digest mc s tasks =
    any_task (has_key mc.tenant_id (digest (parts_of (send_to mc "" s) s.id))) tasks

-- Every subscription has its task.
unfoldable pub AllHaveTask :
    (KeyParts → String) → MembershipChange → List SegmentSubscription → List Task → Type 0
AllHaveTask digest mc [] tasks = Unit
AllHaveTask digest mc (s ∷ ss) tasks =
    (has_task digest mc s tasks ≡ true) × AllHaveTask digest mc ss tasks

module _ (env : Env) (mc : MembershipChange) where
  -- What a successful EnqueueSend leaves.
  enqueue_send-keeps :
      (p : Task → Bool) (payload : String) (s : SegmentSubscription) (id : ℕ) (db : Db)
      {out : Db × Bool}
      → enqueue_send env (send_to mc payload s) s.id id db ≡ ok out
      → any_task p db.tasks ≡ true
      → any_task p out.0.tasks ≡ true
  enqueue_send-keeps p payload s id db h e =
      let (d, m) = enqueue_send-ok env (send_to mc payload s) s.id id db h in
      subst (λ (o : Db × Bool). any_task p o.0.tasks ≡ true) m
        (create_task-keeps p (task_of env (send_to mc payload s) s.id id d) db.tasks e)

  enqueue_send-has :
      (payload : String) (s : SegmentSubscription) (id : ℕ) (db : Db) {out : Db × Bool}
      → enqueue_send env (send_to mc payload s) s.id id db ≡ ok out
      → has_task env.digest mc s out.0.tasks ≡ true
  unfolding task_of
  enqueue_send-has payload s id db h =
      let (d, m) = enqueue_send-ok env (send_to mc payload s) s.id id db h in
      subst (λ (o : Db × Bool). has_task env.digest mc s o.0.tasks ≡ true) m
        (create_task-has (task_of env (send_to mc payload s) s.id id d) db.tasks)

  enqueue_send-present :
      (payload : String) (s : SegmentSubscription) (id : ℕ) (db : Db) {out : Db × Bool}
      → has_task env.digest mc s db.tasks ≡ true
      → enqueue_send env (send_to mc payload s) s.id id db ≡ ok out
      → out.0 ≡ db
  unfolding task_of
  enqueue_send-present payload s id db {out} e h =
      let (d, m) = enqueue_send-ok env (send_to mc payload s) s.id id db h in
      sym (ap (λ (o : Db × Bool). o.0) m)
      ∙ ap (λ (ts : List Task). record db { tasks = ts })
          (create_task-present (task_of env (send_to mc payload s) s.id id d) db.tasks e)

  enqueue_each-nil :
      (task_id : ℕ → ℕ) (payload : String) (db : Db)
      → enqueue_each env task_id mc payload [] db ≡ (db, none)
  unfolding enqueue_each
  enqueue_each-nil task_id payload db = refl

  -- The two branches of the loop.
  enqueue_each-ok :
      (task_id : ℕ → ℕ) (payload : String) (s : SegmentSubscription) (ss : List SegmentSubscription)
      (db : Db) {out : Db × Bool}
      → enqueue_send env (send_to mc payload s) s.id (task_id s.id) db ≡ ok out
      → enqueue_each env task_id mc payload (s ∷ ss) db
        ≡ enqueue_each env task_id mc payload ss out.0
  unfolding enqueue_each
  enqueue_each-ok task_id payload s ss db h = rw (h, enqueue_each) refl

  enqueue_each-err :
      (task_id : ℕ → ℕ) (payload : String) (s : SegmentSubscription) (ss : List SegmentSubscription)
      (db : Db) {x : ServiceError}
      → enqueue_send env (send_to mc payload s) s.id (task_id s.id) db ≡ err x
      → enqueue_each env task_id mc payload (s ∷ ss) db ≡ (db, some (send_error x))
  unfolding enqueue_each
  enqueue_each-err task_id payload s ss db h = rw (h, enqueue_each) refl

  -- The loop keeps the tasks.
  enqueue_each-keeps :
      (task_id : ℕ → ℕ) (p : Task → Bool) (payload : String) (ss : List SegmentSubscription)
      (db : Db)
      → any_task p db.tasks ≡ true
      → any_task p (enqueue_each env task_id mc payload ss db).0.tasks ≡ true
  enqueue_each-keeps task_id p payload [] db e =
      subst (λ (o : Db × Option FanoutError). any_task p o.0.tasks ≡ true)
        (sym (enqueue_each-nil task_id payload db)) e
  enqueue_each-keeps task_id p payload (s ∷ ss) db e =
      elim (Result-cases (enqueue_send env (send_to mc payload s) s.id (task_id s.id) db)) [
        | inr (x, h) ↦ rw (enqueue_each-err task_id payload s ss db h) e
        | inl (out, h) ↦ rw (enqueue_each-ok task_id payload s ss db h) (
            enqueue_each-keeps task_id p payload ss out.0
              (enqueue_send-keeps p payload s (task_id s.id) db h e))
      ]

  -- A loop that ends without an error leaves every subscription a task.
  enqueue_each-AllHaveTask :
      (task_id : ℕ → ℕ) (payload : String) (ss : List SegmentSubscription) (db : Db)
      → (enqueue_each env task_id mc payload ss db).1 ≡ none
      → AllHaveTask env.digest mc ss (enqueue_each env task_id mc payload ss db).0.tasks
  unfolding AllHaveTask
  enqueue_each-AllHaveTask task_id payload [] db e = tt
  enqueue_each-AllHaveTask task_id payload (s ∷ ss) db e =
      elim (Result-cases (enqueue_send env (send_to mc payload s) s.id (task_id s.id) db)) [
        | inr (x, h) ↦ absurd (
            let e' : some (send_error x) ≡ none =
              sym (
                ap (λ (o : Db × Option FanoutError). o.1)
                  (enqueue_each-err task_id payload s ss db h))
              ∙ e in
            ground arith)
        | inl (out, h) ↦
            let same = enqueue_each-ok task_id payload s ss db h in
            let e' = sym (ap (λ (o : Db × Option FanoutError). o.1) same) ∙ e in
            subst (λ (o : Db × Option FanoutError). AllHaveTask env.digest mc (s ∷ ss) o.0.tasks)
              (sym same)
              (
                enqueue_each-keeps task_id
                    (has_key mc.tenant_id (env.digest (parts_of (send_to mc "" s) s.id))) payload ss
                    out.0 (enqueue_send-has payload s (task_id s.id) db h),
                enqueue_each-AllHaveTask task_id payload ss out.0 e',
              )
      ]

  -- Where every subscription has a task, the loop changes nothing, whether an error stops it or not.
  enqueue_each-present :
      (task_id : ℕ → ℕ) (payload : String) (ss : List SegmentSubscription) (db : Db)
      → AllHaveTask env.digest mc ss db.tasks
      → (enqueue_each env task_id mc payload ss db).0 ≡ db
  unfolding enqueue_each AllHaveTask
  enqueue_each-present task_id payload [] db a = refl
  enqueue_each-present task_id payload (s ∷ ss) db (a, as') =
      elim (Result-cases (enqueue_send env (send_to mc payload s) s.id (task_id s.id) db)) [
        | inr (x, h) ↦ rw (enqueue_each-err task_id payload s ss db h) refl
        | inl (out, h) ↦
            let same = enqueue_send-present payload s (task_id s.id) db a h in
            rw (enqueue_each-ok task_id payload s ss db h)
              (rw same (enqueue_each-present task_id payload ss db as'))
      ]

-- Nothing but the digest of the environment is in the keys.
module _ (env : Env) (consent : Option (ℕ → ℕ → String → String → Result ServiceError String))
    (mc : MembershipChange) (is_enabled : ℕ → Bool) (subs : List SegmentSubscription) where
  abbrev active_subs : List SegmentSubscription
  active_subs = active_subscriptions mc.tenant_id mc.segment_id is_enabled subs

  fan_out-AllHaveTask :
      (task_id : ℕ → ℕ) (get_profile : ℕ → ℕ → Result FanoutError (Option CustomerProfile))
      (build_payload : MembershipChange → CustomerProfile → Result FanoutError String)
      (ss : List SegmentSubscription) (db : Db) {p : CustomerProfile}
      → get_profile mc.tenant_id mc.profile_id ≡ ok (some p)
      → (fan_out env task_id get_profile build_payload mc ss db).1 ≡ none
      → AllHaveTask env.digest mc ss
          (fan_out env task_id get_profile build_payload mc ss db).0.tasks
  unfolding fan_out with_read with_payload AllHaveTask
  fan_out-AllHaveTask task_id get_profile build_payload [] db g e = tt
  fan_out-AllHaveTask task_id get_profile build_payload (s ∷ ss) db {p} g e =
      elim (Result-cases (build_payload mc p)) [
        | inr (x, h) ↦ absurd (let e' : some x ≡ none = rw (g, h) at e in ground arith)
        | inl (payload, h) ↦
            rw (g, h) (enqueue_each-AllHaveTask env mc task_id payload (s ∷ ss) db (rw (g, h) at e))
      ]

  fan_out-present :
      (task_id : ℕ → ℕ) (get_profile : ℕ → ℕ → Result FanoutError (Option CustomerProfile))
      (build_payload : MembershipChange → CustomerProfile → Result FanoutError String)
      (ss : List SegmentSubscription) (db : Db)
      → AllHaveTask env.digest mc ss db.tasks
      → (fan_out (record env { consent = consent }) task_id get_profile build_payload mc ss db).0
        ≡ db
  unfolding fan_out with_read with_payload
  fan_out-present task_id get_profile build_payload [] db a = refl
  fan_out-present task_id get_profile build_payload (s ∷ ss) db a =
      elim (Result-cases (get_profile mc.tenant_id mc.profile_id)) [
        | inr (x, g) ↦ rw g refl
        | inl (none, g) ↦ rw g refl
        | inl (some p, g) ↦ elim (Result-cases (build_payload mc p)) [
          | inr (x, h) ↦ rw (g, h) refl
          | inl (payload, h) ↦
              rw (g, h)
                (enqueue_each-present (record env { consent = consent }) mc task_id payload (s ∷ ss)
                  db a)
        ]
      ]

  -- A membership change that was handled to the end without an error, its profile being there, has left
  -- every active subscription of its segment a task. Handled again, with the consents, the profile, the
  -- payload and the ids of that time, it changes nothing, whether an error stops it or not.
  pub on_membership_changed-again :
      (task_id task_id' : ℕ → ℕ)
      (get_profile get_profile' : ℕ → ℕ → Result FanoutError (Option CustomerProfile))
      (build_payload build_payload' : MembershipChange
        → CustomerProfile
        → Result FanoutError String)
      (db after : Db) {p : CustomerProfile}
      → get_profile mc.tenant_id mc.profile_id ≡ ok (some p)
      → on_membership_changed env task_id get_profile build_payload mc is_enabled subs db
        ≡ (after, none)
      → AllHaveTask env.digest mc
          (active_subscriptions mc.tenant_id mc.segment_id is_enabled subs)
          after.tasks
        × ((on_membership_changed
              (record env { consent = consent })
              task_id'
              get_profile'
              build_payload'
              mc
              is_enabled
              subs
              after).0
            ≡ after)
  unfolding on_membership_changed
  on_membership_changed-again task_id task_id' get_profile get_profile' build_payload build_payload'
        db after g h =
      let all =
        subst (λ (o : Db × Option FanoutError). AllHaveTask env.digest mc active_subs o.0.tasks) h
          (fan_out-AllHaveTask task_id get_profile build_payload active_subs db g
            (ap (λ (o : Db × Option FanoutError). o.1) h)) in
      (all, fan_out-present task_id' get_profile' build_payload' active_subs after all)
