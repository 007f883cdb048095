-- ===== src/Journey/Service/Resend.antt =====
-- A send step that runs again, after a crash between its enqueue and the advance.
use osscdp.Prelude.{
  ℕ, ◌≡◌, ap, ◌∙◌, String, Option, Result, ok, Result-cases, ok-injective, arith, inl, inr, Bool,
  >>=-eq-ok,
}
use osscdp.Segment.Leaf.{Profile}
use osscdp.Activation.Service.{ServiceError, enqueue_journey_send}
use osscdp.Activation.Service.Once.{enqueue_journey_send-again}
use osscdp.Journey.Definition.{Step}
use osscdp.Journey.Enrollment.{Enrollment}
use osscdp.Journey.Service.{JourneyError, World, Env, send_of, enqueue_payload, enqueue_step}

module _ (env : Env) (n : ℕ) (e : Enrollment) where
  enqueue_payload-db :
      (now sub id : ℕ) (s : Step) (payload : String) (w : World) {v : World}
      → enqueue_payload env n e now sub id s payload w ≡ ok v
      → (created : Bool) × (enqueue_journey_send env.sender
            (send_of env n e now s payload)
            sub
            id
            w.db
          ≡ ok (v.db, created))
  unfolding enqueue_payload
  enqueue_payload-db now sub id s payload w {v} r =
      elim (Result-cases
        (enqueue_journey_send env.sender (send_of env n e now s payload) sub id w.db)) [
          | inl (out, y) ↦
              let q : out.0 ≡ v.db =
                ap (λ (x : World). x.db) (ok-injective (rw (y, enqueue_payload) at r)) in
              (out.1, y ∙ ap (λ d. ok (d, out.1)) q)
          | inr (x, y) ↦ absurd (ground arith)
        ]

  enqueue_step-db :
      (now sub id : ℕ) (s : Step) (p : Profile) (w : World) {v : World}
      → enqueue_step env n e now sub id s p w ≡ ok v
      → (payload : String) × ((created : Bool) × (enqueue_journey_send env.sender
              (send_of env n e now s payload)
              sub
              id
              w.db
            ≡ ok (v.db, created)))
  unfolding enqueue_step
  enqueue_step-db now sub id s p w r =
      let (payload, y, m) = >>=-eq-ok (env.payload e p) _ r in
      (payload, enqueue_payload-db now sub id s payload w m)

-- The enqueue of a send step that has been done once for an enrollment, done again for the same
-- step of the same run, changes neither the tasks nor the subscriptions: whatever the instants, the
-- profile, the payload, the consent and the rows of enrollments are by then.
pub enqueue_step-again :
    (env : Env) (n : ℕ) (e : Enrollment) (now now' sub sub' id id' : ℕ) (s : Step) (p p' : Profile)
    (consent : Option (ℕ → ℕ → String → String → Result ServiceError String))
    (payload : Enrollment → Profile → Result JourneyError String) (w w' : World) {v v' : World}
    → enqueue_step env n e now sub id s p w ≡ ok v
    → w'.db ≡ v.db
    → enqueue_step
        (record env { sender = record env.sender { consent = consent }; payload = payload })
        n
        e
        now'
        sub'
        id'
        s
        p'
        w'
      ≡ ok v'
    → v'.db ≡ v.db
unfolding send_of
enqueue_step-again env n e now now' sub sub' id id' s p p' consent payload w w' {v} {v'} h same k =
    let env' = record env { sender = record env.sender { consent = consent }; payload = payload } in
    let (text, (c, first)) = enqueue_step-db env n e now sub id s p w h in
    let (text', (c', second)) = enqueue_step-db env' n e now' sub' id' s p' w' k in
    (enqueue_journey_send-again env.sender consent (send_of env n e now s text) text' sub sub' id
      id' w.db first (rw same at second)).0
