-- ===== src/Activation/Service/Denied.antt =====
-- A send to a profile that has denied it.
use osscdp.Prelude.{ℕ, String, true, some, List, ◌≡◌, refl, Result, ok}
use osscdp.Activation.Task.{create_task}
use osscdp.Activation.Service.{
  ServiceError, Destination, Db, Env, Send, get_destination, consent_channel_of, consent_purpose_of,
  consent_denied, task_of, enqueue_send,
}

consent_denied-true :
    (env : Env) (read : ℕ → ℕ → String → String → Result ServiceError String) (s : Send)
    (destinations : List Destination) {d : Destination}
    → env.consent ≡ some read
    → get_destination s.tenant_id s.destination_id destinations ≡ some d
    → read s.tenant_id s.profile_id (consent_channel_of d) (consent_purpose_of d) ≡ ok "denied"
    → consent_denied env s destinations ≡ ok true
unfolding consent_denied
consent_denied-true env read s destinations g e h =
    rw (g, consent_denied) (rw (e, consent_denied) (rw h refl))

-- The gate's answer `denied` makes the task a skipped one.
pub enqueue_send-denied :
    (env : Env) (read : ℕ → ℕ → String → String → Result ServiceError String) (s : Send)
    (sub id : ℕ) (db : Db) {d : Destination}
    → env.consent ≡ some read
    → get_destination s.tenant_id s.destination_id db.destinations ≡ some d
    → read s.tenant_id s.profile_id (consent_channel_of d) (consent_purpose_of d) ≡ ok "denied"
    → enqueue_send env s sub id db
      ≡ ok (
        record db { tasks = (create_task (task_of env s sub id true) db.tasks).0 },
        (create_task (task_of env s sub id true) db.tasks).1,
      )
unfolding enqueue_send
enqueue_send-denied env read s sub id db g e h =
    rw (consent_denied-true env read s db.destinations g e h) refl
