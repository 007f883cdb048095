-- ===== src/Activation/Fanout/Gate.antt =====
-- internal/consent, internal/profile/repo.go and internal/activation/service.go: the consent gate of a
-- profile that another was folded into.
use osscdp.Prelude.{
  ℕ, String, Bool, true, false, Option, none, some, List, [], ◌∷◌, ◌++◌, ◌==◌, ◌≡◌, ◌⊎◌, refl, ap,
  ◌∙◌, arith, Bool-cases, inl, inr, eqb, Result, ok,
}
use osscdp.Consent.{Key, Consent, denied, status_of, get, reparent_consent}
use osscdp.Consent.Reparent.{Unique, with_profile, joined, reparent_consent-joined}
use osscdp.Activation.Task.{Task, skipped, create_task}
use osscdp.Activation.Task.Create.{create_task-grows}
use osscdp.Activation.Service.Denied.{enqueue_send-denied}
use osscdp.Consent.Keys.{get-found}
use osscdp.Activation.Service.{
  ServiceError, Destination, Db, Env, Send, get_destination, consent_channel_of, consent_purpose_of,
  task_of, enqueue_send,
}

-- The gate over the table of consents, as Get of the consent package answers it.
abbrev pub gate : List Consent → Option (ℕ → ℕ → String → String → Result ServiceError String)
gate rows = some (λ tenant profile channel purpose. ok (
    get (record { tenant_id = tenant; profile_id = profile; channel = channel; purpose = purpose })
      rows))

-- The key of the consent that a send asks for.
abbrev pub key_of : Send → Destination → Key
key_of s d = record {
  tenant_id = s.tenant_id;
  profile_id = s.profile_id;
  channel = consent_channel_of d;
  purpose = consent_purpose_of d;
}

abbrev text_of : Option String → String
text_of none = ""
text_of (some t) = t

-- A denial on either side is a denial of both.
joined-denied :
    (a b : Option String) → (a ≡ some denied) ⊎ (b ≡ some denied) → joined a b ≡ some denied
joined-denied none none (inl e) = e
joined-denied none none (inr e) = e
joined-denied none (some s) (inl e) = absurd (ground arith)
joined-denied none (some s) (inr e) = e
joined-denied (some l) none (inl e) = e
joined-denied (some l) none (inr e) = absurd (ground arith)
joined-denied (some l) (some s) (inl e) = rw (ap text_of e) refl
joined-denied (some l) (some s) (inr e) =
    rw (ap text_of e) (elim (Bool-cases (l == denied)) [ inl q ↦ rw q refl | inr q ↦ rw q refl ])

-- No task was added, or one that is skipped.
unfoldable pub NothingToSend : List Task → List Task → Type 0
NothingToSend before after =
    (after ≡ before) ⊎ ((t : Task) × ((t.status ≡ skipped) × (after ≡ before ++ t ∷ [])))

-- A profile into which another, `loser`, was folded, where either had denied the channel and purpose of a
-- destination: a send to it by that destination succeeds, and adds no task or a skipped one. Keys of
-- consents are unique before, and the destination is found.
pub enqueue_send-reparented :
    (env : Env) (loser now : ℕ) (rows : List Consent) (s : Send) (sub id : ℕ) (db : Db)
    {d : Destination}
    → Unique rows
    → eqb s.profile_id loser ≡ false
    → get_destination s.tenant_id s.destination_id db.destinations ≡ some d
    → (status_of (with_profile loser (key_of s d)) rows ≡ some denied)
      ⊎ (status_of (key_of s d) rows ≡ some denied)
    → (out : Db × Bool) × ((enqueue_send
            (record env {
              consent = gate (reparent_consent s.tenant_id loser s.profile_id now rows);
            })
            s
            sub
            id
            db
          ≡ ok out)
        × NothingToSend db.tasks out.0.tasks)
unfolding NothingToSend task_of
enqueue_send-reparented env loser now rows s sub id db {d} u n e h =
    let rows' = reparent_consent s.tenant_id loser s.profile_id now rows in
    let env' : Env = record env { consent = gate rows' } in
    let t : Task = task_of env' s sub id true in
    let status : status_of (key_of s d) rows' ≡ some denied =
      (reparent_consent-joined loser now (key_of s d) rows u n).0 ∙ joined-denied _ _ h in
    let answer : ◌≡◌ {A = Result ServiceError String} (ok (get (key_of s d) rows')) (ok "denied") =
      ap (λ (x : String). ok x) (get-found (key_of s d) rows' status) in
    (
      (record db { tasks = (create_task t db.tasks).0 }, (create_task t db.tasks).1),
      (
        enqueue_send-denied env' _ s sub id db refl e answer,
        elim (create_task-grows t db.tasks) [ inl q ↦ inl q | inr q ↦ inr (t, (refl, q)) ],
      ),
    )
