-- ===== src/Activation/Runner/Count.antt =====
-- The attempts that the deliveries of a task record, through one attempt.
use osscdp.Prelude.{
  String, ℕ, ◌+◌, ◌≡◌, refl, sym, ap, ◌∙◌, Bool, false, ◌&&◌, Option, none, some, List, [], ◌∷◌,
  ◌++◌, arith, eqb, eqb_refl, eqb→eq, if◌then◌else◌, All, Bool-cases, inl, inr, suc, ltb,
}
use osscdp.Activation.Backoff.{backoff, max_retries}
use osscdp.Activation.Breaker.{Config}
use osscdp.Activation.Service.{Destination}
use osscdp.Activation.Task.{
  Task, TaskStatus, succeeded, failed_retryable, failed_permanent, mark_result,
}
use osscdp.Activation.Runner.{
  Outcome, failed_outcome, join, Clock, Runner, World, Delivery, delivery_of, settle, finish,
  may_send, record_send, deliver, attempt_send, process,
}

-- How many attempts of a task the table of deliveries records.
unfoldable pub attempts_of : ℕ → List Delivery → ℕ
attempts_of id [] = 0
attempts_of id (d ∷ ds) = let n = attempts_of id ds in if eqb d.task_id id then suc n else n

-- The column attempt_count is the number of deliveries.
abbrev pub IsCounted : List Delivery → Task → Type 0
IsCounted ds t = t.attempt_count ≡ attempts_of t.id ds

pub attempts_of-append :
    (id : ℕ) (ds : List Delivery) (d : Delivery)
    → attempts_of id (ds ++ d ∷ []) ≡ attempts_of id ds + (if eqb d.task_id id then 1 else 0)
unfolding attempts_of
attempts_of-append id [] d = ground arith
attempts_of-append id (x ∷ ds) d = ground (arith, attempts_of-append id ds d)

-- What processing a task has done to the two tables: either one attempt was made and recorded, or none
-- was made and the task deferred.
pub data Attempted (t : Task) (before after : World) : Type 0 where
  tried :
      (d : Delivery) (status : TaskStatus) (next : Option ℕ) (message : String)
      → d.task_id ≡ t.id
      → after.deliveries ≡ before.deliveries ++ d ∷ []
      → after.tasks ≡ mark_result t.id status (t.attempt_count + 1) next message before.tasks
      → Attempted t before after
  deferred :
      (next : Option ℕ) (message : String)
      → after.deliveries ≡ before.deliveries
      → after.tasks ≡ mark_result t.id failed_retryable t.attempt_count next message before.tasks
      → Attempted t before after

finish-Attempted :
    (now jitter : ℕ) (t : Task) (out : Outcome) (w : World)
    → Attempted t w (finish now jitter t (t.attempt_count + 1) out w)
unfolding finish settle
finish-Attempted now jitter t out w = elim (Bool-cases out.success) [
  | inl y ↦
      tried (delivery_of now t (t.attempt_count + 1) out) succeeded none "" refl refl (rw y refl)
  | inr y ↦ elim (Bool-cases (out.retryable && ltb (t.attempt_count + 1) max_retries)) [
    | inl z ↦
        tried (delivery_of now t (t.attempt_count + 1) out) failed_retryable
          (some (now + (backoff (t.attempt_count + 1) + jitter))) out.error_message refl refl
          (rw (y, z) refl)
    | inr z ↦
        tried (delivery_of now t (t.attempt_count + 1) out) failed_permanent none out.error_message
          refl refl (rw (y, z) refl)
  ]
]

-- The breaker is no part of the two tables.
through :
    (t : Task) {before between after : World}
    → between.deliveries ≡ before.deliveries
    → between.tasks ≡ before.tasks
    → Attempted t between after
    → Attempted t before after
through t p q (tried d status next message a b c) =
    tried d status next message a (rw (sym p) b) (rw (sym q) c)
through t p q (deferred next message b c) = deferred next message (b ∙ p) (rw (sym q) c)

record_send-tables :
    (c : Option Config) (now id : ℕ) (b : Bool) (w : World)
    → ((record_send c now id b w).deliveries ≡ w.deliveries)
      × ((record_send c now id b w).tasks ≡ w.tasks)
record_send-tables none now id b w = (refl, refl)
record_send-tables (some c) now id b w = (refl, refl)

may_send-tables :
    (c : Option Config) (now id : ℕ) (w : World)
    → ((may_send c now id w).0.deliveries ≡ w.deliveries)
      × ((may_send c now id w).0.tasks ≡ w.tasks)
unfolding may_send
may_send-tables none now id w = (refl, refl)
may_send-tables (some c) now id w = (refl, refl)

module _ (r : Runner) (clock : Clock) (jitter : ℕ) (t : Task) where
  deliver-Attempted :
      (w : World) (d : Destination) (sender : Option (Destination → Task → Outcome))
      → Attempted t w (deliver r clock jitter t w d sender)
  unfolding deliver
  deliver-Attempted w d none =
      finish-Attempted clock.at_finish jitter t
        (failed_outcome (join "unknown destination type: " d.type_name)) w
  deliver-Attempted w d (some send) =
      let (p, q) =
        record_send-tables r.breaker_config clock.at_record t.destination_id (send d t).success w in
      through t p q (finish-Attempted clock.at_finish jitter t (send d t) _)

  attempt_send-Attempted :
      (w : World) (found : Option Destination)
      → Attempted t w (attempt_send r clock jitter t w found)
  unfolding attempt_send
  attempt_send-Attempted w none =
      finish-Attempted clock.at_finish jitter t
        (failed_outcome (join "destination unavailable: " r.destination_error)) w
  attempt_send-Attempted w (some d) = deliver-Attempted w d (r.senders d.type_name)

  pub process-Attempted : (w : World) → Attempted t w (process r clock jitter t w)
  unfolding process
  process-Attempted w =
      let (p, q) = may_send-tables r.breaker_config clock.at_allow t.destination_id w in
      let w' = (may_send r.breaker_config clock.at_allow t.destination_id w).0 in
      elim (Bool-cases (may_send r.breaker_config clock.at_allow t.destination_id w).1) [
        | inl y ↦ rw y (through t p q (attempt_send-Attempted w' _))
        | inr y ↦ rw y (through t {between = w'} p q (deferred _ "circuit_open" refl refl))
      ]

-- A row that is written with the right count is counted.
marked-IsCounted :
    (ds : List Delivery) (id : ℕ) (status : TaskStatus) (attempts : ℕ) (next : Option ℕ)
    (message : String) (ts : List Task) (ds' : List Delivery)
    → attempts ≡ attempts_of id ds'
    → ((i : ℕ) → eqb i id ≡ false → attempts_of i ds' ≡ attempts_of i ds)
    → All (IsCounted ds) ts
    → All (IsCounted ds') (mark_result id status attempts next message ts)
unfolding mark_result
marked-IsCounted ds id status attempts next message [] ds' h k a = tt
marked-IsCounted ds id status attempts next message (t ∷ ts) ds' h k (a, b) = (
  elim (Bool-cases (eqb t.id id)) [
    | inl y ↦ rw y (h ∙ ap (λ i. attempts_of i ds') (sym (eqb→eq t.id id y)))
    | inr n ↦ rw n (a ∙ sym (k t.id n))
  ],
  marked-IsCounted ds id status attempts next message ts ds' h k b,
)

-- One processed task, whose own count is right, leaves every count right.
pub Attempted-IsCounted :
    (t : Task) (before after : World)
    → IsCounted before.deliveries t
    → All (IsCounted before.deliveries) before.tasks
    → Attempted t before after
    → All (IsCounted after.deliveries) after.tasks
Attempted-IsCounted t before after c a (tried d status next message e p q) =
    let one = attempts_of-append t.id before.deliveries d in
    let more : t.attempt_count + 1 ≡ attempts_of t.id (before.deliveries ++ d ∷ []) =
      ground (arith, one, eqb_refl t.id) in
    rw (p, q)
      (marked-IsCounted before.deliveries t.id status (t.attempt_count + 1) next message
        before.tasks _ more (λ i n. ground (arith, attempts_of-append i before.deliveries d)) a)
Attempted-IsCounted t before after c a (deferred next message p q) =
    rw (p, q)
      (marked-IsCounted before.deliveries t.id failed_retryable t.attempt_count next message
        before.tasks _ c (λ i n. refl) a)
