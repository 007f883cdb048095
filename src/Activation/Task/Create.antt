-- ===== src/Activation/Task/Create.antt =====
-- The insertion of a task under its unique key.
use osscdp.Prelude.{
  ◌≡◌, Bool, true, false, List, [], ◌∷◌, ◌++◌, arith, Bool-cases, ◌⊎◌, inl, inr, eqb_refl, eq_iff,
  refl,
}
use osscdp.Activation.Task.{Task, has_key, any_task, create_task}

pub any_task-append :
    (p : Task → Bool) (ts : List Task) (t : Task) → p t ≡ true → any_task p (ts ++ t ∷ []) ≡ true
unfolding any_task
any_task-append p [] t h = ground arith
any_task-append p (x ∷ ts) t h = ground (arith, any_task-append p ts t h)

pub has_key_self : (t : Task) → has_key t.tenant_id t.idempotency_key t ≡ true
has_key_self t =
    let e = eqb_refl t.tenant_id in
    let k = (eq_iff t.idempotency_key t.idempotency_key).1 refl in ground arith

-- An insertion keeps the rows.
any_task-prefix :
    (p : Task → Bool) (ts : List Task) (t : Task)
    → any_task p ts ≡ true
    → any_task p (ts ++ t ∷ []) ≡ true
unfolding any_task
any_task-prefix p [] t h = absurd (ground arith)
any_task-prefix p (x ∷ ts) t h = elim (Bool-cases (p x)) [
  | inl e ↦ rw e refl
  | inr e ↦ rw e (any_task-prefix p ts t (rw e at h))
]

pub create_task-keeps :
    (p : Task → Bool) (t : Task) (ts : List Task)
    → any_task p ts ≡ true
    → any_task p (create_task t ts).0 ≡ true
unfolding create_task
create_task-keeps p t ts h =
    elim (Bool-cases (any_task (has_key t.tenant_id t.idempotency_key) ts)) [
      | inl e ↦ rw e h
      | inr e ↦ rw e (any_task-prefix p ts t h)
    ]

-- After an insertion the key has a row.
pub create_task-has :
    (t : Task) (ts : List Task)
    → any_task (has_key t.tenant_id t.idempotency_key) (create_task t ts).0 ≡ true
unfolding create_task
create_task-has t ts = elim (Bool-cases (any_task (has_key t.tenant_id t.idempotency_key) ts)) [
  | inl e ↦ rw e e
  | inr e ↦ rw e (any_task-append (has_key t.tenant_id t.idempotency_key) ts t (has_key_self t))
]

-- An insertion under a key that has a row changes nothing.
pub create_task-present :
    (t : Task) (ts : List Task)
    → any_task (has_key t.tenant_id t.idempotency_key) ts ≡ true
    → (create_task t ts).0 ≡ ts
unfolding create_task
create_task-present t ts h = rw h refl

-- A task whose key is in the table is not inserted.
pub create_task-again :
    (t t' : Task) (tasks : List Task)
    → t'.tenant_id ≡ t.tenant_id
    → t'.idempotency_key ≡ t.idempotency_key
    → create_task t' (create_task t tasks).0 ≡ ((create_task t tasks).0, false)
unfolding create_task
create_task-again t t' tasks e k =
    rw (e, k)
      (elim (Bool-cases (any_task (has_key t.tenant_id t.idempotency_key) tasks)) [
        | inl y ↦ rw (y, y)
        | inr n ↦
            rw n (
              rw (any_task-append (has_key t.tenant_id t.idempotency_key) tasks t (has_key_self t)))
      ])

-- An insertion adds one row or none.
pub create_task-grows :
    (t : Task) (ts : List Task)
    → ((create_task t ts).0 ≡ ts) ⊎ ((create_task t ts).0 ≡ ts ++ t ∷ [])
unfolding create_task
create_task-grows t ts = elim (Bool-cases (any_task (has_key t.tenant_id t.idempotency_key) ts)) [
  | inl e ↦ inl (rw e refl)
  | inr e ↦ inr (rw e refl)
]
