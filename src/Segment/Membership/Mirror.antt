-- ===== src/Segment/Membership/Mirror.antt =====
-- The outbox of membership changes as the history of the table.
use osscdp.Prelude.{
  ℕ, zero, suc, ◌+◌, ◌≡◌, refl, sym, ap, ◌∙◌, subst, String, Bool, true, false, not, Option, none,
  some, List, [], ◌∷◌, ◌++◌, arith, if◌then◌else◌, Bool-cases, inl, inr, ◌⊎◌,
}
use osscdp.Segment.Membership.{
  Key, is_key, MembershipStatus, active, exited, Member, Change, entered, exited_segment,
  MembershipChanged, Memberships, put, entered_member, exited_member, enter_member, exit_member,
  touch, change_of, emit, after_enter, after_exit, touch_row, flip_and_emit,
}

-- The changes of one membership in the outbox, each with its number.
unfoldable pub changes_of : Key → List MembershipChanged → List (ℕ × Change)
changes_of k [] = []
changes_of k (c ∷ cs) =
    let rest = changes_of k cs in
    if is_key k
      (record { tenant_id = c.tenant_id; segment_id = c.segment_id; profile_id = c.profile_id })
    then (c.transition_seq, c.change) ∷ rest
    else rest

-- Whether a profile is a member after `n` changes that begin with an entry and alternate.
abbrev pub is_member_after : ℕ → Bool
is_member_after zero = false
is_member_after (suc n) = not (is_member_after n)

-- Those changes: the numbers from 1 on, entries and exits in turn.
abbrev pub alternating : ℕ → List (ℕ × Change)
alternating zero = []
alternating (suc n) =
    alternating n ++ (suc n, (if is_member_after n then exited_segment else entered)) ∷ []

abbrev pub seq_of : Option Member → ℕ
seq_of none = 0
seq_of (some m) = m.transition_seq

abbrev pub is_member : Option Member → Bool
is_member none = false
is_member (some m) = elim m.status [ active ↦ true | exited ↦ false ]

-- The outbox holds the whole history of a membership, and the row is its end.
pub record Mirrors (k : Key) (w : Memberships) : Type 0 where
  pub history : changes_of k w.outbox ≡ alternating (seq_of (w.members k))
  pub status : is_member (w.members k) ≡ is_member_after (seq_of (w.members k))

abbrev turn : Option Member → Change
turn o = if is_member o then exited_segment else entered

-- A flip of a row: its status turns, its number goes up by one.
record Flips (o : Option Member) (m : Member) (seq : ℕ) : Type 0 where
  pub counts : seq ≡ seq_of o + 1
  pub numbered : m.transition_seq ≡ seq
  pub turns : is_member (some m) ≡ not (is_member o)

changes_of-append :
    (k : Key) (cs : List MembershipChanged) (c : MembershipChanged)
    → changes_of k (cs ++ c ∷ []) ≡ changes_of k cs ++ changes_of k (c ∷ [])
unfolding changes_of
changes_of-append k [] c = refl
changes_of-append k (x ∷ cs) c = ground (arith, changes_of-append k cs c)

is_key-eq : (k k' : Key) → is_key k k' ≡ true → k' ≡ k
is_key-eq k k' h = ground arith

is_key_self : (k : Key) → is_key k k ≡ true
is_key_self k = ground arith

changes_of-other :
    (k k' : Key) (version_id : ℕ) (change : Change) (token : String) (seq now : ℕ)
    → is_key k k' ≡ false
    → changes_of k' (change_of k version_id change token seq now ∷ []) ≡ []
unfolding changes_of
changes_of-other k k' version_id change token seq now h = ground arith

changes_of-same :
    (k : Key) (version_id : ℕ) (change : Change) (token : String) (seq now : ℕ)
    → changes_of k (change_of k version_id change token seq now ∷ []) ≡ (seq, change) ∷ []
unfolding changes_of
changes_of-same k version_id change token seq now = ground arith

append_nil : {A : Type 0} (xs : List A) → xs ++ [] ≡ xs
append_nil [] = refl
append_nil (x ∷ xs) = ap (◌∷◌ x) (append_nil xs)

pub put_self : (k : Key) (m : Member) (members : Key → Option Member) → put k m members k ≡ some m
put_self k m members = rw (is_key_self k)

put_other :
    (k : Key) (m : Member) (members : Key → Option Member) (k' : Key)
    → is_key k k' ≡ false
    → put k m members k' ≡ members k'
put_other k m members k' h = rw h

module _ (k : Key) (version_id : ℕ) (token : String) (now : ℕ) (w : Memberships) (m : Member)
    (seq : ℕ) where
  after : Change → Memberships
  after change = emit k version_id change token now (m, seq) w

  emit-Mirrors_self :
      (change : Change)
      → change ≡ turn (w.members k)
      → Flips (w.members k) m seq
      → Mirrors k w
      → Mirrors k (after change)
  unfolding after emit
  emit-Mirrors_self change c f i =
      let n = seq_of (w.members k) in
      let next : m.transition_seq ≡ suc n = omega (arith, f.counts, f.numbered) in
      let row = put_self k m w.members in
      let shown : changes_of k (after change).outbox ≡ alternating n ++ (seq, change) ∷ [] =
        changes_of-append k w.outbox (change_of k version_id change token seq now)
        ∙ rw (i.history, changes_of-same k version_id change token seq now) in
      let last : ◌≡◌ {A = ℕ × Change} (seq, change)
          (suc n, (if is_member_after n then exited_segment else entered)) =
        rw (f.counts, c, i.status) (ground arith) in
      record {
        history = shown ∙ rw last (rw row (rw next));
        status = rw row (f.turns ∙ rw (next, i.status));
      }

  emit-Mirrors_other :
      (change : Change) (k' : Key) → is_key k k' ≡ false → Mirrors k' w → Mirrors k' (after change)
  unfolding after emit
  emit-Mirrors_other change k' h i =
      let row = put_other k m w.members k' h in
      let shown : changes_of k' (after change).outbox ≡ changes_of k' w.outbox =
        changes_of-append k' w.outbox (change_of k version_id change token seq now)
        ∙ rw (changes_of-other k k' version_id change token seq now h)
            (append_nil (changes_of k' w.outbox)) in
      record { history = shown ∙ rw row i.history; status = rw row i.status }

  emit-Mirrors :
      (change : Change)
      → change ≡ turn (w.members k)
      → Flips (w.members k) m seq
      → ((k' : Key) → Mirrors k' w)
      → (k' : Key) → Mirrors k' (after change)
  emit-Mirrors change c f i k' = elim (Bool-cases (is_key k k')) [
    | inl same ↦
        subst (λ q. Mirrors q (after change)) (sym (is_key-eq k k' same))
          (emit-Mirrors_self change c f (i k))
    | inr other ↦ emit-Mirrors_other change k' other (i k')
  ]

flips :
    (o : Option Member) (made m : Member) (seq : ℕ)
    → ◌≡◌ {A = Option (Member × ℕ)} (some (made, seq_of o + 1)) (some (m, seq))
    → made.transition_seq ≡ seq_of o + 1
    → is_member (some made) ≡ not (is_member o)
    → Flips o m seq
flips o made m seq h c t =
    let e : made ≡ m = cc in
    let e' : seq_of o + 1 ≡ seq = cc in
    record { counts = sym e'; numbered = rw (sym e, sym e') c; turns = rw (sym e) t }

pub status-cases : (s : MembershipStatus) → (s ≡ active) ⊎ (s ≡ exited)
status-cases active = inl refl
status-cases exited = inr refl

enter_member-Flips :
    (now version : ℕ) (o : Option Member) {m : Member} {seq : ℕ}
    → enter_member now version o ≡ some (m, seq)
    → Flips o m seq × (entered ≡ turn o)
unfolding enter_member
enter_member-Flips now version none {m} {seq} h = (flips none _ m seq h refl refl, refl)
enter_member-Flips now version (some r) {m} {seq} h = elim (status-cases r.status) [
  | inl y ↦ absurd (ground arith)
  | inr n ↦ (
    flips (some r) (entered_member now version (r.transition_seq + 1)) m seq
        (rw (n, enter_member) at h) refl (rw n refl),
    rw n refl,
  )
]

exit_member-Flips :
    (now : ℕ) (o : Option Member) {m : Member} {seq : ℕ}
    → exit_member now o ≡ some (m, seq)
    → Flips o m seq × (exited_segment ≡ turn o)
unfolding exit_member
exit_member-Flips now none h = absurd (ground arith)
exit_member-Flips now (some r) {m} {seq} h = elim (status-cases r.status) [
  | inl y ↦ (
    flips (some r) (exited_member now r) m seq (rw (y, exit_member) at h) refl (rw y refl),
    rw y refl,
  )
  | inr n ↦ absurd (ground arith)
]

touch_row-Mirrors :
    (k : Key) (now version : ℕ) (w : Memberships) (o : Option Member)
    → w.members k ≡ o
    → ((k' : Key) → Mirrors k' w)
    → (k' : Key) → Mirrors k' (touch_row k now version w o)
unfolding touch_row
touch_row-Mirrors k now version w none e i k' = i k'
touch_row-Mirrors k now version w (some m) e i k' = elim (Bool-cases (is_key k k')) [
  | inl same ↦
      let i' : Mirrors k w = i k in
      subst
        (λ q. Mirrors q (record w {
          members = put k (record m { last_evaluated_at = now; version = version }) w.members;
        }))
        (sym (is_key-eq k k' same))
        (record {
          history =
              rw (put_self k (record m { last_evaluated_at = now; version = version }) w.members)
                (rw e at i'.history);
          status =
              rw (put_self k (record m { last_evaluated_at = now; version = version }) w.members)
                (rw e at i'.status);
        })
  | inr other ↦
      let row =
        put_other k (record m { last_evaluated_at = now; version = version }) w.members k' other in
      record { history = rw row (i k').history; status = rw row (i k').status }
]

after_enter-Mirrors :
    (k : Key) (version version_id : ℕ) (token : String) (now : ℕ) (w : Memberships)
    (o : Option (Member × ℕ))
    → enter_member now version (w.members k) ≡ o
    → ((k' : Key) → Mirrors k' w)
    → (k' : Key) → Mirrors k' (after_enter k version version_id token now w o).0
unfolding after_enter touch after
after_enter-Mirrors k version version_id token now w none e i k' =
    touch_row-Mirrors k now version w (w.members k) refl i k'
after_enter-Mirrors k version version_id token now w (some (m, seq)) e i k' =
    let (f, c) = enter_member-Flips now version (w.members k) e in
    emit-Mirrors k version_id token now w m seq entered c f i k'

after_exit-Mirrors :
    (k : Key) (version_id : ℕ) (token : String) (now : ℕ) (w : Memberships)
    (o : Option (Member × ℕ))
    → exit_member now (w.members k) ≡ o
    → ((k' : Key) → Mirrors k' w)
    → (k' : Key) → Mirrors k' (after_exit k version_id token now w o).0
unfolding after_exit after
after_exit-Mirrors k version_id token now w none e i k' = i k'
after_exit-Mirrors k version_id token now w (some (m, seq)) e i k' =
    let (f, c) = exit_member-Flips now (w.members k) e in
    emit-Mirrors k version_id token now w m seq exited_segment c f i k'

pub flip_and_emit-Mirrors :
    (k : Key) (version version_id : ℕ) (token : String) (now : ℕ) (matched : Bool) (w : Memberships)
    → ((k' : Key) → Mirrors k' w)
    → (k' : Key) → Mirrors k' (flip_and_emit k version version_id token now matched w).0
unfolding flip_and_emit
flip_and_emit-Mirrors k version version_id token now true w i k' =
    after_enter-Mirrors k version version_id token now w (enter_member now version (w.members k))
      refl i k'
flip_and_emit-Mirrors k version version_id token now false w i k' =
    after_exit-Mirrors k version_id token now w (exit_member now (w.members k)) refl i k'
