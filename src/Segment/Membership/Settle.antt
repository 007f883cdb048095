-- ===== src/Segment/Membership/Settle.antt =====
-- The membership after a flip.
use osscdp.Prelude.{ℕ, ◌+◌, ◌≡◌, refl, String, Bool, true, false, Option, none, some, inl, inr}
use osscdp.Segment.Membership.{
  Key, Member, Memberships, entered_member, exited_member, enter_member, exit_member, touch_row,
  touch, emit, after_enter, after_exit, flip_and_emit,
}
use osscdp.Segment.Membership.Mirror.{is_member, put_self, status-cases}

module _ (k : Key) (version version_id : ℕ) (token : String) (now : ℕ) (w : Memberships) where
  enter-settles :
      (o : Option Member)
      → w.members k ≡ o
      → is_member
          ((after_enter k version version_id token now w (enter_member now version o)).0.members k)
        ≡ true
  unfolding after_enter enter_member touch touch_row emit
  enter-settles none e = rw (put_self k (entered_member now version 1) w.members) refl
  enter-settles (some m) e = elim (status-cases m.status) [
    | inl y ↦
        rw (y, enter_member)
          (rw e (
            rw (put_self k (record m { last_evaluated_at = now; version = version }) w.members)
              (rw y refl)))
    | inr y ↦
        rw (y, enter_member)
          (rw (put_self k (entered_member now version (m.transition_seq + 1)) w.members) refl)
  ]

  exit-settles :
      (o : Option Member)
      → w.members k ≡ o
      → is_member ((after_exit k version_id token now w (exit_member now o)).0.members k) ≡ false
  unfolding after_exit exit_member emit
  exit-settles none e = rw e refl
  exit-settles (some m) e = elim (status-cases m.status) [
    | inl y ↦ rw (y, exit_member) (rw (put_self k (exited_member now m) w.members) refl)
    | inr y ↦ rw (y, exit_member) (rw e (rw y refl))
  ]

  -- After the flip of a membership the profile is a member just when the rule has matched.
  pub flip_and_emit_settles :
      (matched : Bool)
      → is_member ((flip_and_emit k version version_id token now matched w).0.members k) ≡ matched
  unfolding flip_and_emit
  flip_and_emit_settles true = enter-settles (w.members k) refl
  flip_and_emit_settles false = exit-settles (w.members k) refl
