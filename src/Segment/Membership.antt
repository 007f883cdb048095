-- ===== src/Segment/Membership.antt =====
-- internal/segment/repo.go, the table segment_membership and its outbox, and `flipAndEmit` of
-- service.go. The table is a map from its primary key; a statement's now() is an argument.
pub mod Mirror
pub mod Settle
use osscdp.Prelude.{
  ℕ, ◌+◌, String, Bool, true, false, ◌&&◌, Option, none, some, List, [], ◌∷◌, ◌++◌, eqb,
  if◌then◌else◌,
}

-- The primary key: the tenant, the segment, the profile.
pub record Key : Type 0 where
  pub tenant_id : ℕ
  pub segment_id : ℕ
  pub profile_id : ℕ

abbrev pub is_key : Key → Key → Bool
is_key k k' =
    eqb k'.tenant_id k.tenant_id && eqb k'.segment_id k.segment_id && eqb k'.profile_id k.profile_id

-- MembershipActive and MembershipExited
pub data MembershipStatus : Type 0 where
  active exited : MembershipStatus

-- The other columns.
pub record Member : Type 0 where
  pub status : MembershipStatus
  pub entered_at : Option ℕ
  pub exited_at : Option ℕ
  pub last_evaluated_at : ℕ
  pub version : ℕ
  pub transition_seq : ℕ

-- ChangeEntered and ChangeExited
pub data Change : Type 0 where
  entered exited_segment : Change

-- MembershipChanged. The reason is the prefix of its token, which ends in `:` and the number.
pub record MembershipChanged : Type 0 where
  pub tenant_id : ℕ
  pub segment_id : ℕ
  pub segment_version_id : ℕ
  pub profile_id : ℕ
  pub change : Change
  pub token_prefix : String
  pub transition_seq : ℕ
  pub changed_at : ℕ

pub record Memberships : Type 0 where
  pub members : Key → Option Member
  pub outbox : List MembershipChanged

abbrev pub put : Key → Member → (Key → Option Member) → Key → Option Member
put k m members k' = if is_key k k' then some m else members k'

-- What a flip to active writes.
abbrev pub entered_member : ℕ → ℕ → ℕ → Member
entered_member now version seq = record {
  status = active;
  entered_at = some now;
  exited_at = none;
  last_evaluated_at = now;
  version = version;
  transition_seq = seq;
}

-- EnterTx, given the row: the row after it and its number, none where nothing flips.
pub enter_member : ℕ → ℕ → Option Member → Option (Member × ℕ)
enter_member now version none = some (entered_member now version 1, 1)
enter_member now version (some m) = elim m.status [
  | active ↦ none
  | exited ↦ some (entered_member now version (m.transition_seq + 1), m.transition_seq + 1)
]

-- What a flip to exited writes.
abbrev pub exited_member : ℕ → Member → Member
exited_member now m = record m {
  status = exited;
  exited_at = some now;
  last_evaluated_at = now;
  transition_seq = m.transition_seq + 1;
}

-- ExitTx
pub exit_member : ℕ → Option Member → Option (Member × ℕ)
exit_member now none = none
exit_member now (some m) = elim m.status [
  | exited ↦ none
  | active ↦ some (exited_member now m, m.transition_seq + 1)
]

touch_row : Key → ℕ → ℕ → Memberships → Option Member → Memberships
touch_row k now version w none = w
touch_row k now version w (some m) = record w {
  members = put k (record m { last_evaluated_at = now; version = version }) w.members;
}

-- TouchEvaluatedTx
pub touch : Key → ℕ → ℕ → Memberships → Memberships
unfolding touch_row
touch k now version w = touch_row k now version w (w.members k)

abbrev pub change_of : Key → ℕ → Change → String → ℕ → ℕ → MembershipChanged
change_of k version_id change token seq now = record {
  tenant_id = k.tenant_id;
  segment_id = k.segment_id;
  segment_version_id = version_id;
  profile_id = k.profile_id;
  change = change;
  token_prefix = token;
  transition_seq = seq;
  changed_at = now;
}

-- The flip is written with its emit, by InsertMembershipOutbox in the same transaction.
pub emit : Key → ℕ → Change → String → ℕ → Member × ℕ → Memberships → Memberships
emit k version_id change token now (m, seq) w = record {
  members = put k m w.members;
  outbox = w.outbox ++ change_of k version_id change token seq now ∷ [];
}

-- The two branches of flipAndEmit, behind EnterTx and behind ExitTx.
pub after_enter : Key → ℕ → ℕ → String → ℕ → Memberships → Option (Member × ℕ) → Memberships × Bool
unfolding touch emit
after_enter k version version_id token now w none = (touch k now version w, false)
after_enter k version version_id token now w (some flip) =
    (emit k version_id entered token now flip w, true)

pub after_exit : Key → ℕ → String → ℕ → Memberships → Option (Member × ℕ) → Memberships × Bool
unfolding emit
after_exit k version_id token now w none = (w, false)
after_exit k version_id token now w (some flip) =
    (emit k version_id exited_segment token now flip w, true)

-- flipAndEmit: the version's number and id, the token's prefix, the instant, `matched`.
pub flip_and_emit : Key → ℕ → ℕ → String → ℕ → Bool → Memberships → Memberships × Bool
unfolding enter_member exit_member after_enter after_exit
flip_and_emit k version version_id token now true w =
    after_enter k version version_id token now w (enter_member now version (w.members k))
flip_and_emit k version version_id token now false w =
    after_exit k version_id token now w (exit_member now (w.members k))
