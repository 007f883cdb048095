-- ===== src/Segment/Service/Mirror.antt =====
-- The outbox of membership changes, over every sequence of evaluations and sweeps.
use osscdp.Prelude.{
  ℕ, ◌≡◌, refl, subst, String, Bool, not, ◌&&◌, Option, none, some, List, [], ◌∷◌, if◌then◌else◌,
  Result, ok, err, >>=-eq-ok, ok-injective, Result-cases, Bool-cases, inl, inr, ltb,
}
use osscdp.Segment.Store.{reader}
use osscdp.Segment.Leaf.{Profile, EvalContext}
use osscdp.Segment.Evaluate.{evaluate}
use osscdp.Segment.DueAt.{next_due_at, references_event}
use osscdp.Segment.Membership.{Key}
use osscdp.Segment.Membership.Mirror.{Mirrors, flip_and_emit-Mirrors, changes_of}
use osscdp.Segment.Pending.{PendingTable}
use osscdp.Segment.Service.{
  SegmentError, ActiveVersion, Env, World, ProfileUpdated, Plan, contains_string, wrap, plan_of,
  plan_deadline, commit_flip, key_of, apply_membership, evaluate_segment, evaluate_segments,
  evaluate_versions, evaluate_found, evaluate_update, swept_key, sweep_profile, sweep_version,
  sweep_evaluate,
}

abbrev AllMirrored : World → Type 0
AllMirrored w = (k : Key) → Mirrors k w.memberships

module _ (env : Env) (now : ℕ) where
  commit_flip-Mirrors :
      (k : Key) (seg : ActiveVersion) (token : String) (matched : Bool) (plan : Plan) (w : World)
      → AllMirrored w
      → AllMirrored (commit_flip env now k seg token matched plan w)
  unfolding commit_flip
  commit_flip-Mirrors k seg token matched plan w i =
      flip_and_emit-Mirrors k seg.version seg.version_id token now matched w.memberships i

  apply_membership-Mirrors :
      (pu : ProfileUpdated) (seg : ActiveVersion) (ec : EvalContext) (matched : Bool) (at : ℕ)
      (w : World) {w' : World}
      → AllMirrored w
      → apply_membership env now pu seg ec matched at w ≡ ok w'
      → AllMirrored w'
  unfolding apply_membership
  apply_membership-Mirrors pu seg ec matched at w i h =
      let (plan, y, e) =
        >>=-eq-ok (plan_deadline env now seg ec (key_of env now pu seg) at w.pending) _ h in
      subst AllMirrored (ok-injective e)
        (commit_flip-Mirrors (key_of env now pu seg) seg pu.event_id matched plan w i)

  evaluate_segment-Mirrors :
      (pu : ProfileUpdated) (ec : EvalContext) (at : ℕ) (seg : ActiveVersion) (w : World)
      {w' : World}
      → AllMirrored w
      → evaluate_segment env now pu ec at seg w ≡ ok w'
      → AllMirrored w'
  unfolding evaluate_segment
  evaluate_segment-Mirrors pu ec at seg w i h =
      elim (Bool-cases
        (not seg.has_stateless && not (contains_string seg.referenced_names pu.event.event_name))) [
          | inl y ↦ subst AllMirrored (ok-injective (rw y at h)) i
          | inr y ↦
              let (matched, _, e) =
                >>=-eq-ok (wrap (evaluate env.runtime at env.store ec seg.rule)) _ (rw y at h) in
              apply_membership-Mirrors pu seg ec matched at w i e
        ]

  segments_step :
      (pu : ProfileUpdated) (ec : EvalContext) (at : ℕ) (seg : ActiveVersion)
      (segs : List ActiveVersion) (w w' : World)
      → evaluate_segment env now pu ec at seg w ≡ ok w'
      → evaluate_segments env now pu ec at (seg ∷ segs) w
        ≡ evaluate_segments env now pu ec at segs w'
  unfolding evaluate_segments
  segments_step pu ec at seg segs w w' y = rw (y, evaluate_segments)

  segments_stop :
      (pu : ProfileUpdated) (ec : EvalContext) (at : ℕ) (seg : ActiveVersion)
      (segs : List ActiveVersion) (w : World) (e : SegmentError)
      → evaluate_segment env now pu ec at seg w ≡ err e
      → evaluate_segments env now pu ec at (seg ∷ segs) w ≡ (w, some e)
  unfolding evaluate_segments
  segments_stop pu ec at seg segs w e y = rw (y, evaluate_segments)

  evaluate_segments-Mirrors :
      (pu : ProfileUpdated) (ec : EvalContext) (at : ℕ) (segs : List ActiveVersion) (w : World)
      → AllMirrored w
      → AllMirrored (evaluate_segments env now pu ec at segs w).0
  evaluate_segments-Mirrors pu ec at [] w i = unfold evaluate_segments in i
  evaluate_segments-Mirrors pu ec at (seg ∷ segs) w i =
      elim (Result-cases (evaluate_segment env now pu ec at seg w)) [
        | inl (w', y) ↦ rw (segments_step pu ec at seg segs w w' y) (
            evaluate_segments-Mirrors pu ec at segs w'
              (evaluate_segment-Mirrors pu ec at seg w i y))
        | inr (e, y) ↦ rw (segments_stop pu ec at seg segs w e y) i
      ]

  evaluate_versions-Mirrors :
      (pu : ProfileUpdated) (found : Option Profile)
      (versions : Result SegmentError (List ActiveVersion)) (w : World)
      → AllMirrored w
      → AllMirrored (evaluate_versions env now pu found versions w).0
  unfolding evaluate_versions
  evaluate_versions-Mirrors pu none versions w i = i
  evaluate_versions-Mirrors pu (some prof) (err e) w i = i
  evaluate_versions-Mirrors pu (some prof) (ok segs) w i =
      evaluate_segments-Mirrors pu (record { profile = prof; event = pu.event })
        (if ltb pu.received_at pu.timestamp then pu.received_at else pu.timestamp) segs w i

  evaluate_found-Mirrors :
      (pu : ProfileUpdated) (found : Result SegmentError (Option Profile)) (w : World)
      → AllMirrored w
      → AllMirrored (evaluate_found env now pu found w).0
  unfolding evaluate_found
  evaluate_found-Mirrors pu (err e) w i = i
  evaluate_found-Mirrors pu (ok found) w i =
      evaluate_versions-Mirrors pu found (env.active_versions pu.tenant_id) w i

  evaluate_update-Mirrors :
      (pu : ProfileUpdated) (w : World)
      → AllMirrored w
      → AllMirrored (evaluate_update env now pu w).0
  unfolding evaluate_update
  evaluate_update-Mirrors pu w i =
      evaluate_found-Mirrors pu (env.get_profile pu.tenant_id pu.customer_profile_id) w i

  sweep_profile-Mirrors :
      (k : Key) (seg : ActiveVersion) (at : ℕ) (found : Option Profile) (w : World) {w' : World}
      → AllMirrored w
      → sweep_profile env now k seg at found w ≡ ok w'
      → AllMirrored w'
  unfolding sweep_profile
  sweep_profile-Mirrors k seg at none w i h = subst AllMirrored (ok-injective h) i
  sweep_profile-Mirrors k seg at (some prof) w i h =
      let ec : EvalContext = record {
        profile = prof;
        event = record { event_name = ""; type_name = ""; properties = ""; context = "" };
      } in
      let (matched, _, h') = >>=-eq-ok (wrap (evaluate env.runtime at env.store ec seg.rule)) _ h in
      let (due, _, e) =
        >>=-eq-ok (wrap (next_due_at env.runtime at (reader env.store) ec seg.rule)) _ h' in
      subst AllMirrored (ok-injective e)
        (commit_flip-Mirrors (swept_key env now k seg prof) seg "sweep" matched (plan_of due) w i)

  sweep_version-Mirrors :
      (k : Key) (at : ℕ) (version : Option ActiveVersion) (w : World) {w' : World}
      → AllMirrored w
      → sweep_version env now k at version w ≡ ok w'
      → AllMirrored w'
  unfolding sweep_version
  sweep_version-Mirrors k at none w i h = subst AllMirrored (ok-injective h) i
  sweep_version-Mirrors k at (some seg) w i h = elim (Bool-cases (references_event seg.rule)) [
    | inl y ↦ subst AllMirrored (ok-injective (rw y at h)) i
    | inr y ↦
        let (found, _, e) = >>=-eq-ok (env.get_profile k.tenant_id k.profile_id) _ (rw y at h) in
        sweep_profile-Mirrors k seg at found w i e
  ]

  sweep_evaluate-Mirrors :
      (k : Key) (at : ℕ) (w : World) {w' : World}
      → AllMirrored w
      → sweep_evaluate env now k at w ≡ ok w'
      → AllMirrored w'
  unfolding sweep_evaluate
  sweep_evaluate-Mirrors k at w i h =
      let (version, _, e) = >>=-eq-ok (env.active_version_for k.tenant_id k.segment_id) _ h in
      sweep_version-Mirrors k at version w i e

-- A history of evaluations and sweeps, under any profiles, rules and stores, with any other change of
-- the table of deadlines between them.
pub data Reach : World → Type 0 where
  start :
      (pending : PendingTable)
      → Reach
          (record { memberships = record { members = λ k. none; outbox = [] }; pending = pending })
  updated :
      {w : World} (env : Env) (now : ℕ) (pu : ProfileUpdated)
      → Reach w
      → Reach (evaluate_update env now pu w).0
  swept :
      {w w' : World} (env : Env) (now : ℕ) (k : Key) (at : ℕ)
      → Reach w
      → sweep_evaluate env now k at w ≡ ok w'
      → Reach w'
  rescheduled :
      {w : World} (pending : PendingTable) → Reach w → Reach (record w { pending = pending })

-- However evaluations and sweeps alternate, those that end in an error included: what the outbox
-- holds for a profile in a segment are entries and exits in turn, beginning with an entry and
-- numbered from 1 without a gap or a repetition, and the profile is a member just when the last of
-- them is an entry.
pub reachable-Mirrors : {w : World} (k : Key) → Reach w → Mirrors k w.memberships
unfolding changes_of
reachable-Mirrors k (start pending) = record { history = refl; status = refl }
reachable-Mirrors k (updated {w} env now pu h) =
    evaluate_update-Mirrors env now pu w (λ k'. reachable-Mirrors k' h) k
reachable-Mirrors k (swept {w} env now k' at h e) =
    sweep_evaluate-Mirrors env now k' at w (λ q. reachable-Mirrors q h) e k
reachable-Mirrors k (rescheduled pending h) = reachable-Mirrors k h
