-- ===== src/Profile/Service.antt =====
-- internal/profile/service.go: `updateTx` with the statements of repo.go that it runs, as one step. Of
-- the child rows of a profile that is folded in, the ledger and the consents are modelled.
pub mod Table
pub mod Again
pub mod Redelivery
mod Examples
use osscdp.Prelude.{
  ℕ, String, ◌==◌, Bool, true, false, not, ◌&&◌, ◌||◌, Option, none, some, List, [], ◌∷◌, ◌++◌, ◌+◌,
  eqb, if◌then◌else◌, Result, ok, err, ◌>>=◌,
}
use osscdp.Runtime.{Runtime}
use osscdp.Runtime.Json.{Fields, end}
use osscdp.Events.Envelope.{Envelope}
use osscdp.Consent.{Consent, reparent_consent}
use osscdp.Profile.Merge.{
  Changed, Seen, CustomerProfile, stored_profile, merge_traits, merge_computed, merge_seen,
  merge_reparent,
}

-- A row of customer_profile_history, the ledger of the events applied to a profile.
pub record Applied : Type 0 where
  pub tenant_id : ℕ
  pub profile_id : ℕ
  pub event_id : String

pub record Db : Type 0 where
  pub profiles : List CustomerProfile
  pub history : List Applied
  pub consents : List Consent

-- A violation of a unique key, or a version that has moved on.
pub data ProfileError : Type 0 where
  insert_failed version_conflict : ProfileError

-- The parameters of one update: the id of a new profile, the instant of the database, the text of a
-- UUID, and resolveSurvivorCluster, the cluster that a merged one was folded into with its canonical id.
pub record Env : Type 0 where
  pub runtime : Runtime
  pub new_profile : ℕ
  pub now : ℕ
  pub uuid_text : ℕ → String
  pub survivor_of : ℕ → ℕ → Option (String × ℕ)

-- Result
pub record Updated : Type 0 where
  pub profile_id : ℕ
  pub version : ℕ
  pub changed_fields : List String
  pub reparented : List String
  pub canonical_user_id : String
  pub cluster_id : ℕ

-- The profile that an event belongs to.
pub record Located : Type 0 where
  pub profiles : List CustomerProfile
  pub profile : CustomerProfile
  pub canonical : String
  pub cluster : ℕ

abbrev pub is_profile : ℕ → String → CustomerProfile → Bool
is_profile tenant canonical p = eqb p.tenant_id tenant && p.canonical_user_id == canonical

-- getForUpdate
pub find_profile : ℕ → String → List CustomerProfile → Option CustomerProfile
find_profile tenant canonical [] = none
find_profile tenant canonical (p ∷ ps) =
    let rest = find_profile tenant canonical ps in
    if is_profile tenant canonical p then some p else rest

pub has_id : ℕ → List CustomerProfile → Bool
has_id id [] = false
has_id id (p ∷ ps) = eqb p.id id || has_id id ps

-- create, of a canonical id that has no profile: its id is new.
pub insert_profile :
    CustomerProfile → List CustomerProfile → Result ProfileError (List CustomerProfile)
unfolding has_id
insert_profile p ps = if has_id p.id ps then err insert_failed else ok (ps ++ p ∷ [])

abbrev pub is_version : ℕ → ℕ → CustomerProfile → Bool
is_version id version p = eqb p.id id && eqb p.version version

pub write_profile : CustomerProfile → ℕ → List CustomerProfile → List CustomerProfile
write_profile new version [] = []
write_profile new version (p ∷ ps) =
    let rest = write_profile new version ps in
    (if is_version new.id version p then new else p) ∷ rest

pub any_version : ℕ → ℕ → List CustomerProfile → Bool
any_version id version [] = false
any_version id version (p ∷ ps) = is_version id version p || any_version id version ps

-- update, with its optimistic check
pub update_profile :
    CustomerProfile → ℕ → List CustomerProfile → Result ProfileError (List CustomerProfile)
unfolding write_profile any_version
update_profile new version ps =
    if any_version new.id version ps
    then ok (write_profile new version ps)
    else err version_conflict

pub delete_profile : ℕ → ℕ → List CustomerProfile → List CustomerProfile
delete_profile tenant id [] = []
delete_profile tenant id (p ∷ ps) =
    let rest = delete_profile tenant id ps in
    if eqb p.tenant_id tenant && eqb p.id id then rest else p ∷ rest

abbrev pub is_applied : ℕ → ℕ → String → Applied → Bool
is_applied tenant profile event a =
    eqb a.tenant_id tenant && (eqb a.profile_id profile && a.event_id == event)

-- alreadyApplied
pub already_applied : ℕ → ℕ → String → List Applied → Bool
already_applied tenant profile event [] = false
already_applied tenant profile event (a ∷ as') =
    is_applied tenant profile event a || already_applied tenant profile event as'

-- markApplied
pub mark_applied : ℕ → ℕ → String → List Applied → List Applied
unfolding already_applied
mark_applied tenant profile event as' =
    if already_applied tenant profile event as'
    then as'
    else as' ++ (record { tenant_id = tenant; profile_id = profile; event_id = event }) ∷ []

abbrev is_of : ℕ → ℕ → Applied → Bool
is_of tenant profile a = eqb a.tenant_id tenant && eqb a.profile_id profile

-- The ledger of a loser: its rows go to the survivor, but for the events that the survivor has, whose
-- rows are deleted. `all` is the ledger before.
pub rekey_history : ℕ → ℕ → ℕ → List Applied → List Applied → List Applied
unfolding already_applied
rekey_history tenant loser survivor all [] = []
rekey_history tenant loser survivor all (a ∷ as') =
    let rest = rekey_history tenant loser survivor all as' in
    if is_of tenant loser a
    then (if already_applied tenant survivor a.event_id all
        then rest
        else record a { profile_id = survivor } ∷ rest)
    else a ∷ rest

-- What the loop over the losers carries.
pub record Folding : Type 0 where
  pub db : Db
  pub profile : CustomerProfile
  pub changed : List String
  pub reparented : List String

-- The redirect of a canonical id without a profile, if its cluster was merged into another.
pub redirected : ℕ → String → ℕ → Option (String × ℕ) → String × ℕ
redirected tenant canonical cluster none = (canonical, cluster)
redirected tenant canonical cluster (some (c, k)) =
    if eqb k cluster then (canonical, cluster) else (c, k)

module _ (env : Env) where
  -- reparentProfileChildren
  pub reparent_children : ℕ → ℕ → ℕ → Db → Db
  unfolding rekey_history delete_profile
  reparent_children tenant loser survivor db = record {
    profiles = delete_profile tenant loser db.profiles;
    history = rekey_history tenant loser survivor db.history db.history;
    consents = reparent_consent tenant loser survivor env.now db.consents;
  }

  pub fold_loser : ℕ → String → CustomerProfile → Folding → Folding
  unfolding reparent_children
  fold_loser tenant canonical loser f =
      let merged = merge_reparent env.runtime f.profile loser in
      record {
        db = reparent_children tenant loser.id f.profile.id f.db;
        profile = merged.0;
        changed = f.changed ++ merged.1;
        reparented = f.reparented ++ canonical ∷ [];
      }

  -- One canonical id of those that were merged into `own`.
  pub fold_canonical : ℕ → String → String → Folding → Folding
  unfolding find_profile fold_loser
  fold_canonical tenant own canonical f =
      if canonical == own then f else elim (find_profile tenant canonical f.db.profiles) [
        | none ↦ f
        | some loser ↦ fold_loser tenant canonical loser f
      ]

  pub fold_losers : ℕ → String → List String → Folding → Folding
  unfolding fold_canonical
  fold_losers tenant own [] f = f
  fold_losers tenant own (c ∷ cs) f = fold_losers tenant own cs (fold_canonical tenant own c f)

  new_profile : ℕ → String → ℕ → CustomerProfile
  new_profile tenant canonical cluster = record {
    id = env.new_profile;
    tenant_id = tenant;
    canonical_user_id = canonical;
    identity_cluster_id = cluster;
    traits = end;
    computed_attributes = end;
    first_seen_at = none;
    last_seen_at = none;
    version = 0;
  }

  -- The profile of a canonical id, created where there is none.
  pub find_or_create : ℕ → String → ℕ → List CustomerProfile → Result ProfileError Located
  unfolding find_profile insert_profile new_profile
  find_or_create tenant canonical cluster ps = elim (find_profile tenant canonical ps) [
    | some p ↦ ok (record { profiles = ps; profile = p; canonical = canonical; cluster = cluster })
    | none ↦ do
      ps' ← insert_profile (new_profile tenant canonical cluster) ps
      ok (record {
        profiles = ps';
        profile = new_profile tenant canonical cluster;
        canonical = canonical;
        cluster = cluster;
      })
  ]

  -- The first part of updateTx.
  pub locate : ℕ → String → ℕ → List CustomerProfile → Result ProfileError Located
  unfolding find_profile find_or_create redirected
  locate tenant canonical cluster ps = elim (find_profile tenant canonical ps) [
    | some p ↦ ok (record { profiles = ps; profile = p; canonical = canonical; cluster = cluster })
    | none ↦
        let to = redirected tenant canonical cluster (env.survivor_of tenant cluster) in
        find_or_create tenant to.0 to.1 ps
  ]

  -- The event on the profile with the losers folded in.
  pub merged_event : Envelope → CustomerProfile → CustomerProfile × List String
  merged_event e p =
      let t = merge_traits env.runtime p.traits e in
      let c = merge_computed env.runtime (env.uuid_text e.source_id) p.computed_attributes e in
      let s = merge_seen p.first_seen_at p.last_seen_at e.timestamp in
      (
        record p {
          traits = t.fields;
          computed_attributes = c.fields;
          first_seen_at = s.first;
          last_seen_at = s.last;
          version = p.version + 1;
        },
        t.names ++ (c.names ++ s.names),
      )

  pub apply_event : Envelope → Located → Folding → Result ProfileError (Db × Option Updated)
  unfolding update_profile mark_applied merged_event
  apply_event e l f = do
    let new = merged_event e f.profile
    ps ← update_profile (stored_profile env.runtime new.0) f.profile.version f.db.profiles
    ok (
      record f.db {
        profiles = ps;
        history = mark_applied e.tenant_id f.profile.id e.event_id f.db.history;
      },
      some (record {
        profile_id = f.profile.id;
        version = new.0.version;
        changed_fields = f.changed ++ new.1;
        reparented = f.reparented;
        canonical_user_id = l.canonical;
        cluster_id = l.cluster;
      }),
    )

  -- updateTx; none is Applied = false.
  pub update_located :
      Envelope → List String → Db → Located → Result ProfileError (Db × Option Updated)
  unfolding fold_losers apply_event already_applied
  update_located e merged db l =
      if already_applied e.tenant_id l.profile.id e.event_id db.history
      then ok (record db { profiles = l.profiles }, none)
      else apply_event e l (
          fold_losers e.tenant_id l.canonical merged (record {
            db = record db { profiles = l.profiles };
            profile = l.profile;
            changed = [];
            reparented = [];
          }))

  pub update_tx :
      String → ℕ → List String → Envelope → Db → Result ProfileError (Db × Option Updated)
  unfolding locate update_located
  update_tx canonical cluster merged e db = do
    l ← locate e.tenant_id canonical cluster db.profiles
    update_located e merged db l
