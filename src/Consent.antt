-- ===== src/Consent.antt =====
-- internal/consent/consent.go, and what internal/profile/repo.go does to the table when a profile is
-- folded into another.
pub mod Keys
pub mod Reparent
mod Examples
use osscdp.Prelude.{
  ℕ, String, ◌==◌, Bool, true, false, not, ◌&&◌, ◌||◌, Option, none, some, List, [], ◌∷◌, ◌++◌, eqb,
  if◌then◌else◌, is_empty,
}

-- The unique key of customer_consent.
pub record Key : Type 0 where
  pub tenant_id : ℕ
  pub profile_id : ℕ
  pub channel : String
  pub purpose : String

-- A row of customer_consent.
pub record Consent : Type 0 where
  pub key : Key
  pub status : String
  pub source : Option String
  pub updated_at : ℕ

abbrev pub denied : String
denied = "denied"

abbrev pub unknown : String
unknown = "unknown"

abbrev pub same_key : Key → Key → Bool
same_key a b =
    eqb a.tenant_id b.tenant_id
    && (eqb a.profile_id b.profile_id && (a.channel == b.channel && a.purpose == b.purpose))

unfoldable pub status_of : Key → List Consent → Option String
status_of k [] = none
status_of k (r ∷ rs) = let rest = status_of k rs in if same_key r.key k then some r.status else rest

-- The new status and source of the rows that the conflict is with.
pub update_rows :
    Key → (String → String) → (Option String → Option String) → ℕ → List Consent → List Consent
update_rows k f g now [] = []
update_rows k f g now (r ∷ rs) =
    let rest = update_rows k f g now rs in
    (if same_key r.key k
      then record r { status = f r.status; source = g r.source; updated_at = now }
      else r)
    ∷ rest

-- INSERT .. ON CONFLICT (key) DO UPDATE: where the key is there, its status and source change.
pub upsert :
    (String → String) → (Option String → Option String) → Consent → List Consent → List Consent
unfolding status_of update_rows
upsert f g r rows = elim (status_of r.key rows) [
  | none ↦ rows ++ r ∷ []
  | some old ↦ update_rows r.key f g r.updated_at rows
]

abbrev null_string : String → Option String
null_string s = if is_empty s then none else some s

abbrev pub new_row : Key → String → Option String → ℕ → Consent
new_row k status source now = record { key = k; status = status; source = source; updated_at = now }

-- Set
pub set : Key → String → String → ℕ → List Consent → List Consent
unfolding upsert
set k status source now rows =
    upsert (λ old. status) (λ old. null_string source) (new_row k status (null_string source) now)
      rows

abbrev or_unknown : Option String → String
or_unknown none = unknown
or_unknown (some s) = s

-- Get
pub get : Key → List Consent → String
unfolding status_of
get k rows = or_unknown (status_of k rows)

-- The CASE of the reparenting: a denial on either side stays, or else the loser's status is taken.
abbrev pub denied_wins : String → String → String
denied_wins loser survivor = if survivor == denied || loser == denied then denied else loser

abbrev pub of_profile : ℕ → ℕ → Key → Bool
of_profile tenant profile k = eqb k.tenant_id tenant && eqb k.profile_id profile

pub rows_of : ℕ → ℕ → List Consent → List Consent
rows_of tenant profile [] = []
rows_of tenant profile (r ∷ rs) =
    let rest = rows_of tenant profile rs in
    if of_profile tenant profile r.key then r ∷ rest else rest

pub delete_rows : ℕ → ℕ → List Consent → List Consent
delete_rows tenant profile [] = []
delete_rows tenant profile (r ∷ rs) =
    let rest = delete_rows tenant profile rs in
    if of_profile tenant profile r.key then rest else r ∷ rest

-- INSERT .. SELECT of the loser's rows for the survivor, one after the other.
pub merge_rows : ℕ → ℕ → List Consent → List Consent → List Consent
unfolding upsert
merge_rows survivor now [] rows = rows
merge_rows survivor now (r ∷ rs) rows = merge_rows survivor now rs (
    upsert (denied_wins r.status) (λ old. old)
      (new_row (record r.key { profile_id = survivor }) r.status r.source now) rows)

-- The statements of reparentProfileChildren on customer_consent.
pub reparent_consent : ℕ → ℕ → ℕ → ℕ → List Consent → List Consent
unfolding rows_of merge_rows delete_rows
reparent_consent tenant loser survivor now rows =
    delete_rows tenant loser (merge_rows survivor now (rows_of tenant loser rows) rows)
