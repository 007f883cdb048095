-- ===== src/Consent/Examples.antt =====
-- Two profiles with opposite consents.
use osscdp.Prelude.{ℕ, String, none, List, [], ◌∷◌, ◌≡◌, refl}
use osscdp.Consent.{Key, Consent, status_of, reparent_consent}
use osscdp.Consent.Reparent.{Unique, joined, reparent_consent-joined}

abbrev key : ℕ → String → Key
key profile channel = record {
  tenant_id = 1;
  profile_id = profile;
  channel = channel;
  purpose = "marketing";
}

abbrev consent : ℕ → String → String → Consent
consent profile channel status = record {
  key = key profile channel;
  status = status;
  source = none;
  updated_at = 5;
}

abbrev rows : List Consent
rows = consent 3 "email" "granted" ∷ consent 4 "email" "denied" ∷ consent 4 "sms" "granted" ∷ []

rows-Unique : Unique rows
unfolding Unique status_of
rows-Unique = (refl, (refl, (refl, tt)))

reparent_consent-joined_example :
    (status_of (key 3 "email") (reparent_consent 1 4 3 9 rows)
      ≡ joined (status_of (key 4 "email") rows) (status_of (key 3 "email") rows))
    × (status_of (key 4 "email") (reparent_consent 1 4 3 9 rows) ≡ none)
reparent_consent-joined_example = reparent_consent-joined 4 9 (key 3 "email") rows rows-Unique refl
