-- ===== src/Identity/Identifier.antt =====
-- internal/identity/model.go: the identifiers that an event carries.
pub mod Distinct
use osscdp.Prelude.{
  ℕ, String, ◌==◌, Bool, true, false, ◌&&◌, ◌||◌, List, [], ◌∷◌, ◌++◌, if◌then◌else◌, is_empty,
}
use osscdp.Events.Envelope.{Envelope, type_alias}

pub record Identifier : Type 0 where
  pub namespace : String
  pub value : String

-- `add`: one identifier, or nothing for an empty value.
abbrev pub one : String → String → List Identifier
one namespace value =
    if is_empty value then [] else record { namespace = namespace; value = value } ∷ []

abbrev pub same_identifier : Identifier → Identifier → Bool
same_identifier a b = a.namespace == b.namespace && a.value == b.value

unfoldable pub has_identifier : Identifier → List Identifier → Bool
has_identifier a [] = false
has_identifier a (b ∷ bs) = same_identifier b a || has_identifier a bs

-- dedupe, with the ones seen so far.
unfoldable pub dedupe : List Identifier → List Identifier → List Identifier
unfolding has_identifier
dedupe seen [] = []
dedupe seen (a ∷ as') =
    let rest = dedupe seen as' in
    let rest' = dedupe (a ∷ seen) as' in if has_identifier a seen then rest else a ∷ rest'

-- The identifiers in the order of the source, the previous id of an alias last.
unfoldable pub all_identifiers : Envelope → List Identifier
all_identifiers env =
    let i = env.identifiers in
    one "user_id" i.user_id
    ++ (one "anonymous_id" i.anonymous_id
        ++ (one "email" i.email
            ++ (one "phone" i.phone
                ++ (one "external_id" i.external_id
                    ++ (one "device_id" i.device_id
                        ++ (if env.type_name == type_alias
                            then one "anonymous_id" env.previous_id
                            else []))))))

-- ExtractIdentifiers
unfoldable pub extract_identifiers : Envelope → List Identifier
unfolding dedupe all_identifiers
extract_identifiers env = dedupe [] (all_identifiers env)
