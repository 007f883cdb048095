-- ===== src/Identity/Identifier/Distinct.antt =====
-- internal/identity/model.go: what ExtractIdentifiers keeps of the identifiers it meets.
use osscdp.Prelude.{
  String, ◌==◌, Bool, true, false, not, ◌&&◌, ◌||◌, List, [], ◌∷◌, ◌++◌, if◌then◌else◌, is_empty,
  ◌≡◌, refl, ◌∙◌, arith, inl, inr, Bool-cases, eq_iff, subst,
}
use osscdp.Events.Envelope.{Envelope, type_alias}
use osscdp.Identity.Identifier.{
  Identifier, one, same_identifier, has_identifier, dedupe, all_identifiers, extract_identifiers,
}

same_identifier→eq : (a b : Identifier) → same_identifier a b ≡ true → a ≡ b
same_identifier→eq a b h =
    let n : a.namespace ≡ b.namespace = (eq_iff a.namespace b.namespace).0 (ground arith) in
    let v : a.value ≡ b.value = (eq_iff a.value b.value).0 (ground arith) in
    λ i. record { namespace = n i; value = v i }

-- The identifiers are pairwise different.
pub Distinct : List Identifier → Type 0
Distinct [] = Unit
Distinct (a ∷ as') = (has_identifier a as' ≡ false) × Distinct as'

has_identifier-dedupe :
    (b : Identifier) (seen as' : List Identifier)
    → has_identifier b (dedupe seen as') ≡ (has_identifier b as' && not (has_identifier b seen))
unfolding dedupe has_identifier
has_identifier-dedupe b seen [] = refl
has_identifier-dedupe b seen (a ∷ as') = elim (Bool-cases (same_identifier a b)) [
  | inl e ↦
      let q = same_identifier→eq a b e in
      elim (Bool-cases (has_identifier a seen)) [
        | inl s ↦
            let s' : has_identifier b seen ≡ true = subst (λ x. has_identifier x seen ≡ true) q s in
            rw (s, has_identifier-dedupe b seen as', s') (ground arith)
        | inr s ↦
            let s' : has_identifier b seen ≡ false =
              subst (λ x. has_identifier x seen ≡ false) q s in
            rw (s, s') (ground (arith, e))
      ]
  | inr e ↦ elim (Bool-cases (has_identifier a seen)) [
    | inl s ↦ rw (s, has_identifier-dedupe b seen as', e) refl
    | inr s ↦ rw s (ground (arith, e, has_identifier-dedupe b (a ∷ seen) as'))
  ]
]

same_identifier_refl : (a : Identifier) → same_identifier a a ≡ true
same_identifier_refl a =
    rw ((eq_iff a.namespace a.namespace).1 refl, (eq_iff a.value a.value).1 refl) refl

dedupe-Distinct : (seen as' : List Identifier) → Distinct (dedupe seen as')
unfolding dedupe Distinct has_identifier
dedupe-Distinct seen [] = tt
dedupe-Distinct seen (a ∷ as') = elim (Bool-cases (has_identifier a seen)) [
  | inl s ↦ rw s (dedupe-Distinct seen as')
  | inr s ↦ rw s (
    ground (arith, has_identifier-dedupe a (a ∷ seen) as', same_identifier_refl a),
    dedupe-Distinct (a ∷ seen) as',
  )
]

-- A field of an event that is not empty is this identifier.
abbrev is_field : String → String → Identifier → Bool
is_field namespace value a = not (is_empty value) && (namespace == a.namespace && value == a.value)

-- Some field of the event is this identifier, the previous id for an alias only.
abbrev pub carries : Envelope → Identifier → Bool
carries e a =
    is_field "user_id" e.identifiers.user_id a
    || (is_field "anonymous_id" e.identifiers.anonymous_id a
        || (is_field "email" e.identifiers.email a
            || (is_field "phone" e.identifiers.phone a
                || (is_field "external_id" e.identifiers.external_id a
                    || (is_field "device_id" e.identifiers.device_id a
                        || (e.type_name == type_alias
                            && is_field "anonymous_id" e.previous_id a))))))

has_identifier-append :
    (a : Identifier) (xs ys : List Identifier)
    → has_identifier a (xs ++ ys) ≡ (has_identifier a xs || has_identifier a ys)
unfolding has_identifier
has_identifier-append a [] ys = refl
has_identifier-append a (x ∷ xs) ys = ground (arith, has_identifier-append a xs ys)

has_identifier-one :
    (a : Identifier) (namespace value : String)
    → has_identifier a (one namespace value) ≡ is_field namespace value a
unfolding has_identifier
has_identifier-one a namespace value = ground arith

has_identifier-if :
    (a : Identifier) (b : Bool) (xs : List Identifier)
    → has_identifier a (if b then xs else []) ≡ (b && has_identifier a xs)
unfolding has_identifier
has_identifier-if a true xs = refl
has_identifier-if a false xs = refl

has_identifier-all :
    (a : Identifier) (e : Envelope) → has_identifier a (all_identifiers e) ≡ carries e a
unfolding all_identifiers
has_identifier-all a e = simp (has_identifier-append, has_identifier-one, has_identifier-if) (refl)

and_seen-nothing : (a : Identifier) (b : Bool) → (b && not (has_identifier a [])) ≡ b
unfolding has_identifier
and_seen-nothing a true = refl
and_seen-nothing a false = refl

-- The extracted identifiers are pairwise different, and an identifier is among them exactly when a
-- non-empty field of the event is this identifier, where the previous id of an alias counts as an
-- anonymous id.
pub extract_identifiers-Distinct :
    (e : Envelope)
    → Distinct (extract_identifiers e)
      × ((a : Identifier) → has_identifier a (extract_identifiers e) ≡ carries e a)
unfolding extract_identifiers
extract_identifiers-Distinct e = (
  dedupe-Distinct [] (all_identifiers e),
  λ a.
      has_identifier-dedupe a [] (all_identifiers e)
      ∙ rw (has_identifier-all a e) (and_seen-nothing a (carries e a)),
)
