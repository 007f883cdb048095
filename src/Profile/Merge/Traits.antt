-- ===== src/Profile/Merge/Traits.antt =====
-- internal/profile/merge.go: the traits behind MergeTraits.
use osscdp.Prelude.{
  String, ◌==◌, Bool, true, false, not, ◌&&◌, Option, none, some, List, [], ◌∷◌, if◌then◌else◌,
  is_empty, ◌≡◌, refl, sym, ap, ◌∙◌, inl, inr, arith, Bool-cases, eq_iff, subst,
}
use osscdp.Runtime.{Runtime}
use osscdp.Runtime.Json.{
  Value, null, boolean, number, integer, text, array, object, Fields, end, field, get_field,
}
use osscdp.Events.Envelope.{Envelope}
use osscdp.Profile.Merge.{
  Changed, set_field, as_string, set_new, get_in, parse_object, merge_traits,
}

if-twice {ℓ} :
    {A : Type ℓ} (b : Bool) (x z y : A)
    → (if b then x else y) ≡ (if b then x else (if b then z else y))
if-twice true x z y = refl
if-twice false x z y = refl

-- A key that is one name is no other.
other : (j k k' : String) → (j == k) ≡ false → (j == k') ≡ true → (k == k') ≡ false
other j k k' e h = elim (Bool-cases (k == k')) [
  | inr q ↦ q
  | inl q ↦
      absurd (let r = (eq_iff j k).1 ((eq_iff j k').0 h ∙ sym ((eq_iff k k').0 q)) in ground arith)
]

get_field-set :
    (k k' : String) (v : Value) (m : Fields)
    → get_field k' (set_field k v m) ≡ (if k == k' then some v else get_field k' m)
unfolding get_field set_field
get_field-set k k' v end = refl
get_field-set k k' v (field j w m) = elim (Bool-cases (j == k)) [
  | inl e ↦ rw (e, (eq_iff j k).0 e) (if-twice (k == k') (some v) (some w) (get_field k' m))
  | inr e ↦ elim (Bool-cases (j == k')) [
    | inl h ↦ rw (e, h, other j k k' e h) refl
    | inr h ↦ rw (e, h) (get_field-set k k' v m)
  ]
]

empty_other : (v : String) → is_empty v ≡ false → ("" == v) ≡ true → ⊥
empty_other v n h = let q = ap is_empty ((eq_iff "" v).0 h) in ground arith

-- A text that is not empty is read from a text only.
as_string-text :
    (o : Option Value) (v : String)
    → is_empty v ≡ false
    → (as_string o == v) ≡ true
    → o ≡ some (text v)
as_string-text none v n h = absurd (empty_other v n h)
as_string-text (some (text s)) v n h = ap (λ (x : String). some (text x)) ((eq_iff s v).0 h)
as_string-text (some null) v n h = absurd (empty_other v n h)
as_string-text (some (boolean b)) v n h = absurd (empty_other v n h)
as_string-text (some (number f)) v n h = absurd (empty_other v n h)
as_string-text (some (integer i)) v n h = absurd (empty_other v n h)
as_string-text (some (array xs)) v n h = absurd (empty_other v n h)
as_string-text (some (object m)) v n h = absurd (empty_other v n h)

-- The field behind `set`.
get_field-set_new :
    (prefix k k' v : String) (c : Changed)
    → get_field k' (set_new prefix k v c).fields
      ≡ (if k == k' && not (is_empty v) then some (text v) else get_field k' c.fields)
unfolding set_new
get_field-set_new prefix k k' v c = elim (Bool-cases (is_empty v)) [
  | inl e ↦ rw e (ground arith)
  | inr e ↦ elim (Bool-cases (as_string (get_field k c.fields) == v)) [
    | inl h ↦ elim (Bool-cases (k == k')) [
      | inl q ↦
          rw (e, h, q)
            (subst (λ (x : String). get_field x c.fields ≡ some (text v)) ((eq_iff k k').0 q)
              (as_string-text (get_field k c.fields) v e h))
      | inr q ↦ rw (e, h, q) refl
    ]
    | inr h ↦ rw (e, h, get_field-set k k' (text v) c.fields) (ground arith)
  ]
]

-- The first text that is not empty, or else what was there.
abbrev pub latest : List String → Option Value → Option Value
latest [] o = o
latest (s ∷ ss) o = if is_empty s then latest ss o else some (text s)

-- What one event does to the traits: the e-mail address and the phone number are those of its
-- identifiers, or else of its traits, or else as before; the name and the country are those of its
-- traits, or else as before; an empty text counts as absent, and no other trait changes.
pub merge_traits-latest :
    (rt : Runtime) (cur : Fields) (e : Envelope)
    → let tr = parse_object rt e.traits in
      let out = (merge_traits rt cur e).fields in
      (get_field "email" out
        ≡ latest (e.identifiers.email ∷ as_string (get_in "email" tr) ∷ []) (get_field "email" cur))
      × (get_field "phone" out
          ≡ latest
              (e.identifiers.phone ∷ as_string (get_in "phone" tr) ∷ [])
              (get_field "phone" cur))
      × (get_field "name" out ≡ latest (as_string (get_in "name" tr) ∷ []) (get_field "name" cur))
      × (get_field "country" out
          ≡ latest (as_string (get_in "country" tr) ∷ []) (get_field "country" cur))
      × ((k : String)
          → ("email" == k) ≡ false
          → ("phone" == k) ≡ false
          → ("name" == k) ≡ false
          → ("country" == k) ≡ false
          → get_field k out ≡ get_field k cur)
unfolding merge_traits
merge_traits-latest rt cur e = (
  simp get_field-set_new (ground arith),
  simp get_field-set_new (ground arith),
  simp get_field-set_new (ground arith),
  simp get_field-set_new (ground arith),
  λ k a b c d. simp (get_field-set_new, a, b, c, d) (refl),
)
