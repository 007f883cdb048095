-- ===== src/Profile/Merge.antt =====
-- internal/profile/merge.go: what one event, or a profile that is folded in, does to a profile.
pub mod Traits
pub mod Instants
use Prim.Native.String.{◌++◌ as concat, compare as compare_text}
use osscdp.Prelude.{
  ℕ, String, ◌==◌, Bool, true, false, not, ◌&&◌, ◌||◌, Option, none, some, List, [], ◌∷◌, ◌++◌, ◌+◌,
  ◌%◌, ◌^◌, ltb, eqb, is_some, Ordering, if◌then◌else◌, is_empty,
}
use osscdp.Runtime.{Runtime}
use osscdp.Runtime.Float.{float_eq}
use osscdp.Runtime.Json.{
  Value, null, boolean, text, number, integer, object, Fields, end, field, get_field,
}
use osscdp.Events.Envelope.{Envelope}

-- A map and the names of the fields that have changed so far.
pub record Changed : Type 0 where
  pub fields : Fields
  pub names : List String

-- m[key] = v
unfoldable pub set_field : String → Value → Fields → Fields
set_field key v end = field key v end
set_field key v (field k w m) =
    let rest = set_field key v m in if k == key then field k v m else field k w rest

-- asString, of an index that may miss.
abbrev pub as_string : Option Value → String
as_string (some (text s)) = s
as_string _ = ""

-- The closures `set` and `setStr`: a value that is new and not empty.
unfoldable pub set_new : String → String → String → Changed → Changed
unfolding set_field
set_new prefix key val c =
    if is_empty val || as_string (get_field key c.fields) == val then c else (record {
      fields = set_field key (text val) c.fields;
      names = c.names ++ concat prefix key ∷ [];
    })

abbrev pub get_in : String → Option Fields → Option Value
get_in key none = none
get_in key (some m) = get_field key m

abbrev inner : Option Value → Option Fields
inner (some (object m)) = some m
inner _ = none

-- Go's == of two interface values, a missing one being nil; the panic on two maps or on two slices is
-- left out.
abbrev same_value : Option Value → Value → Bool
same_value none null = true
same_value (some null) null = true
same_value (some (boolean a)) (boolean b) = not (a && not b) && not (b && not a)
same_value (some (number a)) (number b) = float_eq a b
same_value (some (integer a)) (integer b) = eqb a b
same_value (some (text a)) (text b) = a == b
same_value _ _ = false

-- A key that the survivor lacks, or whose value the more recent loser replaces.
unfoldable pub take_last : Bool → Fields → String → Changed → Changed
unfolding set_field
take_last newer src key c = elim (get_field key src) [
  | none ↦ c
  | some v ↦
      if (not (is_some (get_field key c.fields)) || newer)
        && not (same_value (get_field key c.fields) v)
      then (record {
        fields = set_field key v c.fields;
        names = c.names ++ concat "computed_attributes." key ∷ [];
      })
      else c
]

-- The keys that mergeReparent gives a rule of their own.
abbrev is_special : String → Bool
is_special k =
    k == "total_events"
    || (k == "total_orders"
        || (k == "last_event_name"
            || (k == "last_source_id"
                || (k == "last_page_url" || (k == "last_product_viewed" || k == "last_order_at")))))

-- The keys that the survivor lacks, but for those of `skip`.
unfoldable pub fill_missing : String → (String → Bool) → Fields → Changed → Changed
unfolding set_field
fill_missing prefix skip end c = c
fill_missing prefix skip (field k v m) c = fill_missing prefix skip m (
    if skip k || is_some (get_field k c.fields)
    then c
    else (record { fields = set_field k v c.fields; names = c.names ++ concat prefix k ∷ [] }))

-- a > b of two texts, which Go compares by their bytes.
abbrev is_after_text : String → String → Bool
is_after_text a b = elim (compare_text a b) [ Ordering.gt ↦ true | _ ↦ false ]

-- last_order_at, the later of the two.
unfoldable pub take_order_at : Fields → Changed → Changed
unfolding set_field
take_order_at src c =
    let v = as_string (get_field "last_order_at" src) in
    if not (is_empty v) && is_after_text v (as_string (get_field "last_order_at" c.fields))
    then (record {
      fields = set_field "last_order_at" (text v) c.fields;
      names = c.names ++ "computed_attributes.last_order_at" ∷ [];
    })
    else c

-- Instants are UTC nanoseconds; nil is none.
abbrev pub widen_first : ℕ → Option ℕ → Option ℕ
widen_first ts none = some ts
widen_first ts (some f) = if ltb ts f then some ts else some f

abbrev pub widen_last : ℕ → Option ℕ → Option ℕ
widen_last ts none = some ts
widen_last ts (some l) = if ltb l ts then some ts else some l

abbrev is_earlier : ℕ → Option ℕ → Bool
is_earlier ts none = true
is_earlier ts (some f) = ltb ts f

abbrev is_later : ℕ → Option ℕ → Bool
is_later ts none = true
is_later ts (some l) = ltb l ts

-- The first and the last instant, and what changed.
pub record Seen : Type 0 where
  pub first : Option ℕ
  pub last : Option ℕ
  pub names : List String

abbrev seen_names : Bool → Bool → List String
seen_names a b = (if a then "first_seen_at" ∷ [] else []) ++ (if b then "last_seen_at" ∷ [] else [])

-- MergeSeen
unfoldable pub merge_seen : Option ℕ → Option ℕ → ℕ → Seen
merge_seen first last ts = record {
  first = widen_first ts first;
  last = widen_last ts last;
  names = seen_names (is_earlier ts first) (is_later ts last);
}

-- The part of mergeReparent on first_seen_at and last_seen_at.
unfoldable pub join_first : Option ℕ → Option ℕ → Option ℕ
join_first dst none = dst
join_first dst (some ts) = widen_first ts dst

unfoldable pub join_last : Option ℕ → Option ℕ → Option ℕ
join_last dst none = dst
join_last dst (some ts) = widen_last ts dst

abbrev is_newer : Option ℕ → Option ℕ → Bool
is_newer dst none = false
is_newer dst (some ts) = is_later ts dst

abbrev is_older : Option ℕ → Option ℕ → Bool
is_older dst none = false
is_older dst (some ts) = is_earlier ts dst

-- A row of customer_profile.
pub record CustomerProfile : Type 0 where
  pub id : ℕ
  pub tenant_id : ℕ
  pub canonical_user_id : String
  pub identity_cluster_id : ℕ
  pub traits : Fields
  pub computed_attributes : Fields
  pub first_seen_at : Option ℕ
  pub last_seen_at : Option ℕ
  pub version : ℕ

module _ (rt : Runtime) where
  -- parseObject; a nil map is none.
  unfoldable pub parse_object : String → Option Fields
  parse_object raw = if is_empty raw then none else rt.unmarshal raw

  -- MergeTraits
  unfoldable pub merge_traits : Fields → Envelope → Changed
  merge_traits cur e =
      let tr = parse_object e.traits in
      let c : Changed = record { fields = cur; names = [] } in
      let c1 = set_new "traits." "email" (as_string (get_in "email" tr)) c in
      let c2 = set_new "traits." "phone" (as_string (get_in "phone" tr)) c1 in
      let c3 = set_new "traits." "name" (as_string (get_in "name" tr)) c2 in
      let c4 = set_new "traits." "country" (as_string (get_in "country" tr)) c3 in
      let c5 = set_new "traits." "email" e.identifiers.email c4 in
      set_new "traits." "phone" e.identifiers.phone c5

  -- asInt, of an index that may miss: an int64 as its 64-bit pattern.
  unfoldable pub as_int : Option Value → ℕ
  as_int (some (number f)) = rt.int_of_float f
  as_int (some (integer n)) = n
  as_int _ = 0

  -- `out[key] = asInt(out[key]) + n`; the sum is an int64 until the row is written.
  unfoldable pub add_count : String → ℕ → Fields → Fields
  unfolding as_int
  add_count key n m = set_field key (integer ((as_int (get_field key m) + n) % 2 ^ 64)) m

  -- A map as the row holds it: json.Marshal writes an int64 as a JSON number.
  unfoldable pub as_stored : Fields → Fields
  as_stored end = end
  as_stored (field k (integer n) m) = field k (number (rt.float_of_int n)) (as_stored m)
  as_stored (field k v m) = field k v (as_stored m)

  -- A profile as `update` writes its row.
  unfoldable pub stored_profile : CustomerProfile → CustomerProfile
  unfolding as_stored
  stored_profile p = record p {
    traits = as_stored p.traits;
    computed_attributes = as_stored p.computed_attributes;
  }

  abbrev page_url : String → String
  page_url context = as_string (get_in "url" (inner (get_in "page" (parse_object context))))

  abbrev prop_string : String → String → String
  prop_string properties key = as_string (get_in key (parse_object properties))

  unfoldable pub order_completed : Envelope → Changed → Changed
  unfolding add_count set_field
  order_completed e c = record {
    fields =
        set_field "last_order_at" (text (rt.format_time e.timestamp))
          (add_count "total_orders" 1 c.fields);
    names =
        c.names ++ "computed_attributes.total_orders" ∷ "computed_attributes.last_order_at" ∷ [];
  }

  -- MergeComputed, of the text of the source's id.
  unfoldable pub merge_computed : String → Fields → Envelope → Changed
  unfolding set_new add_count order_completed parse_object
  merge_computed source cur e =
      let c : Changed = record {
        fields = add_count "total_events" 1 cur;
        names = "computed_attributes.total_events" ∷ [];
      } in
      let c1 = set_new "computed_attributes." "last_event_name" e.event_name c in
      let c2 = set_new "computed_attributes." "last_source_id" source c1 in
      let c3 = set_new "computed_attributes." "last_page_url" (page_url e.context) c2 in
      let viewed =
        set_new "computed_attributes." "last_product_viewed" (prop_string e.properties "product_id")
          c3 in
      let c4 = if e.event_name == "product_viewed" then viewed else c3 in
      if e.event_name == "order_completed" then order_completed e c4 else c4

  -- One running count of the loser; asInt of it is positive as an int64.
  unfoldable pub sum_count : Fields → String → Changed → Changed
  unfolding add_count as_int
  sum_count src key c =
      let n = as_int (get_field key src) in
      if ltb 0 n && ltb n (2 ^ 63)
      then (record {
        fields = add_count key n c.fields;
        names = c.names ++ concat "computed_attributes." key ∷ [];
      })
      else c

  -- mergeReparent
  unfoldable pub merge_reparent : CustomerProfile → CustomerProfile → CustomerProfile × List String
  unfolding fill_missing sum_count take_last take_order_at join_first join_last
  merge_reparent dst src =
      let newer = is_newer dst.last_seen_at src.last_seen_at in
      let old = src.computed_attributes in
      let t =
        fill_missing "traits." (λ k. false) src.traits
          (record { fields = dst.traits; names = [] }) in
      let c1 =
        sum_count old "total_events"
          (record { fields = dst.computed_attributes; names = t.names }) in
      let c2 = sum_count old "total_orders" c1 in
      let c3 = take_last newer old "last_event_name" c2 in
      let c4 = take_last newer old "last_source_id" c3 in
      let c5 = take_last newer old "last_page_url" c4 in
      let c6 = take_last newer old "last_product_viewed" c5 in
      let c7 = take_order_at old c6 in
      let c8 = fill_missing "computed_attributes." (λ k. is_special k) old c7 in
      (
        record dst {
          traits = t.fields;
          computed_attributes = c8.fields;
          first_seen_at = join_first dst.first_seen_at src.first_seen_at;
          last_seen_at = join_last dst.last_seen_at src.last_seen_at;
        },
        c8.names ++ seen_names (is_older dst.first_seen_at src.first_seen_at) newer,
      )
