-- ===== src/Profile/Merge/Instants.antt =====
-- internal/profile/merge.go: MergeSeen over many events.
use osscdp.Prelude.{
  ℕ, ◌≤◌, Option, none, some, List, [], ◌∷◌, ◌≡◌, refl, ap, ◌∙◌, arith, Bool, true, false, ◌||◌,
  eqb, eqb_refl, ltb, All, Bool-cases, inl, inr,
}
use mathlib.Core.List.{Permᴰ}
use osscdp.Profile.Merge.{merge_seen, widen_first, widen_last}

cons_not_nil : {x : ℕ} {xs : List ℕ} → ¬ (x ∷ xs ≡ [])
cons_not_nil h = ground arith

-- The first and the last instant of a profile, from its events one after the other.
unfoldable pub seen_all : Option ℕ → Option ℕ → List ℕ → Option ℕ × Option ℕ
unfolding merge_seen
seen_all first last [] = (first, last)
seen_all first last (t ∷ ts) = let s = merge_seen first last t in seen_all s.first s.last ts

widen_first-swap :
    (a b : ℕ) (o : Option ℕ) → widen_first a (widen_first b o) ≡ widen_first b (widen_first a o)
widen_first-swap a b none = ground arith
widen_first-swap a b (some f) = ground arith

widen_last-swap :
    (a b : ℕ) (o : Option ℕ) → widen_last a (widen_last b o) ≡ widen_last b (widen_last a o)
widen_last-swap a b none = ground arith
widen_last-swap a b (some f) = ground arith

seen_all-perm :
    {ts us : List ℕ} (first last : Option ℕ)
    → Permᴰ ts us
    → seen_all first last ts ≡ seen_all first last us
unfolding seen_all merge_seen
seen_all-perm first last Permᴰ.nil = refl
seen_all-perm first last (Permᴰ.cons {a} {l₁ = ts} {l₂ = us} e p) =
    seen_all-perm (widen_first a first) (widen_last a last) p
    ∙ ap (λ (x : ℕ). seen_all (widen_first x first) (widen_last x last) us) e
seen_all-perm first last (Permᴰ.swap {a} {b} {a'} {b'} {l} e e') =
    rw (e, e', widen_first-swap a' b' first, widen_last-swap a' b' last) refl
seen_all-perm first last (Permᴰ.trans p q) = seen_all-perm first last p ∙ seen_all-perm first last q

unfoldable pub any_at : ℕ → List ℕ → Bool
any_at t [] = false
any_at t (x ∷ xs) = eqb x t || any_at t xs

-- The instants that the first or the last one is chosen from.
abbrev pub candidates : Option ℕ → List ℕ → List ℕ
candidates none ts = ts
candidates (some t) ts = t ∷ ts

-- One of the instants, and none is before it; none at all, where there is no instant.
unfoldable pub IsEarliest : Option ℕ → List ℕ → Type 0
IsEarliest none xs = xs ≡ []
IsEarliest (some t) xs = (any_at t xs ≡ true) × All (λ x. t ≤ x) xs

unfoldable pub IsLatest : Option ℕ → List ℕ → Type 0
IsLatest none xs = xs ≡ []
IsLatest (some t) xs = (any_at t xs ≡ true) × All (λ x. x ≤ t) xs

IsEarliest-step :
    (r : Option ℕ) (f t : ℕ) (ts : List ℕ)
    → IsEarliest r (candidates (widen_first t (some f)) ts)
    → IsEarliest r (f ∷ t ∷ ts)
unfolding IsEarliest any_at
IsEarliest-step none f t ts h = elim (Bool-cases (ltb t f)) [
  | inl y ↦ absurd (cons_not_nil (rw y at h))
  | inr y ↦ absurd (cons_not_nil (rw y at h))
]
IsEarliest-step (some x) f t ts h = elim (Bool-cases (ltb t f)) [
  | inl y ↦
      let k = rw y at h in
      let a : any_at x (t ∷ ts) ≡ true = k.0 in
      let b : x ≤ t = k.1.0 in
      let c : All (λ z. x ≤ z) ts = k.1.1 in (ground arith, (ground arith, (b, c)))
  | inr y ↦
      let k = rw y at h in
      let a : any_at x (f ∷ ts) ≡ true = k.0 in
      let b : x ≤ f = k.1.0 in
      let c : All (λ z. x ≤ z) ts = k.1.1 in (ground arith, (b, (ground arith, c)))
]

IsLatest-step :
    (r : Option ℕ) (l t : ℕ) (ts : List ℕ)
    → IsLatest r (candidates (widen_last t (some l)) ts)
    → IsLatest r (l ∷ t ∷ ts)
unfolding IsLatest any_at
IsLatest-step none l t ts h = elim (Bool-cases (ltb l t)) [
  | inl y ↦ absurd (cons_not_nil (rw y at h))
  | inr y ↦ absurd (cons_not_nil (rw y at h))
]
IsLatest-step (some x) l t ts h = elim (Bool-cases (ltb l t)) [
  | inl y ↦
      let k = rw y at h in
      let a : any_at x (t ∷ ts) ≡ true = k.0 in
      let b : t ≤ x = k.1.0 in
      let c : All (λ z. z ≤ x) ts = k.1.1 in (ground arith, (ground arith, (b, c)))
  | inr y ↦
      let k = rw y at h in
      let a : any_at x (l ∷ ts) ≡ true = k.0 in
      let b : l ≤ x = k.1.0 in
      let c : All (λ z. z ≤ x) ts = k.1.1 in (ground arith, (b, (ground arith, c)))
]

any_at_self : (x : ℕ) → any_at x (x ∷ []) ≡ true
unfolding any_at
any_at_self x = ground (arith, eqb_refl x)

seen_all-IsEarliest :
    (first last : Option ℕ) (ts : List ℕ)
    → IsEarliest (seen_all first last ts).0 (candidates first ts)
unfolding seen_all merge_seen IsEarliest
seen_all-IsEarliest none last [] = refl
seen_all-IsEarliest (some f) last [] = (any_at_self f, (omega arith, tt))
seen_all-IsEarliest none last (t ∷ ts) = seen_all-IsEarliest (some t) (widen_last t last) ts
seen_all-IsEarliest (some f) last (t ∷ ts) =
    IsEarliest-step _ f t ts (seen_all-IsEarliest (widen_first t (some f)) (widen_last t last) ts)

seen_all-IsLatest :
    (first last : Option ℕ) (ts : List ℕ) → IsLatest (seen_all first last ts).1 (candidates last ts)
unfolding seen_all merge_seen IsLatest
seen_all-IsLatest first none [] = refl
seen_all-IsLatest first (some l) [] = (any_at_self l, (omega arith, tt))
seen_all-IsLatest first none (t ∷ ts) = seen_all-IsLatest (widen_first t first) (some t) ts
seen_all-IsLatest first (some l) (t ∷ ts) =
    IsLatest-step _ l t ts (seen_all-IsLatest (widen_first t first) (widen_last t (some l)) ts)

-- The events of a profile, merged one after the other, leave as its first instant the earliest and as
-- its last the latest of theirs and of the one that it had before, if it had one; and in whatever
-- other order they are merged, the two are the same.
pub seen_all-extremes :
    {ts us : List ℕ} (first last : Option ℕ)
    → Permᴰ ts us
    → IsEarliest (seen_all first last ts).0 (candidates first ts)
      × IsLatest (seen_all first last ts).1 (candidates last ts)
      × (seen_all first last ts ≡ seen_all first last us)
seen_all-extremes {ts} first last p =
    (seen_all-IsEarliest first last ts, seen_all-IsLatest first last ts, seen_all-perm first last p)
