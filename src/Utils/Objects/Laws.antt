-- ===== src/Utils/Objects/Laws.antt =====
-- What a filtered copy of an object holds at each key.
use lender.Common.{
  String, ◌≡◌, refl, Bool, false, not, Option, none, some, List, [], ◌∷◌, arith, if◌then◌else◌,
  ◌==◌, eq_iff, keep, Bool-cases, inl, inr, Option-cases,
}
use lender.Common.Dict.{Dict, lookup, keys, lookup-insert}
use lender.Utils.Objects.{includes, copy_key, copy_keys, filter_map_by, omit_from, omit}

includes-keep :
    (fn : String → Bool) (ks : List String) (k : String)
    → includes (keep fn ks) k ≡ (if fn k then includes ks k else false)
includes-keep fn [] k = ground arith
includes-keep fn (j ∷ ks) k = ground (arith, eq_iff j k, includes-keep fn ks k)

module _ {ℓ} {V : Type ℓ} where
  includes-keys : (raw : Dict V) (k : String) → includes (keys raw) k ≡ false → lookup k raw ≡ none
  includes-keys [] k h = refl
  includes-keys ((j, v) ∷ raw) k h = ground (arith, includes-keys raw k)

  -- The value of the first object that has one.
  abbrev first_of_two : Option V → Option V → Option V
  first_of_two none o = o
  first_of_two (some v) o = some v

  lookup-copy_key :
      (raw : Dict V) (key k : String) (obj : Dict V)
      → lookup k (copy_key raw key obj)
        ≡ (if key == k then first_of_two (lookup k raw) (lookup k obj) else lookup k obj)
  lookup-copy_key raw key k obj = elim (Option-cases (lookup key raw)) [
    | inl missing ↦ ground (arith, eq_iff key k)
    | inr (v, found) ↦ ground (arith, eq_iff key k, lookup-insert key k v obj)
  ]

  lookup-copy_keys :
      (raw : Dict V) (ks : List String) (k : String) (obj : Dict V)
      → lookup k (copy_keys raw ks obj)
        ≡ (if includes ks k then first_of_two (lookup k raw) (lookup k obj) else lookup k obj)
  unfolding copy_keys
  lookup-copy_keys raw [] k obj = ground arith
  lookup-copy_keys raw (j ∷ ks) k obj =
      ground (arith, lookup-copy_keys raw ks k (copy_key raw j obj), lookup-copy_key raw j k obj)

  -- A filtered copy holds, at each key that passes the test, what the object holds, and nothing
  -- at any other key.
  pub lookup-filter_map_by :
      (raw : Dict V) (fn : String → Bool) (k : String)
      → lookup k (filter_map_by raw fn) ≡ (if fn k then lookup k raw else none)
  unfolding filter_map_by
  lookup-filter_map_by raw fn k = ground (
    arith,
    lookup-copy_keys raw (keep fn (keys raw)) k [],
    includes-keep fn (keys raw) k,
    includes-keys raw k,
  )

  omit_from-eq-copy_keys :
      (raw : Dict V) (ks rest : List String) (acc : Dict V)
      → omit_from raw ks rest acc ≡ copy_keys raw (keep (λ k. not (includes ks k)) rest) acc
  unfolding omit_from copy_keys
  omit_from-eq-copy_keys raw ks [] acc = refl
  omit_from-eq-copy_keys raw ks (curr ∷ rest) acc = elim (Bool-cases (includes ks curr)) [
    | inl dropped ↦ rw dropped (omit_from-eq-copy_keys raw ks rest acc)
    | inr kept ↦ rw kept (omit_from-eq-copy_keys raw ks rest (copy_key raw curr acc))
  ]

  -- A copy with keys left out holds nothing at those keys, and at any other key what the object
  -- holds.
  pub lookup-omit :
      (raw : Dict V) (ks : List String) (k : String)
      → lookup k (omit raw ks) ≡ (if includes ks k then none else lookup k raw)
  unfolding omit filter_map_by
  lookup-omit raw ks k =
      rw (omit_from-eq-copy_keys raw ks (keys raw) [])
        (ground (arith, lookup-filter_map_by raw (λ j. not (includes ks j)) k))
