-- ===== src/Utils/Objects.antt =====
-- helpers/misc-utils.ts: `filterMapBy` and `omit`, which copy some of an object's properties.
pub mod Laws
use lender.Common.{
  String, Bool, true, false, Option, none, some, List, [], ◌∷◌, ◌||◌, if◌then◌else◌, ◌==◌, keep,
}
use lender.Common.Dict.{Dict, lookup, insert, keys}

-- `keys.includes(k)`
abbrev pub includes : List String → String → Bool
includes [] k = false
includes (j ∷ ks) k = if j == k then true else includes ks k

module _ {ℓ} {V : Type ℓ} where
  -- `obj[key] = raw[key]`; the keys that are copied are the object's own.
  abbrev pub copy_key : Dict V → String → Dict V → Dict V
  copy_key raw key obj = elim (lookup key raw) [ none ↦ obj | some v ↦ insert key v obj ]

  -- The reduction of `filterMapBy` over the keys that pass.
  pub copy_keys : Dict V → List String → Dict V → Dict V
  copy_keys raw [] obj = obj
  copy_keys raw (key ∷ ks) obj = copy_keys raw ks (copy_key raw key obj)

  -- `filterMapBy`
  pub filter_map_by : Dict V → (String → Bool) → Dict V
  filter_map_by raw fn = copy_keys raw (keep fn (keys raw)) []

  -- The reduction of `omit`.
  pub omit_from : Dict V → List String → List String → Dict V → Dict V
  omit_from raw ks [] acc = acc
  omit_from raw ks (curr ∷ rest) acc =
      omit_from raw ks rest (if includes ks curr then acc else copy_key raw curr acc)

  -- `omit`
  pub omit : Dict V → List String → Dict V
  omit raw ks = omit_from raw ks (keys raw) []
