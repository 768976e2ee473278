-- ===== src/Utils/Entries.antt =====
-- `Object.keys(d).findIndex((value) => value === key)` and `Object.entries(d)[index]`, with which the
-- helpers read a dictionary.
use lender.Common.{
  ℕ, suc, String, Bool, true, false, ◌==◌, ◌≡◌, ◌⊎◌, refl, inl, inr, Bool-cases, Option, none, some,
  List, [], ◌∷◌, if◌then◌else◌, get_elem?,
}
use lender.Common.Dict.{Dict, lookup, keys}

-- An index is a number, -1 where nothing is found.
pub data ℤ : Type 0 where
  pos : ℕ → ℤ
  negsuc : ℕ → ℤ

abbrev pub one_later : ℤ → ℤ
one_later (pos n) = pos (suc n)
one_later (negsuc n) = negsuc n

pub find_index : String → List String → ℤ
find_index key [] = negsuc 0
find_index key (value ∷ values) = if value == key then pos 0 else one_later (find_index key values)

-- `index < 0`
abbrev pub is_negative : ℤ → Bool
is_negative (pos n) = false
is_negative (negsuc n) = true

-- `index == undefined`, which no number is
abbrev pub is_undefined : ℤ → Bool
is_undefined index = false

module _ {ℓ} {V : Type ℓ} where
  -- `Object.entries(d)[index]`, none for undefined
  abbrev pub entry_at : ℤ → Dict V → Option (String × V)
  entry_at (pos n) d = get_elem? d n
  entry_at (negsuc n) d = none

  -- What is read at the index of a key.
  abbrev pub Missing : String → Dict V → Type ℓ
  Missing key d = (find_index key (keys d) ≡ negsuc 0) × (lookup key d ≡ none)

  abbrev pub Read : String → Dict V → ℕ → String → V → Type ℓ
  Read key d n name v =
      (find_index key (keys d) ≡ pos n) × (get_elem? d n ≡ some (name, v)) × (lookup key d ≡ some v)

  pub find_index-cases :
      (key : String) (d : Dict V)
      → Missing key d ⊎ ((n : ℕ) × (name : String) × (v : V) × Read key d n name v)
  unfolding find_index
  find_index-cases key [] = inl (refl, refl)
  find_index-cases key ((name, v) ∷ d) = elim (Bool-cases (name == key)) [
    | inl same ↦ inr (0, name, v, (rw same refl, refl, rw same refl))
    | inr other ↦ elim (find_index-cases key d) [
      | inl (index, missing) ↦ inl (rw (other, index) refl, rw other missing)
      | inr (n, other_name, u, (index, found, value)) ↦
          inr (suc n, other_name, u, (rw (other, index) refl, found, rw other value))
    ]
  ]
