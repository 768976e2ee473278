-- ===== src/Utils/Chunk.antt =====
-- helpers/misc-utils.ts, `chunk`: a list cut into pieces, the reduction over the list and its index.
pub mod Laws
use lender.Common.{
  ℕ, ◌+◌, ◌-◌, ◌%◌, Bool, true, List, [], ◌∷◌, ◌++◌, eqb, if◌then◌else◌, take, drop,
}

-- `!(i % size)`; a remainder by 0 is NaN, whose negation is true.
abbrev pub starts_chunk : ℕ → ℕ → Bool
starts_chunk size i = if eqb size 0 then true else eqb (i % size) 0

-- `array.slice(from, to)`
abbrev pub slice {ℓ} : {A : Type ℓ} → List A → ℕ → ℕ → List A
slice array from to = take (to - from) (drop from array)

-- The calls of the reducer: the elements left, the index, and the pieces so far.
pub chunk_from {ℓ} : {A : Type ℓ} → List A → ℕ → List A → ℕ → List (List A) → List (List A)
chunk_from array size [] i pieces = pieces
chunk_from array size (x ∷ rest) i pieces =
    chunk_from array size rest (i + 1)
      (if starts_chunk size i then pieces ++ slice array i (i + size) ∷ [] else pieces)

unfoldable pub chunk {ℓ} : {A : Type ℓ} → List A → ℕ → List (List A)
unfolding chunk_from
chunk array size = chunk_from array size array 0 []
