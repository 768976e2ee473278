-- ===== src/Utils/Chunk/Laws.antt =====
-- Cutting a list into pieces loses nothing, and every piece but the last is full.
use mathlib.Core.List.{append_assoc, append-nil}
use lender.Common.{
  ℕ, zero, suc, ◌+◌, ◌-◌, ◌%◌, ◌≤◌, ◌<◌, ◌≡◌, refl, sym, ap, ◌∙◌, ◌↔◌, inl, inr, List, [], ◌∷◌,
  ◌++◌, arith, length, drop, concat, take-append-drop, length-drop, length-take, drop-suc,
  Bool-cases, true, false,
}
use Prim.Native.Nat.{min}
use native.Mathlib.Decide.{dec_le}
use lender.Utils.Chunk.{starts_chunk, slice, chunk_from, chunk}

starts_iff : (size i : ℕ) → 0 < size → (starts_chunk size i ≡ true) ↔ (i % size ≡ 0)
starts_iff size i h = ground arith

start_ahead : (i size : ℕ) → 0 < size → i % size ≡ 0 → (i + 1 + (size - 1)) % size ≡ 0
start_ahead i size h e = grind arith

-- At a start nothing is left of the current piece, and a whole piece lies ahead.
start_wraps :
    (i size r : ℕ)
    → r < size
    → i % size ≡ 0
    → (i + r) % size ≡ 0
    → (r ≡ 0) × ((i + 1 + (size - 1)) % size ≡ 0)
start_wraps i size r h e f = (grind arith, start_ahead i size (omega arith) e)

-- Elsewhere the current piece has at least one element left.
inside : (i size r : ℕ) → (starts_chunk size i ≡ false) → r < size → (i + r) % size ≡ 0 → 0 < r
inside i size zero s h f =
    let e : i + 0 ≡ i = omega arith in let z : i % size ≡ 0 = rw e at f in absurd (ne z)
  where
    ne : i % size ≡ 0 → ⊥
    ne z = ground arith
inside i size (suc r) s h f = omega arith

module _ {ℓ} {A : Type ℓ} where
  drop_of_length : (xs : List A) (n : ℕ) → length xs ≤ n → drop n xs ≡ []
  drop_of_length [] zero h = refl
  drop_of_length [] (suc n) h = refl
  drop_of_length (x ∷ xs) zero h = elim h [ ]
  drop_of_length (x ∷ xs) (suc n) h = drop_of_length xs n (omega arith)

  drop-drop : (n m : ℕ) (xs : List A) → drop n (drop m xs) ≡ drop (m + n) xs
  drop-drop n zero xs = let e : 0 + n ≡ n = omega arith in rw e
  drop-drop zero (suc m) [] = let e : suc m + 0 ≡ suc m = omega arith in rw e
  drop-drop (suc n) (suc m) [] = let e : suc m + suc n ≡ suc (m + suc n) = omega arith in rw e
  drop-drop n (suc m) (x ∷ xs) =
      let e : suc m + n ≡ suc (m + n) = omega arith in rw e (drop-drop n m xs)

  -- What is left after one more element.
  drop-tail :
      (array : List A) (i : ℕ) {x : A} {rest : List A}
      → drop i array ≡ x ∷ rest
      → drop (i + 1) array ≡ rest
  drop-tail array i e = let s : i + 1 ≡ suc i = omega arith in rw (s, ← drop-suc i array, e)

  -- The pieces are those so far, followed by those of a fresh run.
  chunk_from-append :
      (array : List A) (size : ℕ) (rest : List A) (i : ℕ) (pieces : List (List A))
      → chunk_from array size rest i pieces ≡ pieces ++ chunk_from array size rest i []
  unfolding chunk_from
  chunk_from-append array size [] i pieces = rw append-nil
  chunk_from-append array size (x ∷ rest) i pieces = elim (Bool-cases (starts_chunk size i)) [
    | inl e ↦ rw e (
        chunk_from-append array size rest (i + 1) (pieces ++ slice array i (i + size) ∷ [])
        ∙ (append_assoc pieces (slice array i (i + size) ∷ []) _
            ∙ ap (λ l. pieces ++ l)
                (sym (chunk_from-append array size rest (i + 1) (slice array i (i + size) ∷ [])))))
    | inr e ↦ rw e (chunk_from-append array size rest (i + 1) pieces)
  ]

  module _ (array : List A) (size : ℕ) where
    chunk_from_start :
        (x : A) (rest : List A) (i : ℕ)
        → starts_chunk size i ≡ true
        → chunk_from array size (x ∷ rest) i []
          ≡ slice array i (i + size) ∷ chunk_from array size rest (i + 1) []
    unfolding chunk_from
    chunk_from_start x rest i e =
        rw e (chunk_from-append array size rest (i + 1) (slice array i (i + size) ∷ []))

    chunk_from_skip :
        (x : A) (rest : List A) (i : ℕ)
        → starts_chunk size i ≡ false
        → chunk_from array size (x ∷ rest) i [] ≡ chunk_from array size rest (i + 1) []
    unfolding chunk_from
    chunk_from_skip x rest i e = rw e

    -- A piece that starts at `i` holds the next elements, and the pieces after it what follows.
    take-slice :
        (i : ℕ)
        → 0 < size
        → slice array i (i + size) ++ drop (i + 1 + (size - 1)) array ≡ drop i array
    take-slice i pos =
        let e : i + 1 + (size - 1) ≡ i + size = omega arith in
        let d : i + size - i ≡ size = omega arith in
        rw (e, d, ← drop-drop size i array) (take-append-drop size (drop i array))

    chunk_from-nil : (i : ℕ) → chunk_from array size [] i [] ≡ []
    unfolding chunk_from
    chunk_from-nil i = refl

    concat-chunk_from :
        (rest : List A) (i r : ℕ)
        → drop i array ≡ rest
        → r < size
        → (i + r) % size ≡ 0
        → concat (chunk_from array size rest i []) ≡ drop (i + r) array
    concat-chunk_from [] i r e lt m =
        rw (chunk_from-nil i, ← drop-drop r i array, e) (sym (drop_of_length [] r (omega arith)))
    concat-chunk_from (x ∷ rest) i r e lt m = elim (Bool-cases (starts_chunk size i)) [
      | inl s ↦ rw (chunk_from_start x rest i s) (
          let z = (starts_iff size i (omega arith)).0 s in
          let (r_zero, ahead) = start_wraps i size r lt z m in
          let here : i + r ≡ i = omega arith in
          rw
            (
              concat-chunk_from rest (i + 1) (size - 1) (drop-tail array i e) (omega arith) ahead,
              here,
            )
            (take-slice i (omega arith)))
      | inr s ↦ rw (chunk_from_skip x rest i s) (
          let left : 0 < r = inside i size r s lt m in
          let next : i + 1 + (r - 1) ≡ i + r = omega arith in
          rw (
            concat-chunk_from rest (i + 1) (r - 1) (drop-tail array i e) (omega arith) (rw next m),
            next,
          ))
    ]

-- Every piece but the last has the full size, and the last is neither empty nor larger.
abbrev pub AllFull {ℓ} : {A : Type ℓ} → ℕ → List (List A) → Type 0
AllFull size [] = Unit
AllFull size (piece ∷ []) = (0 < length piece) × (length piece ≤ size)
AllFull size (piece ∷ next ∷ pieces) = (length piece ≡ size) × AllFull size (next ∷ pieces)

module _ {ℓ} {A : Type ℓ} where
  AllFull-cons :
      (size : ℕ) (piece : List A) (pieces : List (List A))
      → 0 < size
      → length piece ≡ size
      → AllFull size pieces
      → AllFull size (piece ∷ pieces)
  AllFull-cons size piece [] pos e h = (omega arith, omega arith)
  AllFull-cons size piece (next ∷ pieces) pos e h = (e, h)

  length-slice :
      (array : List A) (size i : ℕ)
      → length (slice array i (i + size)) ≡ min size (length array - i)
  length-slice array size i =
      let d : i + size - i ≡ size = omega arith in
      rw (d, length-take size (drop i array), length-drop i array)

  lt_length_of_drop :
      (array : List A) (i : ℕ) {x : A} {rest : List A} → drop i array ≡ x ∷ rest → i < length array
  lt_length_of_drop array i e =
      let n : length (drop i array) ≡ length array - i = length-drop i array in
      let m = rw e at n in omega arith

  -- No piece starts before the next start.
  chunk_from-none :
      (array : List A) (size : ℕ) (rest : List A) (i r : ℕ)
      → drop i array ≡ rest
      → r < size
      → (i + r) % size ≡ 0
      → length array ≤ i + r
      → chunk_from array size rest i [] ≡ []
  chunk_from-none array size [] i r e lt m short = chunk_from-nil array size i
  chunk_from-none array size (x ∷ rest) i r e lt m short =
      let before : i < length array = lt_length_of_drop array i e in
      elim (Bool-cases (starts_chunk size i)) [
        | inl s ↦
            let (r_zero, ahead) =
              start_wraps i size r lt ((starts_iff size i (omega arith)).0 s) m in
            absurd (omega arith)
        | inr s ↦
            let left : 0 < r = inside i size r s lt m in
            let next : i + 1 + (r - 1) ≡ i + r = omega arith in
            rw (chunk_from_skip array size x rest i s) (
              chunk_from-none array size rest (i + 1) (r - 1) (drop-tail array i e) (omega arith)
                (rw next m) (omega arith))
      ]

  chunk_from-AllFull :
      (array : List A) (size : ℕ) (rest : List A) (i r : ℕ)
      → drop i array ≡ rest
      → r < size
      → (i + r) % size ≡ 0
      → AllFull size (chunk_from array size rest i [])
  chunk_from-AllFull array size [] i r e lt m = rw (chunk_from-nil array size i) tt
  chunk_from-AllFull array size (x ∷ rest) i r e lt m =
      let before : i < length array = lt_length_of_drop array i e in
      elim (Bool-cases (starts_chunk size i)) [
        | inl s ↦
            let (r_zero, ahead) =
              start_wraps i size r lt ((starts_iff size i (omega arith)).0 s) m in
            let n = length-slice array size i in
            rw (chunk_from_start array size x rest i s) (elim (dec_le (length array) (i + size)) [
              | yes short ↦
                  rw
                    (chunk_from-none array size rest (i + 1) (size - 1) (drop-tail array i e)
                      (omega arith) ahead (omega arith))
                    (omega arith, omega arith)
              | no long ↦
                  AllFull-cons size (slice array i (i + size)) _ (omega arith) (omega arith) (
                    chunk_from-AllFull array size rest (i + 1) (size - 1) (drop-tail array i e)
                      (omega arith) ahead)
            ])
        | inr s ↦
            let left : 0 < r = inside i size r s lt m in
            let next : i + 1 + (r - 1) ≡ i + r = omega arith in
            rw (chunk_from_skip array size x rest i s) (
              chunk_from-AllFull array size rest (i + 1) (r - 1) (drop-tail array i e) (omega arith)
                (rw next m))
      ]

-- With a positive size, the pieces of a list joined in order are the list, and every piece but the
-- last has exactly that size, while the last is not empty and not larger.
pub chunk_lem {ℓ} :
    {A : Type ℓ} (array : List A) (size : ℕ)
    → 0 < size
    → (concat (chunk array size) ≡ array) × AllFull size (chunk array size)
unfolding chunk
chunk_lem array size pos =
    let start : (0 + 0) % size ≡ 0 = grind arith in
    (
      concat-chunk_from array size array 0 0 refl pos start,
      chunk_from-AllFull array size array 0 0 refl pos start,
    )
