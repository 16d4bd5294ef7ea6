-- ===== src/Notifications/Sending/Batches.antt =====
-- Cutting tokens into batches.
use nexusflow_backend.Prelude.{
  ℕ, zero, suc, ◌<◌, ◌≤◌, ◌≡◌, refl, ap, String, List, [], ◌∷◌, ◌++◌, length, take, drop, All,
  arith,
}
use nexusflow_backend.Notifications.Sending.{batches}

module _ {A : Type 0} where
  abbrev pub concat : List (List A) → List A
  concat [] = []
  concat (xs ∷ xss) = xs ++ concat xss

  take-drop : (n : ℕ) (xs : List A) → take n xs ++ drop n xs ≡ xs
  take-drop zero xs = refl
  take-drop (suc n) [] = refl
  take-drop (suc n) (x ∷ xs) = ap (λ ys. x ∷ ys) (take-drop n xs)

  length-take_le : (n : ℕ) (xs : List A) → length (take n xs) ≤ n
  length-take_le zero xs = omega arith
  length-take_le (suc n) [] = omega arith
  length-take_le (suc n) (x ∷ xs) = let h = length-take_le n xs in omega arith

  length-drop_le : (n : ℕ) (xs : List A) → length (drop n xs) ≤ length xs
  length-drop_le zero xs = omega arith
  length-drop_le (suc n) [] = omega arith
  length-drop_le (suc n) (x ∷ xs) = let h = length-drop_le n xs in omega arith

-- A batch has a token, and no more than the size allows.
abbrev pub IsBatch : ℕ → List String → Type 0
IsBatch size batch = (0 < length batch) × (length batch ≤ size)

pub concat-batches :
    (fuel size : ℕ) (tokens : List String)
    → length tokens ≤ fuel
    → concat (batches fuel (suc size) tokens) ≡ tokens
unfolding batches
concat-batches zero size [] h = refl
concat-batches zero size (t ∷ ts) h = absurd (omega arith)
concat-batches (suc fuel) size [] h = refl
concat-batches (suc fuel) size (t ∷ ts) h =
    let less = length-drop_le size ts in
    rw (concat-batches fuel size (drop size ts) (omega arith), take-drop size ts) refl

pub IsBatch-batches :
    (fuel size : ℕ) (tokens : List String)
    → All (IsBatch (suc size)) (batches fuel (suc size) tokens)
unfolding batches
IsBatch-batches zero size tokens = tt
IsBatch-batches (suc fuel) size [] = tt
IsBatch-batches (suc fuel) size (t ∷ ts) =
    let h = length-take_le size ts in
    ((omega arith, omega arith), IsBatch-batches fuel size (drop size ts))
