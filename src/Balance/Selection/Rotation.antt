-- ===== src/Balance/Selection/Rotation.antt =====
-- A counter that goes round a list: what `n` turns from the counter `i` yield.
use mathlib.Core.Path.{ap₂, ◌≡⟨◌⟩◌, ◌∎}
use native.Mathlib.Nat.{mod-lt, zero-add, add-zero, suc-add, add-mod_right}
use mathlib.Core.List.{map-append}
use umay.Base.{
  ℕ, zero, suc, ◌+◌, ◌-◌, ◌*◌, ◌%◌, ◌^◌, ◌≤◌, ◌<◌, ◌≡◌, refl, sym, ap, ◌∙◌, Option, some, List, [],
  ◌∷◌, ◌++◌, map, length, get_elem?, get_elem?-some, take, drop, arith,
}
use umay.Balance.Selection.RoundRobin.{fetch_add}

mod-next : (i k r : ℕ) → i % k ≡ r → r + 1 < k → (i + 1) % k ≡ suc r
mod-next i k r e h = grind arith

fetch_add_lem : (i : ℕ) → i + 1 < 2 ^ 64 → fetch_add i ≡ i + 1
fetch_add_lem i h = omega arith

-- The next multiple of `k` from `i`.
mod_next : (i k : ℕ) → 0 < k → (i + (k - i % k)) % k ≡ 0
mod_next i k h = grind arith

module _ {ℓ} {A : Type ℓ} where
  -- The list `m` times over.
  unfoldable pub rounds : ℕ → List A → List A
  rounds zero xs = []
  rounds (suc m) xs = xs ++ rounds m xs

module _ {ℓ} {A : Type ℓ} where
  unfoldable pub turns : ℕ → ℕ → List A → List (Option A)
  turns zero i xs = []
  turns (suc n) i xs = get_elem? xs (i % length xs) ∷ turns n (fetch_add i) xs

  abbrev pub rotate : ℕ → List A → List A
  rotate k xs = drop k xs ++ take k xs

  turns-append :
      (m n i : ℕ) (xs : List A)
      → i + m < 2 ^ 64
      → turns (m + n) i xs ≡ turns m i xs ++ turns n (i + m) xs
  unfolding turns
  turns-append zero n i xs h = rw (zero-add, add-zero)
  turns-append (suc m) n i xs h =
      rw (suc-add m n, fetch_add_lem i (omega arith))
        (ap (◌∷◌ (get_elem? xs (i % length xs))) (
          turns-append m n (i + 1) xs (omega arith)
          ∙ ap (λ j. turns m (i + 1) xs ++ turns n j xs) (omega arith)))

  get_elem?-drop :
      (xs : List A) (i : ℕ) (a : A) → get_elem? xs i ≡ some a → drop i xs ≡ a ∷ drop (suc i) xs
  get_elem?-drop [] i a h = cc
  get_elem?-drop (x ∷ xs) zero a h = cc
  get_elem?-drop (x ∷ xs) (suc i) a h = get_elem?-drop xs i a h

  take_all : (xs : List A) → take (length xs) xs ≡ xs
  take_all [] = refl
  take_all (x ∷ xs) = ap (◌∷◌ x) (take_all xs)

  length-drop : (n : ℕ) (xs : List A) → length (drop n xs) ≡ length xs - n
  length-drop zero xs = omega arith
  length-drop (suc n) [] = omega arith
  length-drop (suc n) (x ∷ xs) = omega (arith, length-drop n xs)

  take_rest : (n : ℕ) (xs : List A) → take (length xs - n) (drop n xs) ≡ drop n xs
  take_rest n xs = ap (λ m. take m (drop n xs)) (sym (length-drop n xs)) ∙ take_all (drop n xs)

  turns-suc :
      (n i r : ℕ) (xs : List A) (a : A)
      → i % length xs ≡ r
      → get_elem? xs r ≡ some a
      → turns n (fetch_add i) xs ≡ map some (take n (drop (suc r) xs))
      → turns (suc n) i xs ≡ map some (take (suc n) (drop r xs))
  unfolding turns
  turns-suc n i r xs a at e rest = rw (at, get_elem?-drop xs r a e, e) (ap (◌∷◌ (some a)) rest)

  -- Turns that do not pass the end of the list read a segment of it.
  turns_segment :
      (n i r : ℕ) (xs : List A)
      → i % length xs ≡ r
      → 0 < length xs
      → r + n ≤ length xs
      → i + n ≤ 2 ^ 64
      → turns n i xs ≡ map some (take n (drop r xs))
  unfolding turns
  turns_segment zero i r xs at pos fit room = refl
  turns_segment (suc zero) i r xs at pos fit room =
      let (a, e) = get_elem?-some xs r (omega arith) in turns-suc zero i r xs a at e refl
  turns_segment (suc (suc n)) i r xs at pos fit room =
      let (a, e) = get_elem?-some xs r (omega arith) in
      let next = mod-next i (length xs) r at (omega arith) in
      turns-suc (suc n) i r xs a at e (
        ap (λ j. turns (suc n) j xs) (fetch_add_lem i (omega arith))
        ∙ turns_segment (suc n) (i + 1) (suc r) xs next pos (omega arith) (omega arith))

  -- One turn for each entry yields the list, rotated to where the counter stands.
  pub turns-rotate :
      (i : ℕ) (xs : List A)
      → 0 < length xs
      → i + length xs < 2 ^ 64
      → turns (length xs) i xs ≡ map some (rotate (i % length xs) xs)
  turns-rotate i xs pos room =
      let k = i % length xs in
      let below : k < length xs = mod-lt i pos in
      turns (length xs) i xs
      ≡⟨ ap (λ n. turns n i xs) (omega arith) ⟩ turns (length xs - k + k) i xs
      ≡⟨ turns-append (length xs - k) k i xs (omega arith) ⟩
        turns (length xs - k) i xs ++ turns k (i + (length xs - k)) xs
      ≡⟨ ap₂ {A = List (Option A)} {B = List (Option A)} ◌++◌
          (turns_segment (length xs - k) i k xs refl pos (omega arith) (omega arith)
            ∙ ap (map some) (take_rest k xs))
          (turns_segment k (i + (length xs - k)) 0 xs (mod_next i (length xs) pos) pos (omega arith)
            (omega arith)) ⟩
        map some (drop k xs) ++ map some (take k xs)
      ≡⟨ sym (map-append some (drop k xs) (take k xs)) ⟩ map some (rotate k xs) ∎

  turns_none : (i : ℕ) (xs : List A) → turns 0 i xs ≡ []
  unfolding turns
  turns_none i xs = refl

  -- Any number of rounds repeats the rotated list.
  pub turns-rounds :
      (m i : ℕ) (xs : List A)
      → 0 < length xs
      → i + m * length xs < 2 ^ 64
      → turns (m * length xs) i xs ≡ rounds m (map {B = Option A} some (rotate (i % length xs) xs))
  unfolding rounds
  turns-rounds zero i xs pos room = ap (λ n. turns n i xs) (omega arith) ∙ turns_none i xs
  turns-rounds (suc m) i xs pos room =
      let n = length xs in
      turns (suc m * n) i xs
      ≡⟨ ap (λ k. turns k i xs) (omega arith) ⟩ turns (n + m * n) i xs
      ≡⟨ turns-append n (m * n) i xs (omega arith) ⟩ turns n i xs ++ turns (m * n) (i + n) xs
      ≡⟨ ap₂ {A = List (Option A)} {B = List (Option A)} ◌++◌ (turns-rotate i xs pos (omega arith))
          (turns-rounds m (i + n) xs pos (omega arith)) ⟩
        map some (rotate (i % n) xs) ++ rounds m (map some (rotate ((i + n) % n) xs))
      ≡⟨ ap (λ r. map some (rotate (i % n) xs) ++ rounds m (map some (rotate r xs)))
          (add-mod_right i n) ⟩
        rounds (suc m) (map some (rotate (i % n) xs)) ∎
