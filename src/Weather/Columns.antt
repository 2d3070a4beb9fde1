-- ===== src/Weather/Columns.antt =====
-- The loop over the columns of a forecast, as a loop over rows.
use ai_assistant_driver.Common.{
  ℕ, zero, suc, ◌+◌, ◌≤◌, ◌<◌, ◌≡◌, refl, ap, inl, inr, true, Option, none, some, List, [], ◌∷◌,
  ltb, ◌==◌, map, length, get_elem?, take, drop, arith, Bool-cases, Option-cases,
}
use ai_assistant_driver.Weather.{collect}

module _ {A B : Type 0} where
  pub length-map : (f : A → B) (xs : List A) → length (map f xs) ≡ length xs
  length-map f [] = refl
  length-map f (x ∷ xs) = ap suc (length-map f xs)

  pub get_elem?-map :
      (f : A → B) (xs : List A) (i : ℕ) (x : A)
      → get_elem? xs i ≡ some x
      → get_elem? (map f xs) i ≡ some (f x)
  get_elem?-map f [] i x h = cc
  get_elem?-map f (y ∷ ys) zero x h = cc
  get_elem?-map f (y ∷ ys) (suc i) x h = get_elem?-map f ys i x h

module _ {A : Type 0} where
  drop_get :
      (i : ℕ) (xs : List A)
      → i < length xs
      → (x : A) × (get_elem? xs i ≡ some x) × (drop i xs ≡ x ∷ drop (suc i) xs)
  drop_get i [] h = absurd (omega arith)
  drop_get zero (x ∷ xs) h = (x, refl, refl)
  drop_get (suc i) (x ∷ xs) h = drop_get i xs (omega arith)

  drop_nil : (i : ℕ) → drop {A = A} i [] ≡ []
  drop_nil zero = refl
  drop_nil (suc i) = refl

  drop_all : (i : ℕ) (xs : List A) → length xs ≤ i → drop i xs ≡ []
  drop_all i [] h = drop_nil i
  drop_all zero (x ∷ xs) h = absurd (omega arith)
  drop_all (suc i) (x ∷ xs) h = drop_all i xs (omega arith)

  take_nil : (k : ℕ) → take {A = A} k [] ≡ []
  take_nil zero = refl
  take_nil (suc k) = refl

module _ {A B : Type 0} where
  -- The loop over rows that are all found.
  pub collect_rows :
      (found : ℕ → Option B) (f : A → B) (rows : List A)
      → ((i : ℕ) (x : A) → get_elem? rows i ≡ some x → found i ≡ some (f x))
      → (k i : ℕ) → collect found (length rows) k i ≡ some (map f (take k (drop i rows)))
  unfolding collect
  collect_rows found f rows each zero i = refl
  collect_rows found f rows each (suc k) i = elim (Bool-cases (ltb i (length rows))) [
    | inl below ↦
        let (x, here, rest) = drop_get i rows (ground arith) in
        rw (below, each i x here, collect_rows found f rows each k (suc i), rest) refl
    | inr beyond ↦ rw (beyond, drop_all i rows (ground arith)) refl
  ]

==→eq : (i j : ℕ) → (i == j) ≡ true → i ≡ j
==→eq i j h = ground arith

module _ {B : Type 0} where
  -- One row that is not found.
  pub collect_missing :
      (found : ℕ → Option B) (n j : ℕ)
      → found j ≡ none
      → j < n
      → (k i : ℕ) → i ≤ j
      → j < i + k
      → collect found n k i ≡ none
  unfolding collect
  collect_missing found n j missing inside zero i low high = absurd (omega arith)
  collect_missing found n j missing inside (suc k) i low high = elim (Bool-cases (i == j)) [
    | inl same ↦
        let here : found i ≡ none = rw (==→eq i j same) missing in
        let below : ltb i n ≡ true = ground arith in rw (below, here) refl
    | inr apart ↦
        let below : ltb i n ≡ true = ground arith in
        elim (Option-cases (found i)) [
          | inl nothing ↦ rw (below, nothing) refl
          | inr (x, something) ↦
              rw
                (
                  below,
                  something,
                  collect_missing found n j missing inside k (suc i) (ground arith) (ground arith),
                )
                refl
        ]
  ]

module _ {A : Type 0} where
  pub get_elem?-none : (xs : List A) (i : ℕ) → length xs ≤ i → get_elem? xs i ≡ none
  get_elem?-none [] i h = refl
  get_elem?-none (x ∷ xs) zero h = absurd (omega arith)
  get_elem?-none (x ∷ xs) (suc i) h = get_elem?-none xs i (omega arith)
