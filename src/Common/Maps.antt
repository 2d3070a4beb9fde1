-- ===== src/Common/Maps.antt =====
-- A Go map as an association list, over keys with a Boolean test. The order of the entries, and what a
-- later entry of the same key hides, is not seen: `Table` is the quotient by what the keys find.
use Prim.Native.Nat.{ℕ}
use mathlib.Core.Path.{◌≡◌, refl, ap, ◌∙◌}
use mathlib.Core.Bool.{Bool, Bool-set, true, false}
use mathlib.Core.Option.{Option, none, some}
use mathlib.Core.List.{
  List, [], ◌∷◌, Pairwise, Pairwise-cons, mem-cons_self, Permᴰ, rel_of_Pairwise-cons,
}
use mathlib.Core.List.Permᴰ
use mathlib.Core.Quot.{Quot}
use native.Mathlib.Omega.{arith}
use ai_assistant_driver.Common.Tests.{◌==◌, if◌then◌else◌}
use ai_assistant_driver.Common.Strings.{Text, text_eq, text_eq_refl, text_eq→eq}

pub record Key {ℓ} (K : Type ℓ) : Type ℓ where
  pub key_eq : K → K → Bool
  pub key_eq_refl : (k : K) → key_eq k k ≡ true
  pub key_eq→eq : (j k : K) → key_eq j k ≡ true → j ≡ k

pub nat_eq_refl : (k : ℕ) → (k == k) ≡ true
nat_eq_refl k = ground arith

pub nat_eq→eq : (j k : ℕ) → (j == k) ≡ true → j ≡ k
nat_eq→eq j k h = ground arith

instance abbrev pub nat_key : Key ℕ
nat_key = record { key_eq = ◌==◌; key_eq_refl = nat_eq_refl; key_eq→eq = nat_eq→eq }

instance abbrev pub text_key : Key Text
text_key = record { key_eq = text_eq; key_eq_refl = text_eq_refl; key_eq→eq = text_eq→eq }

module _ {ℓ} {K V : Type ℓ} ⦃key : Key K⦄ where
  open key use {key_eq, key_eq_refl, key_eq→eq}

  -- `m[k]`, with whether it is there.
  unfoldable pub find : K → List (K × V) → Option V
  find k [] = none
  find k ((j, v) ∷ m) = let later = find k m in if key_eq j k then some v else later

  -- `m[k] = v`
  unfoldable pub put : K → V → List (K × V) → List (K × V)
  put k v [] = (k, v) ∷ []
  put k v ((j, w) ∷ m) = let rest = put k v m in if key_eq j k then (k, v) ∷ m else (j, w) ∷ rest

  -- `delete(m, k)`
  unfoldable pub remove : K → List (K × V) → List (K × V)
  remove k [] = []
  remove k ((j, v) ∷ m) = let rest = remove k m in if key_eq j k then rest else (j, v) ∷ rest

  pub find-put :
      (k j : K) (v : V) (m : List (K × V))
      → find k (put j v m) ≡ (if key_eq j k then some v else find k m)
  unfolding find put
  find-put k j v [] = refl
  find-put k j v ((i, w) ∷ m) = ground (
    arith,
    key_eq→eq i j,
    key_eq→eq j k,
    key_eq→eq i k,
    key_eq_refl k,
    key_eq_refl j,
    find-put k j v m,
  )

  find-remove :
      (k j : K) (m : List (K × V)) → find k (remove j m) ≡ (if key_eq j k then none else find k m)
  unfolding find remove
  find-remove k j [] = ground arith
  find-remove k j ((i, w) ∷ m) = ground (
    arith,
    key_eq→eq i j,
    key_eq→eq j k,
    key_eq→eq i k,
    key_eq_refl k,
    key_eq_refl j,
    find-remove k j m,
  )

  pub find-put_self : (k : K) (v : V) (m : List (K × V)) → find k (put k v m) ≡ some v
  find-put_self k v m = find-put k k v m ∙ rw (key_eq_refl k) refl

  pub find-remove_self : (k : K) (m : List (K × V)) → find k (remove k m) ≡ none
  find-remove_self k m = find-remove k k m ∙ rw (key_eq_refl k) refl

  -- Every key finds the same.
  abbrev pub SameEntries : List (K × V) → List (K × V) → Type ℓ
  SameEntries m n = (k : K) → find k m ≡ find k n

  put-SameEntries :
      (k : K) (v : V) (m n : List (K × V)) → SameEntries m n → SameEntries (put k v m) (put k v n)
  put-SameEntries k v m n same j = rw (find-put j k v m, find-put j k v n, same j) refl

  remove-SameEntries :
      (k : K) (m n : List (K × V)) → SameEntries m n → SameEntries (remove k m) (remove k n)
  remove-SameEntries k m n same j = rw (find-remove j k m, find-remove j k n, same j) refl

  unfoldable pub put_each : List (K × V) → List (K × V) → List (K × V)
  put_each [] m = m
  put_each ((k, v) ∷ es) m = put_each es (put k v m)

  -- No two entries with one key.
  abbrev pub Distinct : List (K × V) → Type ℓ
  Distinct = Pairwise (λ a b. key_eq a.0 b.0 ≡ false)

  key_ne_sym : (a b : K × V) → key_eq a.0 b.0 ≡ false → key_eq b.0 a.0 ≡ false
  key_ne_sym a b h = ground (arith, key_eq→eq b.0 a.0, key_eq_refl a.0)

  put_each-SameEntries :
      (es m n : List (K × V)) → SameEntries m n → SameEntries (put_each es m) (put_each es n)
  unfolding put_each
  put_each-SameEntries [] m n same = same
  put_each-SameEntries ((k, v) ∷ es) m n same =
      put_each-SameEntries es (put k v m) (put k v n) (put-SameEntries k v m n same)

  put_comm :
      (i j : K) (v w : V) (m : List (K × V))
      → key_eq i j ≡ false
      → SameEntries (put j w (put i v m)) (put i v (put j w m))
  put_comm i j v w m other k =
      let first =
        find-put k j w (put i v m)
        ∙ ap (λ o. if key_eq j k then some w else o) (find-put k i v m) in
      let second =
        find-put k i v (put j w m)
        ∙ ap (λ o. if key_eq i k then some v else o) (find-put k j w m) in
      ground (arith, first, second, key_eq→eq i k, key_eq→eq j k, key_eq_refl k)

  -- Entries of distinct keys may be put in any order.
  pub put_each-Perm :
      {es fs : List (K × V)}
      → Permᴰ es fs
      → Distinct es
      → (m : List (K × V)) → SameEntries (put_each es m) (put_each fs m)
  unfolding put_each
  put_each-Perm Permᴰ.nil d m k = refl
  put_each-Perm (Permᴰ.cons {a} {b} {l₁} {l₂} e p) d m k =
      put_each-Perm p (Pairwise-cons.0 d).1 (put a.0 a.1 m) k
      ∙ ap (λ (c : K × V). find k (put_each l₂ (put c.0 c.1 m))) e
  put_each-Perm (Permᴰ.swap {a} {b} {a'} {b'} {l} e f) d m k =
      put_each-SameEntries l (put b.0 b.1 (put a.0 a.1 m)) (put a.0 a.1 (put b.0 b.1 m))
        (put_comm a.0 b.0 a.1 b.1 m (rel_of_Pairwise-cons d mem-cons_self)) k
      ∙ ap (λ (c : (K × V) × (K × V)). find k (put_each l (put c.0.0 c.0.1 (put c.1.0 c.1.1 m))))
          (λ i. (e i, f i))
  put_each-Perm (Permᴰ.trans p q) d m k =
      put_each-Perm p d m k
      ∙ put_each-Perm q (Permᴰ.pairwise (λ a b. Bool-set _ _) key_ne_sym p d) m k

abbrev pub Table {ℓ} : (K V : Type ℓ) ⦃key : Key K⦄ → Type ℓ
Table K V = Quot (SameEntries {K = K} {V = V})
