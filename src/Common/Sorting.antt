-- ===== src/Common/Sorting.antt =====
-- `Array.prototype.sort` with a comparator `key(a) - key(b)`: a stable sort, by insertion.
use Prim.Native.Nat.{ℕ, ◌≤◌, suc}
use mathlib.Core.Path.{◌≡◌, refl, ◌∙◌, ap}
use mathlib.Core.Logic.{inl, inr}
use mathlib.Core.Bool.{Bool, true, ◌||◌}
use mathlib.Core.Option.{some}
use mathlib.Core.List.{List, [], ◌∷◌, Memᴰ}
use native.Mathlib.Nat.{le_trans}
use native.Mathlib.Omega.{arith}
use unit_ai_specialists.Common.Tests.{leb, leb→le, if◌then◌else◌, Bool-cases}
use unit_ai_specialists.Common.Lists.{any, filter, get_last?, length, All, All-at, All-Memᴰ}

module _ {ℓ} {A : Type ℓ} (key : A → ℕ) where
  unfoldable pub insert_by : A → List A → List A
  insert_by x [] = x ∷ []
  insert_by x (y ∷ ys) =
      let rest = insert_by x ys in if leb (key x) (key y) then x ∷ y ∷ ys else y ∷ rest

  unfoldable pub sort_by : List A → List A
  sort_by [] = []
  sort_by (x ∷ xs) = insert_by x (sort_by xs)

  -- Every element is at most what follows it.
  abbrev pub SortedBy : List A → Type 0
  SortedBy [] = Unit
  SortedBy (x ∷ xs) = All (λ y. key x ≤ key y) xs × SortedBy xs

  module _ {κ} (P : A → Type κ) where
    All-insert_by : (x : A) (ys : List A) → P x → All P ys → All P (insert_by x ys)
    unfolding insert_by
    All-insert_by x [] p h = (p, tt)
    All-insert_by x (y ∷ ys) p h = elim (Bool-cases (leb (key x) (key y))) [
      | inl e ↦ rw e (p, h)
      | inr e ↦ rw e (h.0, All-insert_by x ys p h.1)
    ]

    All-of_insert_by : (x : A) (ys : List A) → All P (insert_by x ys) → P x × All P ys
    unfolding insert_by
    All-of_insert_by x [] h = h
    All-of_insert_by x (y ∷ ys) h = elim (Bool-cases (leb (key x) (key y))) [
      | inl e ↦ rw e at h
      | inr e ↦
          let k : P y × All P (insert_by x ys) = rw e at h in
          let (p, q) = All-of_insert_by x ys k.1 in (p, (k.0, q))
    ]

    pub All-sort_by : (xs : List A) → All P xs → All P (sort_by xs)
    unfolding sort_by
    All-sort_by [] h = tt
    All-sort_by (x ∷ xs) h = All-insert_by x (sort_by xs) h.0 (All-sort_by xs h.1)

    pub All-of_sort_by : (xs : List A) → All P (sort_by xs) → All P xs
    unfolding sort_by
    All-of_sort_by [] h = tt
    All-of_sort_by (x ∷ xs) h =
        let (p, q) = All-of_insert_by x (sort_by xs) h in (p, All-of_sort_by xs q)

  SortedBy-insert_by : (x : A) (ys : List A) → SortedBy ys → SortedBy (insert_by x ys)
  unfolding insert_by
  SortedBy-insert_by x [] h = (tt, tt)
  SortedBy-insert_by x (y ∷ ys) h = elim (Bool-cases (leb (key x) (key y))) [
    | inl e ↦ rw e ((leb→le _ _ e, All-le_trans (leb→le _ _ e) ys h.0), h)
    | inr e ↦
        rw e
          (All-insert_by (λ z. key y ≤ key z) x ys (ground arith) h.0, SortedBy-insert_by x ys h.1)
  ]
    where
      All-le_trans :
          {m n : ℕ} → m ≤ n → (zs : List A) → All (λ z. n ≤ key z) zs → All (λ z. m ≤ key z) zs
      All-le_trans l [] k = tt
      All-le_trans l (z ∷ zs) k = (le_trans l k.0, All-le_trans l zs k.1)

  -- The result is in order.
  pub SortedBy-sort_by : (xs : List A) → SortedBy (sort_by xs)
  unfolding sort_by
  SortedBy-sort_by [] = tt
  SortedBy-sort_by (x ∷ xs) = SortedBy-insert_by x (sort_by xs) (SortedBy-sort_by xs)

  any-insert_by : (p : A → Bool) (x : A) (ys : List A) → any p (insert_by x ys) ≡ (p x || any p ys)
  unfolding insert_by
  any-insert_by p x [] = refl
  any-insert_by p x (y ∷ ys) = ground (arith, any-insert_by p x ys)

  -- A test passes on a sorted list exactly when it does on the list.
  pub any-sort_by : (p : A → Bool) (xs : List A) → any p (sort_by xs) ≡ any p xs
  unfolding sort_by
  any-sort_by p [] = refl
  any-sort_by p (x ∷ xs) = any-insert_by p x (sort_by xs) ∙ ap (λ b. p x || b) (any-sort_by p xs)

  length-insert_by : (x : A) (ys : List A) → length (insert_by x ys) ≡ suc (length ys)
  unfolding insert_by
  length-insert_by x [] = refl
  length-insert_by x (y ∷ ys) = ground (arith, length-insert_by x ys)

  pub length-sort_by : (xs : List A) → length (sort_by xs) ≡ length xs
  unfolding sort_by
  length-sort_by [] = refl
  length-sort_by (x ∷ xs) = length-insert_by x (sort_by xs) ∙ ap suc (length-sort_by xs)

  -- Sorting loses no element.
  pub Memᴰ-sort_by : (x : A) (xs : List A) → Memᴰ x xs → Memᴰ x (sort_by xs)
  Memᴰ-sort_by x xs m =
      All-at (λ y. Memᴰ y (sort_by xs)) m (All-of_sort_by _ xs (All-Memᴰ (sort_by xs)))

  -- The last element of a list in order is the greatest.
  pub SortedBy-get_last? :
      (xs : List A) (z : A) → SortedBy xs → get_last? xs ≡ some z → All (λ y. key y ≤ key z) xs
  SortedBy-get_last? [] z h e = tt
  SortedBy-get_last? (x ∷ []) z h e = (ground arith, tt)
  SortedBy-get_last? (x ∷ y ∷ ys) z h e =
      let rest : All (λ w. key w ≤ key z) (y ∷ ys) = SortedBy-get_last? (y ∷ ys) z h.1 e in
      (le_trans h.0.0 rest.0, rest)

module _ {ℓ} {A : Type ℓ} where
  pub All-filter {κ} :
      (P : A → Type κ) (p : A → Bool) (xs : List A) → All P xs → All P (filter p xs)
  All-filter P p [] h = tt
  All-filter P p (x ∷ xs) h = elim (Bool-cases (p x)) [
    | inl e ↦ rw e (h.0, All-filter P p xs h.1)
    | inr e ↦ rw e (All-filter P p xs h.1)
  ]

  -- What holds of the selected elements holds of all under the test.
  pub All-of_filter {κ} :
      (P : A → Type κ) (p : A → Bool) (xs : List A)
      → All P (filter p xs)
      → All (λ x. p x ≡ true → P x) xs
  All-of_filter P p [] h = tt
  All-of_filter P p (x ∷ xs) h = elim (Bool-cases (p x)) [
    | inl e ↦ let k : P x × All P (filter p xs) = rw e at h in (λ _. k.0, All-of_filter P p xs k.1)
    | inr e ↦ let k : All P (filter p xs) = rw e at h in (λ y. absurd (cc), All-of_filter P p xs k)
  ]

  pub SortedBy-filter :
      (key : A → ℕ) (p : A → Bool) (xs : List A) → SortedBy key xs → SortedBy key (filter p xs)
  SortedBy-filter key p [] h = tt
  SortedBy-filter key p (x ∷ xs) h = elim (Bool-cases (p x)) [
    | inl e ↦ rw e (All-filter (λ y. key x ≤ key y) p xs h.0, SortedBy-filter key p xs h.1)
    | inr e ↦ rw e (SortedBy-filter key p xs h.1)
  ]
