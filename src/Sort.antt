-- ===== src/Sort.antt =====
-- `sort.Slice` and `sort.SliceStable` of Go's library, as the insertion sort by `less` that they
-- agree with: a stable sort has one result, and so has any sort whose `less` tells all elements apart.
use mathlib.Core.List.{Perm}
use mathlib.Core.List.Perm
use ttbot_repo_placeholder.Prelude.{
  ◌≡◌, Bool, true, false, inl, inr, List, [], ◌∷◌, Bool-cases, if◌then◌else◌, if_case, All, any,
  count, ◌||◌, ◌∙◌, ap, refl, arith,
}

module _ {ℓ} {A : Type ℓ} (less : A → A → Bool) where
  -- Places `x` in front of the elements that it may stand before.
  pub insert_sorted : A → List A → List A
  insert_sorted x [] = x ∷ []
  insert_sorted x (y ∷ ys) =
      let rest = insert_sorted x ys in if less y x then y ∷ rest else x ∷ y ∷ ys

  unfoldable pub sort_slice : List A → List A
  unfolding insert_sorted
  sort_slice [] = []
  sort_slice (x ∷ xs) = insert_sorted x (sort_slice xs)

  -- No later element is less than an earlier one.
  abbrev pub IsSorted : List A → Type ℓ
  IsSorted [] = Unit
  IsSorted (x ∷ xs) = All (λ y. less y x ≡ false) xs × IsSorted xs

  insert_sorted-perm : (x : A) (xs : List A) → Perm (insert_sorted x xs) (x ∷ xs)
  unfolding insert_sorted
  insert_sorted-perm x [] = Perm.refl (x ∷ [])
  insert_sorted-perm x (y ∷ ys) = elim (Bool-cases (less y x)) [
    | inl before ↦ rw before (Perm.trans (Perm.cons y (insert_sorted-perm x ys)) (Perm.swap x y ys))
    | inr after ↦ rw after (Perm.refl _)
  ]

  -- Sorting loses and invents nothing.
  pub sort_slice-perm : (xs : List A) → Perm (sort_slice xs) xs
  unfolding sort_slice
  sort_slice-perm [] = Perm.refl []
  sort_slice-perm (x ∷ xs) =
      Perm.trans (insert_sorted-perm x (sort_slice xs)) (Perm.cons x (sort_slice-perm xs))

  All-insert_sorted {μ} :
      (P : A → Type μ) (x : A) (xs : List A) → P x → All P xs → All P (insert_sorted x xs)
  unfolding insert_sorted
  All-insert_sorted P x [] p h = (p, tt)
  All-insert_sorted P x (y ∷ ys) p h =
      if_case (All P) (less y x) (λ _. (h.0, All-insert_sorted P x ys p h.1)) (λ _. (p, h))

  -- Sorting keeps what all elements have, and which tests some element passes.
  pub All-sort_slice {μ} : (P : A → Type μ) (xs : List A) → All P xs → All P (sort_slice xs)
  unfolding sort_slice
  All-sort_slice P [] h = tt
  All-sort_slice P (x ∷ xs) h = All-insert_sorted P x (sort_slice xs) h.0 (All-sort_slice P xs h.1)

  any-insert_sorted :
      (p : A → Bool) (x : A) (xs : List A) → any p (insert_sorted x xs) ≡ (p x || any p xs)
  unfolding insert_sorted any
  any-insert_sorted p x [] = refl
  any-insert_sorted p x (y ∷ ys) = ground (arith, any-insert_sorted p x ys)

  pub any-sort_slice : (p : A → Bool) (xs : List A) → any p (sort_slice xs) ≡ any p xs
  unfolding sort_slice any
  any-sort_slice p [] = refl
  any-sort_slice p (x ∷ xs) =
      any-insert_sorted p x (sort_slice xs) ∙ ap (λ c. p x || c) (any-sort_slice p xs)

  count-insert_sorted :
      (p : A → Bool) (x : A) (xs : List A) → count p (insert_sorted x xs) ≡ count p (x ∷ xs)
  unfolding insert_sorted count
  count-insert_sorted p x [] = refl
  count-insert_sorted p x (y ∷ ys) = ground (arith, count-insert_sorted p x ys)

  pub count-sort_slice : (p : A → Bool) (xs : List A) → count p (sort_slice xs) ≡ count p xs
  unfolding sort_slice count
  count-sort_slice p [] = refl
  count-sort_slice p (x ∷ xs) =
      ground (arith, count-insert_sorted p x (sort_slice xs), count-sort_slice p xs)

  module _ (asym : (x y : A) → less x y ≡ true → less y x ≡ false)
      (trans : (x y z : A) → less y x ≡ false → less z y ≡ false → less z x ≡ false) where
    insert_sorted-IsSorted : (x : A) (xs : List A) → IsSorted xs → IsSorted (insert_sorted x xs)
    unfolding insert_sorted
    insert_sorted-IsSorted x [] h = (tt, tt)
    insert_sorted-IsSorted x (y ∷ ys) h =
        if_case IsSorted (less y x)
          (λ before. (
            All-insert_sorted (λ z. less z y ≡ false) x ys (asym y x before) h.0,
            insert_sorted-IsSorted x ys h.1,
          ))
          (λ after. ((after, later x y ys after h.0), h))
      where
        later :
            (x y : A) (ys : List A)
            → less y x ≡ false
            → All (λ z. less z y ≡ false) ys
            → All (λ z. less z x ≡ false) ys
        later x y [] a h = tt
        later x y (z ∷ zs) a h = (trans x y z a h.0, later x y zs a h.1)

    -- The result of sorting is sorted, where `less` is a strict weak order.
    pub sort_slice-IsSorted : (xs : List A) → IsSorted (sort_slice xs)
    unfolding sort_slice
    sort_slice-IsSorted [] = tt
    sort_slice-IsSorted (x ∷ xs) = insert_sorted-IsSorted x (sort_slice xs) (sort_slice-IsSorted xs)
