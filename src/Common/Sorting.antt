-- ===== src/Common/Sorting.antt =====
-- What the components use of JavaScript's arrays: `filter`, and `sort` with a comparison.
use mathlib.Core.Path.{◌≡◌, refl, ap, ◌∙◌}
use mathlib.Core.Logic.{◌⊎◌, inl, inr}
use mathlib.Core.Bool.{Bool, true, false, not}
use mathlib.Core.List.{List, [], ◌∷◌, ◌++◌, Perm, Memᴰ}
use mathlib.Core.List.Perm
use mathlib.Core.List.{perm_middle}
use open_pm.Common.Tests.{if◌then◌else◌, Bool-cases}
use open_pm.Common.Lists.{All}
use open_pm.Common.Int.{ℤ, pos, lez}

module _ {ℓ} {A : Type ℓ} where
  -- `list.filter(test)`.
  unfoldable pub keep : (A → Bool) → List A → List A
  keep test [] = []
  keep test (x ∷ xs) = let rest = keep test xs in if test x then x ∷ rest else rest

  -- Two tests that agree keep the same.
  pub keep-same :
      (test other : A → Bool) (xs : List A)
      → ((x : A) → test x ≡ other x)
      → keep test xs ≡ keep other xs
  unfolding keep
  keep-same test other [] h = refl
  keep-same test other (x ∷ xs) h = rw (h x, keep-same test other xs h) refl

  -- `list.sort(compare)`, which is stable.
  unfoldable pub place : (A → A → ℤ) → A → List A → List A
  place compare x [] = x ∷ []
  place compare x (y ∷ ys) =
      let rest = place compare x ys in if lez (compare x y) (pos 0) then x ∷ y ∷ ys else y ∷ rest

  unfoldable pub sort_by : (A → A → ℤ) → List A → List A
  sort_by compare [] = []
  sort_by compare (x ∷ xs) = place compare x (sort_by compare xs)

  place-perm : (compare : A → A → ℤ) (x : A) (xs : List A) → Perm (place compare x xs) (x ∷ xs)
  unfolding place
  place-perm compare x [] = Perm.refl _
  place-perm compare x (y ∷ ys) = elim (Bool-cases (lez (compare x y) (pos 0))) [
    | inl e ↦ rw e (Perm.refl _)
    | inr e ↦ rw e (Perm.trans (Perm.cons y (place-perm compare x ys)) (Perm.swap x y ys))
  ]

  pub sort_by-perm : (compare : A → A → ℤ) (xs : List A) → Perm (sort_by compare xs) xs
  unfolding sort_by
  sort_by-perm compare [] = Perm.refl _
  sort_by-perm compare (x ∷ xs) =
      Perm.trans (place-perm compare x (sort_by compare xs)) (Perm.cons x (sort_by-perm compare xs))

  -- A list is what passes a test together with what fails it.
  pub keep-perm :
      (test other : A → Bool) (xs : List A)
      → ((x : A) → other x ≡ not (test x))
      → Perm (keep test xs ++ keep other xs) xs
  unfolding keep
  keep-perm test other [] h = Perm.refl _
  keep-perm test other (x ∷ xs) h = elim (Bool-cases (test x)) [
    | inl e ↦
        let o : other x ≡ false = h x ∙ ap not e in
        rw (e, o) (Perm.cons x (keep-perm test other xs h))
    | inr e ↦
        let o : other x ≡ true = h x ∙ ap not e in
        rw (e, o)
          (Perm.trans (perm_middle (keep test xs) (keep other xs))
            (Perm.cons x (keep-perm test other xs h)))
  ]

module _ {ℓ} {A : Type ℓ} (compare : A → A → ℤ) where
  -- A comparison that orders every two items and can be chained.
  pub record IsOrder : Type ℓ where
    pub total : (a b : A) → lez (compare a b) (pos 0) ≡ false → lez (compare b a) (pos 0) ≡ true
    pub chain :
        (a b c : A)
        → lez (compare a b) (pos 0) ≡ true
        → lez (compare b c) (pos 0) ≡ true
        → lez (compare a c) (pos 0) ≡ true

  -- No item comes after a later one.
  abbrev pub IsSorted : List A → Type ℓ
  IsSorted [] = Unit
  IsSorted (x ∷ xs) = All (λ y. lez (compare x y) (pos 0) ≡ true) xs × IsSorted xs

module _ {ℓ κ} {A : Type ℓ} (P : A → Type κ) where
  pub All-place :
      (compare : A → A → ℤ) (x : A) (xs : List A) → P x → All P xs → All P (place compare x xs)
  unfolding place
  All-place compare x [] p _ = (p, tt)
  All-place compare x (y ∷ ys) p (q, h) = elim (Bool-cases (lez (compare x y) (pos 0))) [
    | inl e ↦ rw e (p, (q, h))
    | inr e ↦ rw e (q, All-place compare x ys p h)
  ]

  pub All-sort_by : (compare : A → A → ℤ) (xs : List A) → All P xs → All P (sort_by compare xs)
  unfolding sort_by
  All-sort_by compare [] _ = tt
  All-sort_by compare (x ∷ xs) (p, h) =
      All-place compare x (sort_by compare xs) p (All-sort_by compare xs h)

  pub All-map {μ} : {Q : A → Type μ} (f : (a : A) → Q a → P a) (xs : List A) → All Q xs → All P xs
  All-map f [] _ = tt
  All-map f (x ∷ xs) (q, h) = (f x q, All-map f xs h)

module _ {ℓ κ} {A : Type ℓ} (P : A → Type κ) where
  place-All :
      (compare : A → A → ℤ) (x : A) (xs : List A) → All P (place compare x xs) → P x × All P xs
  unfolding place
  place-All compare x [] = λ h. (h.0, tt)
  place-All compare x (y ∷ ys) = elim (Bool-cases (lez (compare x y) (pos 0))) [
    | inl e ↦ rw e (λ h. h)
    | inr e ↦ rw e (λ h. let (p, qs) = place-All compare x ys h.1 in (p, (h.0, qs)))
  ]

  -- What holds of the sorted items holds of the items.
  pub sort_by-All : (compare : A → A → ℤ) (xs : List A) → All P (sort_by compare xs) → All P xs
  unfolding sort_by
  sort_by-All compare [] _ = tt
  sort_by-All compare (x ∷ xs) h =
      let (p, rest) = place-All compare x (sort_by compare xs) h in (p, sort_by-All compare xs rest)

  -- What holds of the items that are kept holds of the items that pass the test.
  pub keep-All :
      (test : A → Bool) (xs : List A) → All P (keep test xs) → All (λ x. (test x ≡ false) ⊎ P x) xs
  unfolding keep
  keep-All test [] = λ _. tt
  keep-All test (x ∷ xs) = elim (Bool-cases (test x)) [
    | inl e ↦ rw e (λ h. (inr h.0, keep-All test xs h.1))
    | inr e ↦ rw e (λ h. (inl refl, keep-All test xs h))
  ]

  pub All-kept : (test : A → Bool) (xs : List A) → All P xs → All P (keep test xs)
  unfolding keep
  All-kept test [] _ = tt
  All-kept test (x ∷ xs) (p, h) = elim (Bool-cases (test x)) [
    | inl e ↦ rw e (p, All-kept test xs h)
    | inr e ↦ rw e (All-kept test xs h)
  ]

module _ {ℓ} {A : Type ℓ} where
  -- Every item is one of the list.
  pub All-member : (xs : List A) → All (λ x. Memᴰ x xs) xs
  All-member xs = member xs (λ x m. m)
    where
      member : (ys : List A) → ((x : A) → Memᴰ x ys → Memᴰ x xs) → All (λ x. Memᴰ x xs) ys
      member [] h = tt
      member (y ∷ ys) h = (h y (Memᴰ.head refl), member ys (λ x m. h x (Memᴰ.tail m)))

  pub All-both {κ μ} :
      (P : A → Type κ) (Q : A → Type μ) (xs : List A)
      → All P xs
      → All Q xs
      → All (λ x. P x × Q x) xs
  All-both P Q [] _ _ = tt
  All-both P Q (x ∷ xs) (p, h) (q, k) = ((p, q), All-both P Q xs h k)

module _ {ℓ} {A : Type ℓ} where
  pub All-keep : (test : A → Bool) (xs : List A) → All (λ x. test x ≡ true) (keep test xs)
  unfolding keep
  All-keep test [] = tt
  All-keep test (x ∷ xs) = elim (Bool-cases (test x)) [
    | inl e ↦ rw e (e, All-keep test xs)
    | inr e ↦ rw e (All-keep test xs)
  ]

module _ {ℓ} {A : Type ℓ} (compare : A → A → ℤ) (order : IsOrder compare) where
  place-IsSorted :
      (x : A) (xs : List A) → IsSorted compare xs → IsSorted compare (place compare x xs)
  unfolding place
  place-IsSorted x [] _ = (tt, tt)
  place-IsSorted x (y ∷ ys) (least, h) = elim (Bool-cases (lez (compare x y) (pos 0))) [
    | inl e ↦
        let below =
          All-map (λ z. lez (compare x z) (pos 0) ≡ true) (λ z k. order.chain x y z e k) ys least in
        rw e ((e, below), (least, h))
    | inr e ↦ rw e (
      All-place (λ z. lez (compare y z) (pos 0) ≡ true) compare x ys (order.total x y e) least,
      place-IsSorted x ys h,
    )
  ]

  pub sort_by-IsSorted : (xs : List A) → IsSorted compare (sort_by compare xs)
  unfolding sort_by
  sort_by-IsSorted [] = tt
  sort_by-IsSorted (x ∷ xs) = place-IsSorted x (sort_by compare xs) (sort_by-IsSorted xs)
