-- ===== src/Base/Sort.antt =====
-- `Array.prototype.sort` with a comparator: stable, so equal entries keep their order.
use mathlib.Core.Bool.{Bool, true, false}
use mathlib.Core.List.{List, [], ◌∷◌}
use mathlib.Core.Path.{◌≡◌}
use dca_protocol.Base.Tests.{if◌then◌else◌, Bool-cases}
use dca_protocol.Base.Lists.{All, In, here, there, In-cons}
use mathlib.Core.Logic.{inl, inr}

module _ {ℓ} {A : Type ℓ} (before : A → A → Bool) where
  -- An entry goes behind those that the comparator puts before it.
  unfoldable pub sorted_insert : A → List A → List A
  sorted_insert x [] = x ∷ []
  sorted_insert x (y ∷ ys) = if before y x then y ∷ sorted_insert x ys else x ∷ y ∷ ys

  pub sorted_insert-behind :
      (x y : A) (ys : List A)
      → before y x ≡ true
      → sorted_insert x (y ∷ ys) ≡ y ∷ sorted_insert x ys
  unfolding sorted_insert
  sorted_insert-behind x y ys first = rw first

  pub sorted_insert-here :
      (x y : A) (ys : List A) → before y x ≡ false → sorted_insert x (y ∷ ys) ≡ x ∷ y ∷ ys
  unfolding sorted_insert
  sorted_insert-here x y ys later = rw later

  unfoldable pub sort_by : List A → List A
  sort_by [] = []
  sort_by (x ∷ xs) = sorted_insert x (sort_by xs)

  -- No later entry goes before an earlier one.
  abbrev pub IsSorted : List A → Type 0
  IsSorted [] = Unit {0}
  IsSorted (x ∷ xs) = All (λ y. before y x ≡ false) xs × IsSorted xs

  pub All-sorted_insert {κ} :
      (P : A → Type κ) (x : A) (ys : List A) → P x → All P ys → All P (sorted_insert x ys)
  unfolding sorted_insert
  All-sorted_insert P x [] px all = (px, tt)
  All-sorted_insert P x (y ∷ ys) px (py, all) = elim (Bool-cases (before y x)) [
    | inl first ↦ rw first (py, All-sorted_insert P x ys px all)
    | inr later ↦ rw later (px, (py, all))
  ]

  -- A comparator that is a strict order, with ties that are ties throughout.
  module _ (asymm : (a b : A) → before a b ≡ true → before b a ≡ false)
      (trans : (a b c : A) → before a b ≡ false → before b c ≡ false → before a c ≡ false) where
    pub All-below :
        (x y : A) (zs : List A)
        → before y x ≡ false
        → All (λ z. before z y ≡ false) zs
        → All (λ z. before z x ≡ false) zs
    All-below x y [] p all = tt
    All-below x y (z ∷ zs) p (q, all) = (trans z y x q p, All-below x y zs p all)

    sorted_insert-IsSorted : (x : A) (ys : List A) → IsSorted ys → IsSorted (sorted_insert x ys)
    unfolding sorted_insert
    sorted_insert-IsSorted x [] s = (tt, tt)
    sorted_insert-IsSorted x (y ∷ ys) (below, s) = elim (Bool-cases (before y x)) [
      | inl first ↦ rw first (
        All-sorted_insert (λ z. before z y ≡ false) x ys (asymm y x first) below,
        sorted_insert-IsSorted x ys s,
      )
      | inr later ↦ rw later ((later, All-below x y ys later below), (below, s))
    ]

    pub sort_by-IsSorted : (xs : List A) → IsSorted (sort_by xs)
    unfolding sort_by
    sort_by-IsSorted [] = tt
    sort_by-IsSorted (x ∷ xs) = sorted_insert-IsSorted x _ (sort_by-IsSorted xs)

  put_behind :
      {a x y : A} {ys zs : List A} → (In a (x ∷ ys) → In a zs) → In a (x ∷ y ∷ ys) → In a (y ∷ zs)
  put_behind f (here e) = there (f (here e))
  put_behind f (there (here e)) = here e
  put_behind f (there (there m)) = there (f (there m))

  put_front :
      {a x y : A} {ys zs : List A} → (In a zs → In a (x ∷ ys)) → In a (y ∷ zs) → In a (x ∷ y ∷ ys)
  put_front f (here e) = there (here e)
  put_front f (there m) = elim (In-cons (f m)) [ inl e ↦ here e | inr later ↦ there (there later) ]

  sorted_insert-In : {a : A} (x : A) (ys : List A) → In a (x ∷ ys) → In a (sorted_insert x ys)
  unfolding sorted_insert
  sorted_insert-In x [] m = m
  sorted_insert-In x (y ∷ ys) m = elim (Bool-cases (before y x)) [
    | inl first ↦ rw first (put_behind (sorted_insert-In x ys) m)
    | inr later ↦ rw later m
  ]

  In-sorted_insert : {a : A} (x : A) (ys : List A) → In a (sorted_insert x ys) → In a (x ∷ ys)
  unfolding sorted_insert
  In-sorted_insert x [] m = m
  In-sorted_insert x (y ∷ ys) m = elim (Bool-cases (before y x)) [
    | inl first ↦ put_front (In-sorted_insert x ys) (rw first at m)
    | inr later ↦ rw later at m
  ]

  -- A sorted list has the entries of the list.
  pub sort_by-In : {a : A} (xs : List A) → In a xs → In a (sort_by xs)
  unfolding sort_by
  sort_by-In [] m = m
  sort_by-In (x ∷ xs) (here e) = sorted_insert-In x (sort_by xs) (here e)
  sort_by-In (x ∷ xs) (there m) = sorted_insert-In x (sort_by xs) (there (sort_by-In xs m))

  pub In-sort_by : {a : A} (xs : List A) → In a (sort_by xs) → In a xs
  unfolding sort_by
  In-sort_by [] m = m
  In-sort_by (x ∷ xs) m = elim (In-cons (In-sorted_insert x (sort_by xs) m)) [
    | inl e ↦ here e
    | inr later ↦ there (In-sort_by xs later)
  ]
