-- ===== src/Base/Keyed.antt =====
-- Rows that carry an id: looking one up, filtering and sorting rows whose ids are distinct.
use daichod.Base.Tests.{if◌then◌else◌, is_some, Bool-cases}
use daichod.Base.Lists.{All, first, keep, any}
use daichod.Base.Text.{bytes_eq_refl, Bytes, bytes_eq, bytes_eq_iff}
use daichod.Base.Sort.{sort_by, insert_by}
use Prim.Native.Nat.{ℕ}
use mathlib.Core.Path.{◌≡◌, refl, ap}
use mathlib.Core.Logic.{inl, inr}
use mathlib.Core.Bool.{Bool, true, false}
use mathlib.Core.Option.{Option, none, some}
use mathlib.Core.List.{List, [], ◌∷◌, ◌++◌}
use native.Mathlib.Omega.{arith}

pub any-first {ℓ} : {A : Type ℓ} (p : A → Bool) (xs : List A) → any p xs ≡ is_some (first p xs)
any-first p [] = refl
any-first p (x ∷ xs) = ground (arith, any-first p xs)

pub any-insert_by :
    {A : Type 0} (key : A → ℕ) (p : A → Bool) (x : A) (xs : List A)
    → any p (insert_by key x xs) ≡ (if p x then true else any p xs)
unfolding insert_by
any-insert_by key p x [] = refl
any-insert_by key p x (y ∷ ys) = ground (arith, any-insert_by key p x ys)

pub any-sort_by :
    {A : Type 0} (key : A → ℕ) (p : A → Bool) (xs : List A) → any p (sort_by key xs) ≡ any p xs
unfolding sort_by
any-sort_by key p [] = refl
any-sort_by key p (x ∷ xs) =
    ground (arith, any-insert_by key p x (sort_by key xs), any-sort_by key p xs)

abbrev pub that_passes : {A : Type 0} → (A → Bool) → Option A → Option A
that_passes q none = none
that_passes q (some a) = if q a then some a else none

module _ {A : Type 0} (id_of : A → Bytes) where
  abbrev pub has : Bytes → A → Bool
  has j a = bytes_eq (id_of a) j

  -- No two rows have one id.
  abbrev pub Unique : List A → Type 0
  Unique [] = Unit
  Unique (x ∷ xs) = (any (has (id_of x)) xs ≡ false) × Unique xs

  -- Whether a row with the id is met in a list depends on the id alone.
  pub any-keep :
      (q : A → Bool) (q' : Bytes → Bool)
      → ((a : A) → q a ≡ q' (id_of a))
      → (j : Bytes) (xs : List A)
      → any (has j) (keep q xs) ≡ (if q' j then any (has j) xs else false)
  any-keep q q' h j [] = ground arith
  any-keep q q' h j (x ∷ xs) = elim (Bool-cases (bytes_eq (id_of x) j)) [
    | inl same ↦
        ground (arith, any-keep q q' h j xs, h x, ap q' ((bytes_eq_iff (id_of x) j).0 same))
    | inr other ↦ ground (arith, any-keep q q' h j xs, h x)
  ]

  any-keep-false :
      (q : A → Bool) (j : Bytes) (xs : List A)
      → any (has j) xs ≡ false
      → any (has j) (keep q xs) ≡ false
  any-keep-false q j [] h = refl
  any-keep-false q j (x ∷ xs) h = ground (arith, any-keep-false q j xs)

  pub Unique-keep : (q : A → Bool) (xs : List A) → Unique xs → Unique (keep q xs)
  Unique-keep q [] u = tt
  Unique-keep q (x ∷ xs) u = ground (arith, Unique-keep q xs u.1, any-keep-false q (id_of x) xs u.0)

  Unique-insert_by :
      (key : A → ℕ) (x : A) (xs : List A)
      → any (has (id_of x)) xs ≡ false
      → Unique xs
      → Unique (insert_by key x xs)
  unfolding insert_by
  Unique-insert_by key x [] h u = (refl, tt)
  Unique-insert_by key x (y ∷ ys) h u = ground (
    arith,
    Unique-insert_by key x ys,
    any-insert_by key (has (id_of y)) x ys,
    bytes_eq_iff (id_of x) (id_of y),
    bytes_eq_iff (id_of y) (id_of x),
  )

  pub Unique-sort_by : (key : A → ℕ) (xs : List A) → Unique xs → Unique (sort_by key xs)
  unfolding sort_by
  Unique-sort_by key [] u = tt
  Unique-sort_by key (x ∷ xs) u =
      Unique-insert_by key x (sort_by key xs) (ground (arith, any-sort_by key (has (id_of x)) xs))
        (Unique-sort_by key xs u.1)

  first-insert_by :
      (key : A → ℕ) (j : Bytes) (x : A) (xs : List A)
      → any (has (id_of x)) xs ≡ false
      → first (has j) (insert_by key x xs) ≡ (if has j x then some x else first (has j) xs)
  unfolding insert_by
  first-insert_by key j x [] h = refl
  first-insert_by key j x (y ∷ ys) h = ground (
    arith,
    first-insert_by key j x ys,
    bytes_eq_iff (id_of x) j,
    bytes_eq_iff (id_of y) j,
    bytes_eq_iff (id_of y) (id_of x),
  )

  -- Sorting moves no row out of reach of its id.
  pub first-sort_by :
      (key : A → ℕ) (j : Bytes) (xs : List A)
      → Unique xs
      → first (has j) (sort_by key xs) ≡ first (has j) xs
  unfolding sort_by
  first-sort_by key j [] u = refl
  first-sort_by key j (x ∷ xs) u = ground (
    arith,
    first-insert_by key j x (sort_by key xs),
    any-sort_by key (has (id_of x)) xs,
    first-sort_by key j xs u.1,
  )

  first-none_of_any : (j : Bytes) (xs : List A) → any (has j) xs ≡ false → first (has j) xs ≡ none
  first-none_of_any j [] h = refl
  first-none_of_any j (x ∷ xs) h = ground (arith, first-none_of_any j xs)

  -- The row of an id in a filtered list is its row, if that passes.
  pub first-keep :
      (q : A → Bool) (j : Bytes) (xs : List A)
      → Unique xs
      → first (has j) (keep q xs) ≡ that_passes q (first (has j) xs)
  first-keep q j [] u = refl
  first-keep q j (x ∷ xs) u = elim (Bool-cases (bytes_eq (id_of x) j)) [
    | inl same ↦ ground (
      arith,
      first-none_of_any j (keep q xs),
      any-keep-false q j xs,
      ap (λ (k : Bytes). any (has k) xs) ((bytes_eq_iff (id_of x) j).0 same),
    )
    | inr other ↦ ground (arith, first-keep q j xs u.1)
  ]

  -- Where a function agrees with the lookup, it gives every row of a list with distinct ids.
  pub All-found :
      (f : Bytes → Option A) (xs : List A)
      → ((j : Bytes) → any (has j) xs ≡ true → f j ≡ first (has j) xs)
      → Unique xs
      → All (λ x. f (id_of x) ≡ some x) xs
  All-found f [] h u = tt
  All-found f (x ∷ xs) h u = (
    ground (arith, h (id_of x), bytes_eq_refl (id_of x)),
    All-found f xs
        (λ j k. ground (
          arith,
          h j,
          k,
          u.0,
          bytes_eq_iff (id_of x) j,
          λ (same : id_of x ≡ j). ap (λ (i : Bytes). any (has i) xs) same,
        ))
        u.1,
  )

  -- What is found under an id carries it.
  pub id_of-first : (j : Bytes) (xs : List A) (a : A) → first (has j) xs ≡ some a → id_of a ≡ j
  id_of-first j [] a h = elim (clash h) [ ]
    where
      clash : none ≡ some a → ⊥
      clash e = cc
  id_of-first j (x ∷ xs) a h = ground (arith, id_of-first j xs a, bytes_eq_iff (id_of x) j)

  pub any-snoc :
      (p : A → Bool) (xs : List A) (a : A) → any p (xs ++ a ∷ []) ≡ (if any p xs then true else p a)
  any-snoc p [] a = ground arith
  any-snoc p (x ∷ xs) a = ground (arith, any-snoc p xs a)

  pub Unique-snoc :
      (xs : List A) (a : A) → any (has (id_of a)) xs ≡ false → Unique xs → Unique (xs ++ a ∷ [])
  Unique-snoc [] a h u = (refl, tt)
  Unique-snoc (x ∷ xs) a h u = ground (
    arith,
    Unique-snoc xs a,
    any-snoc (has (id_of x)) xs a,
    bytes_eq_iff (id_of x) (id_of a),
    bytes_eq_iff (id_of a) (id_of x),
  )
