-- ===== src/Base/Sort.antt =====
-- A stable sort by a number, for ORDER BY.
use daichod.Base.Tests.{leb, if◌then◌else◌, Bool-cases, leb→le}
use Prim.Native.Nat.{ℕ, ◌≤◌}
use mathlib.Core.Logic.{inl, inr}
use mathlib.Core.List.{List, [], ◌∷◌, Perm}
use mathlib.Core.List.Perm
use native.Mathlib.Omega.{arith}

module _ {A : Type 0} (key : A → ℕ) where
  unfoldable pub insert_by : A → List A → List A
  insert_by x [] = x ∷ []
  insert_by x (y ∷ ys) = if leb (key x) (key y) then x ∷ y ∷ ys else y ∷ insert_by x ys

  unfoldable pub sort_by : List A → List A
  sort_by [] = []
  sort_by (x ∷ xs) = insert_by x (sort_by xs)

  insert_by-perm : (x : A) (xs : List A) → Perm (insert_by x xs) (x ∷ xs)
  unfolding insert_by
  insert_by-perm x [] = Perm.refl _
  insert_by-perm x (y ∷ ys) = elim (Bool-cases (leb (key x) (key y))) [
    | inl le ↦ rw le (Perm.refl _)
    | inr gt ↦ rw gt (Perm.trans (Perm.cons y (insert_by-perm x ys)) (Perm.swap x y ys))
  ]

  -- The sort loses no row and makes none up.
  pub sort_by-perm : (xs : List A) → Perm (sort_by xs) xs
  unfolding sort_by
  sort_by-perm [] = Perm.refl _
  sort_by-perm (x ∷ xs) = Perm.trans (insert_by-perm x (sort_by xs)) (Perm.cons x (sort_by-perm xs))

  abbrev pub HeadAbove : ℕ → List A → Type 0
  HeadAbove n [] = Unit
  HeadAbove n (x ∷ xs) = n ≤ key x

  -- The keys do not fall along the list.
  abbrev pub IsSorted : List A → Type 0
  IsSorted [] = Unit
  IsSorted (x ∷ xs) = HeadAbove (key x) xs × IsSorted xs

  insert_by-HeadAbove :
      (n : ℕ) (x : A) (xs : List A) → n ≤ key x → HeadAbove n xs → HeadAbove n (insert_by x xs)
  unfolding insert_by
  insert_by-HeadAbove n x [] h k = h
  insert_by-HeadAbove n x (y ∷ ys) h k = ground arith

  insert_by-IsSorted : (x : A) (xs : List A) → IsSorted xs → IsSorted (insert_by x xs)
  unfolding insert_by
  insert_by-IsSorted x [] h = (tt, tt)
  insert_by-IsSorted x (y ∷ ys) h = elim (Bool-cases (leb (key x) (key y))) [
    | inl le ↦ rw le (leb→le _ _ le, h)
    | inr gt ↦
        rw gt (insert_by-HeadAbove (key y) x ys (ground arith) h.0, insert_by-IsSorted x ys h.1)
  ]

  pub sort_by-IsSorted : (xs : List A) → IsSorted (sort_by xs)
  unfolding sort_by
  sort_by-IsSorted [] = tt
  sort_by-IsSorted (x ∷ xs) = insert_by-IsSorted x (sort_by xs) (sort_by-IsSorted xs)
