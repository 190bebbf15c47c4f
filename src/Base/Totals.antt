-- ===== src/Base/Totals.antt =====
-- A std::map of running totals: try_emplace, and the update of the entry under a key.
use daichod.Base.Tests.{if◌then◌else◌, Bool-cases}
use daichod.Base.Lists.{All, any, any-append}
use mathlib.Core.Path.{◌≡◌, refl, sym, ap, subst, ◌∙◌}
use mathlib.Core.Logic.{inl, inr}
use mathlib.Core.Bool.{Bool, true, false}
use mathlib.Core.List.{List, [], ◌∷◌, ◌++◌, append-nil, append_assoc}
use native.Mathlib.Omega.{arith}

pub record Entry (K V : Type 0) : Type 0 where
  pub key : K
  pub total : V

module _ {K V : Type 0} (same before : K → K → Bool) (zero : V) (add : V → V → V) where
  abbrev pub has_key : K → Entry K V → Bool
  has_key k e = same e.key k

  -- Before the first entry with a greater key.
  unfoldable pub place : Entry K V → List (Entry K V) → List (Entry K V)
  place n [] = n ∷ []
  place n (e ∷ es) = if before n.key e.key then n ∷ e ∷ es else e ∷ place n es

  unfoldable pub try_emplace : K → List (Entry K V) → List (Entry K V)
  try_emplace k es = if any (has_key k) es then es else place (record { key = k; total = zero }) es

  -- `it->second = add(it->second, value)`, where `it` is the entry under the key; a std::map has one.
  unfoldable pub add_under : K → V → List (Entry K V) → List (Entry K V)
  add_under k v [] = []
  add_under k v (e ∷ es) =
      (if same e.key k then record e { total = add e.total v } else e) ∷ add_under k v es

  -- One round: the entry is there, and the value is added to it.
  abbrev pub count : Entry K V → List (Entry K V) → List (Entry K V)
  count x es = add_under x.key x.total (try_emplace x.key es)

  unfoldable pub count_all : List (Entry K V) → List (Entry K V) → List (Entry K V)
  count_all [] es = es
  count_all (x ∷ xs) es = count_all xs (count x es)

  -- The sum of the values under a key, from the left.
  unfoldable pub total_of : V → K → List (Entry K V) → V
  total_of acc k [] = acc
  total_of acc k (x ∷ xs) = total_of (if same x.key k then add acc x.total else acc) k xs

  total_of-snoc :
      (acc : V) (k : K) (xs : List (Entry K V)) (x : Entry K V)
      → total_of acc k (xs ++ x ∷ [])
        ≡ (if same x.key k then add (total_of acc k xs) x.total else total_of acc k xs)
  unfolding total_of
  total_of-snoc acc k [] x = refl
  total_of-snoc acc k (y ∷ ys) x =
      total_of-snoc (if same y.key k then add acc y.total else acc) k ys x

  pub total_of-absent :
      (acc : V) (k : K) (xs : List (Entry K V))
      → any (has_key k) xs ≡ false
      → total_of acc k xs ≡ acc
  unfolding total_of
  total_of-absent acc k [] h = refl
  total_of-absent acc k (x ∷ xs) h = ground (arith, h, total_of-absent acc k xs (ground (arith, h)))

  any-place :
      (p : K → Bool) (n : Entry K V) (es : List (Entry K V))
      → any (λ e. p e.key) (place n es) ≡ (if p n.key then true else any (λ e. p e.key) es)
  unfolding place
  any-place p n [] = refl
  any-place p n (e ∷ es) = ground (arith, any-place p n es)

  any-add_under :
      (p : K → Bool) (k : K) (v : V) (es : List (Entry K V))
      → any (λ e. p e.key) (add_under k v es) ≡ any (λ e. p e.key) es
  unfolding add_under
  any-add_under p k v [] = refl
  any-add_under p k v (e ∷ es) = ground (arith, any-add_under p k v es)

  -- Each entry is the sum of what was counted under its key, and every key that was counted has one.
  pub record IsTally (seen es : List (Entry K V)) : Type 0 where
    pub sums : All (λ e. e.total ≡ total_of zero e.key seen) es
    pub keys : (k : K) → any (has_key k) es ≡ any (has_key k) seen

  module _ (equal : (x y : K) → same x y ≡ true → x ≡ y)
      (reflexive : (x : K) → same x x ≡ true) where
    same_sym : (x y : K) → same x y ≡ same y x
    same_sym x y = elim (Bool-cases (same x y)) [
      | inl same_key ↦
          ground (arith, same_key, ap (λ z. same z x) (equal x y same_key), reflexive x)
      | inr other_key ↦ elim (Bool-cases (same y x)) [
        | inl same_key ↦
            ground
              (arith, other_key, same_key, ap (λ z. same z y) (equal y x same_key), reflexive y)
        | inr neither ↦ other_key ∙ sym neither
      ]
    ]

    place-All :
        (P : Entry K V → Type 0) (n : Entry K V) (es : List (Entry K V))
        → P n
        → All P es
        → All P (place n es)
    unfolding place
    place-All P n [] h a = (h, tt)
    place-All P n (e ∷ es) h a =
        elim (before n.key e.key) as (λ c. All P (if c then n ∷ e ∷ es else e ∷ place n es)) [
          | true ↦ (h, a)
          | false ↦ (a.0, place-All P n es h a.1)
        ]

    try_emplace-All :
        (k : K) (seen es : List (Entry K V))
        → IsTally seen es
        → All (λ e. e.total ≡ total_of zero e.key seen) (try_emplace k es)
    unfolding try_emplace
    try_emplace-All k seen es t = elim (Bool-cases (any (has_key k) es)) [
      | inl there ↦ rw there t.sums
      | inr absent ↦ rw absent (
          place-All _ (record { key = k; total = zero }) es
            (sym (total_of-absent zero k seen (sym (t.keys k) ∙ absent))) t.sums)
    ]

    add_under-All :
        (x : Entry K V) (seen es : List (Entry K V))
        → All (λ e. e.total ≡ total_of zero e.key seen) es
        → All (λ e. e.total ≡ total_of zero e.key (seen ++ x ∷ [])) (add_under x.key x.total es)
    unfolding add_under
    add_under-All x seen [] a = tt
    add_under-All x seen (e ∷ es) a = (
      ground (arith, a.0, total_of-snoc zero e.key seen x, same_sym e.key x.key),
      add_under-All x seen es a.1,
    )

    try_emplace-keys :
        (x : Entry K V) (seen es : List (Entry K V))
        → IsTally seen es
        → (k : K) → any (has_key k) (try_emplace x.key es) ≡ any (has_key k) (seen ++ x ∷ [])
    unfolding try_emplace
    try_emplace-keys x seen es t k = elim (Bool-cases (same x.key k)) [
      | inl same_key ↦ ground (
        arith,
        same_key,
        any-place (λ j. same j k) (record { key = x.key; total = zero }) es,
        any-append (has_key k) seen (x ∷ []),
        ap (λ j. any (has_key j) es) (equal x.key k same_key),
        t.keys k,
      )
      | inr other_key ↦ ground (
        arith,
        other_key,
        any-place (λ j. same j k) (record { key = x.key; total = zero }) es,
        any-append (has_key k) seen (x ∷ []),
        t.keys k,
      )
    ]

    count-IsTally :
        (x : Entry K V) (seen es : List (Entry K V))
        → IsTally seen es
        → IsTally (seen ++ x ∷ []) (count x es)
    unfolding try_emplace
    count-IsTally x seen es t = record {
      sums = add_under-All x seen (try_emplace x.key es) (try_emplace-All x.key seen es t);
      keys = λ k.
          any-add_under (λ j. same j k) x.key x.total (try_emplace x.key es)
          ∙ try_emplace-keys x seen es t k;
    }

    count_all-IsTally :
        (xs seen es : List (Entry K V)) → IsTally seen es → IsTally (seen ++ xs) (count_all xs es)
    unfolding count_all
    count_all-IsTally [] seen es t = subst (λ l. IsTally l es) (sym (append-nil seen)) t
    count_all-IsTally (x ∷ xs) seen es t =
        subst (λ l. IsTally l (count_all xs (count x es))) (append_assoc seen (x ∷ []) xs)
          (count_all-IsTally xs (seen ++ x ∷ []) (count x es) (count-IsTally x seen es t))

    pub count_all-tallies : (xs : List (Entry K V)) → IsTally xs (count_all xs [])
    count_all-tallies xs = count_all-IsTally xs [] [] (record { sums = tt; keys = λ k. refl })
