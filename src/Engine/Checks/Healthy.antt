-- ===== src/Engine/Checks/Healthy.antt =====
-- The startup checks and the trial balance.
use daichod.Base.{true, false, ◌≡◌, ap, ◌∙◌, Bool-cases, inl, inr, any, All, List, [], ◌∷◌, arith}
use daichod.Base.Text.{Bytes, empty, bytes_eq, bytes_eq_iff, bytes_eq_refl, bytes_lt}
use daichod.Base.Totals.{Entry, total_of, has_key, count_all-tallies, total_of-absent}
use daichod.Exec.{ok}
use daichod.Engine.Objects.{Objects}
use daichod.Engine.Session.{Session}
use daichod.Proto.{CommodityId, Numeric}
use daichod.Rpc.Plan.Types.{zero_numeric}
use daichod.Engine.Checks.Sums.{
  IsColonless, same_id-eq, same_id_refl, values_by-joined, total_of-rekey, Colonless-key,
  values_by-Colonless,
}
use daichod.Engine.Checks.{
  same_id, id_before, joined, values_by, imbalanced, check_sums, startup_sums, run_startup_checks,
  trial_balance,
}

module _ {B G C A T S P : Type 0} (e : Objects B G C A T S P) where
  check_sums-ok :
      (es : List (Entry Bytes Numeric))
      → check_sums e es ≡ ok tt
      → All (λ x. e.numeric_is_zero x.total ≡ true) es
  unfolding check_sums
  check_sums-ok [] h = tt
  check_sums-ok (x ∷ xs) h = (ground (arith, h), check_sums-ok xs (ground (arith, h)))

  imbalanced-empty :
      ((t : T) → empty (e.guid_to_string (e.trans_guid t)) ≡ false)
      → (b : B) (ss : List S) (text : Bytes) → empty (imbalanced e b text ss) ≡ true
      → (empty text ≡ true)
        × All (λ s. e.numeric_is_zero (e.imbalance_value b (e.split_parent b s)) ≡ true) ss
  unfolding imbalanced
  imbalanced-empty named b [] text h = (h, tt)
  imbalanced-empty named b (s ∷ ss) text h =
      let rest = imbalanced-empty named b ss _ h in
      elim (Bool-cases (e.numeric_is_zero (e.imbalance_value b (e.split_parent b s)))) [
        | inl balanced ↦ (ground (arith, rest.0, balanced), (balanced, rest.1))
        | inr not_balanced ↦ ground (arith, rest.0, not_balanced, named (e.split_parent b s))
      ]

  abbrev IsZero : Numeric → Type 0
  IsZero n = e.numeric_is_zero n ≡ true

  -- Where every entry is zero, the sum under a key is.
  entry-IsZero :
      (seen es : List (Entry Bytes Numeric)) (k : Bytes)
      → All (λ x. IsZero x.total) es
      → All
          (λ x.
            x.total ≡ total_of bytes_eq bytes_lt zero_numeric e.numeric_add zero_numeric x.key seen)
          es
      → any (has_key bytes_eq bytes_lt zero_numeric e.numeric_add k) es ≡ true
      → IsZero (total_of bytes_eq bytes_lt zero_numeric e.numeric_add zero_numeric k seen)
  entry-IsZero seen [] k z t h = ground arith
  entry-IsZero seen (x ∷ xs) k z t h = elim (Bool-cases (bytes_eq x.key k)) [
    | inl same ↦ ground (
      arith,
      z.0,
      t.0,
      ap (λ (j : Bytes). total_of bytes_eq bytes_lt zero_numeric e.numeric_add zero_numeric j seen)
          ((bytes_eq_iff x.key k).0 same),
    )
    | inr other ↦ entry-IsZero seen xs k z.1 t.1 (ground (arith, other, h))
  ]

  -- The sum of a currency is zero if the checks found every sum to be.
  sum-IsZero :
      (b : B)
      → ((c : C) → IsColonless (e.commodity_space c))
      → IsZero zero_numeric
      → All (λ x. IsZero x.total) (startup_sums e b)
      → (k : CommodityId)
      → IsZero (
          total_of same_id id_before zero_numeric e.numeric_add zero_numeric k
            (values_by e (λ k. k) b (e.all_splits b)))
  sum-IsZero b colonless zero zeros k =
      let xs = values_by e (λ k. k) b (e.all_splits b) in
      let ys = values_by e joined b (e.all_splits b) in
      let tally =
        count_all-tallies bytes_eq bytes_lt zero_numeric e.numeric_add (λ x y. (bytes_eq_iff x y).0)
          bytes_eq_refl ys in
      elim (Bool-cases (any (has_key same_id id_before zero_numeric e.numeric_add k) xs)) [
        | inr absent ↦ ground (
          arith,
          zero,
          total_of-absent same_id id_before zero_numeric e.numeric_add zero_numeric k xs absent,
        )
        | inl there ↦
            let same =
              ap (total_of bytes_eq bytes_lt zero_numeric e.numeric_add zero_numeric (joined k))
                (values_by-joined e b (e.all_splits b))
              ∙ total_of-rekey e zero_numeric k xs
                  (Colonless-key e k xs (values_by-Colonless e colonless b (e.all_splits b)) there)
                  (values_by-Colonless e colonless b (e.all_splits b)) in
            elim (Bool-cases
              (any (has_key bytes_eq bytes_lt zero_numeric e.numeric_add (joined k)) ys)) [
                | inr absent ↦ ground (
                  arith,
                  zero,
                  same,
                  total_of-absent bytes_eq bytes_lt zero_numeric e.numeric_add zero_numeric
                      (joined k) ys absent,
                )
                | inl listed ↦ ground (
                  arith,
                  same,
                  entry-IsZero ys (startup_sums e b) (joined k) zeros tally.sums
                      (tally.keys (joined k) ∙ listed),
                )
              ]
      ]

  All-IsZero :
      (es : List (Entry CommodityId Numeric)) (sum : CommodityId → Numeric)
      → ((k : CommodityId) → IsZero (sum k))
      → All (λ x. x.total ≡ sum x.key) es
      → All (λ x. IsZero x.total) es
  All-IsZero [] sum h a = tt
  All-IsZero (x ∷ xs) sum h a = (ground (arith, h x.key, a.0), All-IsZero xs sum h a.1)

  -- If the startup checks pass, no split is in a transaction that is out of balance, and every entry of GetTrialBalance is
  -- zero; where no namespace has a colon, no GUID's text is empty, and the engine takes 0/1 for zero.
  pub startup_checks-IsHealthy :
      (session : Session) (b : B)
      → ((t : T) → empty (e.guid_to_string (e.trans_guid t)) ≡ false)
      → ((c : C) → IsColonless (e.commodity_space c))
      → e.numeric_is_zero zero_numeric ≡ true
      → run_startup_checks e session b ≡ ok tt
      → All
          (λ s. e.numeric_is_zero (e.imbalance_value b (e.split_parent b s)) ≡ true)
          (e.all_splits b)
        × All (λ x. e.numeric_is_zero x.total ≡ true) (trial_balance e b)
  unfolding run_startup_checks
  startup_checks-IsHealthy session b named colonless zero h =
      let balanced : empty (imbalanced e b [] (e.all_splits b)) ≡ true = ground (arith, h) in
      let zeros = check_sums-ok (startup_sums e b) (ground (arith, h)) in
      let xs = values_by e (λ k. k) b (e.all_splits b) in
      (
        (imbalanced-empty named b (e.all_splits b) [] balanced).1,
        All-IsZero (trial_balance e b)
            (λ k. total_of same_id id_before zero_numeric e.numeric_add zero_numeric k xs)
            (sum-IsZero b colonless zero zeros)
            (count_all-tallies same_id id_before zero_numeric e.numeric_add same_id-eq same_id_refl
              xs).sums,
      )
