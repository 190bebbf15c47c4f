-- ===== src/Engine/Checks/Sums.antt =====
-- The sums of RunStartupChecks under its joined keys, and those of GetTrialBalance under pairs.
use daichod.Base.{
  Bool, true, false, ◌&&◌, ◌==◌, ◌≡◌, refl, ap, ◌∙◌, Bool-cases, inl, inr, any, All, Option, none,
  some, List, [], ◌∷◌, ◌++◌, map, if◌then◌else◌, arith,
}
use daichod.Base.Text.{Bytes, str, bytes_eq, bytes_eq_iff, bytes_eq_refl, bytes_lt}
use daichod.Base.Totals.{Entry, total_of, has_key}
use daichod.Engine.Objects.{Objects}
use daichod.Engine.Convert.{commodity_id_to_proto}
use daichod.Proto.{CommodityId, Numeric}
use daichod.Rpc.Plan.Types.{zero_numeric}
use daichod.Engine.Checks.{same_id, id_before, joined, values_by}

-- A text without a colon.
abbrev pub IsColonless : Bytes → Type 0
IsColonless s = any (λ b. b == 58) s ≡ false

joined-same :
    (s s' m m' : Bytes)
    → IsColonless s
    → IsColonless s'
    → bytes_eq (s ++ (str ":" ++ m)) (s' ++ (str ":" ++ m')) ≡ (bytes_eq s s' && bytes_eq m m')
unfolding bytes_eq str
joined-same [] [] m m' h h' = ground arith
joined-same [] (b ∷ bs) m m' h h' = ground (arith, h')
joined-same (a ∷ s) [] m m' h h' = ground (arith, h)
joined-same (a ∷ s) (b ∷ t) m m' h h' =
    ground (arith, h, h', joined-same s t m m' (ground (arith, h)) (ground (arith, h')))

pub same_id-eq : (k l : CommodityId) → same_id k l ≡ true → k ≡ l
unfolding same_id
same_id-eq k l h =
    ground (arith, h, bytes_eq_iff k.space l.space, bytes_eq_iff k.mnemonic l.mnemonic)

pub same_id_refl : (k : CommodityId) → same_id k k ≡ true
unfolding same_id
same_id_refl k = ground (arith, bytes_eq_refl k.space, bytes_eq_refl k.mnemonic)

module _ {B G C A T S P : Type 0} (e : Objects B G C A T S P) where
  pub Colonless : List (Entry CommodityId Numeric) → Type 0
  Colonless = All (λ x. IsColonless x.key.space)

  pub rekey : Entry CommodityId Numeric → Entry Bytes Numeric
  rekey x = record { key = joined x.key; total = x.total }

  pub values_by-joined :
      (b : B) (ss : List S) → values_by e joined b ss ≡ map rekey (values_by e (λ k. k) b ss)
  unfolding values_by rekey
  values_by-joined b [] = refl
  values_by-joined b (s ∷ ss) =
      elim (e.trans_currency b (e.split_parent b s))
        as (λ (o : Option C).
          (elim o [
            | none ↦ values_by e joined b ss
            | some c ↦
                record { key = joined (commodity_id_to_proto e c); total = e.split_value b s }
                ∷ values_by e joined b ss
          ])
          ≡ map rekey (elim o [
            | none ↦ values_by e (λ k. k) b ss
            | some c ↦
                record { key = commodity_id_to_proto e c; total = e.split_value b s }
                ∷ values_by e (λ k. k) b ss
          ])) [
            | none ↦ values_by-joined b ss
            | some c ↦
                ap
                  (λ xs.
                    record { key = joined (commodity_id_to_proto e c); total = e.split_value b s }
                    ∷ xs)
                  (values_by-joined b ss)
          ]

  -- Under keys without a colon the joined key sums what the pair sums.
  pub total_of-rekey :
      (acc : Numeric) (k : CommodityId) (xs : List (Entry CommodityId Numeric))
      → IsColonless k.space
      → Colonless xs
      → total_of bytes_eq bytes_lt zero_numeric e.numeric_add acc (joined k) (map rekey xs)
        ≡ total_of same_id id_before zero_numeric e.numeric_add acc k xs
  unfolding total_of same_id Colonless rekey
  total_of-rekey acc k [] h hs = refl
  total_of-rekey acc k (x ∷ xs) h hs =
      ap
        (λ (c : Bool).
          total_of bytes_eq bytes_lt zero_numeric e.numeric_add
            (if c then e.numeric_add acc x.total else acc) (joined k) (map rekey xs))
        (joined-same x.key.space k.space x.key.mnemonic k.mnemonic hs.0 h)
      ∙ total_of-rekey (if same_id x.key k then e.numeric_add acc x.total else acc) k xs h hs.1

  pub Colonless-key :
      (k : CommodityId) (xs : List (Entry CommodityId Numeric))
      → Colonless xs
      → any (has_key same_id id_before zero_numeric e.numeric_add k) xs ≡ true
      → IsColonless k.space
  unfolding Colonless
  Colonless-key k [] c h = ground arith
  Colonless-key k (x ∷ xs) c h = elim (Bool-cases (same_id x.key k)) [
    | inl same ↦
        ground (
          arith,
          c.0,
          ap (λ (l : CommodityId). any (λ b. b == 58) l.space) (same_id-eq x.key k same),
        )
    | inr other ↦ Colonless-key k xs c.1 (ground (arith, other, h))
  ]

  pub values_by-Colonless :
      ((c : C) → IsColonless (e.commodity_space c))
      → (b : B) (ss : List S) → Colonless (values_by e (λ k. k) b ss)
  unfolding Colonless values_by
  values_by-Colonless colonless b [] = tt
  values_by-Colonless colonless b (s ∷ ss) =
      elim (e.trans_currency b (e.split_parent b s))
        as (λ (o : Option C).
          All (λ x. IsColonless x.key.space)
            (elim o [
              | none ↦ values_by e (λ k. k) b ss
              | some c ↦
                  record { key = commodity_id_to_proto e c; total = e.split_value b s }
                  ∷ values_by e (λ k. k) b ss
            ])) [
              | none ↦ values_by-Colonless colonless b ss
              | some c ↦ (colonless c, values_by-Colonless colonless b ss)
            ]
