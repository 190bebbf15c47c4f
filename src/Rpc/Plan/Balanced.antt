-- ===== src/Rpc/Plan/Balanced.antt =====
-- The rounds of the loop over the splits.
use daichod.Rpc.Plan.Types.{Lookups, SplitPlan, Keyed, Progress, and_then}
use daichod.Proto.{SplitSpec}
use daichod.Proto.{Numeric}
use daichod.Base.{if◌then◌else◌, ◌≡◌, refl, true, Option, List, [], ◌∷◌, ◌++◌, arith}
use daichod.Base.Int.{pos, ltb_ℤ}
use daichod.Base.Text.{Bytes, str, empty}
use daichod.Exec.{Result, ok, err, aborted}
use daichod.Engine.Map.{numeric_from_proto}
use daichod.Rpc.Plan.{resolve, reconcile_of, add_split, plan_split}

pub and_then-ok :
    {A B : Type 0} (r : Result A) (f : A → Result B) (b : B)
    → and_then r f ≡ ok b
    → (a : A) × (r ≡ ok a) × (f a ≡ ok b)
and_then-ok (ok a) f b h = (a, refl, h)
and_then-ok (err e) f b h = ground arith
and_then-ok aborted f b h = ground arith

-- Five results, and what is built of them.
all_five :
    {A1 A2 A3 A4 A5 B : Type 0} (r1 : Result A1) (r2 : Result A2) (r3 : Result A3) (r4 : Result A4)
    (r5 : Result A5) (build : A1 → A2 → A3 → A4 → A5 → Result B) (b : B)
    → and_then r1 (λ a1.
      and_then r2
        (λ a2. and_then r3 (λ a3. and_then r4 (λ a4. and_then r5 (λ a5. build a1 a2 a3 a4 a5)))))
      ≡ ok b
    → (a1 : A1) × (a2 : A2) × (a3 : A3) × (a4 : A4) × (a5 : A5) × (r1 ≡ ok a1)
      × (r3 ≡ ok a3)
      × (r4 ≡ ok a4)
      × (build a1 a2 a3 a4 a5 ≡ ok b)
all_five r1 r2 r3 r4 r5 build b h =
    let (a1, e1, h1) =
      and_then-ok r1
        (λ a1.
          and_then r2 (λ a2.
            and_then r3 (λ a3. and_then r4 (λ a4. and_then r5 (λ a5. build a1 a2 a3 a4 a5)))))
        b h in
    let (a2, e2, h2) =
      and_then-ok r2
        (λ a2. and_then r3 (λ a3. and_then r4 (λ a4. and_then r5 (λ a5. build a1 a2 a3 a4 a5)))) b
        h1 in
    let (a3, e3, h3) =
      and_then-ok r3 (λ a3. and_then r4 (λ a4. and_then r5 (λ a5. build a1 a2 a3 a4 a5))) b h2 in
    let (a4, e4, h4) = and_then-ok r4 (λ a4. and_then r5 (λ a5. build a1 a2 a3 a4 a5)) b h3 in
    let (a5, e5, h5) = and_then-ok r5 (λ a5. build a1 a2 a3 a4 a5) b h4 in
    (a1, a2, a3, a4, a5, e1, e3, e4, h5)

abbrev pub IsPositive : Numeric → Type 0
IsPositive n = ltb_ℤ (pos 0) n.denom ≡ true

numeric_from_proto-ok :
    (n m : Numeric) (c : Bytes) → numeric_from_proto n c ≡ ok m → (n ≡ m) × IsPositive m
unfolding numeric_from_proto
numeric_from_proto-ok n m c h = ground arith

module _ {C A S : Type 0} (engine : Lookups C A) where
  -- The engine's sum of the values, from the left.
  abbrev pub total_from : Numeric → List (SplitPlan A S) → Numeric
  total_from sum [] = sum
  total_from sum (s ∷ ss) = total_from (engine.numeric_add sum s.value) ss

  total_from-snoc :
      (sum : Numeric) (ss : List (SplitPlan A S)) (s : SplitPlan A S)
      → total_from sum (ss ++ s ∷ []) ≡ engine.numeric_add (total_from sum ss) s.value
  total_from-snoc sum [] s = refl
  total_from-snoc sum (t ∷ ss) s = total_from-snoc (engine.numeric_add sum t.value) ss s

  -- What one round of the loop adds.
  pub record Round (engine_splits : Option (List (Keyed S))) (spec : SplitSpec) (field : Bytes)
      (p p' : Progress A S) : Type 0 where
    pub planned : SplitPlan A S
    pub appended : p'.splits ≡ p.splits ++ planned ∷ []
    pub summed : p'.sum ≡ engine.numeric_add p.sum planned.value
    pub same_value : spec.value ≡ planned.value
    pub value_positive : IsPositive planned.value
    pub quantity_positive : IsPositive planned.quantity
    pub resolved : resolve engine engine_splits p.claimed spec field ≡ ok planned.existing
    pub claims : p'.claimed ≡ (if empty spec.guid then p.claimed else spec.guid ∷ p.claimed)

  pub plan_split-Round :
      (engine_splits : Option (List (Keyed S))) (spec : SplitSpec) (field : Bytes)
      (p p' : Progress A S)
      → plan_split engine engine_splits spec field p ≡ ok p'
      → Round engine_splits spec field p p'
  unfolding plan_split
  plan_split-Round engine_splits spec field p p' h =
      let (existing, account, value, quantity, reconcile, e1, e3, e4, built) =
        all_five (resolve engine engine_splits p.claimed spec field)
          (engine.find_account spec.account_guid (field ++ str ".account_guid"))
          (numeric_from_proto spec.value (field ++ str ".value"))
          (numeric_from_proto spec.quantity (field ++ str ".quantity"))
          (reconcile_of engine spec field) (add_split engine spec field p) p' h in
      let (same_v, pos_v) = numeric_from_proto-ok spec.value value (field ++ str ".value") e3 in
      let (same_q, pos_q) =
        numeric_from_proto-ok spec.quantity quantity (field ++ str ".quantity") e4 in
      record {
        planned = record {
          existing = existing;
          account = account;
          value = value;
          quantity = quantity;
          memo = spec.memo;
          action = spec.action;
          reconcile = reconcile;
        };
        appended = ground arith;
        summed = ground arith;
        same_value = same_v;
        value_positive = pos_v;
        quantity_positive = pos_q;
        resolved = e1;
        claims = ground arith;
      }
