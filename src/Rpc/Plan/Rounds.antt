-- ===== src/Rpc/Plan/Rounds.antt =====
-- What the loop over the splits adds to a plan.
use daichod.Rpc.Plan.Types.{Lookups, SplitPlan, Keyed, Progress}
use daichod.Proto.{SplitSpec}
use daichod.Proto.{Numeric}
use mathlib.Core.List.{append-nil, append_assoc}
use daichod.Base.{
  subst, if◌then◌else◌, ℕ, ◌+◌, ◌≡◌, refl, sym, ap, ap₂, ◌∙◌, Bool, false, ◌||◌, Option, none, some,
  List, [], ◌∷◌, ◌++◌, map, All, arith,
}
use daichod.Base.Text.{Bytes, str, empty, bytes_eq}
use daichod.Exec.{ok}
use daichod.Rpc.Plan.{resolve, find_split, is_claimed, plan_split, plan_splits}
use daichod.Rpc.Plan.Balanced.{and_then-ok, IsPositive, total_from, Round, plan_split-Round}

-- The split that a spec names, of those of the transaction.
abbrev pub named_split : {S : Type 0} → Option (List (Keyed S)) → SplitSpec → Option S
named_split none spec = none
named_split (some known) spec = if empty spec.guid then none else find_split spec.guid known

-- Does some spec name the GUID?
abbrev pub is_named : Bytes → List SplitSpec → Bool
is_named guid [] = false
is_named guid (spec ∷ specs) =
    (if empty spec.guid then false else bytes_eq spec.guid guid) || is_named guid specs

module _ {C A S : Type 0} (engine : Lookups C A) (engine_splits : Option (List (Keyed S))) where
  resolve-named :
      (claimed : List Bytes) (spec : SplitSpec) (field : Bytes) (o : Option S)
      → resolve engine engine_splits claimed spec field ≡ ok o
      → o ≡ named_split engine_splits spec
  resolve-named claimed spec field o h = ground arith

  -- What the loop adds.
  pub record Rounds (specs : List SplitSpec) (p p' : Progress A S) : Type 0 where
    pub added : List (SplitPlan A S)
    pub appended : p'.splits ≡ p.splits ++ added
    pub summed : p'.sum ≡ total_from engine p.sum added
    pub values : map (λ s. s.value) added ≡ map (λ s. s.value) specs
    pub reused : map (λ s. s.existing) added ≡ map (named_split engine_splits) specs
    pub positive : All (λ s. IsPositive s.value × IsPositive s.quantity) added
    pub claims :
        (guid : Bytes)
        → is_claimed guid p'.claimed ≡ (is_named guid specs || is_claimed guid p.claimed)

  Rounds-nil : (p : Progress A S) → Rounds [] p p
  Rounds-nil p = record {
    added = [];
    appended = sym (append-nil p.splits);
    summed = refl;
    values = refl;
    reused = refl;
    positive = tt;
    claims = λ guid. refl;
  }

  claims-more :
      (spec : SplitSpec) (specs : List SplitSpec) (guid : Bytes) (before between after : List Bytes)
      → between ≡ (if empty spec.guid then before else spec.guid ∷ before)
      → is_claimed guid after ≡ (is_named guid specs || is_claimed guid between)
      → is_claimed guid after ≡ (is_named guid (spec ∷ specs) || is_claimed guid before)
  claims-more spec specs guid before between after e k = ground (arith, ap (is_claimed guid) e)

  Rounds-cons :
      (spec : SplitSpec) (specs : List SplitSpec) (field : Bytes) (p q p' : Progress A S)
      → Round engine engine_splits spec field p q
      → Rounds specs q p'
      → Rounds (spec ∷ specs) p p'
  Rounds-cons spec specs field p q p' one more = record {
    added = one.planned ∷ more.added;
    appended =
        more.appended
        ∙ ap (λ (ss : List (SplitPlan A S)). ss ++ more.added) one.appended
        ∙ append_assoc p.splits (one.planned ∷ []) more.added;
    summed = more.summed ∙ ap (λ (n : Numeric). total_from engine n more.added) one.summed;
    values = ap₂ (λ (n : Numeric) (ns : List Numeric). n ∷ ns) (sym one.same_value) more.values;
    reused =
        ap₂ (λ (o : Option S) (os : List (Option S)). o ∷ os)
          (resolve-named p.claimed spec field one.planned.existing one.resolved) more.reused;
    positive = ((one.value_positive, one.quantity_positive), more.positive);
    claims = λ guid.
        claims-more spec specs guid p.claimed q.claimed p'.claimed one.claims (more.claims guid);
  }

  pub plan_splits-Rounds :
      (i : ℕ) (specs : List SplitSpec) (p p' : Progress A S)
      → plan_splits engine engine_splits i specs p ≡ ok p'
      → Rounds specs p p'
  unfolding plan_splits
  plan_splits-Rounds i [] p p' h =
      let same : p ≡ p' = ground arith in subst (Rounds [] p) same (Rounds-nil p)
  plan_splits-Rounds i (spec ∷ specs) p p' h =
      let field = str "transaction.splits[" ++ (engine.show_index i ++ str "]") in
      let (q, e, k) =
        and_then-ok (plan_split engine engine_splits spec field p)
          (plan_splits engine engine_splits (i + 1) specs) p' h in
      Rounds-cons spec specs field p q p' (plan_split-Round engine engine_splits spec field p q e)
        (plan_splits-Rounds (i + 1) specs q p' k)
