-- ===== src/Rpc/QuerySplits/LastKept.antt =====
-- The last split of a list that passes a test, and what stands around a split.
use daichod.Base.{
  any-append, ℕ, ◌≤◌, ◌<◌, ◌≡◌, refl, ap, ◌⊎◌, inl, inr, Bool, false, List, [], ◌∷◌, ◌++◌, length,
  keep, any, All, arith,
}
use daichod.Base.Text.{bytes_eq_iff, Bytes}
use daichod.Base.Keyed.{has, Unique}
use daichod.Rpc.QuerySplits.{last_guid}

-- The last split that passes, and what stands around it.
pub record LastKept {S : Type 0} (p : S → Bool) (guid : S → Bytes) (l : List S) : Type 0 where
  pub front : List S
  pub last : S
  pub back : List S
  pub split_at : l ≡ front ++ last ∷ back
  pub kept : keep p l ≡ keep p (front ++ last ∷ [])
  pub none_behind : keep p back ≡ []
  pub names : last_guid guid (keep p l) ≡ guid last

no_length : {S : Type 0} (xs : List S) → length xs ≡ 0 → xs ≡ []
no_length [] h = refl
no_length (x ∷ xs) h = absurd (omega arith)

last_guid-cons :
    {S : Type 0} (guid : S → Bytes) (s : S) (xs : List S)
    → 0 < length xs
    → last_guid guid (s ∷ xs) ≡ last_guid guid xs
last_guid-cons guid s [] h = absurd (omega arith)
last_guid-cons guid s (x ∷ xs) h = refl

ltb_cases : (a b : ℕ) → (a < b) ⊎ (b ≤ a)
ltb_cases a b = ground arith

module _ {S : Type 0} (guid : S → Bytes) where
  pub any-before :
      (xs : List S) (s : S) (ys : List S)
      → Unique guid (xs ++ s ∷ ys)
      → any (has guid (guid s)) xs ≡ false
  any-before [] s ys u = refl
  any-before (x ∷ xs) s ys u = ground (
    arith,
    any-before xs s ys u.1,
    any-append (has guid (guid x)) xs (s ∷ ys),
    bytes_eq_iff (guid x) (guid s),
    bytes_eq_iff (guid s) (guid x),
    u.0,
  )

  pub All-at : (P : S → Type 0) (xs : List S) (s : S) (ys : List S) → All P (xs ++ s ∷ ys) → P s
  All-at P [] s ys h = h.0
  All-at P (x ∷ xs) s ys h = All-at P xs s ys h.1

pub last_kept :
    {S : Type 0} (p : S → Bool) (guid : S → Bytes) (l : List S)
    → 0 < length (keep p l)
    → LastKept p guid l
last_kept p guid [] h = absurd (omega arith)
last_kept {S = S} p guid (s ∷ l) h = elim (ltb_cases 0 (length (keep p l))) [
  | inl more ↦
      let k = last_kept p guid l more in
      record {
        front = s ∷ k.front;
        last = k.last;
        back = k.back;
        split_at = ap (λ (r : List S). s ∷ r) k.split_at;
        kept = ground (arith, k.kept);
        none_behind = k.none_behind;
        names = ground (arith, k.names, last_guid-cons guid s (keep p l) more);
      }
  | inr no_more ↦ record {
    front = [];
    last = s;
    back = l;
    split_at = refl;
    kept = ground (arith, no_length (keep p l) (omega (arith, no_more)));
    none_behind = no_length (keep p l) (omega (arith, no_more));
    names = ground (arith, no_length (keep p l) (omega (arith, no_more)));
  }
]
