-- ===== src/Rpc/QuerySplits/Mask.antt =====
-- The states that a request of QuerySplits asks for.
use daichod.Proto.{
  ReconcileState, state_unspecified, not_reconciled, cleared, reconciled, frozen, voided,
  other_state,
}
use daichod.Base.{
  ap, ◌≡◌, ◌↔◌, refl, sym, ap, ◌∙◌, Bool, true, false, Option, none, some, List, [], ◌∷◌, any,
  arith, if◌then◌else◌,
}
use daichod.Rpc.QuerySplits.{ClearedMask, no_states, add_state, mask_from, cleared_mask_from_states}

-- The flag of a state.
abbrev pub flag : ReconcileState → ClearedMask → Bool
flag not_reconciled m = m.match_no
flag cleared m = m.match_cleared
flag reconciled m = m.match_reconciled
flag frozen m = m.match_frozen
flag voided m = m.match_voided
flag _ m = false

abbrev pub same_state : ReconcileState → ReconcileState → Bool
same_state state_unspecified state_unspecified = true
same_state not_reconciled not_reconciled = true
same_state cleared cleared = true
same_state reconciled reconciled = true
same_state frozen frozen = true
same_state voided voided = true
same_state other_state other_state = true
same_state _ _ = false

abbrev pub has_no_flag : ReconcileState → Bool
has_no_flag state_unspecified = true
has_no_flag other_state = true
has_no_flag _ = false

flag-add_state :
    (s t : ReconcileState) (m n : ClearedMask)
    → add_state t m ≡ some n
    → flag s n ≡ (if same_state s t then true else flag s m)
flag-add_state s t m n h = ground arith

mask_from-flags :
    (states : List ReconcileState) (m n : ClearedMask)
    → mask_from states m ≡ some n
    → (s : ReconcileState) → flag s n ≡ (if any (same_state s) states then true else flag s m)
unfolding mask_from
mask_from-flags [] m n h s = let e : m ≡ n = ground arith in sym (ap (flag s) e)
mask_from-flags (t ∷ states) m n h s =
    by_added (add_state t m) refl h (λ m' k. mask_from-flags states m' n k s)
  where
    by_added :
        (o : Option ClearedMask)
        → add_state t m ≡ o
        → (elim o [ some m' ↦ mask_from states m' | none ↦ none ]) ≡ some n
        → ((m' : ClearedMask)
            → mask_from states m' ≡ some n
            → flag s n ≡ (if any (same_state s) states then true else flag s m'))
        → flag s n ≡ (if any (same_state s) (t ∷ states) then true else flag s m)
    by_added none e k ih = ground arith
    by_added (some m') e k ih = ground (arith, ih m' k, flag-add_state s t m m' e)

refused : (t : ReconcileState) (m : ClearedMask) → add_state t m ≡ none → has_no_flag t ≡ true
refused t m h = ground arith

taken : (t : ReconcileState) (m n : ClearedMask) → add_state t m ≡ some n → has_no_flag t ≡ false
taken t m n h = ground arith

unset : (s : ReconcileState) (b : Bool) → (if b then true else flag s no_states) ≡ b
unset s b = ground arith

mask_from-refuses :
    (states : List ReconcileState) (m : ClearedMask)
    → (mask_from states m ≡ none) ↔ (any has_no_flag states ≡ true)
unfolding mask_from
mask_from-refuses [] m = ground arith
mask_from-refuses (t ∷ states) m = by_added (add_state t m) refl (mask_from-refuses states)
  where
    by_added :
        (o : Option ClearedMask)
        → add_state t m ≡ o
        → ((m' : ClearedMask) → (mask_from states m' ≡ none) ↔ (any has_no_flag states ≡ true))
        → ((elim o [ some m' ↦ mask_from states m' | none ↦ none ]) ≡ none)
          ↔ (any has_no_flag (t ∷ states) ≡ true)
    by_added none e ih = ground (arith, refused t m e)
    by_added (some m') e ih = ground (arith, taken t m m' e, ih m')

-- The mask of a request has exactly the flags of the states that it names, and it is refused exactly if one of them has no
-- flag.
pub cleared_mask-flags :
    (states : List ReconcileState)
    → ((cleared_mask_from_states states ≡ none) ↔ (any has_no_flag states ≡ true))
      × ((m : ClearedMask)
          → cleared_mask_from_states states ≡ some m
          → (s : ReconcileState) → flag s m ≡ any (same_state s) states)
unfolding cleared_mask_from_states
cleared_mask-flags states = (
  mask_from-refuses states no_states,
  λ m h s. mask_from-flags states no_states m h s ∙ unset s (any (same_state s) states),
)
