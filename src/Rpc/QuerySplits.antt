-- ===== src/Rpc/QuerySplits.antt =====
-- QuerySplits of src/rpc/transaction_service.cpp: the reconcile states of a request, the size of its
-- page, and the loop that fills the page from what the engine's query returns. The engine's splits, its
-- GUIDs and the comparison of its amounts are parameters; the fields of SplitWithContext are copied from
-- the split, so a page holds the engine's splits.
pub mod Handler
pub mod LastKept
pub mod Mask
pub mod Scan
pub mod Pages
use daichod.Proto.{
  ReconcileState, state_unspecified, not_reconciled, cleared, reconciled, frozen, voided,
  other_state,
}
use daichod.Base.{
  ℕ, suc, ◌+◌, Bool, true, false, not, ◌&&◌, Option, none, some, List, [], ◌∷◌, ◌++◌, length, ltb,
  ◌==◌, if◌then◌else◌,
}
use daichod.Base.Int.{ℤ, pos, negsuc}
use daichod.Base.Text.{Bytes, str, empty, bytes_eq}
use daichod.Exec.{Result, ok, err}
use daichod.Rpc.Error.{shim, invalid_argument}

-- The page_size of a request, 0 or less for the default; kDefaultPageSize and kMaxPageSize.
unfoldable pub clamp_page_size : ℤ → ℕ
clamp_page_size (negsuc n) = 100
clamp_page_size (pos n) = if n == 0 then 100 else if ltb 500 n then 500 else n

-- cleared_match_t, one flag for each state.
pub record ClearedMask : Type 0 where
  pub match_no : Bool
  pub match_cleared : Bool
  pub match_reconciled : Bool
  pub match_frozen : Bool
  pub match_voided : Bool

abbrev pub no_states : ClearedMask
no_states = record {
  match_no = false;
  match_cleared = false;
  match_reconciled = false;
  match_frozen = false;
  match_voided = false;
}

abbrev pub add_state : ReconcileState → ClearedMask → Option ClearedMask
add_state not_reconciled m = some (record m { match_no = true })
add_state cleared m = some (record m { match_cleared = true })
add_state reconciled m = some (record m { match_reconciled = true })
add_state frozen m = some (record m { match_frozen = true })
add_state voided m = some (record m { match_voided = true })
add_state _ m = none

-- The loop of ClearedMaskFromStates.
unfoldable pub mask_from : List ReconcileState → ClearedMask → Option ClearedMask
mask_from [] m = some m
mask_from (state ∷ states) m = elim (add_state state m) [
  | some m' ↦ mask_from states m'
  | none ↦ none
]

-- ClearedMaskFromStates: `none` stands for the invalid_argument it throws.
unfoldable pub cleared_mask_from_states : List ReconcileState → Option ClearedMask
cleared_mask_from_states states = mask_from states no_states

pub record Query (V : Type 0) : Type 0 where
  pub page_token : Bytes
  pub page_size : ℤ
  pub value_min : Option V
  pub value_max : Option V

pub record Page (S : Type 0) : Type 0 where
  pub splits : List S
  pub next_page_token : Bytes

-- The variables of the loop.
pub record Cursor (S : Type 0) : Type 0 where
  pub skipping : Bool
  pub token_seen : Bool
  pub emitted : ℕ
  pub response : Page S

pub data Turn (S : Type 0) : Type 0 where
  goes_on : Cursor S → Turn S
  breaks : Cursor S → Turn S

-- The GUID of the last of some splits (`response->splits(emitted - 1)`), empty if there is none.
abbrev pub last_guid : {S : Type 0} → (S → Bytes) → List S → Bytes
last_guid guid [] = []
last_guid guid (s ∷ []) = guid s
last_guid guid (s ∷ t ∷ ss) = last_guid guid (t ∷ ss)

module _ {S V : Type 0} (guid : S → Bytes) (value : S → V) (compare : V → V → ℤ) where
  abbrev pub is_below : S → Option V → Bool
  is_below s none = false
  is_below s (some bound) = elim (compare (value s) bound) [ pos n ↦ false | negsuc n ↦ true ]

  abbrev pub is_above : S → Option V → Bool
  is_above s none = false
  is_above s (some bound) = elim (compare (value s) bound) [ pos n ↦ ltb 0 n | negsuc n ↦ false ]

  module _ (q : Query V) where
    -- The body of the loop.
    abbrev pub turn : S → Cursor S → Turn S
    turn split c =
        if c.skipping
        then goes_on (
            if bytes_eq (guid split) q.page_token
            then record c { skipping = false; token_seen = true }
            else c)
        else if is_below split q.value_min
        then goes_on c
        else if is_above split q.value_max
        then goes_on c
        else if c.emitted == clamp_page_size q.page_size
        then breaks (record c {
          response = record c.response { next_page_token = last_guid guid c.response.splits };
        })
        else goes_on (record c {
          emitted = c.emitted + 1;
          response = record c.response { splits = c.response.splits ++ split ∷ [] };
        })

    -- The loop over the results of the query.
    unfoldable pub scan : List S → Cursor S → Cursor S
    scan [] c = c
    scan (split ∷ rest) c = elim (turn split c) [ goes_on c' ↦ scan rest c' | breaks c' ↦ c' ]

    abbrev pub begin : Cursor S
    begin = record {
      skipping = not (empty q.page_token);
      token_seen = false;
      emitted = 0;
      response = record { splits = []; next_page_token = [] };
    }

    -- What follows the loop.
    abbrev pub conclude : Cursor S → Result (Page S)
    conclude c =
        if c.skipping && not c.token_seen
        then err (
            shim (record {
              code = invalid_argument;
              engine_message = str "page_token does not match any current result";
              context = str "page_token";
            }))
        else ok c.response

    -- QuerySplits, on the results of the engine's query.
    unfoldable pub query_splits : List S → Result (Page S)
    query_splits results = conclude (scan results begin)
