-- ===== src/Tests/Objects.antt =====
-- A small engine: a book of numbered accounts, of transactions with one description and one time of entry, and of two splits.
use daichod.Base.{
  ℕ, zero, suc, ◌==◌, ◌||◌, Bool, true, false, Option, none, some, [], ◌∷◌, ltb, if◌then◌else◌,
}
use daichod.Base.Int.{ℤ, pos, negsuc, ◌+ℤ◌}
use daichod.Base.Text.{Bytes, str}
use daichod.Engine.Map.{GDate, ReconcileFlags, acct_bank}
use daichod.Engine.Objects.{
  Chance, Objects, Call, trans_set_date_entered, trans_set_description, account_append_child,
  account_set_name, account_destroy, pricedb_add_price,
}
use daichod.Proto.{Numeric}

pub record Book : Type 0 where
  pub transactions : ℕ
  pub entered : ℤ
  pub description : Bytes
  pub parents : ℕ → Option ℕ
  pub names : ℕ → Option Bytes
  pub prices : ℕ → Bool

abbrev pub toy_perform : Call ℕ ℕ ℕ ℕ ℕ → Book → Book
toy_perform (trans_set_date_entered t x) b = record b { entered = x }
toy_perform (trans_set_description t d) b = record b { description = d }
toy_perform (account_append_child p a) b = record b {
  parents = λ x. if x == a then some p else b.parents x;
}
toy_perform (account_set_name a n) b = record b {
  names = λ x. if x == a then some n else b.names x;
}
toy_perform (account_destroy a) b = record b { names = λ x. if x == a then none else b.names x }
toy_perform (pricedb_add_price p) b = record b { prices = λ x. x == p || b.prices x }
toy_perform _ b = b

abbrev pub below_root : ℕ → Option ℕ
below_root zero = none
below_root (suc n) = some 0

abbrev pub number_in : Bytes → Option ℕ
number_in [] = none
number_in (n ∷ s) = some n

abbrev pub amount_of : ℕ → Numeric
amount_of zero = record { num = pos 5; denom = pos 1 }
amount_of (suc n) = record { num = negsuc 4; denom = pos 1 }

abbrev pub is_zero : ℤ → Bool
is_zero (pos n) = n == 0
is_zero (negsuc n) = false

abbrev pub letters : ReconcileFlags
letters = record { nrec = b'n'; crec = b'c'; yrec = b'y'; frec = b'f'; vrec = b'v' }

abbrev pub some_day : GDate
some_day = record { g_year = 2026; g_month = 11; g_day = 25 }

abbrev pub nil : Numeric
nil = record { num = pos 0; denom = pos 1 }

abbrev pub toy : Objects Book ℕ ℕ ℕ ℕ ℕ ℕ
toy = record {
  perform = toy_perform;
  malloc_account = λ b. (9, b);
  malloc_transaction = λ b. (b.transactions, record b { transactions = suc b.transactions });
  malloc_split = λ b. (9, b);
  price_create = λ b. (9, b);
  string_to_guid = number_in;
  guid_to_string = λ g. g ∷ [];
  account_lookup = λ b g. some g;
  trans_lookup = λ b g. if ltb g b.transactions then some g else none;
  price_lookup = λ b g. none;
  commodity_lookup = λ b s m. some 0;
  commodity_space = λ c. str "CURRENCY";
  commodity_mnemonic = λ c. str "EUR";
  commodity_fullname = λ c. none;
  commodity_fraction = λ c. pos 100;
  is_currency = λ c. true;
  namespaces = λ b. [];
  commodities_of = λ b s. [];
  root_account = λ b. 0;
  same_account = λ a c. a == c;
  account_guid = λ a. a;
  account_parent = λ b a. b.parents a;
  account_name = λ b a. b.names a;
  account_type = λ b a. acct_bank;
  account_commodity = λ b a. some 0;
  account_code = λ b a. none;
  account_description = λ b a. none;
  account_placeholder = λ b a. false;
  account_hidden = λ b a. false;
  account_has_splits = λ b a. false;
  account_n_children = λ b a. 0;
  descendants_sorted = λ b a. [];
  reconcile_last_date = λ b a. none;
  reconciled_balance = λ b a. nil;
  balance_as_of = λ b a x c f. nil;
  trans_guid = λ t. t;
  trans_currency = λ b t. some 0;
  trans_date_posted = λ b t. some some_day;
  trans_date_entered = λ b t. b.entered;
  trans_num = λ b t. none;
  trans_description = λ b t. some b.description;
  trans_splits = λ b t. [];
  imbalance_value = λ b t. nil;
  split_guid = λ s. s;
  split_account = λ b s. 1;
  split_parent = λ b s. 0;
  split_value = λ b s. amount_of s;
  split_amount = λ b s. amount_of s;
  split_memo = λ b s. none;
  split_action = λ b s. none;
  split_reconcile = λ b s. b'n';
  split_destroying = λ b s. false;
  all_splits = λ b. 0 ∷ 1 ∷ [];
  price_guid = λ p. p;
  price_commodity = λ b p. 0;
  price_currency = λ b p. 0;
  price_time64 = λ b p. pos 0;
  price_value = λ b p. nil;
  price_source = λ b p. none;
  prices_of = λ b c o. [];
  is_valid_dmy = λ d. true;
  dmy2time64 = λ d. pos 0;
  dmy2time64_end = λ d. pos 0;
  dmy2time64_neutral = λ d. pos 0;
  time64_to_gdate = λ x. none;
  now = pos 77;
  show_date = λ d. [];
  show_index = λ i. [];
  flags = letters;
  numeric_add = λ a b. record { num = a.num +ℤ b.num; denom = pos 1 };
  numeric_is_ok = λ n. true;
  numeric_is_zero = λ n. is_zero n.num;
  numeric_text = λ n. [];
}

-- The same, where an account is found while it has a name, and a price once the price database has it.
abbrev pub named_when : ℕ → Option Bytes → Option ℕ
named_when g none = none
named_when g (some n) = some g

abbrev pub registry : Objects Book ℕ ℕ ℕ ℕ ℕ ℕ
registry = record toy {
  account_lookup = λ b g. named_when g (b.names g);
  price_lookup = λ b g. if b.prices g then some g else none;
}

-- What the engine draws for another request.
abbrev pub next_chance : Chance Book ℕ ℕ ℕ ℕ
next_chance = record {
  reads_now = pos 88;
  draws_account = λ b. (8, b);
  draws_transaction = λ b. (7, record b { transactions = suc b.transactions });
  draws_split = λ b. (8, b);
  draws_price = λ b. (8, b);
}
