-- ===== src/Tests/Toy.antt =====
-- Concrete codecs, and a ledger as the engine's book.
use daichod.Base.{
  ℕ, zero, suc, ◌≡◌, refl, Bool, true, false, Option, none, some, List, [], ◌∷◌, ◌++◌, length,
}
use daichod.Base.Text.{Bytes, take, drop, str}
use daichod.Base.Find.{take-append, drop-append}
use daichod.Base.Codec.{Codec}
use daichod.Journal.{Outcome}
use daichod.World.{Backend}
use daichod.Rpc.Error.{
  ErrorCode, unspecified, unbalanced_transaction, account_not_found, txn_not_found,
  commodity_not_found, currency_mismatch, account_not_empty, read_only_book, book_locked,
  book_not_open, invalid_argument, indeterminate_mutation, engine_error,
}

-- A field with its length in front.
pub frame : Bytes → Bytes → Bytes
frame s rest = length s ∷ (s ++ rest)

abbrev pub head_of : Bytes → Bytes
head_of [] = []
head_of (n ∷ s) = take n s

abbrev rest_of : Bytes → Bytes
rest_of [] = []
rest_of (n ∷ s) = drop n s

pub head_of-frame : (s t : Bytes) → head_of (frame s t) ≡ s
unfolding frame
head_of-frame s t = take-append s t

rest_of-frame : (s t : Bytes) → rest_of (frame s t) ≡ t
unfolding frame
rest_of-frame s t = drop-append s t

code_number : ErrorCode → ℕ
code_number unspecified = 0
code_number unbalanced_transaction = 1
code_number account_not_found = 2
code_number txn_not_found = 3
code_number commodity_not_found = 4
code_number currency_mismatch = 5
code_number account_not_empty = 6
code_number read_only_book = 7
code_number book_locked = 8
code_number book_not_open = 9
code_number invalid_argument = 10
code_number indeterminate_mutation = 11
code_number engine_error = 12

code_of : ℕ → ErrorCode
code_of zero = unspecified
code_of (suc zero) = unbalanced_transaction
code_of (suc (suc zero)) = account_not_found
code_of (suc (suc (suc zero))) = txn_not_found
code_of (suc (suc (suc (suc zero)))) = commodity_not_found
code_of (suc (suc (suc (suc (suc zero))))) = currency_mismatch
code_of (suc (suc (suc (suc (suc (suc zero)))))) = account_not_empty
code_of (suc (suc (suc (suc (suc (suc (suc zero))))))) = read_only_book
code_of (suc (suc (suc (suc (suc (suc (suc (suc zero)))))))) = book_locked
code_of (suc (suc (suc (suc (suc (suc (suc (suc (suc zero))))))))) = book_not_open
code_of (suc (suc (suc (suc (suc (suc (suc (suc (suc (suc zero)))))))))) = invalid_argument
code_of (suc (suc (suc (suc (suc (suc (suc (suc (suc (suc (suc zero))))))))))) =
    indeterminate_mutation
code_of _ = engine_error

code_of-code_number : (c : ErrorCode) → code_of (code_number c) ≡ c
unfolding code_of code_number
code_of-code_number unspecified = refl
code_of-code_number unbalanced_transaction = refl
code_of-code_number _ = refl

flag_number : Bool → ℕ
flag_number true = 1
flag_number false = 0

flag_of : ℕ → Bool
flag_of zero = false
flag_of (suc n) = true

flag_of-flag_number : (b : Bool) → flag_of (flag_number b) ≡ b
unfolding flag_of flag_number
flag_of-flag_number true = refl
flag_of-flag_number false = refl

pub write_outcome : Outcome → Bytes
write_outcome o =
    flag_number o.is_ok
    ∷ code_number o.error.code
    ∷ frame o.rpc_name (frame o.response (frame o.error.engine_message (frame o.error.context [])))

pub read_fields : Bool → ErrorCode → Bytes → Outcome
read_fields f c s = record {
  rpc_name = head_of s;
  is_ok = f;
  response = head_of (rest_of s);
  error = record {
    code = c;
    engine_message = head_of (rest_of (rest_of s));
    context = head_of (rest_of (rest_of (rest_of s)));
  };
}

pub read_outcome : Bytes → Option Outcome
unfolding read_fields
read_outcome (f ∷ c ∷ s) = some (read_fields (flag_of f) (code_of c) s)
read_outcome _ = none

pub read_outcome-write_outcome : (o : Outcome) → read_outcome (write_outcome o) ≡ some o
unfolding read_outcome write_outcome
read_outcome-write_outcome o =
    simp (flag_of-flag_number, code_of-code_number, head_of-frame, rest_of-frame)

abbrev pub toy_outcomes : Codec Outcome
toy_outcomes = record {
  serialize = write_outcome;
  parse = read_outcome;
  parse-serialize = read_outcome-write_outcome;
}

pub read_number : Bytes → Option ℕ
read_number [] = none
read_number (n ∷ s) = some n

pub read_number_lem : (n : ℕ) → read_number (n ∷ []) ≡ some n
unfolding read_number
read_number_lem n = refl

-- A response that is one number.
abbrev pub toy_numbers : Codec ℕ
toy_numbers = record {
  serialize = λ n. n ∷ [];
  parse = read_number;
  parse-serialize = read_number_lem;
}

abbrev pub Ledger : Type 0
Ledger = List ℕ

abbrev pub toy_backend : Backend Ledger
toy_backend = record { commit = λ saved live. live; commit_saves = λ saved live. refl }

abbrev pub toy_sha : Bytes → Bytes
toy_sha s = []

abbrev pub uuid : Bytes
uuid = str "123e4567-e89b-12d3-a456-426614174000"
