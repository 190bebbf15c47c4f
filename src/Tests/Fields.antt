-- ===== src/Tests/Fields.antt =====
-- A concrete encoding of the messages, put together field by field.
use daichod.Base.{
  ℕ, zero, suc, ◌≡◌, refl, ap, ◌∙◌, Bool, true, false, Option, none, some, List, [], ◌∷◌, length,
}
use daichod.Base.Int.{ℤ, pos, negsuc}
use daichod.Base.Text.{Bytes}
use daichod.Base.Codec.{Codec}
use daichod.Proto.{
  AccountType, type_unspecified, asset, bank, cash, credit, liability, equity, income, expense,
  stock, mutual_fund, receivable, payable, trading, root, other_type,
}
use daichod.Proto.{
  ReconcileState, state_unspecified, not_reconciled, cleared, reconciled, frozen, voided,
  other_state,
}

-- A value in front of what follows it.
pub record Field (A : Type 0) : Type 0 where
  pub put : A → Bytes → Bytes
  pub get : Bytes → Option (A × Bytes)
  pub get-put : (a : A) (rest : Bytes) → get (put a rest) ≡ some (a, rest)

abbrev bind : {A B : Type 0} → Option A → (A → Option B) → Option B
bind none f = none
bind (some a) f = f a

abbrev get_number : Bytes → Option (ℕ × Bytes)
get_number [] = none
get_number (n ∷ s) = some (n, s)

abbrev pub number : Field ℕ
number = record { put = λ n rest. n ∷ rest; get = get_number; get-put = λ n rest. refl }

abbrev pub both : {A B : Type 0} → Field A → Field B → Field (A × B)
both f g = record {
  put = λ p rest. f.put p.0 (g.put p.1 rest);
  get = λ s. bind (f.get s) (λ p. bind (g.get p.1) (λ q. some ((p.0, q.0), q.1)));
  get-put = λ p rest.
      ap (λ o. bind o (λ x. bind (g.get x.1) (λ q. some ((x.0, q.0), q.1))))
        (f.get-put p.0 (g.put p.1 rest))
      ∙ ap (λ o. bind o (λ q. some ((p.0, q.0), q.1))) (g.get-put p.1 rest);
}

abbrev pub as_field :
    {A B : Type 0} → Field A → (to : B → A) (from : A → B) → ((b : B) → from (to b) ≡ b) → Field B
as_field f to from from-to = record {
  put = λ b rest. f.put (to b) rest;
  get = λ s. bind (f.get s) (λ p. some (from p.0, p.1));
  get-put = λ b rest.
      ap (λ o. bind o (λ p. some (from p.0, p.1))) (f.get-put (to b) rest)
      ∙ ap (λ x. some (x, rest)) (from-to b);
}

module _ {A : Type 0} (f : Field A) where
  put_all : List A → Bytes → Bytes
  put_all [] rest = rest
  put_all (x ∷ xs) rest = f.put x (put_all xs rest)

  get_all : ℕ → Bytes → Option (List A × Bytes)
  get_all zero s = some ([], s)
  get_all (suc n) s = bind (f.get s) (λ p. bind (get_all n p.1) (λ q. some (p.0 ∷ q.0, q.1)))

  get_all-put_all :
      (xs : List A) (rest : Bytes) → get_all (length xs) (put_all xs rest) ≡ some (xs, rest)
  unfolding put_all get_all
  get_all-put_all [] rest = refl
  get_all-put_all (x ∷ xs) rest =
      ap (λ o. bind o (λ p. bind (get_all (length xs) p.1) (λ q. some (p.0 ∷ q.0, q.1))))
        (f.get-put x (put_all xs rest))
      ∙ ap (λ o. bind o (λ q. some (x ∷ q.0, q.1))) (get_all-put_all xs rest)

  get_list : Bytes → Option (List A × Bytes)
  get_list [] = none
  get_list (n ∷ s) = get_all n s

  put_list : List A → Bytes → Bytes
  put_list xs rest = length xs ∷ put_all xs rest

  get_list-put_list : (xs : List A) (rest : Bytes) → get_list (put_list xs rest) ≡ some (xs, rest)
  unfolding get_list put_list
  get_list-put_list xs rest = get_all-put_all xs rest

  pub many : Field (List A)
  many = record { put = put_list; get = get_list; get-put = get_list-put_list }

  put_option : Option A → Bytes → Bytes
  put_option none rest = 0 ∷ rest
  put_option (some a) rest = 1 ∷ f.put a rest

  get_option : Bytes → Option (Option A × Bytes)
  get_option [] = none
  get_option (zero ∷ s) = some (none, s)
  get_option (suc n ∷ s) = bind (f.get s) (λ p. some (some p.0, p.1))

  get_option-put_option :
      (o : Option A) (rest : Bytes) → get_option (put_option o rest) ≡ some (o, rest)
  unfolding get_option put_option
  get_option-put_option none rest = refl
  get_option-put_option (some a) rest =
      ap (λ o. bind o (λ p. some (some p.0, p.1))) (f.get-put a rest)

  pub perhaps : Field (Option A)
  perhaps = record { put = put_option; get = get_option; get-put = get_option-put_option }

  read : Bytes → Option A
  read s = bind (f.get s) (λ p. some p.0)

  read-put : (a : A) → read (f.put a []) ≡ some a
  unfolding read
  read-put a = ap (λ o. bind o (λ p. some p.0)) (f.get-put a [])

  pub codec_of : Codec A
  codec_of = record { serialize = λ a. f.put a []; parse = read; parse-serialize = read-put }

pub text : Field Bytes
text = many number

truth_number : Bool → ℕ
truth_number true = 1
truth_number false = 0

truth_of : ℕ → Bool
truth_of zero = false
truth_of (suc n) = true

truth_of-truth_number : (b : Bool) → truth_of (truth_number b) ≡ b
unfolding truth_of truth_number
truth_of-truth_number true = refl
truth_of-truth_number false = refl

pub truth : Field Bool
truth = as_field number truth_number truth_of truth_of-truth_number

parts : ℤ → ℕ × ℕ
parts (pos n) = (0, n)
parts (negsuc n) = (1, n)

of_parts : ℕ × ℕ → ℤ
of_parts (zero, n) = pos n
of_parts (suc k, n) = negsuc n

of_parts-parts : (z : ℤ) → of_parts (parts z) ≡ z
unfolding of_parts parts
of_parts-parts (pos n) = refl
of_parts-parts (negsuc n) = refl

pub integer : Field ℤ
integer = as_field (both number number) parts of_parts of_parts-parts

type_number : AccountType → ℕ
type_number type_unspecified = 0
type_number asset = 1
type_number bank = 2
type_number cash = 3
type_number credit = 4
type_number liability = 5
type_number equity = 6
type_number income = 7
type_number expense = 8
type_number stock = 9
type_number mutual_fund = 10
type_number receivable = 11
type_number payable = 12
type_number trading = 13
type_number root = 14
type_number other_type = 15

nth : {A : Type 0} → List A → A → ℕ → A
nth [] a n = a
nth (x ∷ xs) a zero = x
nth (x ∷ xs) a (suc n) = nth xs a n

type_at : ℕ → AccountType
type_at n =
    nth
      (type_unspecified ∷ asset ∷ bank ∷ cash ∷ credit ∷ liability ∷ equity ∷ income ∷ expense
        ∷ stock ∷ mutual_fund ∷ receivable ∷ payable ∷ trading ∷ root ∷ [])
      other_type n

type_at-type_number : (t : AccountType) → type_at (type_number t) ≡ t
unfolding type_at type_number nth
type_at-type_number type_unspecified = refl
type_at-type_number asset = refl
type_at-type_number _ = refl

pub type_field : Field AccountType
type_field = as_field number type_number type_at type_at-type_number

state_number : ReconcileState → ℕ
state_number state_unspecified = 0
state_number not_reconciled = 1
state_number cleared = 2
state_number reconciled = 3
state_number frozen = 4
state_number voided = 5
state_number other_state = 6

state_at : ℕ → ReconcileState
state_at n =
    nth (state_unspecified ∷ not_reconciled ∷ cleared ∷ reconciled ∷ frozen ∷ voided ∷ [])
      other_state n

state_at-state_number : (s : ReconcileState) → state_at (state_number s) ≡ s
unfolding state_at state_number nth
state_at-state_number state_unspecified = refl
state_at-state_number not_reconciled = refl
state_at-state_number _ = refl

pub state_field : Field ReconcileState
state_field = as_field number state_number state_at state_at-state_number
