-- ===== src/Base/Find.antt =====
-- std::string::find, from a position on, and what it finds.
use daichod.Base.Tests.{◌==◌, if◌then◌else◌}
use daichod.Base.Lists.{length, All}
use daichod.Base.Text.{Bytes, starts_with, take, drop}
use Prim.Native.Nat.{ℕ, suc, ◌+◌}
use mathlib.Core.Path.{◌∙◌, ◌≡◌, refl, ap}
use mathlib.Core.Bool.{true, false}
use mathlib.Core.Option.{Option, none, some}
use mathlib.Core.List.{[], ◌∷◌, ◌++◌}
use native.Mathlib.Omega.{arith}

abbrev pub shift : ℕ → Option ℕ → Option ℕ
shift n none = none
shift n (some i) = some (n + i)

-- The first position of a byte.
unfoldable pub find_byte : ℕ → Bytes → Option ℕ
find_byte b [] = none
find_byte b (c ∷ s) = if c == b then some 0 else shift 1 (find_byte b s)

-- The first position of a text.
unfoldable pub find_text : Bytes → Bytes → Option ℕ
find_text p [] = if starts_with p [] then some 0 else none
find_text p (c ∷ s) = if starts_with p (c ∷ s) then some 0 else shift 1 (find_text p s)

-- `s.find(b, n)`
abbrev pub find_byte_from : ℕ → ℕ → Bytes → Option ℕ
find_byte_from b n s = shift n (find_byte b (drop n s))

-- The byte does not stand in the text.
abbrev pub Lacks : ℕ → Bytes → Type 0
Lacks b s = All (λ c. (c == b) ≡ false) s

pub find_byte-append :
    (b : ℕ) (s t : Bytes) → Lacks b s → find_byte b (s ++ t) ≡ shift (length s) (find_byte b t)
unfolding find_byte
find_byte-append b [] t h = ground arith
find_byte-append b (c ∷ s) t h = ground (arith, find_byte-append b s t h.1)

pub take-append : (s t : Bytes) → take (length s) (s ++ t) ≡ s
unfolding take
take-append [] t = refl
take-append (b ∷ s) t = ap (λ (r : Bytes). b ∷ r) (take-append s t)

pub drop-append : (s t : Bytes) → drop (length s) (s ++ t) ≡ t
unfolding drop
drop-append [] t = refl
drop-append (b ∷ s) t = drop-append s t

-- A text that begins with a byte is found no earlier than that byte.
pub find_text-append :
    (b : ℕ) (p s t : Bytes)
    → Lacks b s
    → starts_with (b ∷ p) t ≡ true
    → find_text (b ∷ p) (s ++ t) ≡ some (length s)
unfolding find_text starts_with
find_text-append b p [] [] h k = ground arith
find_text-append b p [] (c ∷ t) h k = ground arith
find_text-append b p (c ∷ s) t h k = ground (arith, find_text-append b p s t h.1)

pub drop-append_beyond : (n : ℕ) (s t : Bytes) → drop (length s + n) (s ++ t) ≡ drop n t
unfolding drop
drop-append_beyond n [] t = ap (λ (k : ℕ). drop k t) (omega arith)
drop-append_beyond n (b ∷ s) t =
    ap (λ (k : ℕ). drop k (b ∷ (s ++ t))) {x = length (b ∷ s) + n} {y = suc (length s + n)}
      (omega arith)
    ∙ drop-append_beyond n s t

pub take-append_beyond : (n : ℕ) (s t : Bytes) → take (length s + n) (s ++ t) ≡ s ++ take n t
unfolding take
take-append_beyond n [] t = ap (λ (k : ℕ). take k t) (omega arith)
take-append_beyond n (b ∷ s) t =
    ap (λ (k : ℕ). take k (b ∷ (s ++ t))) {x = length (b ∷ s) + n} {y = suc (length s + n)}
      (omega arith)
    ∙ ap (λ (r : Bytes). b ∷ r) (take-append_beyond n s t)
