-- ===== src/Base/Text.antt =====
-- A `std::string` is a sequence of bytes. A literal of the source is ASCII: its bytes are its codes.
use Prim.Native.Char.{code}
use Prim.Native.Nat.{ℕ, zero, suc}
use Prim.Native.String.{String}
use mathlib.Core.Path.{◌≡◌, refl}
use mathlib.Core.Logic.{◌↔◌}
use mathlib.Core.Bool.{Bool, true, false, ◌&&◌, ◌||◌}
use mathlib.Core.List.{List, [], ◌∷◌}
use native.Mathlib.Omega.{arith}
use daichod.Base.Tests.{◌==◌, ltb}

abbrev pub Bytes : Type 0
Bytes = List ℕ

unfoldable pub str : String → Bytes
str String.[] = []
str (String.◌∷◌ c s) = code c ∷ str s

-- operator== of std::string
unfoldable pub bytes_eq : Bytes → Bytes → Bool
bytes_eq [] [] = true
bytes_eq [] (b ∷ bs) = false
bytes_eq (a ∷ xs) [] = false
bytes_eq (a ∷ xs) (b ∷ bs) = a == b && bytes_eq xs bs

eq_of_bytes_eq : (s t : Bytes) → bytes_eq s t ≡ true → s ≡ t
unfolding bytes_eq
eq_of_bytes_eq [] [] h = refl
eq_of_bytes_eq [] (b ∷ bs) h = cc
eq_of_bytes_eq (a ∷ xs) [] h = cc
eq_of_bytes_eq (a ∷ xs) (b ∷ bs) h = ground (arith, eq_of_bytes_eq xs bs)

pub bytes_eq_refl : (s : Bytes) → bytes_eq s s ≡ true
unfolding bytes_eq
bytes_eq_refl [] = refl
bytes_eq_refl (a ∷ xs) = ground (arith, bytes_eq_refl xs)

pub bytes_eq_iff : (s t : Bytes) → (bytes_eq s t ≡ true) ↔ (s ≡ t)
bytes_eq_iff s t = (eq_of_bytes_eq s t, λ e. rw e (bytes_eq_refl t))

-- operator< of std::string
unfoldable pub bytes_lt : Bytes → Bytes → Bool
bytes_lt s [] = false
bytes_lt [] (b ∷ bs) = true
bytes_lt (a ∷ s) (b ∷ t) = ltb a b || (a == b && bytes_lt s t)

-- std::string::empty
unfoldable pub empty : Bytes → Bool
empty [] = true
empty (b ∷ bs) = false

-- Is the first text a prefix of the second? (`s.rfind(prefix, 0) == 0`)
unfoldable pub starts_with : Bytes → Bytes → Bool
starts_with [] s = true
starts_with (p ∷ ps) [] = false
starts_with (p ∷ ps) (b ∷ bs) = p == b && starts_with ps bs

-- `s.substr(n)` for n within the text, and beyond it the empty text.
unfoldable pub drop : ℕ → Bytes → Bytes
drop zero s = s
drop (suc n) [] = []
drop (suc n) (b ∷ bs) = drop n bs

-- `s.substr(0, n)`
unfoldable pub take : ℕ → Bytes → Bytes
take zero s = []
take (suc n) [] = []
take (suc n) (b ∷ bs) = b ∷ take n bs
