-- ===== src/Rpc/Mutation/Uuid.antt =====
-- Which texts ValidateMutationId lets through.
use daichod.Base.{
  ◌<◌, ℕ, zero, suc, ◌≡◌, ◌↔◌, refl, Bool, true, false, ◌&&◌, ◌||◌, Option, none, some, [], ◌∷◌,
  length, ◌==◌, if◌then◌else◌, arith,
}
use daichod.Base.Text.{Bytes, str}
use daichod.Rpc.Mutation.{is_xdigit, matches_pattern, is_uuid, pattern_of_uuid}

-- The byte at a position, if the text is that long.
abbrev pub get_elem? : Bytes → ℕ → Option ℕ
get_elem? [] i = none
get_elem? (b ∷ bs) zero = some b
get_elem? (b ∷ bs) (suc i) = get_elem? bs i

-- The positions of the dashes in 8-4-4-4-12.
abbrev pub is_dash_position : ℕ → Bool
is_dash_position i = i == 8 || i == 13 || i == 18 || i == 23

abbrev fits : Bool → ℕ → Bool
fits true c = c == b'-'
fits false c = is_xdigit c

-- Every byte of a text fits what the pattern has at its position.
abbrev Fits : Bytes → Bytes → Type 0
Fits ps cs =
    (i p c : ℕ) → get_elem? ps i ≡ some p → get_elem? cs i ≡ some c → fits (p == b'-') c ≡ true

matches_pattern-Fits : (ps cs : Bytes) → matches_pattern ps cs ≡ true → Fits ps cs
unfolding matches_pattern
matches_pattern-Fits [] cs h i p c hp hc = ground arith
matches_pattern-Fits (q ∷ ps) [] h i p c hp hc = ground arith
matches_pattern-Fits (q ∷ ps) (d ∷ cs) h zero p c hp hc = ground arith
matches_pattern-Fits (q ∷ ps) (d ∷ cs) h (suc i) p c hp hc =
    matches_pattern-Fits ps cs (ground arith) i p c hp hc

Fits-matches_pattern : (ps cs : Bytes) → Fits ps cs → matches_pattern ps cs ≡ true
unfolding matches_pattern
Fits-matches_pattern [] cs h = refl
Fits-matches_pattern (q ∷ ps) [] h = refl
Fits-matches_pattern (q ∷ ps) (d ∷ cs) h =
    ground (arith, h 0 q d refl refl, Fits-matches_pattern ps cs (λ i p c. h (suc i) p c))

lt-get_elem? : (s : Bytes) (i c : ℕ) → get_elem? s i ≡ some c → i < length s
lt-get_elem? [] i c h = ground arith
lt-get_elem? (b ∷ s) zero c h = omega arith
lt-get_elem? (b ∷ s) (suc i) c h = omega (arith, lt-get_elem? s i c h)

abbrev at_most : ℕ → Option ℕ → Bool
at_most n none = false
at_most n (some p) = p == n

all_below : ℕ → (ℕ → Bool) → Bool
all_below zero t = true
all_below (suc n) t = t n && all_below n t

all_below_sound : (n : ℕ) (t : ℕ → Bool) (i : ℕ) → all_below n t ≡ true → i < n → t i ≡ true
unfolding all_below
all_below_sound zero t i h k = absurd (omega arith)
all_below_sound (suc n) t i h k = ground (arith, all_below_sound n t i)

abbrev expected : ℕ → ℕ
expected i = if is_dash_position i then b'-' else b'x'

table : all_below 36 (λ i. at_most (expected i) (get_elem? pattern_of_uuid i)) ≡ true
unfolding all_below str
table = refl

of_at_most : (n : ℕ) (o : Option ℕ) → at_most n o ≡ true → o ≡ some n
of_at_most n none h = ground arith
of_at_most n (some p) h = ground arith

-- The pattern has a dash at the four positions, and an x elsewhere.
get_elem?-pattern : (i : ℕ) → i < 36 → get_elem? pattern_of_uuid i ≡ some (expected i)
get_elem?-pattern i h =
    of_at_most (expected i) (get_elem? pattern_of_uuid i)
      (all_below_sound 36 (λ k. at_most (expected k) (get_elem? pattern_of_uuid k)) i table h)

length-pattern : length pattern_of_uuid ≡ 36
unfolding str
length-pattern = refl

abbrev IsUuid : Bytes → Type 0
IsUuid id =
    (length id ≡ 36)
    × ((i c : ℕ)
        → get_elem? id i ≡ some c
        → (if is_dash_position i then c == b'-' else is_xdigit c) ≡ true)

is_uuid→IsUuid : (id : Bytes) → length id ≡ 36 → Fits pattern_of_uuid id → IsUuid id
is_uuid→IsUuid id len h = (
  len,
  λ i c hc.
      ground (
        arith,
        h i (expected i) c (get_elem?-pattern i (omega (arith, lt-get_elem? id i c hc))) hc,
      ),
)

IsUuid→Fits : (id : Bytes) → IsUuid id → Fits pattern_of_uuid id
IsUuid→Fits id (len, h) i p c hp hc =
    ground (arith, h i c hc, get_elem?-pattern i (omega (arith, lt-get_elem? id i c hc)))

-- A mutation id passes exactly if it has 36 bytes, with dashes at 8, 13, 18 and 23 and hexadecimal digits,
-- of either case, everywhere else.
pub is_uuid_iff :
    (id : Bytes)
    → (is_uuid id ≡ true) ↔ (
        (length id ≡ 36)
        × ((i c : ℕ)
            → get_elem? id i ≡ some c
            → (if is_dash_position i then c == b'-' else is_xdigit c) ≡ true))
unfolding is_uuid
is_uuid_iff id = (
  λ h.
      is_uuid→IsUuid id (ground (arith, length-pattern, h))
        (matches_pattern-Fits pattern_of_uuid id (ground arith)),
  λ u.
      ground
        (arith, length-pattern, u.0, Fits-matches_pattern pattern_of_uuid id (IsUuid→Fits id u)),
)
