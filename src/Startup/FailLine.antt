-- ===== src/Startup/FailLine.antt =====
-- Fail of src/main.cpp: the line that it prints on stderr, read as a JSON object.
use daichod.Base.{
  subst, ℕ, ◌≡◌, refl, ap, ◌∙◌, Bool, true, not, ◌&&◌, Option, none, some, [], ◌∷◌, ◌++◌, All, leb,
  ◌==◌, if◌then◌else◌, ◌↔◌, Bool-cases, inl, inr, arith,
}
use daichod.Base.Text.{Bytes, str}
use daichod.Startup.{Failure}

-- What `%s` prints of a text: up to its first NUL.
unfoldable pub c_string : Bytes → Bytes
c_string [] = []
c_string (c ∷ s) = if c == 0 then [] else c ∷ c_string s

-- Fail: the line on stderr.
unfoldable pub fail_line : Failure → Bytes
fail_line f =
    str "{\"error\":\""
    ++ (c_string f.reason ++ (str "\",\"detail\":\"" ++ (c_string f.detail ++ str "\"}\n")))

-- A byte that stands for itself in a JSON string (RFC 8259, `unescaped`).
abbrev pub is_plain : ℕ → Bool
is_plain c = leb 32 c && (not (c == 34) && not (c == 92))

abbrev pub Plain : Bytes → Type 0
Plain s = All (λ c. is_plain c ≡ true) s

-- The text behind a prefix.
unfoldable pub strip_prefix : Bytes → Bytes → Option Bytes
strip_prefix [] s = some s
strip_prefix (a ∷ p) [] = none
strip_prefix (a ∷ p) (b ∷ s) = let rest = strip_prefix p s in if b == a then rest else none

abbrev prepend : ℕ → Option (Bytes × Bytes) → Option (Bytes × Bytes)
prepend c none = none
prepend c (some (x, rest)) = some (c ∷ x, rest)

-- The rest of a JSON string without escapes, up to its closing quote, and what follows that.
unfoldable pub read_string : Bytes → Option (Bytes × Bytes)
read_string [] = none
read_string (c ∷ s) =
    let rest = read_string s in
    if c == 34 then some ([], s) else if is_plain c then prepend c rest else none

abbrev on_some : {X Y : Type 0} → Option X → (X → Option Y) → Option Y
on_some none f = none
on_some (some x) f = f x

abbrev at_end : Bytes → Bytes → Bytes → Option Failure
at_end reason detail [] = some (record { reason = reason; detail = detail })
at_end reason detail (c ∷ s) = none

-- A line that is one JSON object with the members `error` and `detail`, in this order, both without escapes.
unfoldable pub read_failure : Bytes → Option Failure
read_failure line = on_some (strip_prefix (str "{\"error\":\"") line) (λ s.
    on_some (read_string s) (λ r. on_some (strip_prefix (str ",\"detail\":\"") r.1) (λ t.
      on_some (read_string t)
        (λ d. on_some (strip_prefix (str "}\n") d.1) (λ u. at_end r.0 d.0 u)))))

strip_prefix-append : (p s : Bytes) → strip_prefix p (p ++ s) ≡ some s
unfolding strip_prefix
strip_prefix-append [] s = refl
strip_prefix-append (a ∷ p) s = ground (arith, strip_prefix-append p s)

c_string-Plain : (s : Bytes) → Plain s → c_string s ≡ s
unfolding c_string
c_string-Plain [] h = refl
c_string-Plain (c ∷ s) h = ground (arith, h.0, c_string-Plain s h.1)

read_string-append : (s rest : Bytes) → Plain s → read_string (s ++ b'"' ∷ rest) ≡ some (s, rest)
unfolding read_string
read_string-append [] rest h = refl
read_string-append (c ∷ s) rest h = ground (arith, h.0, read_string-append s rest h.1)

abbrev value_or : {X : Type 0} → X → Option X → X
value_or x none = x
value_or x (some y) = y

some_inj : {X : Type 0} {x y : X} → some x ≡ some y → x ≡ y
some_inj {x = x} h = ap (value_or x) h

prepended :
    (c : ℕ) (o : Option (Bytes × Bytes)) (r : Bytes × Bytes)
    → prepend c o ≡ some r
    → is_plain c ≡ true
    → ((q : Bytes × Bytes) → o ≡ some q → Plain q.0)
    → Plain r.0
prepended c none r h p k = absurd (ground (arith, h))
prepended c (some q) r h p k = subst (λ (x : Bytes × Bytes). Plain x.0) (some_inj h) (p, k q refl)

-- What is read as a string is plain.
read_string-Plain : (s : Bytes) (r : Bytes × Bytes) → read_string s ≡ some r → Plain r.0
unfolding read_string
read_string-Plain [] r h = absurd (ground (arith, h))
read_string-Plain (c ∷ s) r h = elim (Bool-cases (c == 34)) [
  | inl ends ↦
      let e : some ([], s) ≡ some r = ground (arith, ends, h) in
      subst (λ (x : Bytes × Bytes). Plain x.0) (some_inj e) tt
  | inr more ↦ elim (Bool-cases (is_plain c)) [
    | inl plain ↦
        prepended c (read_string s) r (ground (arith, more, plain, h)) plain (read_string-Plain s)
    | inr bad ↦ absurd (ground (arith, more, bad, h))
  ]
]

ended :
    (f : Failure) (reason detail s : Bytes)
    → Plain reason
    → Plain detail
    → at_end reason detail s ≡ some f
    → Plain f.reason × Plain f.detail
ended f reason detail [] p q h =
    subst (λ (g : Failure). Plain g.reason × Plain g.detail) (some_inj h) (p, q)
ended f reason detail (c ∷ s) p q h = absurd (ground (arith, h))

-- Goes on with what was read.
read_then :
    {X Y : Type 0} {Goal : Type 0} (o : Option X) (k : X → Option Y) (y : Y)
    → ((x : X) → o ≡ some x → k x ≡ some y → Goal)
    → on_some o k ≡ some y
    → Goal
read_then none k y f h = absurd (ground (arith, h))
read_then (some x) k y f h = f x refl h

read_failure-Plain :
    (line : Bytes) (f : Failure) → read_failure line ≡ some f → Plain f.reason × Plain f.detail
unfolding read_failure
read_failure-Plain line f = read_then (strip_prefix (str "{\"error\":\"") line) _ f (λ s _.
    read_then (read_string s) _ f (λ r hr.
      read_then (strip_prefix (str ",\"detail\":\"") r.1) _ f (λ t _.
        read_then (read_string t) _ f (λ d hd.
          read_then (strip_prefix (str "}\n") d.1) _ f
            (λ u _. ended f r.0 d.0 u (read_string-Plain s r hr) (read_string-Plain t d hd))))))

on_some-lem :
    {X Y : Type 0} (o : Option X) (k : X → Option Y) (x : X) (y : Option Y)
    → o ≡ some x
    → k x ≡ y
    → on_some o k ≡ y
on_some-lem {X = X} o k x y h e = ap (λ (p : Option X). on_some p k) h ∙ e

-- A printed text is read up to its closing quote.
read_printed : (s rest : Bytes) → Plain s → read_string (c_string s ++ b'"' ∷ rest) ≡ some (s, rest)
read_printed s rest p =
    ap (λ (r : Bytes). read_string (r ++ b'"' ∷ rest)) (c_string-Plain s p)
    ∙ read_string-append s rest p

Plain-read_failure :
    (f : Failure) → Plain f.reason → Plain f.detail → read_failure (fail_line f) ≡ some f
unfolding fail_line read_failure str
Plain-read_failure f p q =
    let tail = c_string f.detail ++ str "\"}\n" in
    let rest = str ",\"detail\":\"" ++ tail in
    on_some-lem _ _ (c_string f.reason ++ b'"' ∷ rest) _
      (strip_prefix-append (str "{\"error\":\"") (c_string f.reason ++ b'"' ∷ rest))
      (on_some-lem _ _ (f.reason, rest) _ (read_printed f.reason rest p)
        (on_some-lem _ _ tail _ (strip_prefix-append (str ",\"detail\":\"") tail) (
          on_some-lem _ _ (f.detail, str "}\n") _ (read_printed f.detail (str "}\n") q)
            (on_some-lem _ _ [] _ (strip_prefix-append (str "}\n") []) refl))))

-- The line that Fail prints is a JSON object whose two strings, read without escapes, are the reason and the detail, exactly if
-- neither has a quote, a backslash or a control character.
pub read_failure-fail_line :
    (f : Failure) → (read_failure (fail_line f) ≡ some f) ↔ (Plain f.reason × Plain f.detail)
read_failure-fail_line f = (read_failure-Plain (fail_line f) f, λ p. Plain-read_failure f p.0 p.1)
