-- ===== src/Rpc/QuerySplits/Scan.antt =====
-- What the loop of QuerySplits has put into the page when it ends.
use mathlib.Core.List.{append-nil, append_assoc}
use daichod.Base.{
  ℕ, ◌+◌, ◌≤◌, ◌<◌, ◌≡◌, refl, sym, subst, ap, ◌∙◌, ◌⊎◌, inl, inr, Bool, true, false, not, ◌||◌,
  List, [], ◌∷◌, ◌++◌, length, length-append, keep, any, arith,
}
use daichod.Base.Int.{ℤ, pos, negsuc}
use daichod.Base.Text.{Bytes, bytes_eq}
use daichod.Base.Keyed.{has}
use daichod.Rpc.QuerySplits.{
  Query, Cursor, Turn, goes_on, breaks, clamp_page_size, is_below, is_above, last_guid, turn, scan,
}

pub clamp_page_size_bounds : (n : ℤ) → (0 < clamp_page_size n) × (clamp_page_size n ≤ 500)
unfolding clamp_page_size
clamp_page_size_bounds (pos n) = ground arith
clamp_page_size_bounds (negsuc n) = ground arith

module _ {S V : Type 0} (guid : S → Bytes) (value : S → V) (compare : V → V → ℤ) (q : Query V) where
  -- Is the amount of a split within the bounds of the request?
  abbrev pub passes : S → Bool
  passes s =
      not (is_below guid value compare s q.value_min || is_above guid value compare s q.value_max)

  abbrev size : ℕ
  size = clamp_page_size q.page_size

  -- The loop broke off: the page is full, and its token names its last split.
  pub record Cut (l : List S) (c e : Cursor S) : Type 0 where
    pub taken : List S
    pub rest : List S
    pub split_at : l ≡ taken ++ rest
    pub page : e.response.splits ≡ c.response.splits ++ keep passes taken
    pub full : length e.response.splits ≡ size
    pub token : e.response.next_page_token ≡ last_guid guid e.response.splits

  -- The loop went through: the page has all that pass.
  pub record Whole (l : List S) (c e : Cursor S) : Type 0 where
    pub page : e.response.splits ≡ c.response.splits ++ keep passes l
    pub small : length e.response.splits ≤ size
    pub token : e.response.next_page_token ≡ c.response.next_page_token

  abbrev pub Fills : List S → Cursor S → Cursor S → Type 0
  Fills l c e = (e.skipping ≡ false) × (Whole l c e ⊎ Cut l c e)

  abbrev added : S → Cursor S → Cursor S
  added s c = record c {
    emitted = c.emitted + 1;
    response = record c.response { splits = c.response.splits ++ s ∷ [] };
  }

  abbrev broken : Cursor S → Cursor S
  broken c = record c {
    response = record c.response { next_page_token = last_guid guid c.response.splits };
  }

  -- The three turns of the loop once the token is found.
  turn_cases :
      (s : S) (c : Cursor S)
      → c.skipping ≡ false
      → c.emitted ≤ size
      → (passes s ≡ false) × (turn guid value compare q s c ≡ goes_on c)
        ⊎ (c.emitted ≡ size) × (turn guid value compare q s c ≡ breaks (broken c))
        ⊎ (passes s ≡ true)
          × (c.emitted < size)
          × (turn guid value compare q s c ≡ goes_on (added s c))
  turn_cases s c hs hb = ground arith

  abbrev after_turn : List S → Turn S → Cursor S
  after_turn l t = elim t [ goes_on c ↦ scan guid value compare q l c | breaks c ↦ c ]

  scan-turn :
      (s : S) (l : List S) (c : Cursor S)
      → scan guid value compare q (s ∷ l) c ≡ after_turn l (turn guid value compare q s c)
  unfolding scan
  scan-turn s l c = refl

  Fills-dropped :
      (s : S) (l : List S) (c e : Cursor S) → passes s ≡ false → Fills l c e → Fills (s ∷ l) c e
  Fills-dropped s l c e h (hs, inl w) =
      (hs, inl (record { page = ground (arith, w.page); small = w.small; token = w.token }))
  Fills-dropped s l c e h (hs, inr k) = (
    hs,
    inr (record {
      taken = s ∷ k.taken;
      rest = k.rest;
      split_at = ap (λ (r : List S). s ∷ r) k.split_at;
      page = ground (arith, k.page);
      full = k.full;
      token = k.token;
    }),
  )

  Fills-added :
      (s : S) (l : List S) (c e : Cursor S)
      → passes s ≡ true
      → Fills l (added s c) e
      → Fills (s ∷ l) c e
  Fills-added s l c e h (hs, inl w) = (
    hs,
    inl (record {
      page = ground (arith, w.page, append_assoc c.response.splits (s ∷ []) (keep passes l));
      small = w.small;
      token = w.token;
    }),
  )
  Fills-added s l c e h (hs, inr k) = (
    hs,
    inr (record {
      taken = s ∷ k.taken;
      rest = k.rest;
      split_at = ap (λ (r : List S). s ∷ r) k.split_at;
      page = ground (arith, k.page, append_assoc c.response.splits (s ∷ []) (keep passes k.taken));
      full = k.full;
      token = k.token;
    }),
  )

  -- From where the token was found on, the loop collects the splits that pass, as many as the page holds.
  pub scan-Fills :
      (l : List S) (c : Cursor S)
      → c.skipping ≡ false
      → c.emitted ≡ length c.response.splits
      → c.emitted ≤ size
      → Fills l c (scan guid value compare q l c)
  unfolding scan
  scan-Fills [] c hs he hb =
      (hs, inl (record { page = sym (append-nil _); small = omega (arith, he, hb); token = refl }))
  scan-Fills (s ∷ l) c hs he hb = elim (turn_cases s c hs hb) [
    | inl (out, e) ↦
        subst (Fills (s ∷ l) c) (sym (scan-turn s l c ∙ ap (after_turn l) e))
          (Fills-dropped s l c _ out (scan-Fills l c hs he hb))
    | inr (inl (at_end, e)) ↦
        subst (Fills (s ∷ l) c) (sym (scan-turn s l c ∙ ap (after_turn l) e)) (
          hs,
          inr (record {
            taken = [];
            rest = s ∷ l;
            split_at = refl;
            page = sym (append-nil _);
            full = sym he ∙ at_end;
            token = refl;
          }),
        )
    | inr (inr (passing, room, e)) ↦
        subst (Fills (s ∷ l) c) (sym (scan-turn s l c ∙ ap (after_turn l) e)) (
          Fills-added s l c _ passing (
            scan-Fills l (added s c) hs
              (omega (arith, he, length-append c.response.splits (s ∷ []))) (omega (arith, room))))
  ]

  -- Nothing is emitted up to the split that the token names.
  pub scan-skips :
      (before : List S) (s : S) (after : List S) (c : Cursor S)
      → c.skipping ≡ true
      → bytes_eq (guid s) q.page_token ≡ true
      → any (has guid q.page_token) before ≡ false
      → scan guid value compare q (before ++ s ∷ after) c
        ≡ scan guid value compare q after (record c { skipping = false; token_seen = true })
  unfolding scan
  scan-skips [] s after c hs hg h = ground arith
  scan-skips (b ∷ before) s after c hs hg h = ground (arith, scan-skips before s after c hs hg)
