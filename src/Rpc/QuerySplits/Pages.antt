-- ===== src/Rpc/QuerySplits/Pages.antt =====
-- A client that follows the page tokens of QuerySplits.
use mathlib.Core.List.{append_assoc}
use daichod.Base.{
  if◌then◌else◌, length-keep, ℕ, zero, suc, ◌≤◌, ◌<◌, ◌≡◌, refl, sym, subst, ap, ap₂, ◌∙◌, inl, inr,
  Bool, true, false, Option, none, some, List, [], ◌∷◌, ◌++◌, length, length-append, keep,
  keep-append, All, arith,
}
use daichod.Base.Int.{ℤ}
use daichod.Base.Text.{Bytes, bytes_eq_refl, empty}
use daichod.Base.Keyed.{Unique}
use daichod.Exec.{Result, ok, err, aborted}
use daichod.Rpc.QuerySplits.{Query, Page, Cursor, last_guid, scan, begin, conclude, query_splits}
use daichod.Rpc.QuerySplits.LastKept.{last_kept, any-before, All-at}
use daichod.Rpc.QuerySplits.Scan.{
  passes, Whole, Cut, scan-Fills, scan-skips, clamp_page_size_bounds,
}

module _ {S V : Type 0} (guid : S → Bytes) (value : S → V) (compare : V → V → ℤ) (q : Query V)
    (results : List S) where
  abbrev at_token : Bytes → Result (Page S)
  at_token token = query_splits guid value compare (record q { page_token = token }) results

  abbrev prepend : List S → Option (List S) → Option (List S)
  prepend page none = none
  prepend page (some rest) = some (page ++ rest)

  -- Asks for pages until one has no token; `none` if a call fails, or after so many pages.
  pub all_pages : ℕ → Bytes → Option (List S)
  all_pages zero token = none
  all_pages (suc n) token = elim (at_token token) [
    | ok page ↦
        if empty page.next_page_token
        then some page.splits
        else prepend page.splits (all_pages n page.next_page_token)
    | err e ↦ none
    | aborted ↦ none
  ]

  abbrev collect : ℕ → Page S → Option (List S)
  collect n page =
      if empty page.next_page_token
      then some page.splits
      else prepend page.splits (all_pages n page.next_page_token)

  abbrev passing : List S → List S
  passing l = keep (passes guid value compare q) l

  abbrev fresh : Bool → Cursor S
  fresh seen = record {
    skipping = false;
    token_seen = seen;
    emitted = 0;
    response = record { splits = []; next_page_token = [] };
  }

  abbrev scan_at : Bytes → List S → Cursor S → Cursor S
  scan_at token = scan guid value compare (record q { page_token = token })

  follow : ℕ → Result (Page S) → Option (List S)
  follow n r = elim r [ ok page ↦ collect n page | err e ↦ none | aborted ↦ none ]

  conclude-lem :
      (c : Cursor S) → c.skipping ≡ false → conclude guid value compare q c ≡ ok c.response
  conclude-lem c h = ground arith

  -- A page that is asked for with the GUID of a result continues behind that result.
  all_pages-at :
      (n : ℕ) (before : List S) (s : S) (after : List S)
      → Unique guid results
      → results ≡ before ++ s ∷ after
      → empty (guid s) ≡ false
      → (scan_at (guid s) after (fresh true)).skipping ≡ false
      → all_pages (suc n) (guid s) ≡ collect n (scan_at (guid s) after (fresh true)).response
  unfolding all_pages query_splits follow
  all_pages-at n before s after u e h hs =
      let found =
        ap
          (λ (l : List S).
            scan_at (guid s) l (begin guid value compare (record q { page_token = guid s })))
          e
        ∙ scan-skips guid value compare (record q { page_token = guid s }) before s after
            (begin guid value compare (record q { page_token = guid s })) (ground arith)
            (bytes_eq_refl (guid s)) (any-before guid before s after (subst (Unique guid) e u)) in
      ap (follow n) (
        ap (conclude guid value compare q) found
        ∙ conclude-lem (scan_at (guid s) after (fresh true)) hs)

  same_passing :
      (token : Bytes) (l : List S)
      → keep (passes guid value compare (record q { page_token = token })) l ≡ passing l
  same_passing token l = refl

  collect-Whole :
      (n : ℕ) (token : Bytes) (seen : Bool) (after : List S)
      → Whole guid value compare
          (record q { page_token = token })
          after
          (fresh seen)
          (scan_at token after (fresh seen))
      → collect n (scan_at token after (fresh seen)).response ≡ some (passing after)
  unfolding empty
  collect-Whole n token seen after w = ground (arith, w.page, w.token, same_passing token after)

  Cut-is_long :
      (token : Bytes) (seen : Bool) (after : List S)
      (c : Cut guid value compare
        (record q { page_token = token })
        after
        (fresh seen)
        (scan_at token after (fresh seen)))
      → 0 < length (passing c.taken)
  Cut-is_long token seen after c =
      omega
        (arith, c.full, ap (λ (l : List S). length l) c.page, clamp_page_size_bounds q.page_size)

  collect-next :
      (n : ℕ) (page : Page S) (token : Bytes) (rest : List S)
      → page.next_page_token ≡ token
      → empty token ≡ false
      → all_pages n token ≡ some rest
      → collect n page ≡ some (page.splits ++ rest)
  collect-next n page token rest e h k =
      ground (arith, k, ap empty e, ap (λ (t : Bytes). all_pages n t) e)

  lengths :
      (taken rest front : List S) (s : S) (back after : List S)
      → after ≡ taken ++ rest
      → taken ≡ front ++ s ∷ back
      → length (back ++ rest) < length after
  lengths taken rest front s back after e f = omega (
    arith,
    ap (λ (l : List S). length l) e,
    ap (λ (l : List S). length l) f,
    length-append taken rest,
    length-append back rest,
    length-append front (s ∷ back),
  )

  go :
      (n : ℕ) (token : Bytes) (seen : Bool) (before after : List S)
      → Unique guid results
      → All (λ s. empty (guid s) ≡ false) results
      → results ≡ before ++ after
      → length after ≤ n
      → collect n (scan_at token after (fresh seen)).response ≡ some (passing after)
  go zero token seen before after u h e k =
      elim (scan-Fills guid value compare (record q { page_token = token }) after (fresh seen) refl
        refl (omega arith)).1 [
          | inl w ↦ collect-Whole zero token seen after w
          | inr c ↦ absurd (
              omega (
                arith,
                Cut-is_long token seen after c,
                ap (λ (l : List S). length l) c.split_at,
                length-append c.taken c.rest,
                length-keep (passes guid value compare q) c.taken,
              ))
        ]
  go (suc m) token seen before after u h e k =
      elim (scan-Fills guid value compare (record q { page_token = token }) after (fresh seen) refl
        refl (omega arith)).1 [
          | inl w ↦ collect-Whole (suc m) token seen after w
          | inr c ↦
              let p = passes guid value compare q in
              let k' = last_kept p guid c.taken (Cut-is_long token seen after c) in
              let beyond = k'.back ++ c.rest in
              let place : results ≡ (before ++ k'.front) ++ k'.last ∷ beyond =
                e
                ∙ ap (λ (l : List S). before ++ l)
                    (c.split_at ∙ ap (λ (l : List S). l ++ c.rest) k'.split_at)
                ∙ simp append_assoc in
              let named =
                All-at guid (λ s. empty (guid s) ≡ false) (before ++ k'.front) k'.last beyond
                  (subst (All (λ s. empty (guid s) ≡ false)) place h) in
              let next = c.token ∙ ap (last_guid guid) c.page ∙ k'.names in
              let later =
                all_pages-at m (before ++ k'.front) k'.last beyond u place named
                  (scan-Fills guid value compare (record q { page_token = guid k'.last }) beyond
                    (fresh true) refl refl (omega arith)).0 in
              let rest =
                go m (guid k'.last) true (before ++ (k'.front ++ k'.last ∷ [])) beyond u h
                  (place ∙ simp append_assoc)
                  (omega (
                    arith,
                    lengths c.taken c.rest k'.front k'.last k'.back after c.split_at k'.split_at,
                  )) in
              collect-next (suc m) (scan_at token after (fresh seen)).response (guid k'.last)
                (passing beyond) next named (later ∙ rest)
              ∙ ap some (
                  ap₂ (λ (x y : List S). x ++ y) c.page
                    (keep-append p k'.back c.rest
                      ∙ ap (λ (x : List S). x ++ passing c.rest) k'.none_behind)
                  ∙ sym (ap passing c.split_at ∙ keep-append p c.taken c.rest))
        ]

  all_pages-first :
      (m : ℕ)
      → collect m (scan_at [] results (fresh false)).response ≡ some (passing results)
      → all_pages (suc m) [] ≡ some (passing results)
  unfolding all_pages query_splits empty follow
  all_pages-first m h =
      ap (follow m) (
        conclude-lem (scan_at [] results (fresh false))
          (scan-Fills guid value compare (record q { page_token = [] }) results (fresh false) refl
            refl (omega arith)).0)
      ∙ h

  -- If the GUIDs of the query's results are distinct, and none is empty, then the pages are, one after the other, the
  -- results whose amount is within the bounds, in order, each once; and no more pages are asked for than there are
  -- results, and one.
  pub all_pages_complete :
      Unique guid results
      → All (λ s. empty (guid s) ≡ false) results
      → (n : ℕ) → length results < n
      → all_pages n [] ≡ some (keep (passes guid value compare q) results)
  all_pages_complete u h n k = go_on n u h k
    where
      go_on :
          (n : ℕ)
          → Unique guid results
          → All (λ s. empty (guid s) ≡ false) results
          → length results < n
          → all_pages n [] ≡ some (passing results)
      go_on zero u h k = absurd (omega arith)
      go_on (suc m) u h k = all_pages-first m (go m [] false [] results u h refl (omega arith))
