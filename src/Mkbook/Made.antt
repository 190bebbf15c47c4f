-- ===== src/Mkbook/Made.antt =====
-- How mkbook ends.
use daichod.Base.{◌≡◌, refl, ℕ, true, false, List, [], ◌∷◌, ◌++◌, ◌⊎◌, inl, inr, Bool-cases, arith}
use daichod.Base.Text.{Bytes, str}
use daichod.Engine.Session.{BackendError, no_err, locked, readonly, perm, other_error, is_no_err}
use daichod.Mkbook.{Process, Creation, make_book, begun_book, initialised}

-- The book is made, its root account's GUID is all that is printed, and nothing of the engine is left.
pub record IsMade (c : Creation) (p : Process) (r : ℕ × Process) : Type 0 where
  pub code : r.0 ≡ 0
  pub begun : c.begin.error ≡ no_err
  pub saved : c.save.error ≡ no_err
  pub printed_guid : r.1.printed ≡ p.printed ++ c.root_guid ∷ []
  pub quiet : r.1.complained ≡ p.complained
  pub unlocked : r.1.holds_lock ≡ false
  pub sessions : r.1.live_sessions ≡ p.live_sessions
  pub shut_down : r.1.engine_up ≡ false

-- One line says on stderr why there is no book, and stdout is as it was.
pub record IsRefused (p : Process) (r : ℕ × Process) : Type 0 where
  pub code : r.0 ≡ 1
  pub nothing_printed : r.1.printed ≡ p.printed
  pub line : Bytes
  pub complained : r.1.complained ≡ p.complained ++ line ∷ []

no_err_lem : (b : BackendError) → is_no_err b ≡ true → b ≡ no_err
no_err_lem no_err h = refl
no_err_lem locked h = absurd (ground (arith, h))
no_err_lem readonly h = absurd (ground (arith, h))
no_err_lem perm h = absurd (ground (arith, h))
no_err_lem other_error h = absurd (ground (arith, h))

begun_or_not :
    (c : Creation) (p : Process)
    → IsMade c p (begun_book c (initialised p)) ⊎ IsRefused p (begun_book c (initialised p))
begun_or_not c p = elim (Bool-cases (is_no_err c.begin.error)) [
  | inr bad ↦ inr (
      rw bad (record {
        code = refl;
        nothing_printed = refl;
        line = str "begin failed: " ++ c.begin.message;
        complained = refl;
      }))
  | inl began ↦ elim (Bool-cases (is_no_err c.save.error)) [
    | inr bad ↦ inr (
        rw (began, bad)
          (record {
            code = refl;
            nothing_printed = refl;
            line = str "save failed: " ++ c.save.message;
            complained = refl;
          }))
    | inl well ↦ inl (
        rw (began, well)
          (record {
            code = refl;
            begun = no_err_lem c.begin.error began;
            saved = no_err_lem c.save.error well;
            printed_guid = refl;
            quiet = refl;
            unlocked = refl;
            sessions = omega arith;
            shut_down = refl;
          }))
  ]
]

-- However mkbook is called and whatever the engine answers, either its exit code is 0, and then the engine has begun and saved
-- the book, stdout has the root account's GUID, and no session, lock or engine is left; or it is 1, stdout is as it was, and
-- one line on stderr says why.
pub make_book-IsMade :
    (argv : List Bytes) (c : Creation) (p : Process)
    → IsMade c p (make_book argv c p) ⊎ IsRefused p (make_book argv c p)
unfolding make_book
make_book-IsMade [] c p =
    inr (record { code = refl; nothing_printed = refl; line = _; complained = refl })
make_book-IsMade (a ∷ []) c p =
    inr (record { code = refl; nothing_printed = refl; line = _; complained = refl })
make_book-IsMade (a ∷ uri ∷ []) c p = begun_or_not c p
make_book-IsMade (a ∷ uri ∷ x ∷ xs) c p =
    inr (record { code = refl; nothing_printed = refl; line = _; complained = refl })
