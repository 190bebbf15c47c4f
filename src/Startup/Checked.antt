-- ===== src/Startup/Checked.antt =====
-- The options that the daemon starts with.
use daichod.Base.{ℕ, true, false, ◌≡◌, refl, [], ◌∷◌, ◌++◌, arith, inr}
use daichod.Base.Text.{Bytes, str, empty}
use daichod.Startup.{Options, check_options, book_path, is_absolute}

nonempty-append : (s : Bytes) (b : ℕ) (t : Bytes) → empty (s ++ b ∷ t) ≡ false
unfolding empty
nonempty-append [] b t = refl
nonempty-append (c ∷ s) b t = refl

suffix_is_kept : (s : Bytes) → empty (s ++ str ".daichod-journal") ≡ false
unfolding str empty
suffix_is_kept s = nonempty-append s _ _

-- Options that pass have a book, an absolute socket path and a journal, keep backups only for a
-- book that is a file, and differ from those given in nothing but a journal that was left out.
pub check_options-inr :
    (o p : Options)
    → check_options o ≡ inr p
    → (empty p.book_uri ≡ false)
      × (is_absolute p.socket_path ≡ true)
      × (empty p.journal_path ≡ false)
      × (empty p.backup_dir ≡ false → empty (book_path p) ≡ false)
      × (empty o.journal_path ≡ false → p ≡ o)
      × (record p { journal_path = o.journal_path } ≡ o)
unfolding check_options
check_options-inr o p h = ground (arith, suffix_is_kept (book_path o))
