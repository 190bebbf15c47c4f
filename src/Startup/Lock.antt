-- ===== src/Startup/Lock.antt =====
-- Which daemons contend for the lock of a book.
use mathlib.Core.List.{append_cancel_right}
use daichod.Base.{
  refl, Bool, false, not, ◌==◌, [], ◌≢◌, true, ◌≡◌, ap, ap₂, sym, ◌∙◌, ◌∷◌, ◌++◌, arith,
}
use daichod.Base.Text.{Bytes, str, empty, take}
use daichod.Base.Find.{Lacks}
use daichod.Uri.{strip_credentials, hex_encode}
use daichod.Uri.Credentials.{with_scheme, strip_credentials-with_scheme}
use daichod.Startup.{is_absolute, Options, book_path, book_lock_path}

-- fs::path::has_filename: the text does not end in a slash, and is not empty.
abbrev pub has_filename : Bytes → Bool
has_filename [] = false
has_filename (c ∷ []) = not (c == b'/')
has_filename (c ∷ s) = has_filename s

module _ (parent_path : Bytes → Bytes) (join_paths : Bytes → Bytes → Bytes)
    (sha256 : Bytes → Bytes) where
  lock_of_stripped :
      (o p : Options)
      → empty (book_path o) ≡ true
      → empty (book_path p) ≡ true
      → parent_path o.journal_path ≡ parent_path p.journal_path
      → strip_credentials o.book_uri ≡ strip_credentials p.book_uri
      → book_lock_path parent_path join_paths sha256 o
        ≡ book_lock_path parent_path join_paths sha256 p
  unfolding book_lock_path
  lock_of_stripped o p ho hp ej eu =
      let same =
        ap₂ (λ (d u : Bytes). join_paths d (take 32 (hex_encode (sha256 u)) ++ str ".daichod.lock"))
          ej eu in
      ground (arith, same)

  -- Two daemons whose database URIs differ in the credentials alone, and whose journals lie in one directory,
  -- contend for one lock.
  pub credentials_share_lock :
      (o p : Options) (scheme mine yours rest : Bytes)
      → o.book_uri ≡ with_scheme scheme (mine ++ b'@' ∷ rest)
      → p.book_uri ≡ with_scheme scheme (yours ++ b'@' ∷ rest)
      → Lacks b':' scheme
      → Lacks b'@' mine × Lacks b'/' mine
      → Lacks b'@' yours × Lacks b'/' yours
      → empty (book_path o) ≡ true
      → empty (book_path p) ≡ true
      → parent_path o.journal_path ≡ parent_path p.journal_path
      → book_lock_path parent_path join_paths sha256 o
        ≡ book_lock_path parent_path join_paths sha256 p
  credentials_share_lock o p scheme mine yours rest eo ep hs hm hy ho hp ej =
      lock_of_stripped o p ho hp ej (
        ap strip_credentials eo
        ∙ strip_credentials-with_scheme scheme mine rest hs hm.0 hm.1
        ∙ sym (strip_credentials-with_scheme scheme yours rest hs hy.0 hy.1)
        ∙ sym (ap strip_credentials ep))

  -- The name of a database's lock file is not a rooted path.
  abbrev name_of : Options → Bytes
  name_of o = take 32 (hex_encode (sha256 (strip_credentials o.book_uri))) ++ str ".daichod.lock"

  take-unrooted :
      (digest : Bytes) → is_absolute (take 32 (hex_encode digest) ++ str ".daichod.lock") ≡ false
  unfolding take hex_encode str
  take-unrooted [] = refl
  take-unrooted (byte ∷ digest) = ground arith

  -- Two daemons on one database, whose journals lie in different directories, lock different files, so neither keeps the other
  -- out; for directories that end in a name, where a name that is not rooted is joined to such a directory by a slash.
  pub directories_split_lock :
      (o p : Options)
      → ((d f : Bytes)
          → has_filename d ≡ true
          → is_absolute f ≡ false
          → join_paths d f ≡ d ++ b'/' ∷ f)
      → empty (book_path o) ≡ true
      → empty (book_path p) ≡ true
      → strip_credentials o.book_uri ≡ strip_credentials p.book_uri
      → has_filename (parent_path o.journal_path) ≡ true
      → has_filename (parent_path p.journal_path) ≡ true
      → parent_path o.journal_path ≢ parent_path p.journal_path
      → book_lock_path parent_path join_paths sha256 o
        ≢ book_lock_path parent_path join_paths sha256 p
  unfolding book_lock_path
  directories_split_lock o p joins ho hp one_book ends_o ends_p differ same =
      let by_branches : join_paths (parent_path o.journal_path) (name_of o)
          ≡ join_paths (parent_path p.journal_path) (name_of p) =
        ground (arith, ho, hp, same) in
      let unrooted = take-unrooted (sha256 (strip_credentials o.book_uri)) in
      let named : name_of o ≡ name_of p =
        ap (λ u. take 32 (hex_encode (sha256 u)) ++ str ".daichod.lock") one_book in
      differ (
        append_cancel_right (parent_path o.journal_path) (parent_path p.journal_path)
          (b'/' ∷ name_of o)
          (sym (joins (parent_path o.journal_path) (name_of o) ends_o unrooted)
            ∙ by_branches
            ∙ ap (join_paths (parent_path p.journal_path)) (sym named)
            ∙ joins (parent_path p.journal_path) (name_of o) ends_p unrooted))
