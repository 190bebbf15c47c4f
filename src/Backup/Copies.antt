-- ===== src/Backup/Copies.antt =====
-- The steps of the try block of SnapshotBeforeOpen up to the rename.
use daichod.Base.{
  any, any-append, keep-append, ◌≡◌, refl, sym, ap, subst, ◌∙◌, true, false, not, ◌&&◌, first,
  Bool-cases, inl, inr, Option, none, some, List, [], ◌∷◌, ◌++◌, All, if◌then◌else◌, arith,
}
use mathlib.Core.List.{append-nil, append_assoc}
use daichod.Base.Text.{Bytes, str, bytes_eq, bytes_eq_refl}
use daichod.Exec.{ok, err}
use daichod.Rpc.Error.{other}
use daichod.Backup.{
  is_obstacle, first, File, Folder, Disk, is_named, has_folder, without, create_directories,
  put_into, has_file, find_file, copy_of, copy_if, copy_each,
}
use daichod.Backup.After.{Sees, exists-Sees, if-After, After, then-After, call-After}

-- Every folder of a name ends with these files.
abbrev pub EndsWith : Bytes → List File → List Folder → Type 0
EndsWith n fs folders =
    All (λ f. is_named n f ≡ true → (extra : List File) × (f.contents ≡ extra ++ fs)) folders

module _ (tmp : Bytes) (start : Disk) where
  -- Nothing but the folder of the snapshot has changed.
  pub record IsClean (d : Disk) : Type 0 where
    pub others : without tmp d.folders ≡ without tmp start.folders
    pub same_files : d.files ≡ start.files
    pub sees : Sees d

module _ (filename : Bytes → Bytes) where
  -- The copies of a file and of its sidecars, of those that exist.
  abbrev copy_list : Option File → List File
  copy_list none = []
  copy_list (some f) = copy_of filename f ∷ []

  abbrev pub copies : Bytes → List Bytes → Disk → List File
  copies path [] d = []
  copies path (s ∷ ss) d = copy_list (find_file filename (path ++ s) d) ++ copies path ss d

  module _ (tmp : Bytes) (start : Disk) where
    pub record Holds (fs : List File) (d : Disk) : Type 0 where
      pub clean : IsClean tmp start d
      pub holds : EndsWith tmp fs d.folders
      pub there : has_folder tmp d ≡ true

    pub without-put_into :
        (f : File) (folders : List Folder)
        → without tmp (put_into tmp f folders) ≡ without tmp folders
    without-put_into f [] = refl
    without-put_into f (x ∷ xs) = ground (arith, without-put_into f xs)

    any-put_into :
        (f : File) (folders : List Folder)
        → any (is_named tmp) (put_into tmp f folders) ≡ any (is_named tmp) folders
    any-put_into f [] = refl
    any-put_into f (x ∷ xs) = ground (arith, any-put_into f xs)

    put_one :
        (f : File) (fs : List File) (x : Folder)
        → (is_named tmp x ≡ true → (extra : List File) × (x.contents ≡ extra ++ fs))
        → let y = if is_named tmp x then record x { contents = x.contents ++ f ∷ [] } else x in
          is_named tmp y ≡ true → (extra : List File) × (y.contents ≡ extra ++ (fs ++ f ∷ []))
    put_one f fs x h named = elim (Bool-cases (is_named tmp x)) [
      | inl this ↦
          let (extra, q) = h this in
          (extra, ground (arith, this, q, append_assoc extra fs (f ∷ [])))
      | inr another ↦ ground (arith, another, named)
    ]

    EndsWith-put_into :
        (f : File) (fs : List File) (folders : List Folder)
        → EndsWith tmp fs folders
        → EndsWith tmp (fs ++ f ∷ []) (put_into tmp f folders)
    EndsWith-put_into f fs [] h = tt
    EndsWith-put_into f fs (x ∷ xs) h = (put_one f fs x h.0, EndsWith-put_into f fs xs h.1)

    copy_if-Holds :
        (o : Option File) (fs : List File) (d : Disk)
        → Holds fs d
        → After (Holds (fs ++ copy_list o)) (IsClean tmp start) (copy_if filename tmp o d)
    unfolding After
    copy_if-Holds none fs d h = subst (λ l. Holds l d) (sym (append-nil fs)) h
    copy_if-Holds (some f) fs d h =
        call-After (Holds (fs ++ copy_of filename f ∷ [])) (IsClean tmp start) _ d
          (λ faults. record {
            others = h.clean.others;
            same_files = h.clean.same_files;
            sees = h.clean.sees;
          })
          (λ faults.
            elim (any
                (λ folder. is_named tmp folder && has_file (copy_of filename f).file_name folder)
                d.folders)
              as (λ c. After (Holds (fs ++ copy_of filename f ∷ [])) (IsClean tmp start) (
                if c then (err (other (str "File exists")), record d { faults = faults }) else (
                  ok tt,
                  record d {
                    faults = faults;
                    folders = put_into tmp (copy_of filename f) d.folders;
                  },
                ))) [
                  | true ↦ record {
                    others = h.clean.others;
                    same_files = h.clean.same_files;
                    sees = h.clean.sees;
                  }
                  | false ↦ record {
                    clean = record {
                      others = without-put_into (copy_of filename f) d.folders ∙ h.clean.others;
                      same_files = h.clean.same_files;
                      sees = h.clean.sees;
                    };
                    holds = EndsWith-put_into (copy_of filename f) fs d.folders h.holds;
                    there = any-put_into (copy_of filename f) d.folders ∙ h.there;
                  }
                ])

    pub copy_each-Holds :
        (path : Bytes) (ss : List Bytes) (fs : List File) (d : Disk)
        → Holds fs d
        → After
            (Holds (fs ++ copies path ss start))
            (IsClean tmp start)
            (copy_each filename path tmp ss d)
    unfolding copy_each After
    copy_each-Holds path [] fs d h = subst (λ l. Holds l d) (sym (append-nil fs)) h
    copy_each-Holds path (s ∷ ss) fs d h =
        rw (exists-Sees (find_file filename (path ++ s) d) none d h.clean.sees) (
          then-After (Holds (fs ++ copy_list (find_file filename (path ++ s) start))) _
            (IsClean tmp start) (copy_if filename tmp (find_file filename (path ++ s) d) d) _
            (subst
              (λ l.
                After (Holds (fs ++ copy_list l)) (IsClean tmp start)
                  (copy_if filename tmp (find_file filename (path ++ s) d) d))
              (ap (first (λ f. bytes_eq f.file_name (path ++ s))) h.clean.same_files)
              (copy_if-Holds (find_file filename (path ++ s) d) fs d h))
            (λ d' h'.
              subst (λ l. After (Holds l) (IsClean tmp start) (copy_each filename path tmp ss d'))
                (append_assoc fs (copy_list (find_file filename (path ++ s) start))
                  (copies path ss start))
                (copy_each-Holds path ss (fs ++ copy_list (find_file filename (path ++ s) start)) d'
                  h')))

    EndsWith-nil : (folders : List Folder) → EndsWith tmp [] folders
    EndsWith-nil [] = tt
    EndsWith-nil (x ∷ xs) = ((λ h. (x.contents, sym (append-nil x.contents))), EndsWith-nil xs)

    pub create_directories-Holds :
        (d : Disk)
        → IsClean tmp start d
        → After (Holds []) (IsClean tmp start) (create_directories tmp d)
    unfolding After
    create_directories-Holds d c =
        call-After (Holds []) (IsClean tmp start) _ d
          (λ faults. record { others = c.others; same_files = c.same_files; sees = c.sees })
          (λ faults.
            if-After (Holds []) (IsClean tmp start) (any (is_obstacle tmp) d.folders) _ _
              (λ obstacle. record { others = c.others; same_files = c.same_files; sees = c.sees })
              (λ free. elim (Bool-cases (has_folder tmp d)) [
                | inl there ↦ rw there (record {
                  clean = record { others = c.others; same_files = c.same_files; sees = c.sees };
                  holds = EndsWith-nil d.folders;
                  there = there;
                })
                | inr absent ↦
                    let new : Folder = record { name = tmp; is_directory = true; contents = [] } in
                    rw absent (record {
                      clean = record {
                        others = ground (
                          arith,
                          keep-append (λ f. not (is_named tmp f)) d.folders (new ∷ []),
                          bytes_eq_refl tmp,
                          c.others,
                          append-nil (without tmp d.folders),
                        );
                        same_files = c.same_files;
                        sees = c.sees;
                      };
                      holds = EndsWith-nil (d.folders ++ new ∷ []);
                      there = ground (
                        arith,
                        any-append (is_named tmp) d.folders (new ∷ []),
                        bytes_eq_refl tmp,
                      );
                    })
              ]))
