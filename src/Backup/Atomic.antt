-- ===== src/Backup/Atomic.antt =====
-- What SnapshotBeforeOpen leaves in the backup directory, wherever a call of it fails.
use daichod.Base.{
  any, ◌≡◌, refl, sym, ap, ◌∙◌, Bool, true, false, Bool-cases, inl, inr, ◌⊎◌, none, some, List, [],
  ◌∷◌, ◌++◌, arith,
}
use daichod.Base.Int.{ℤ}
use daichod.Base.Text.{Bytes, str, bytes_eq, bytes_eq_iff, bytes_eq_refl}
use daichod.Exec.{Result, ok, err, aborted}
use daichod.Rpc.Error.{Exception, shim, queue_full, worker_stopped, other}
use daichod.Backup.{
  is_in_the_way, stamps_of, sort_stamps, size_of, unless_fault, rename, File, Folder, Disk,
  is_named, has_folder, without, create_directories, renamed, suffixes, copy_with_sidecars,
  assemble, prune, pruned, remove_all, quietly, snapshot_before_open,
}
use daichod.Backup.Copies.{
  EndsWith, copies, IsClean, Holds, copy_each-Holds, create_directories-Holds,
}
use daichod.Backup.After.{Sees, exists-Sees, if-After, After, then-After, call-After}

append_differs : (s : Bytes) → bytes_eq (s ++ str ".tmp") s ≡ false
unfolding bytes_eq str
append_differs [] = refl
append_differs (b ∷ bs) = ground (arith, append_differs bs)

without-without : (n : Bytes) (fs : List Folder) → without n (without n fs) ≡ without n fs
without-without n [] = refl
without-without n (x ∷ xs) = ground (arith, without-without n xs)

without-absent : (n : Bytes) (fs : List Folder) → any (is_named n) fs ≡ false → without n fs ≡ fs
without-absent n [] h = refl
without-absent n (x ∷ xs) h =
    ground (arith, h, ap (λ rest. x ∷ rest) (without-absent n xs (ground (arith, h))))

module _ (filename : Bytes → Bytes) where
  module _ (tmp today : Bytes) (start : Disk) where
    -- The snapshot is there under its name, with the copies, and nothing else has changed.
    pub record IsTaken (fs : List File) (d : Disk) : Type 0 where
      pub taken : has_folder today d ≡ true
      pub complete : EndsWith today fs d.folders
      pub rest : without today d.folders ≡ without tmp start.folders

    -- There is no snapshot of today, and nothing but the temporary folder has changed.
    pub record IsUntaken (d : Disk) : Type 0 where
      pub untaken : has_folder today d ≡ false
      pub kept : without tmp d.folders ≡ without tmp start.folders

  module _ (tmp today : Bytes) (start : Disk) (other_name : bytes_eq tmp today ≡ false) where
    any-renamed :
        (folders : List Folder)
        → any (is_named tmp) folders ≡ true
        → any (is_named today) (renamed tmp today folders) ≡ true
    any-renamed [] h = ground (arith, h)
    any-renamed (x ∷ xs) h = elim (Bool-cases (is_named tmp x)) [
      | inl this ↦ ground (arith, this, bytes_eq_refl today)
      | inr another ↦ ground (arith, another, h, any-renamed xs (ground (arith, another, h)))
    ]

    without-renamed :
        (folders : List Folder)
        → any (is_named today) folders ≡ false
        → without today (renamed tmp today folders) ≡ without tmp folders
    without-renamed [] h = refl
    without-renamed (x ∷ xs) h =
        ground (arith, h, bytes_eq_refl today, without-renamed xs (ground (arith, h)))

    EndsWith-renamed :
        (fs : List File) (folders : List Folder)
        → any (is_named today) folders ≡ false
        → EndsWith tmp fs folders
        → EndsWith today fs (renamed tmp today folders)
    EndsWith-renamed fs [] h a = tt
    EndsWith-renamed fs (x ∷ xs) h a = (
      λ named. elim (Bool-cases (is_named tmp x)) [
        | inl this ↦ let (extra, q) = a.0 this in (extra, ground (arith, this, q))
        | inr another ↦ ground (arith, another, named, h)
      ],
      EndsWith-renamed fs xs (ground (arith, h)) a.1,
    )

    -- Whether a folder of today is there is seen without the temporary one.
    any-without :
        (folders : List Folder)
        → any (is_named today) (without tmp folders) ≡ any (is_named today) folders
    any-without [] = refl
    any-without (x ∷ xs) = elim (Bool-cases (is_named tmp x)) [
      | inl this ↦ ground (
        arith,
        this,
        any-without xs,
        other_name,
        ap (λ n. bytes_eq n today) ((bytes_eq_iff x.name tmp).0 this),
      )
      | inr another ↦ ground (arith, another, any-without xs)
    ]

    module _ (none_today : has_folder today start ≡ false) where
      IsClean-untaken : (d : Disk) → IsClean tmp start d → has_folder today d ≡ false
      IsClean-untaken d c =
          sym (any-without d.folders)
          ∙ ap (any (is_named today)) c.others
          ∙ any-without start.folders
          ∙ none_today

      After-IsUntaken :
          (fs : List File) (p : Result (Unit {0}) × Disk)
          → After (IsTaken tmp today start fs) (IsClean tmp start) p
          → After (IsTaken tmp today start fs) (IsUntaken tmp today start) p
      unfolding After
      After-IsUntaken fs (ok u, d) h = h
      After-IsUntaken fs (err e, d) h = record { untaken = IsClean-untaken d h; kept = h.others }
      After-IsUntaken fs (aborted, d) h = h

      rename-IsTaken :
          (fs : List File) (d : Disk)
          → Holds filename tmp start fs d
          → After (IsTaken tmp today start fs) (IsClean tmp start) (rename tmp today d)
      unfolding After
      rename-IsTaken fs d h =
          let untaken = IsClean-untaken d h.clean in
          call-After (IsTaken tmp today start fs) (IsClean tmp start) _ d
            (λ faults. record {
              others = h.clean.others;
              same_files = h.clean.same_files;
              sees = h.clean.sees;
            })
            (λ faults.
              if-After (IsTaken tmp today start fs) (IsClean tmp start)
                (any (is_in_the_way today) d.folders) _ _
                (λ occupied. record {
                  others = h.clean.others;
                  same_files = h.clean.same_files;
                  sees = h.clean.sees;
                })
                (λ free. rw (without-absent today d.folders untaken) (record {
                  taken = any-renamed d.folders h.there;
                  complete = EndsWith-renamed fs d.folders untaken h.holds;
                  rest = without-renamed d.folders untaken ∙ h.clean.others;
                })))

      pub assemble-IsTaken :
          (book_path journal_path : Bytes) (d : Disk)
          → IsClean tmp start d
          → After
              (IsTaken tmp today start (
                copies filename book_path suffixes start
                ++ copies filename journal_path suffixes start))
              (IsUntaken tmp today start)
              (assemble filename book_path journal_path tmp today d)
      unfolding assemble
      assemble-IsTaken book_path journal_path d c =
          let all =
            copies filename book_path suffixes start
            ++ copies filename journal_path suffixes start in
          After-IsUntaken all _ (
            then-After (Holds filename tmp start []) (IsTaken tmp today start all)
              (IsClean tmp start) (create_directories tmp d) _
              (create_directories-Holds filename tmp start d c)
              (λ d1 h1.
                then-After (Holds filename tmp start (copies filename book_path suffixes start))
                  (IsTaken tmp today start all) (IsClean tmp start)
                  (copy_with_sidecars filename book_path tmp d1) _
                  (copy_each-Holds filename tmp start book_path suffixes [] d1 h1)
                  (λ d2 h2.
                    then-After (Holds filename tmp start all) (IsTaken tmp today start all)
                      (IsClean tmp start) (copy_with_sidecars filename journal_path tmp d2) _
                      (copy_each-Holds filename tmp start journal_path suffixes
                        (copies filename book_path suffixes start) d2 h2)
                      (λ d3 h3. rename-IsTaken all d3 h3))))

  remove_all-IsClean : (tmp : Bytes) (d : Disk) → Sees d → IsClean tmp d (remove_all tmp d)
  unfolding quietly
  remove_all-IsClean tmp d sees =
      elim d.faults
        as (λ fs. IsClean tmp d (elim fs [
          | [] ↦ record d { folders = without tmp d.folders }
          | x ∷ xs ↦
              unless_fault x (λ d. record d { folders = without tmp d.folders })
                (record d { faults = xs })
        ])) [
          | [] ↦ record { others = without-without tmp d.folders; same_files = refl; sees = sees }
          | x ∷ xs ↦
              elim x
                as (λ o. IsClean tmp d (
                  unless_fault o (λ d. record d { folders = without tmp d.folders })
                    (record d { faults = xs }))) [
                      | none ↦ record {
                        others = without-without tmp d.folders;
                        same_files = refl;
                        sees = sees;
                      }
                      | some what ↦ record { others = refl; same_files = refl; sees = sees }
                    ]
        ]

  module _ (stamp book_path journal_path backup_dir : Bytes) (keep_days : ℤ) (d : Disk) where
    abbrev tmp_name : Bytes
    tmp_name = stamp ++ str ".tmp"

    -- What the snapshot is to hold.
    abbrev pub all_copies : List File
    all_copies = copies filename book_path suffixes d ++ copies filename journal_path suffixes d

    -- It is taken, before the prune loop, or it is not.
    abbrev pub IsAtomic : Result Bool × Disk → Type 0
    IsAtomic p =
        ((d' : Disk) × IsTaken tmp_name stamp d all_copies d'
          × (p ≡ (ok true, prune (size_of keep_days) (sort_stamps (stamps_of d'.folders)) d')))
        ⊎ ((e : Exception) × (p.0 ≡ err e) × IsUntaken tmp_name stamp d p.1)

    pruned-IsAtomic :
        (p : Result (Unit {0}) × Disk)
        → After (IsTaken tmp_name stamp d all_copies) (IsUntaken tmp_name stamp d) p
        → IsAtomic (pruned filename backup_dir keep_days p)
    unfolding pruned After
    pruned-IsAtomic (ok u, d') h = inl (d', h, refl)
    pruned-IsAtomic (err (shim x), d') h = inr (_, refl, h)
    pruned-IsAtomic (err queue_full, d') h = inr (_, refl, h)
    pruned-IsAtomic (err worker_stopped, d') h = inr (_, refl, h)
    pruned-IsAtomic (err (other w), d') h = inr (_, refl, h)
    pruned-IsAtomic (aborted, d') h = elim h [ ]

    -- On a day without a snapshot, if no call of fs::exists fails, and whichever of the calls that change the file system do: either today's folder is there, ending with a copy of the book, of the
    -- journal and of each sidecar that exists, all else as it was, and the prune loop follows; or the error is thrown, there
    -- is no folder of today, and nothing but the temporary folder has changed.
    pub snapshot-IsAtomic :
        has_folder stamp d ≡ false
        → Sees d
        → IsAtomic
            (snapshot_before_open filename stamp book_path journal_path backup_dir keep_days d)
    unfolding snapshot_before_open
    snapshot-IsAtomic new_day sees = rw (exists-Sees (has_folder stamp d) false d sees) (
        rw new_day (
          pruned-IsAtomic
            (assemble filename book_path journal_path tmp_name stamp (remove_all tmp_name d))
            (assemble-IsTaken tmp_name stamp d (append_differs stamp) new_day book_path journal_path
              (remove_all tmp_name d) (remove_all-IsClean tmp_name d sees))))
