-- ===== src/Backup/Retention.antt =====
-- How many snapshots the prune loop of SnapshotBeforeOpen leaves.
use daichod.Base.{
  any, ℕ, ◌≤◌, ◌≡◌, refl, ap, ◌∙◌, Bool, true, false, not, ◌&&◌, Bool-cases, inl, inr, none, some,
  List, [], ◌∷◌, ◌++◌, keep, length, ltb, if◌then◌else◌, arith,
}
use daichod.Base.Int.{ℤ}
use daichod.Base.Text.{Bytes, str, bytes_eq, bytes_eq_refl}
use daichod.Exec.{Result, ok, err, aborted}
use daichod.Backup.After.{exists-Quiet, if-After, After, Both, Quiet, then-After, call-Quiet}
use daichod.Rpc.Error.{shim, queue_full, worker_stopped, other}
use daichod.Backup.{
  renamed, is_in_the_way, is_obstacle, Option, exists, File, put_into, suffixes, copy_of, has_file,
  copy_with_sidecars, create_directories, copy_each, copy_if, find_file, Disk, Folder, is_named,
  has_folder, without, quietly, remove_all, insert_stamp, sort_stamps, stamps_of, prune, size_of,
  pruned, assemble, snapshot_before_open,
}

abbrev count : (Bytes → Bool) → List Bytes → ℕ
count p ss = length (keep p ss)

count-insert_stamp :
    (p : Bytes → Bool) (s : Bytes) (ss : List Bytes)
    → count p (insert_stamp s ss) ≡ count p (s ∷ ss)
unfolding insert_stamp
count-insert_stamp p s [] = refl
count-insert_stamp p s (t ∷ ts) = ground (arith, count-insert_stamp p s ts)

count-sort_stamps : (p : Bytes → Bool) (ss : List Bytes) → count p (sort_stamps ss) ≡ count p ss
unfolding sort_stamps
count-sort_stamps p [] = refl
count-sort_stamps p (s ∷ ss) =
    ground (arith, count-insert_stamp p s (sort_stamps ss), count-sort_stamps p ss)

-- What a removal leaves, counted.
count-without :
    (p : Bytes → Bool) (n : Bytes) (fs : List Folder)
    → count p (stamps_of (without n fs)) ≡ count (λ s. p s && not (bytes_eq s n)) (stamps_of fs)
count-without p n [] = refl
count-without p n (f ∷ fs) = ground (arith, count-without p n fs)

count-weaker :
    (p : Bytes → Bool) (n : Bytes) (ss : List Bytes)
    → count (λ s. p s && not (bytes_eq s n)) ss ≤ count p ss
count-weaker p n [] = omega arith
count-weaker p n (s ∷ ss) = ground (arith, count-weaker p n ss)

AtMost : List Bytes → Disk → Type 0
AtMost ss d = (p : Bytes → Bool) → count p (stamps_of d.folders) ≤ count p ss

remove_all-quiet :
    (s : Bytes) (d : Disk)
    → d.faults ≡ []
    → remove_all s d ≡ record d { folders = without s d.folders }
unfolding quietly
remove_all-quiet s d quiet = ground (arith, quiet)

remove_all-AtMost :
    (s : Bytes) (ss : List Bytes) (d : Disk)
    → AtMost (s ∷ ss) d
    → AtMost ss (record d { folders = without s d.folders })
unfolding AtMost
remove_all-AtMost s ss d h p = ground (
  arith,
  count-without p s d.folders,
  h (λ t. p t && not (bytes_eq t s)),
  bytes_eq_refl s,
  count-weaker p s ss,
)

count_all_lem : (ss : List Bytes) → count (λ s. true) ss ≡ length ss
count_all_lem [] = refl
count_all_lem (s ∷ ss) = ground (arith, count_all_lem ss)

prune-count :
    (limit : ℕ) (ss : List Bytes) (d : Disk)
    → d.faults ≡ []
    → AtMost ss d
    → length (stamps_of (prune limit ss d).folders) ≤ limit
unfolding prune AtMost
prune-count limit [] d quiet h = ground (arith, h (λ s. true), count_all_lem (stamps_of d.folders))
prune-count limit (s ∷ ss) d quiet h = elim (Bool-cases (ltb limit (length (s ∷ ss)))) [
  | inl more ↦ ground (
    arith,
    more,
    ap (λ (x : Disk). length (stamps_of (prune limit ss x).folders)) (remove_all-quiet s d quiet),
    prune-count limit ss (record d { folders = without s d.folders }) quiet
        (remove_all-AtMost s ss d h),
  )
  | inr few ↦
      ground
        (arith, few, h (λ s. true), count_all_lem (stamps_of d.folders), count_all_lem (s ∷ ss))
]

stamps-AtMost : (d : Disk) → AtMost (sort_stamps (stamps_of d.folders)) d
unfolding AtMost
stamps-AtMost d p = ground (arith, count-sort_stamps p (stamps_of d.folders))

module _ (filename : Bytes → Bytes) where
  copy_if-Quiet :
      (n : Bytes) (o : Option File) (d : Disk) → Quiet d → Both Quiet (copy_if filename n o d)
  unfolding After
  copy_if-Quiet n none d quiet = quiet
  copy_if-Quiet n (some f) d quiet = call-Quiet Quiet Quiet _ d quiet (
      if-After Quiet Quiet
        (any (λ folder. is_named n folder && has_file (copy_of filename f).file_name folder)
          d.folders)
        (err (other (str "File exists")), d)
        (ok tt, record d { folders = put_into n (copy_of filename f) d.folders }) (λ there. quiet)
        (λ new. quiet))

  copy_each-Quiet :
      (path n : Bytes) (ss : List Bytes) (d : Disk)
      → Quiet d
      → Both Quiet (copy_each filename path n ss d)
  unfolding copy_each After
  copy_each-Quiet path n [] d quiet = quiet
  copy_each-Quiet path n (s ∷ ss) d quiet =
      let seen = exists (find_file filename (path ++ s) d) none d in
      let quiet_still = exists-Quiet (find_file filename (path ++ s) d) none d quiet in
      then-After Quiet Quiet Quiet (copy_if filename n seen.0 seen.1) _
        (copy_if-Quiet n seen.0 seen.1 quiet_still)
        (λ d' quiet'. copy_each-Quiet path n ss d' quiet')

  assemble-Quiet :
      (book_path journal_path tmp today : Bytes) (d : Disk)
      → Quiet d
      → Both Quiet (assemble filename book_path journal_path tmp today d)
  unfolding assemble After
  assemble-Quiet book_path journal_path tmp today d quiet =
      then-After Quiet Quiet Quiet (create_directories tmp d) _
        (call-Quiet Quiet Quiet _ d quiet (
          if-After Quiet Quiet (any (is_obstacle tmp) d.folders)
            (err (other (str "Not a directory")), d)
            (
              ok tt,
              if has_folder tmp d then d else record d {
                folders =
                    d.folders ++ record { name = tmp; is_directory = true; contents = [] } ∷ [];
              },
            )
            (λ obstacle. quiet)
            (λ free.
              elim (has_folder tmp d)
                as (λ c. Quiet (
                  if c then d else record d {
                    folders =
                        d.folders ++ record { name = tmp; is_directory = true; contents = [] } ∷ [];
                  })) [ true ↦ quiet | false ↦ quiet ])))
        (λ d1 q1.
          then-After Quiet Quiet Quiet (copy_with_sidecars filename book_path tmp d1) _
            (copy_each-Quiet book_path tmp suffixes d1 q1)
            (λ d2 q2.
              then-After Quiet Quiet Quiet (copy_with_sidecars filename journal_path tmp d2) _
                (copy_each-Quiet journal_path tmp suffixes d2 q2)
                (λ d3 q3. call-Quiet Quiet Quiet _ d3 q3 (
                  if-After Quiet Quiet (any (is_in_the_way today) d3.folders)
                    (err (other (str "Directory not empty")), d3)
                    (ok tt, record d3 { folders = renamed tmp today (without today d3.folders) })
                    (λ occupied. q3) (λ free. q3)))))

  pruned-bound :
      (backup_dir : Bytes) (keep_days : ℤ) (p : Result (Unit {0}) × Disk)
      → Both Quiet p
      → (pruned filename backup_dir keep_days p).0 ≡ ok true
      → length (stamps_of (pruned filename backup_dir keep_days p).1.folders) ≤ size_of keep_days
  unfolding pruned After
  pruned-bound backup_dir keep_days (ok u, d) quiet h =
      prune-count (size_of keep_days) (sort_stamps (stamps_of d.folders)) d quiet (stamps-AtMost d)
  pruned-bound backup_dir keep_days (err (shim x), d) quiet h = ground (arith, h)
  pruned-bound backup_dir keep_days (err queue_full, d) quiet h = ground (arith, h)
  pruned-bound backup_dir keep_days (err worker_stopped, d) quiet h = ground (arith, h)
  pruned-bound backup_dir keep_days (err (other w), d) quiet h = ground (arith, h)
  pruned-bound backup_dir keep_days (aborted, d) quiet h = ground (arith, h)

  -- If no call fails and a snapshot was taken, no more dated directories are left than the int as a size_t allows.
  pub retention-bound :
      (stamp book_path journal_path backup_dir : Bytes) (keep_days : ℤ) (d : Disk)
      → d.faults ≡ []
      → let p = snapshot_before_open filename stamp book_path journal_path backup_dir keep_days d in
        p.0 ≡ ok true → length (stamps_of p.1.folders) ≤ size_of keep_days
  unfolding snapshot_before_open
  retention-bound stamp book_path journal_path backup_dir keep_days d quiet h =
      let seen = exists (has_folder stamp d) false d in
      elim (Bool-cases seen.0) [
        | inl there ↦ ground (arith, there, h)
        | inr new_day ↦
            let tmp = stamp ++ str ".tmp" in
            let cleared = remove_all tmp seen.1 in
            let made = assemble filename book_path journal_path tmp stamp cleared in
            let quiet_still = exists-Quiet (has_folder stamp d) false d quiet in
            let quiet_cleared : Quiet cleared =
              ap (λ (x : Disk). x.faults) (remove_all-quiet tmp seen.1 quiet_still) ∙ quiet_still in
            let bounded =
              pruned-bound backup_dir keep_days made
                (assemble-Quiet book_path journal_path tmp stamp cleared quiet_cleared) in
            ground (arith, new_day, h, bounded)
      ]
