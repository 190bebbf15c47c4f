-- ===== src/Backup/After.antt =====
-- What holds after a step that may throw.
use daichod.Base.{refl, if◌then◌else◌, ap, subst, sym, ◌≡◌, Option, none, some, List, [], ◌∷◌}
use daichod.Base.Text.{Bytes}
use daichod.Exec.{Result, ok, err, aborted, Exec, continue}
use daichod.Backup.{false, true, seen_by, exists, Bool, Disk, call, after_fault}

-- One thing if it returned, and another if it threw; it does not abort.
unfoldable pub After : (Disk → Type 0) → (Disk → Type 0) → Result (Unit {0}) × Disk → Type 0
After good bad (ok u, d) = good d
After good bad (err e, d) = bad d
After good bad (aborted, d) = ⊥

abbrev pub Both : (Disk → Type 0) → Result (Unit {0}) × Disk → Type 0
Both P = After P P

-- No call is to fail.
abbrev pub Quiet : Disk → Type 0
Quiet d = d.faults ≡ []

-- No call of fs::exists(path, ec) is to fail.
abbrev pub Sees : Disk → Type 0
Sees d = d.blind ≡ []

pub exists-Sees :
    {X : Type 0} (found missing : X) (d : Disk) → Sees d → exists found missing d ≡ (found, d)
unfolding exists
exists-Sees found missing d sees = ap (λ l. seen_by found missing l d) sees

pub exists-Quiet :
    {X : Type 0} (found missing : X) (d : Disk) → Quiet d → Quiet (exists found missing d).1
unfolding exists
exists-Quiet found missing d quiet = elim d.blind as (λ l. Quiet (seen_by found missing l d).1) [
  | [] ↦ quiet
  | x ∷ xs ↦ quiet
]

pub if-After :
    (good bad : Disk → Type 0) (c : Bool) (p q : Result (Unit {0}) × Disk)
    → (c ≡ true → After good bad p)
    → (c ≡ false → After good bad q)
    → After good bad (if c then p else q)
if-After good bad true p q h k = h refl
if-After good bad false p q h k = k refl

module _ (good good' bad : Disk → Type 0) where
  pub then-After :
      (p : Result (Unit {0}) × Disk) (k : Exec Disk (Unit {0}))
      → After good bad p
      → ((d : Disk) → good d → After good' bad (k d))
      → After good' bad (continue p (λ _. k))
  unfolding After
  then-After (ok u, d) k h next = next d h
  then-After (err e, d) k h next = h
  then-After (aborted, d) k h next = h

module _ (good bad : Disk → Type 0) (m : Exec Disk (Unit {0})) where
  pub call-After :
      (d : Disk)
      → ((faults : List (Option Bytes)) → bad (record d { faults = faults }))
      → ((faults : List (Option Bytes)) → After good bad (m (record d { faults = faults })))
      → After good bad (call m d)
  unfolding After call
  call-After d thrown runs =
      elim d.faults
        as (λ fs.
          After good bad
            (elim fs [ [] ↦ m d | f ∷ fs' ↦ after_fault f m (record d { faults = fs' }) ])) [
              | [] ↦ runs d.faults
              | f ∷ fs ↦
                  elim f as (λ x. After good bad (after_fault x m (record d { faults = fs }))) [
                    | none ↦ runs fs
                    | some what ↦ thrown fs
                  ]
            ]

  pub call-Quiet : (d : Disk) → Quiet d → After good bad (m d) → After good bad (call m d)
  unfolding After call
  call-Quiet d quiet h =
      subst
        (λ fs.
          After good bad
            (elim fs [ [] ↦ m d | f ∷ fs' ↦ after_fault f m (record d { faults = fs' }) ]))
        (sym quiet) h
