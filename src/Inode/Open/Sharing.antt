-- ===== src/Inode/Open/Sharing.antt =====
-- Openers of one inode of filesys/inode.c share one entry of the list, where no two calls overlap.
use mathlib.Core.Path.{subst}
use modeling_unix.Base.{
  ℕ, ◌==◌, ◌<◌, ◌≡◌, inl, inr, refl, sym, ap, true, Option, none, some, List, [], ◌∷◌, ltb, leb,
  arith, Bool-cases, ◌>>◌,
}
use modeling_unix.Inode.Install.{eq-cases}
use modeling_unix.Inode.{check_sector}
use modeling_unix.Inode.Close.{release_blocks}
use modeling_unix.Inode.Open.{
  Inode, System, new_inode, count_up, count_down, find_sector, find_address, store, inode_reopen,
  open_found, inode_open, inode_remove, inode_deny_write, inode_allow_write, inode_close,
}
use modeling_unix.Inode.Open.Table.{
  NoAddress, WellFormed, Bounded, Option-cases, find_sector-NoSector, find_address-Bounded,
  store-WellFormed, list_remove-WellFormed, answered,
}

-- A predicate of the result, where there is one.
abbrev pub Result {ℓ κ} : {A : Type ℓ} → (A → Type κ) → Option A → Type κ
Result P none = Unit
Result P (some a) = P a

abbrev IsTable : System → Type 0
IsTable s = WellFormed s.open_inodes

-- The entry at an address is changed by `change`, which keeps its address, its sector and an opener.
change-IsTable :
    (s : System) (a : ℕ) (x y : Inode)
    → IsTable s
    → find_address a s.open_inodes ≡ some x
    → y.address ≡ x.address
    → y.sector ≡ x.sector
    → 0 < y.open_cnt
    → IsTable (record s { open_inodes = store y s.open_inodes })
change-IsTable s a x y ok e ea es pos = store-WellFormed a y x s.open_inodes ok e ea es pos

pub found-pos :
    (a : ℕ) (xs : List Inode) (x : Inode)
    → WellFormed xs
    → find_address a xs ≡ some x
    → 0 < x.open_cnt
unfolding find_address
found-pos a [] x ok h = cc
found-pos a (z ∷ xs) x (pos, na, ns, ok) h =
    elim (answered (z.address == a) z x (find_address a xs) h) [
      | inl (test, e) ↦ omega (arith, ap Inode.open_cnt e)
      | inr (test, e) ↦ found-pos a xs x ok e
    ]

reopen-IsTable :
    (s : System) (inode : Option ℕ)
    → IsTable s
    → Bounded s.open_inodes
    → Result (λ (r, t). IsTable t) (inode_reopen s inode)
unfolding inode_reopen
reopen-IsTable s none ok room = ok
reopen-IsTable s (some a) ok room = elim (Option-cases (find_address a s.open_inodes)) [
  | inl e ↦ rw e tt
  | inr (x, e) ↦
      let bound = find_address-Bounded a s.open_inodes x e room in
      rw e (
        change-IsTable s a x (record x { open_cnt = count_up x.open_cnt }) ok e refl refl
          (omega arith))
]

-- the two cases of `inode_open`
pub open-new :
    (s : System) (sector a : ℕ)
    → find_sector sector s.open_inodes ≡ none
    → inode_open s sector (some a) ≡ (
        check_sector s.volume sector
        >> some (some a, record s { open_inodes = new_inode a sector ∷ s.open_inodes }))
unfolding inode_open open_found
open-new s sector a e = ap (open_found s sector (some a)) e

pub open-shared :
    (s : System) (sector : ℕ) (room : Option ℕ) (x : Inode)
    → find_sector sector s.open_inodes ≡ some x
    → inode_open s sector room ≡ inode_reopen s (some x.address)
unfolding inode_open open_found
open-shared s sector room x e = ap (open_found s sector room) e

open-IsTable :
    (s : System) (sector a : ℕ)
    → IsTable s
    → Bounded s.open_inodes
    → NoAddress a s.open_inodes
    → Result (λ (r, t). IsTable t) (inode_open s sector (some a))
open-IsTable s sector a ok room fresh = elim (Option-cases (find_sector sector s.open_inodes)) [
  | inl e ↦
      subst (Result (λ (r, t). IsTable t)) (sym (open-new s sector a e))
        (elim (Bool-cases (ltb sector s.volume.free_map.bit_cnt)) [
          | inl device ↦
              rw device (omega arith, fresh, find_sector-NoSector sector s.open_inodes e, ok)
          | inr beyond ↦ rw beyond tt
        ])
  | inr (x, e) ↦
      subst (Result (λ (r, t). IsTable t)) (sym (open-shared s sector (some a) x e))
        (reopen-IsTable s (some x.address) ok room)
]

remove-IsTable : (s : System) (a : ℕ) → IsTable s → Result IsTable (inode_remove s (some a))
unfolding inode_remove
remove-IsTable s a ok = elim (Option-cases (find_address a s.open_inodes)) [
  | inl e ↦ rw e tt
  | inr (x, e) ↦ rw e (
      change-IsTable s a x (record x { removed = true }) ok e refl refl
        (found-pos a s.open_inodes x ok e))
]

deny-IsTable : (s : System) (a : ℕ) → IsTable s → Result IsTable (inode_deny_write s a)
unfolding inode_deny_write
deny-IsTable s a ok = elim (Option-cases (find_address a s.open_inodes)) [
  | inl e ↦ rw e tt
  | inr (x, e) ↦ rw e (elim (Bool-cases (leb (count_up x.deny_write_cnt) x.open_cnt)) [
    | inr fails ↦ rw fails tt
    | inl holds ↦ rw holds (
        change-IsTable s a x (record x { deny_write_cnt = count_up x.deny_write_cnt }) ok e refl
          refl (found-pos a s.open_inodes x ok e))
  ])
]

allow-IsTable : (s : System) (a : ℕ) → IsTable s → Result IsTable (inode_allow_write s a)
unfolding inode_allow_write
allow-IsTable s a ok = elim (Option-cases (find_address a s.open_inodes)) [
  | inl e ↦ rw e tt
  | inr (x, e) ↦ rw e (elim (Bool-cases (ltb 0 x.deny_write_cnt)) [
    | inr fails ↦ rw fails tt
    | inl holds ↦ rw holds (elim (Bool-cases (leb x.deny_write_cnt x.open_cnt)) [
      | inr fails ↦ rw fails tt
      | inl also ↦ rw also (
          change-IsTable s a x (record x { deny_write_cnt = count_down x.deny_write_cnt }) ok e refl
            refl (found-pos a s.open_inodes x ok e))
    ])
  ])
]

module _ {File : Type 0} (write_at : File → List ℕ → ℕ → Option (ℕ × File)) where
  close-IsTable :
      (s : System) (file : File) (inode : Option ℕ)
      → IsTable s
      → Result (λ (t, f). IsTable t) (inode_close write_at s file inode)
  unfolding inode_close
  close-IsTable s file none ok = ok
  close-IsTable s file (some a) ok = elim (Option-cases (find_address a s.open_inodes)) [
    | inl e ↦ rw e tt
    | inr (x, e) ↦ rw e (elim (eq-cases (count_down x.open_cnt) 0) [
      | inr (more, test) ↦ rw test (
          change-IsTable s a x (record x { open_cnt = count_down x.open_cnt }) ok e refl refl
            (omega arith))
      | inl (last, test) ↦ rw test (elim (Bool-cases x.removed) [
        | inr stays ↦ rw stays (list_remove-WellFormed a s.open_inodes ok)
        | inl goes ↦ rw goes (elim (Option-cases (release_blocks write_at s.volume file x.sector)) [
          | inl stop ↦ rw stop tt
          | inr ((v, f), ran) ↦ rw ran (list_remove-WellFormed a s.open_inodes ok)
        ])
      ])
    ])
  ]

  -- One call, from its start to its end, while no other call is under way: `inode_open` lets go of the
  -- list's lock between its search and its insertion. malloc gives an address that no open inode has.
  pub data Step (s t : System) : Type 0 where
    opened :
        (sector a : ℕ) (r : Option ℕ)
        → Bounded s.open_inodes
        → NoAddress a s.open_inodes
        → inode_open s sector (some a) ≡ some (r, t)
        → Step s t
    reopened :
        (inode r : Option ℕ) → Bounded s.open_inodes → inode_reopen s inode ≡ some (r, t) → Step s t
    removed : (a : ℕ) → inode_remove s (some a) ≡ some t → Step s t
    denied : (a : ℕ) → inode_deny_write s a ≡ some t → Step s t
    allowed : (a : ℕ) → inode_allow_write s a ≡ some t → Step s t
    closed :
        (file file' : File) (inode : Option ℕ)
        → inode_close write_at s file inode ≡ some (t, file')
        → Step s t

  pub data Reach (s : System) : System → Type 0 where
    here : Reach s s
    next : {t u : System} → Reach s t → Step t u → Reach s u

  Step-IsTable : (s t : System) → IsTable s → Step s t → IsTable t
  Step-IsTable s t ok (opened sector a r room fresh e) =
      subst (Result (λ (q, u). IsTable u)) e (open-IsTable s sector a ok room fresh)
  Step-IsTable s t ok (reopened inode r room e) =
      subst (Result (λ (q, u). IsTable u)) e (reopen-IsTable s inode ok room)
  Step-IsTable s t ok (removed a e) = subst (Result IsTable) e (remove-IsTable s a ok)
  Step-IsTable s t ok (denied a e) = subst (Result IsTable) e (deny-IsTable s a ok)
  Step-IsTable s t ok (allowed a e) = subst (Result IsTable) e (allow-IsTable s a ok)
  Step-IsTable s t ok (closed file file' inode e) =
      subst (Result (λ (u, f). IsTable u)) e (close-IsTable s file inode ok)

  -- In every sequence of whole calls, each of which starts after the one before it has returned, of opens,
  -- reopens, closes, removals, denials and allowances of writes, where no count of openers overflows and
  -- malloc gives new addresses, from a list on where this holds: no two open inodes have one sector or
  -- one address, and each has an opener. It says nothing of calls that overlap.
  pub Reach-WellFormed :
      {s t : System} → Reach s t → WellFormed s.open_inodes → WellFormed t.open_inodes
  Reach-WellFormed here ok = ok
  Reach-WellFormed {s} (next {t} {u} before step) ok =
      Step-IsTable t u (Reach-WellFormed before ok) step
