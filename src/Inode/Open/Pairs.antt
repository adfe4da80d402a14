-- ===== src/Inode/Open/Pairs.antt =====
-- An open of filesys/inode.c and the close of what it gave.
use mathlib.Core.Path.{subst}
use modeling_unix.Base.{
  ℕ, ◌-◌, ◌^◌, ◌<◌, ◌≡◌, inl, inr, refl, sym, ap, ◌∙◌, true, false, Option, none, some, List, [],
  ◌∷◌, ltb, ◌==◌, arith, Bool-cases,
}
use modeling_unix.Inode.Install.{eq-cases}
use modeling_unix.Inode.Open.{
  Inode, System, new_inode, count_up, count_down, find_sector, find_address, store, list_remove,
  inode_reopen, inode_open, inode_close,
}
use modeling_unix.Inode.Open.Table.{
  NoAddress, WellFormed, Bounded, Option-cases, find_address-address, find_sector-find_address,
  find_address-Bounded, answered,
}
use modeling_unix.Inode.Open.Sharing.{found-pos, open-new, open-shared}

-- The entry that was stored is found.
find-store :
    (x y : Inode) (xs : List Inode)
    → find_address y.address xs ≡ some x
    → find_address y.address (store y xs) ≡ some y
unfolding find_address store
find-store x y [] h = cc
find-store x y (z ∷ xs) h = elim (eq-cases z.address y.address) [
  | inl (same, test) ↦
      let self : (y.address == y.address) ≡ true = ground arith in rw (test, self) refl
  | inr (differs, test) ↦ rw (test, test) (find-store x y xs (sym (rw test refl) ∙ h))
]

-- Two changes of one entry, where the second restores it.
store-store :
    (a : ℕ) (x y : Inode) (xs : List Inode)
    → find_address a xs ≡ some x
    → x.address ≡ y.address
    → store x (store y xs) ≡ xs
unfolding find_address store
store-store a x y [] h e = refl
store-store a x y (z ∷ xs) h e = elim (answered (z.address == a) z x (find_address a xs) h) [
  | inl (test, same) ↦
      let hit : (z.address == y.address) ≡ true = ground (arith, ap Inode.address same) in
      let again : (y.address == x.address) ≡ true = ground arith in
      rw (hit, again) (ap (λ w. w ∷ xs) (sym same))
  | inr (test, found) ↦
      let at = find_address-address a xs x found in
      let miss : (z.address == y.address) ≡ false = rw (sym e, at) test in
      let miss' : (z.address == x.address) ≡ false = rw at test in
      rw (miss, miss') (ap (λ l. z ∷ l) (store-store a x y xs found e))
]

reopen-found :
    (s : System) (x : Inode)
    → find_address x.address s.open_inodes ≡ some x
    → inode_reopen s (some x.address)
      ≡ some (
        some x.address,
        record s {
          open_inodes = store (record x { open_cnt = count_up x.open_cnt }) s.open_inodes;
        },
      )
unfolding inode_reopen
reopen-found s x e = rw e refl

module _ {File : Type 0} (write_at : File → List ℕ → ℕ → Option (ℕ × File)) where
  -- the close of an inode that was just opened for the first time
  close_new :
      (s : System) (file : File) (a sector : ℕ)
      → inode_close write_at
          (record s { open_inodes = new_inode a sector ∷ s.open_inodes })
          file
          (some a)
        ≡ some (s, file)
  unfolding inode_close find_address list_remove
  close_new s file a sector = let self : (a == a) ≡ true = ground arith in rw self refl

  -- the close of an inode that has other openers
  close_shared :
      (s : System) (file : File) (x : Inode)
      → find_address x.address s.open_inodes ≡ some x
      → 0 < x.open_cnt
      → x.open_cnt < 2 ^ 31 - 1
      → inode_close write_at
          (record s {
            open_inodes = store (record x { open_cnt = count_up x.open_cnt }) s.open_inodes;
          })
          file
          (some x.address)
        ≡ some (s, file)
  unfolding inode_close
  close_shared s file x e pos bound =
      let y = record x { open_cnt = count_up x.open_cnt } in
      let back : count_down (count_up x.open_cnt) ≡ x.open_cnt = omega arith in
      let more : (x.open_cnt == 0) ≡ false = ground arith in
      rw (find-store x y s.open_inodes e, back, more)
        (ap (λ l. some (record s { open_inodes = l }, file))
          (store-store x.address x y s.open_inodes e refl))

  -- the same result, where an open gave the system and the pointer
  after_open :
      (t s' : System) (q r : Option ℕ) (file : File) (s : System)
      → ◌≡◌ {A = Option (Option ℕ × System)} (some (q, t)) (some (r, s'))
      → inode_close write_at t file q ≡ some (s, file)
      → inode_close write_at s' file r ≡ some (s, file)
  after_open t s' q r file s e done =
      let same_q : q ≡ r = cc in
      let same_t : t ≡ s' = cc in
      subst (λ k. inode_close write_at k file r ≡ some (s, file)) same_t
        (subst (λ k. inode_close write_at t file k ≡ some (s, file)) same_q done)

  -- Opening an inode and closing it again, which no one removed in between, leaves the system and the
  -- free map's file as they were, whether the inode was open before or not.
  pub close-open :
      (s s' : System) (file : File) (sector a : ℕ) (r : Option ℕ)
      → WellFormed s.open_inodes
      → Bounded s.open_inodes
      → NoAddress a s.open_inodes
      → inode_open s sector (some a) ≡ some (r, s')
      → inode_close write_at s' file r ≡ some (s, file)
  close-open s s' file sector a r ok room fresh h =
      elim (Option-cases (find_sector sector s.open_inodes)) [
        | inl e ↦ elim (Bool-cases (ltb sector s.volume.free_map.bit_cnt)) [
          | inl device ↦
              after_open (record s { open_inodes = new_inode a sector ∷ s.open_inodes }) s' (some a)
                r file s (sym (open-new s sector a e ∙ rw device refl) ∙ h)
                (close_new s file a sector)
          | inr beyond ↦
              let stopped : ◌≡◌ {A = Option (Option ℕ × System)} none (some (r, s')) =
                sym (open-new s sector a e ∙ rw beyond refl) ∙ h in
              cc
        ]
        | inr (x, e) ↦
            let found = find_sector-find_address sector s.open_inodes x ok e in
            let y = record x { open_cnt = count_up x.open_cnt } in
            after_open (record s { open_inodes = store y s.open_inodes }) s' (some x.address) r file
              s (sym (open-shared s sector (some a) x e ∙ reopen-found s x found) ∙ h)
              (close_shared s file x found (found-pos x.address s.open_inodes x ok found)
                (find_address-Bounded x.address s.open_inodes x found room))
      ]
