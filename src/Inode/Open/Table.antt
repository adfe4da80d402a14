-- ===== src/Inode/Open/Table.antt =====
-- The list of open inodes of filesys/inode.c: the lookups and updates of its entries.
use mathlib.Core.Path.{subst}
use modeling_unix.Base.{
  ℕ, ◌-◌, ◌^◌, ◌<◌, ◌≡◌, ◌≢◌, ◌⊎◌, inl, inr, refl, sym, ap, ◌∙◌, Bool, true, false, Option, none,
  some, List, [], ◌∷◌, ◌==◌, if◌then◌else◌, arith, Bool-cases,
}
use modeling_unix.Inode.Install.{eq-cases}
use modeling_unix.Inode.Open.{Inode, find_sector, find_address, store, list_remove}

-- no open inode at the address, or for the sector
abbrev pub NoAddress : ℕ → List Inode → Type 0
NoAddress a [] = Unit
NoAddress a (x ∷ xs) = (x.address ≢ a) × NoAddress a xs

abbrev pub NoSector : ℕ → List Inode → Type 0
NoSector t [] = Unit
NoSector t (x ∷ xs) = (x.sector ≢ t) × NoSector t xs

-- No two open inodes have one sector, or one address, and each has an opener.
abbrev pub WellFormed : List Inode → Type 0
WellFormed [] = Unit
WellFormed (x ∷ xs) =
    (0 < x.open_cnt) × NoAddress x.address xs × NoSector x.sector xs × WellFormed xs

-- Each count of openers can be counted up.
abbrev pub Bounded : List Inode → Type 0
Bounded [] = Unit
Bounded (x ∷ xs) = (x.open_cnt < 2 ^ 31 - 1) × Bounded xs

pub Option-cases {ℓ} : {A : Type ℓ} (o : Option A) → (o ≡ none) ⊎ ((x : A) × (o ≡ some x))
Option-cases none = inl refl
Option-cases (some x) = inr (x, refl)

pub not-some {ℓ} : {A : Type ℓ} {x : A} → ¬ (none ≡ some x)
not-some h = cc h

pub find_sector-NoSector : (t : ℕ) (xs : List Inode) → find_sector t xs ≡ none → NoSector t xs
unfolding find_sector
find_sector-NoSector t [] h = tt
find_sector-NoSector t (x ∷ xs) h = elim (eq-cases x.sector t) [
  | inl (e, test) ↦ let absurd_none : some x ≡ none = sym (rw test refl) ∙ h in cc
  | inr (e, test) ↦ (e, find_sector-NoSector t xs (sym (rw test refl) ∙ h))
]

-- Where an `if` has answered, its test or its other branch did.
pub answered {ℓ} :
    {A : Type ℓ} (b : Bool) (x y : A) (o : Option A)
    → (if b then some x else o) ≡ some y
    → ((b ≡ true) × (x ≡ y)) ⊎ ((b ≡ false) × (o ≡ some y))
answered true x y o h = inl (refl, cc)
answered false x y o h = inr (refl, h)

pub find_address-address :
    (a : ℕ) (xs : List Inode) (x : Inode) → find_address a xs ≡ some x → x.address ≡ a
unfolding find_address
find_address-address a [] x h = cc
find_address-address a (z ∷ xs) x h = elim (answered (z.address == a) z x (find_address a xs) h) [
  | inl (test, e) ↦ ap Inode.address (sym e) ∙ ground arith
  | inr (test, e) ↦ find_address-address a xs x e
]

pub find_sector-sector :
    (t : ℕ) (xs : List Inode) (x : Inode) → find_sector t xs ≡ some x → x.sector ≡ t
unfolding find_sector
find_sector-sector t [] x h = cc
find_sector-sector t (z ∷ xs) x h = elim (answered (z.sector == t) z x (find_sector t xs) h) [
  | inl (test, e) ↦ ap Inode.sector (sym e) ∙ ground arith
  | inr (test, e) ↦ find_sector-sector t xs x e
]

-- What holds of no entry does not hold of one that is found.
found-NoSector :
    (a t : ℕ) (xs : List Inode) (x : Inode)
    → find_address a xs ≡ some x
    → NoSector t xs
    → x.sector ≢ t
unfolding find_address
found-NoSector a t [] x h n = cc
found-NoSector a t (z ∷ xs) x h (first, others) =
    elim (answered (z.address == a) z x (find_address a xs) h) [
      | inl (test, e) ↦ λ same. first (ap Inode.sector e ∙ same)
      | inr (test, e) ↦ found-NoSector a t xs x e others
    ]

found_sector-NoAddress :
    (a t : ℕ) (xs : List Inode) (x : Inode)
    → find_sector t xs ≡ some x
    → NoAddress a xs
    → x.address ≢ a
unfolding find_sector
found_sector-NoAddress a t [] x h n = cc
found_sector-NoAddress a t (z ∷ xs) x h (first, others) =
    elim (answered (z.sector == t) z x (find_sector t xs) h) [
      | inl (test, e) ↦ λ same. first (ap Inode.address e ∙ same)
      | inr (test, e) ↦ found_sector-NoAddress a t xs x e others
    ]

-- The entry of a sector is the entry of its address.
pub find_sector-find_address :
    (t : ℕ) (xs : List Inode) (x : Inode)
    → WellFormed xs
    → find_sector t xs ≡ some x
    → find_address x.address xs ≡ some x
unfolding find_sector find_address
find_sector-find_address t [] x ok h = cc
find_sector-find_address t (z ∷ xs) x (pos, no_a, no_s, ok) h =
    elim (answered (z.sector == t) z x (find_sector t xs) h) [
      | inl (test, e) ↦
          let hit : (z.address == x.address) ≡ true = ground (arith, ap Inode.address e) in
          rw hit (ap some e)
      | inr (test, e) ↦
          let differs = found_sector-NoAddress z.address t xs x e no_a in
          let miss : (z.address == x.address) ≡ false = ground arith in
          rw miss (find_sector-find_address t xs x ok e)
    ]

pub find_address-Bounded :
    (a : ℕ) (xs : List Inode) (x : Inode)
    → find_address a xs ≡ some x
    → Bounded xs
    → x.open_cnt < 2 ^ 31 - 1
unfolding find_address
find_address-Bounded a [] x h n = cc
find_address-Bounded a (z ∷ xs) x h (first, others) =
    elim (answered (z.address == a) z x (find_address a xs) h) [
      | inl (test, e) ↦ omega (arith, ap Inode.open_cnt e)
      | inr (test, e) ↦ find_address-Bounded a xs x e others
    ]

store-NoAddress :
    (a : ℕ) (y : Inode) (xs : List Inode)
    → NoAddress a xs
    → y.address ≢ a
    → NoAddress a (store y xs)
unfolding store
store-NoAddress a y [] n h = tt
store-NoAddress a y (x ∷ xs) (first, others) h = elim (Bool-cases (x.address == y.address)) [
  | inl e ↦ rw e (h, others)
  | inr e ↦ rw e (first, store-NoAddress a y xs others h)
]

store-NoSector :
    (t : ℕ) (y : Inode) (xs : List Inode) → NoSector t xs → y.sector ≢ t → NoSector t (store y xs)
unfolding store
store-NoSector t y [] n h = tt
store-NoSector t y (x ∷ xs) (first, others) h = elim (Bool-cases (x.address == y.address)) [
  | inl e ↦ rw e (h, others)
  | inr e ↦ rw e (first, store-NoSector t y xs others h)
]

-- An entry is changed, but not its address and sector.
pub store-WellFormed :
    (a : ℕ) (y x : Inode) (xs : List Inode)
    → WellFormed xs
    → find_address a xs ≡ some x
    → y.address ≡ x.address
    → y.sector ≡ x.sector
    → 0 < y.open_cnt
    → WellFormed (store y xs)
unfolding store find_address
store-WellFormed a y x [] ok h ea es pos = tt
store-WellFormed a y x (z ∷ xs) (p, no_a, no_s, ok) h ea es pos =
    elim (answered (z.address == a) z x (find_address a xs) h) [
      | inl (test, e) ↦
          let same_a : z.address ≡ y.address = ap Inode.address e ∙ sym ea in
          let same_s : z.sector ≡ y.sector = ap Inode.sector e ∙ sym es in
          let hit : (z.address == y.address) ≡ true = ground arith in
          rw hit (
            pos,
            subst (λ k. NoAddress k xs) same_a no_a,
            subst (λ k. NoSector k xs) same_s no_s,
            ok,
          )
      | inr (test, e) ↦
          let at : y.address ≡ a = ea ∙ find_address-address a xs x e in
          let miss : (z.address == y.address) ≡ false = rw at test in
          let other_a : y.address ≢ z.address = ground arith in
          let other_s : y.sector ≢ z.sector =
            λ k. found-NoSector a z.sector xs x e no_s (sym es ∙ k) in
          rw miss (
            p,
            store-NoAddress z.address y xs no_a other_a,
            store-NoSector z.sector y xs no_s other_s,
            store-WellFormed a y x xs ok e ea es pos,
          )
    ]

list_remove-NoAddress :
    (a b : ℕ) (xs : List Inode) → NoAddress a xs → NoAddress a (list_remove b xs)
unfolding list_remove
list_remove-NoAddress a b [] n = tt
list_remove-NoAddress a b (x ∷ xs) (first, others) = elim (Bool-cases (x.address == b)) [
  | inl e ↦ rw e others
  | inr e ↦ rw e (first, list_remove-NoAddress a b xs others)
]

list_remove-NoSector : (t b : ℕ) (xs : List Inode) → NoSector t xs → NoSector t (list_remove b xs)
unfolding list_remove
list_remove-NoSector t b [] n = tt
list_remove-NoSector t b (x ∷ xs) (first, others) = elim (Bool-cases (x.address == b)) [
  | inl e ↦ rw e others
  | inr e ↦ rw e (first, list_remove-NoSector t b xs others)
]

pub list_remove-WellFormed :
    (b : ℕ) (xs : List Inode) → WellFormed xs → WellFormed (list_remove b xs)
unfolding list_remove
list_remove-WellFormed b [] ok = tt
list_remove-WellFormed b (x ∷ xs) (p, no_a, no_s, ok) = elim (Bool-cases (x.address == b)) [
  | inl e ↦ rw e ok
  | inr e ↦ rw e (
    p,
    list_remove-NoAddress x.address b xs no_a,
    list_remove-NoSector x.sector b xs no_s,
    list_remove-WellFormed b xs ok,
  )
]
