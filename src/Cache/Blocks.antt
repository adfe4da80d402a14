-- ===== src/Cache/Blocks.antt =====
-- The contents that the buffer cache of filesys/cache.c gives each sector, and its invariant.
use mathlib.Core.Path.{subst}
use modeling_unix.Base.{
  ℕ, ◌+◌, ◌<◌, ◌≡◌, ◌≢◌, inl, inr, refl, sym, ◌∙◌, true, false, List, [], ◌∷◌, length, ◌==◌,
  if◌then◌else◌, arith,
}
use modeling_unix.Inode.{Disk}
use modeling_unix.Inode.Install.{eq-cases}
use modeling_unix.RwLock.{RwLock, rw_lock_init}
use modeling_unix.Cache.{Block, Cache}

-- the words of a sector: those of its block where it has a valid one, those on the device else
pub view_of : List Block → Disk → (sector : ℕ) → ℕ → ℕ
view_of [] d s = d s
view_of (x ∷ xs) d s =
    if x.sector == s then (if x.valid then x.contents else d s) else view_of xs d s

abbrev pub view : Cache → Disk
view c = view_of c.buffer_cache c.device

abbrev pub Unheld : RwLock → Type 0
Unheld l = l ≡ record rw_lock_init { mode = l.mode }

-- A block that is valid and not dirty has the words of the device; a dirty one is valid, and its sector
-- is on the device.
abbrev pub Holds : Disk → (size : ℕ) → Block → Type 0
Holds d size b =
    (b.valid ≡ true → b.dirty ≡ false → b.contents ≡ d b.sector)
    × (b.dirty ≡ true → (b.valid ≡ true) × (b.sector < size))

abbrev pub AllHold : Disk → (size : ℕ) → List Block → Type 0
AllHold d size [] = Unit
AllHold d size (x ∷ xs) = Unheld x.rw_lock × Holds d size x × AllHold d size xs

abbrev pub NoBlock : (sector : ℕ) → List Block → Type 0
NoBlock s [] = Unit
NoBlock s (x ∷ xs) = (x.sector ≢ s) × NoBlock s xs

abbrev pub Apart : List Block → Type 0
Apart [] = Unit
Apart (x ∷ xs) = NoBlock x.sector xs × Apart xs

abbrev pub AllEmpty : List Block → Type 0
AllEmpty [] = Unit
AllEmpty (x ∷ xs) = Unheld x.rw_lock × (x.valid ≡ false) × (x.dirty ≡ false) × AllEmpty xs

-- The invariant between two uses: there is a block, no two blocks have one sector, and no one holds a
-- block.
pub record WellFormed (c : Cache) : Type 0 where
  pub hold : AllHold c.device c.size c.buffer_cache
  pub apart : Apart c.buffer_cache
  pub empties : AllEmpty c.free_cache
  pub some_block : 0 < length c.buffer_cache + length c.free_cache

-- `ys` is `xs` without the block `x`.
pub data Removes (x : Block) : List Block → List Block → Type 0 where
  here : {xs : List Block} → Removes x (x ∷ xs) xs
  there : {y : Block} {xs ys : List Block} → Removes x xs ys → Removes x (y ∷ xs) (y ∷ ys)

pub Removes-hold :
    (d : Disk) (size : ℕ) (x : Block) {xs ys : List Block}
    → Removes x xs ys
    → AllHold d size xs
    → Unheld x.rw_lock × Holds d size x × AllHold d size ys
Removes-hold d size x here (u, h, others) = (u, h, others)
Removes-hold d size x (there r) (u, h, others) =
    let (u', h', rest) = Removes-hold d size x r others in (u', h', (u, h, rest))

Removes-NoBlock :
    (x : Block) (s : ℕ) {xs ys : List Block}
    → Removes x xs ys
    → NoBlock s xs
    → (x.sector ≢ s) × NoBlock s ys
Removes-NoBlock x s here n = n
Removes-NoBlock x s (there r) (n, others) = let (a, b) = Removes-NoBlock x s r others in (a, (n, b))

pub Removes-Apart :
    (x : Block) {xs ys : List Block} → Removes x xs ys → Apart xs → NoBlock x.sector ys × Apart ys
Removes-Apart x here ok = ok
Removes-Apart x (there {y} r) (n, others) =
    let (a, b) = Removes-Apart x r others in
    let (c, e) = Removes-NoBlock x y.sector r n in ((λ z. c (sym z), a), (e, b))

pub Removes-none :
    (x : Block) (s : ℕ) {xs ys : List Block} → Removes x xs ys → NoBlock s xs → x.sector ≢ s
Removes-none x s r n = (Removes-NoBlock x s r n).0

pub Removes-NoBlock_rest :
    (x : Block) (s : ℕ) {xs ys : List Block} → Removes x xs ys → NoBlock s xs → NoBlock s ys
Removes-NoBlock_rest x s r n = (Removes-NoBlock x s r n).1

-- A block moves to the front.
pub Removes-view :
    (d : Disk) (x : Block) (t : ℕ) {xs ys : List Block}
    → Removes x xs ys
    → Apart xs
    → view_of (x ∷ ys) d t ≡ view_of xs d t
unfolding view_of
Removes-view d x t here ok = refl
Removes-view d x t (there {y} {xs} {ys} r) (n, others) =
    let differs = Removes-none x y.sector r n in
    elim (eq-cases y.sector t) [
      | inl (e, test) ↦ let miss : (x.sector == t) ≡ false = ground arith in rw (test, miss) refl
      | inr (e, test) ↦ rw test (Removes-view d x t r others)
    ]

-- the sector of no block
pub view_of-NoBlock : (d : Disk) (s : ℕ) (xs : List Block) → NoBlock s xs → view_of xs d s ≡ d s
unfolding view_of
view_of-NoBlock d s [] n = refl
view_of-NoBlock d s (x ∷ xs) (n, others) =
    let miss : (x.sector == s) ≡ false = ground arith in rw miss (view_of-NoBlock d s xs others)

-- The device's words for a sector serve only that sector.
pub view_of-device :
    (d d' : Disk) (s : ℕ) (xs : List Block) → d' s ≡ d s → view_of xs d' s ≡ view_of xs d s
unfolding view_of
view_of-device d d' s [] e = e
view_of-device d d' s (x ∷ xs) e = rw (e, view_of-device d d' s xs e) refl

pub AllHold-device :
    (d d' : Disk) (size s : ℕ) (xs : List Block)
    → NoBlock s xs
    → ((t : ℕ) → t ≢ s → d' t ≡ d t)
    → AllHold d size xs
    → AllHold d' size xs
AllHold-device d d' size s [] n e ok = tt
AllHold-device d d' size s (x ∷ xs) (n, none_here) e (u, (clean, dirty), others) = (
  u,
  (λ v c. clean v c ∙ sym (e x.sector n), dirty),
  AllHold-device d d' size s xs none_here e others,
)

-- A block without valid data adds nothing.
pub view_of-invalid :
    (d : Disk) (b : Block) (xs : List Block) (t : ℕ)
    → b.valid ≡ false
    → NoBlock b.sector xs
    → view_of (b ∷ xs) d t ≡ view_of xs d t
unfolding view_of
view_of-invalid d b xs t v n = elim (eq-cases b.sector t) [
  | inl (e, test) ↦ rw (test, v) (sym (view_of-NoBlock d t xs (subst (λ k. NoBlock k xs) e n)))
  | inr (e, test) ↦ rw test refl
]

-- A block that leaves the cache, where the device has its words.
pub view_of-left :
    (d d' : Disk) (x : Block) (xs : List Block) (t : ℕ)
    → NoBlock x.sector xs
    → d' x.sector ≡ (if x.valid then x.contents else d x.sector)
    → ((u : ℕ) → u ≢ x.sector → d' u ≡ d u)
    → view_of xs d' t ≡ view_of (x ∷ xs) d t
unfolding view_of
view_of-left d d' x xs t n now others = elim (eq-cases x.sector t) [
  | inl (e, test) ↦ rw test (
      view_of-NoBlock d' t xs (subst (λ k. NoBlock k xs) e n)
      ∙ subst (λ k. d' k ≡ (if x.valid then x.contents else d k)) e now)
  | inr (e, test) ↦ rw test (view_of-device d d' t xs (others t (λ z. e (sym z))))
]

pub view_of-hit :
    (d : Disk) (b : Block) (xs : List Block) (t : ℕ)
    → b.sector ≡ t
    → view_of (b ∷ xs) d t ≡ (if b.valid then b.contents else d t)
unfolding view_of
view_of-hit d b xs t e = let hit : (b.sector == t) ≡ true = ground arith in rw hit refl

pub view_of-miss :
    (d : Disk) (b : Block) (xs : List Block) (t : ℕ)
    → b.sector ≢ t
    → view_of (b ∷ xs) d t ≡ view_of xs d t
unfolding view_of
view_of-miss d b xs t e = let miss : (b.sector == t) ≡ false = ground arith in rw miss refl
