-- ===== src/Ring/Items.antt =====
-- The elements behind a position of a ring buffer.
use native.Mathlib.Nat.{mod-add-mod, mod-eq_of_lt, mod-eq-sub-mod}
use native.Mathlib.Decide.{dec_lt}
use modeling_unix.Base.{
  ℕ, zero, suc, ◌+◌, ◌-◌, ◌%◌, ◌≤◌, ◌<◌, ◌≡◌, ◌≢◌, refl, ap, ◌∙◌, List, [], ◌∷◌, ◌++◌, arith,
  length, get_or, set, get_or-set_self, get_or-set_ne,
}

module _ (buf : List ℕ) (cap : ℕ) where
  -- the `n` elements that follow position `h`, going round at `cap`
  abbrev pub items : ℕ → ℕ → List ℕ
  items h zero = []
  items h (suc n) = get_or buf ((h + 1) % cap) 0 ∷ items ((h + 1) % cap) n

  pub length-items : (h n : ℕ) → length (items h n) ≡ n
  length-items h zero = refl
  length-items h (suc n) = ap suc (length-items ((h + 1) % cap) n)

-- Fewer than `cap` steps do not lead back to the start.
not_round : (cap h k : ℕ) → h < cap → 0 < k → k < cap → (h + k) % cap ≢ h
not_round cap h k hh kp kk = elim (dec_lt (h + k) cap) [
  | yes p ↦ omega (arith, mod-eq_of_lt p)
  | no p ↦ omega (
    arith,
    mod-eq-sub-mod {n = h + k} {m = cap} (omega arith),
    mod-eq_of_lt {n = h + k - cap} {m = cap} (omega arith),
  )
]

one_on : (cap h k : ℕ) → (h + suc k) % cap ≡ ((h + 1) % cap + k) % cap
one_on cap h k = rw mod-add-mod (ap (λ t. t % cap) (omega arith))

-- A write just behind the last of `n` elements adds one element there.
pub items-set :
    (buf : List ℕ) (cap x n h i : ℕ)
    → cap ≤ length buf
    → h < cap
    → suc n < cap
    → i ≡ (h + suc n) % cap
    → items (set buf i x) cap h (suc n) ≡ items buf cap h n ++ (x ∷ [])
items-set buf cap x zero h i room hh few e =
    let i' : i ≡ (h + 1) % cap = e in
    let inside : (h + 1) % cap < length buf = omega arith in
    rw (i', get_or-set_self buf ((h + 1) % cap) x 0 inside)
items-set buf cap x (suc n) h i room hh few e =
    let behind : i ≡ ((h + 1) % cap + suc n) % cap = e ∙ one_on cap h (suc n) in
    let apart : i ≢ (h + 1) % cap =
      rw behind (not_round cap ((h + 1) % cap) (suc n) (omega arith) (omega arith) (omega arith)) in
    rw (
      get_or-set_ne buf i ((h + 1) % cap) x 0 apart,
      items-set buf cap x n ((h + 1) % cap) i room (omega arith) (omega arith) behind,
    )
