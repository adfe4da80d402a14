-- ===== src/Scheduler/Queue.antt =====
-- `set_min_vruntime` and `sched_yield` of threads/scheduler.c: the upkeep of the ready queue.
use modeling_unix.Base.{
  ℕ, ◌≡◌, ◌⊎◌, inl, inr, refl, ap, ◌∙◌, false, some, List, [], ◌∷◌, if◌then◌else◌, arith,
}
use modeling_unix.Base.Int.{ℤ, pos, ◌≤ℤ◌, ◌<ℤ◌, eqb_ℤ}
use modeling_unix.Scheduler.{Thread, Sched, min_loop, min_start, set_min_vruntime, int64_max}
use modeling_unix.Scheduler.{min as min_macro}
use mathlib.Core.List.Memᴰ
use mathlib.Core.List.{Memᴰ}

-- a virtual run time that the macro `min` compares: not 0, and below INT64_MAX
abbrev pub Plain : ℤ → Type 0
Plain v = (pos 0 <ℤ v) × (v <ℤ int64_max)

min-lem :
    (x y : ℤ)
    → pos 0 <ℤ x
    → pos 0 <ℤ y
    → (pos 0 <ℤ min_macro x y)
      × (min_macro x y ≤ℤ x)
      × (min_macro x y ≤ℤ y)
      × ((min_macro x y ≡ x) ⊎ (min_macro x y ≡ y))
min-lem x y hx hy = ground arith

min_loop-lem :
    (threads : ℕ → Thread) (acc : ℤ) (is : List ℕ)
    → pos 0 <ℤ acc
    → ((j : ℕ) → Memᴰ j is → pos 0 <ℤ (threads j).vruntime)
    → (min_loop threads acc is ≤ℤ acc)
      × ((j : ℕ) → Memᴰ j is → min_loop threads acc is ≤ℤ (threads j).vruntime)
      × ((min_loop threads acc is ≡ acc)
          ⊎ ((j : ℕ) × Memᴰ j is × (min_loop threads acc is ≡ (threads j).vruntime)))
unfolding min_loop
min_loop-lem threads acc [] h all = (omega arith, λ j m. elim m [ ], inl refl)
min_loop-lem threads acc (i ∷ is) h all =
    let (up, le_i, le_acc, one) = min-lem (threads i).vruntime acc (all i (Memᴰ.head refl)) h in
    let a = min_macro (threads i).vruntime acc in
    let (le, below, from) = min_loop-lem threads a is up (λ j m. all j (Memᴰ.tail m)) in
    (
      omega arith,
      λ j m. elim (Memᴰ.cases_cons m) [ inl k ↦ rw k (omega arith) | inr k ↦ below j k ],
      elim from [
        | inl e ↦ elim one [ inl k ↦ inr (i, Memᴰ.head refl, e ∙ k) | inr k ↦ inl (e ∙ k) ]
        | inr (j, m, e) ↦ inr (j, Memᴰ.tail m, e)
      ],
    )

-- the loop's answer from the running thread on
busy-min :
    (threads : ℕ → Thread) (c : ℕ) (is : List ℕ)
    → Plain (threads c).vruntime
    → ((j : ℕ) → Memᴰ j is → Plain (threads j).vruntime)
    → let m = min_loop threads (min_macro (threads c).vruntime int64_max) is in
      (eqb_ℤ m int64_max ≡ false)
      × (m ≤ℤ (threads c).vruntime)
      × ((j : ℕ) → Memᴰ j is → m ≤ℤ (threads j).vruntime)
      × ((j : ℕ) × Memᴰ j (c ∷ is) × (m ≡ (threads j).vruntime))
busy-min threads c is hc all =
    let start : min_macro (threads c).vruntime int64_max ≡ (threads c).vruntime = ground arith in
    let (le, below, from) =
      min_loop-lem threads (threads c).vruntime is (hc.0) (λ j m. (all j m).0) in
    rw start (
      ground arith,
      le,
      below,
      elim from [ inl e ↦ (c, Memᴰ.head refl, e) | inr (j, m, e) ↦ (j, Memᴰ.tail m, e) ],
    )

set_min-busy :
    (s : Sched) (c : ℕ)
    → s.rq.curr ≡ some c
    → let m = min_loop s.threads (min_macro (s.threads c).vruntime int64_max) s.rq.ready_list in
      (set_min_vruntime s).rq.min_vruntime ≡ (if eqb_ℤ m int64_max then pos 0 else m)
unfolding set_min_vruntime
set_min-busy s c busy =
    ap
      (λ o.
        let m = min_loop s.threads (min_start s o) s.rq.ready_list in
        if eqb_ℤ m int64_max then pos 0 else m)
      busy

-- While a thread runs and no virtual run time is 0, negative or INT64_MAX, `set_min_vruntime` sets
-- the least virtual run time of the running and the ready threads.
pub set_min-least :
    (s : Sched) (c : ℕ)
    → s.rq.curr ≡ some c
    → ((j : ℕ) → Memᴰ j (c ∷ s.rq.ready_list) → Plain (s.threads j).vruntime)
    → ((j : ℕ)
        → Memᴰ j (c ∷ s.rq.ready_list)
        → (set_min_vruntime s).rq.min_vruntime ≤ℤ (s.threads j).vruntime)
      × ((j : ℕ) × Memᴰ j (c ∷ s.rq.ready_list)
          × ((set_min_vruntime s).rq.min_vruntime ≡ (s.threads j).vruntime))
set_min-least s c busy all =
    let (plain, le, below, one) =
      busy-min s.threads c s.rq.ready_list (all c (Memᴰ.head refl)) (λ j m. all j (Memᴰ.tail m)) in
    rw (set_min-busy s c busy, plain)
      (λ j m. elim (Memᴰ.cases_cons m) [ inl k ↦ rw k le | inr k ↦ below j k ], one)
