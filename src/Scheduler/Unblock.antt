-- ===== src/Scheduler/Unblock.antt =====
-- `sched_unblock` of threads/scheduler.c: a thread that wakes up joins the ready list.
use mathlib.Core.List.{Memᴰ}
use modeling_unix.Base.{
  ℕ, ◌≡◌, ◌≢◌, ◌⊎◌, inl, inr, refl, ap, ◌∙◌, false, none, some, [], ◌∷◌, ◌++◌, Option-cases, arith,
  ◌>>=◌,
}
use modeling_unix.Base.Int.{ℤ, pos, negsuc, ◌+ℤ◌, ◌-ℤ◌, ◌≤ℤ◌}
use modeling_unix.Scheduler.{
  Thread, Sched, Action, weight, update, calc_vruntime, charge, max, place_woken, place,
  unblock_action, sched_unblock, push_ready,
}
use modeling_unix.Scheduler.Pick.{Counted}
use modeling_unix.Scheduler.Charged.{charged, charged-nice}

negsuc-+0 : (n : ℕ) → negsuc n +ℤ pos 0 ≡ negsuc n
unfolding ◌+ℤ◌
negsuc-+0 n = ground arith

-- The weight of a negative nice level at the bonus 0 is outside the table.
calc_vruntime-negative : (t : Thread) (n : ℕ) → t.nice ≡ negsuc n → calc_vruntime t (pos 0) ≡ none
unfolding calc_vruntime weight
calc_vruntime-negative t n e = rw (e, negsuc-+0 n) refl

-- the woken thread with its new virtual run time
abbrev woken : Sched → (t : ℕ) → (v : ℤ) → Sched
woken s t v = record s {
  threads =
      update s.threads t
        (record (s.threads t) { vruntime = max v (s.rq.min_vruntime -ℤ pos 20000000) });
}

place_woken-eq :
    (now later : ℤ) (s : Sched) (c t : ℕ)
    → place_woken now later s c t ≡ (
        calc_vruntime (record (s.threads c) { timer_stop = now }) (pos 20) >>= λ v.
        calc_vruntime ((charged now later s c v).threads t) (pos 0) >>= λ u.
        some (woken (charged now later s c v) t u))
unfolding place_woken charge
place_woken-eq now later s c t =
    elim (Option-cases (calc_vruntime (record (s.threads c) { timer_stop = now }) (pos 20))) [
      | inl e ↦ rw e refl
      | inr (v, e) ↦ rw e refl
    ]

place_woken-negative :
    (now later : ℤ) (s : Sched) (c t n : ℕ)
    → (s.threads t).nice ≡ negsuc n
    → place_woken now later s c t ≡ none
place_woken-negative now later s c t n e =
    rw (place_woken-eq now later s c t)
      (elim (Option-cases (calc_vruntime (record (s.threads c) { timer_stop = now }) (pos 20))) [
        | inl k ↦ rw k refl
        | inr (v, k) ↦
            rw
              (
                k,
                calc_vruntime-negative ((charged now later s c v).threads t) n
                    (charged-nice now later s c t v ∙ e),
              )
              refl
      ])

unblock-busy :
    (now later : ℤ) (s : Sched) (c t : ℕ)
    → s.rq.curr ≡ some c
    → sched_unblock now later s t false ≡ (
        place_woken now later s c t >>= λ s'.
        some (Action.return_yield, record s' { rq = push_ready t s'.rq }))
unfolding sched_unblock
unblock-busy now later s c t busy =
    ap
      (λ o. place now later s o t false >>= λ s'.
        some (unblock_action o false, record s' { rq = push_ready t s'.rq }))
      busy

-- On a busy CPU, to wake a thread of a negative nice level reads outside `prio_to_weight`.
pub unblock-negative :
    (now later : ℤ) (s : Sched) (c t n : ℕ)
    → s.rq.curr ≡ some c
    → (s.threads t).nice ≡ negsuc n
    → sched_unblock now later s t false ≡ none
unblock-negative now later s c t n busy e =
    rw (unblock-busy now later s c t busy, place_woken-negative now later s c t n e) refl

-- The running thread `c` was charged, `min_vruntime` is the least virtual run time of it and of the
-- ready threads, and the woken thread `t` stands last in the ready list.
pub record Woken (now later : ℤ) (s : Sched) (c t : ℕ) (v u : ℤ) (s' : Sched) : Type 0 where
  pub queued : s'.rq.ready_list ≡ s.rq.ready_list ++ (t ∷ [])
  pub counted : Counted s'.rq
  pub running :
      s'.threads c ≡ record (s.threads c) { timer_stop = now; vruntime = v; timer_start = later }
  pub others : (j : ℕ) → c ≢ j → t ≢ j → s'.threads j ≡ s.threads j
  pub least : (j : ℕ) → Memᴰ j (c ∷ s.rq.ready_list) → s'.rq.min_vruntime ≤ℤ (s'.threads j).vruntime
  pub attained :
      (j : ℕ) × Memᴰ j (c ∷ s.rq.ready_list) × (s'.rq.min_vruntime ≡ (s'.threads j).vruntime)
  pub own : u ≤ℤ (s'.threads t).vruntime
  pub floor : s'.rq.min_vruntime -ℤ pos 20000000 ≤ℤ (s'.threads t).vruntime
  pub one_of :
      ((s'.threads t).vruntime ≡ u) ⊎ ((s'.threads t).vruntime ≡ s'.rq.min_vruntime -ℤ pos 20000000)
