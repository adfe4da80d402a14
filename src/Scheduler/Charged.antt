-- ===== src/Scheduler/Charged.antt =====
-- The part of `sched_unblock` of threads/scheduler.c before the woken thread is placed: the running thread
-- is charged, its clock restarts, and the least virtual run time is set.
use mathlib.Core.Path.{subst}
use mathlib.Core.List.Memᴰ
use mathlib.Core.List.{Memᴰ}
use modeling_unix.Base.{ℕ, ◌≡◌, ◌≢◌, inl, inr, refl, sym, ap, ◌∙◌, some, ◌∷◌, ==_iff}
use modeling_unix.Base.Int.{ℤ, ◌≤ℤ◌}
use modeling_unix.Scheduler.{Thread, Sched, update, restart, set_min_vruntime}
use modeling_unix.Scheduler.Queue.{Plain, set_min-least}
use modeling_unix.Scheduler.Pick.{eq_cases}

update-nice :
    (threads : ℕ → Thread) (i j : ℕ) (t : Thread)
    → t.nice ≡ (threads i).nice
    → (update threads i t j).nice ≡ (threads j).nice
update-nice threads i j t e = elim (eq_cases i j) [
  | inl h ↦ rw (h.1) (e ∙ ap (λ k. (threads k).nice) (h.0))
  | inr h ↦ rw (h.1) refl
]

-- the queue that `place_woken` has when it computes the virtual run time of the woken thread
abbrev pub charged : (now later : ℤ) → Sched → (c : ℕ) → (v : ℤ) → Sched
charged now later s c v =
    let stopped = record (s.threads c) { timer_stop = now; vruntime = v } in
    set_min_vruntime (restart later (record s { threads = update s.threads c stopped }) c)

pub charged-nice :
    (now later : ℤ) (s : Sched) (c t : ℕ) (v : ℤ)
    → ((charged now later s c v).threads t).nice ≡ (s.threads t).nice
unfolding set_min_vruntime
charged-nice now later s c t v =
    let stopped = record (s.threads c) { timer_stop = now; vruntime = v } in
    let threads = update s.threads c stopped in
    update-nice threads c t (record (threads c) { timer_start = later }) refl
    ∙ update-nice s.threads c t stopped refl

pub charged-rq :
    (now later : ℤ) (s : Sched) (c : ℕ) (v : ℤ)
    → ((charged now later s c v).rq.ready_list ≡ s.rq.ready_list)
      × ((charged now later s c v).rq.nr_ready ≡ s.rq.nr_ready)
unfolding set_min_vruntime
charged-rq now later s c v = (refl, refl)

pub update-same : (threads : ℕ → Thread) (i : ℕ) (t : Thread) → update threads i t i ≡ t
update-same threads i t = rw ((==_iff i i).1 refl) refl

pub update-other :
    (threads : ℕ → Thread) (i j : ℕ) (t : Thread) → i ≢ j → update threads i t j ≡ threads j
update-other threads i j t h = elim (eq_cases i j) [
  | inl k ↦ absurd (h k.0)
  | inr k ↦ rw (k.1) refl
]

pub charged-running :
    (now later : ℤ) (s : Sched) (c : ℕ) (v : ℤ)
    → (charged now later s c v).threads c
      ≡ record (s.threads c) { timer_stop = now; vruntime = v; timer_start = later }
unfolding set_min_vruntime
charged-running now later s c v =
    let stopped = record (s.threads c) { timer_stop = now; vruntime = v } in
    let threads = update s.threads c stopped in
    update-same threads c (record (threads c) { timer_start = later })
    ∙ ap (λ (x : Thread). record x { timer_start = later }) (update-same s.threads c stopped)

pub charged-other :
    (now later : ℤ) (s : Sched) (c j : ℕ) (v : ℤ)
    → c ≢ j
    → (charged now later s c v).threads j ≡ s.threads j
unfolding set_min_vruntime
charged-other now later s c j v h =
    let stopped = record (s.threads c) { timer_stop = now; vruntime = v } in
    let threads = update s.threads c stopped in
    update-other threads c j (record (threads c) { timer_start = later }) h
    ∙ update-other s.threads c j stopped h

pub charged-least :
    (now later : ℤ) (s : Sched) (c : ℕ) (v : ℤ)
    → s.rq.curr ≡ some c
    → Plain v
    → ((j : ℕ) → Memᴰ j s.rq.ready_list → Plain (s.threads j).vruntime)
    → let m = charged now later s c v in
      ((j : ℕ) → Memᴰ j (c ∷ s.rq.ready_list) → m.rq.min_vruntime ≤ℤ (m.threads j).vruntime)
      × ((j : ℕ) × Memᴰ j (c ∷ s.rq.ready_list) × (m.rq.min_vruntime ≡ (m.threads j).vruntime))
unfolding set_min_vruntime
charged-least now later s c v busy plain all =
    let stopped = record (s.threads c) { timer_stop = now; vruntime = v } in
    let s₀ = restart later (record s { threads = update s.threads c stopped }) c in
    let m = charged now later s c v in
    let at_c : Plain (m.threads c).vruntime =
      subst Plain (ap Thread.vruntime (sym (charged-running now later s c v))) plain in
    set_min-least s₀ c busy (λ j mem. elim (eq_cases c j) [
      | inl h ↦ subst (λ k. Plain (m.threads k).vruntime) (h.0) at_c
      | inr h ↦ elim (Memᴰ.cases_cons mem) [
        | inl k ↦ absurd (h.0 (sym k))
        | inr k ↦
            subst Plain (ap Thread.vruntime (sym (charged-other now later s c j v (h.0)))) (all j k)
      ]
    ])
