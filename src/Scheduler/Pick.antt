-- ===== src/Scheduler/Pick.antt =====
-- `sched_pick_next` and `find_thread` of threads/scheduler.c: which thread runs next.
use modeling_unix.Base.{
  ℕ, suc, ◌+◌, ◌-◌, ◌%◌, ◌^◌, ◌≤◌, ◌<◌, ◌≡◌, ◌≢◌, sym, ◌∙◌, ap, ◌⊎◌, ◌↔◌, refl, inl, inr, true,
  false, Option, none, some, List, [], ◌∷◌, length, Bool-cases, ◌==◌, arith,
}
use modeling_unix.Base.Int.{ℤ, ◌<ℤ◌, eq_of_parts}
use modeling_unix.Scheduler.{
  Thread, ReadyQueue, Sched, better, find_loop, remove, sched_pick_next, update,
}
use mathlib.Core.List.Memᴰ
use mathlib.Core.List.Permᴰ
use mathlib.Core.List.{Memᴰ, Permᴰ}

-- The order of the ready threads: the virtual run time first, then the thread's number.
abbrev pub NotAfter : Thread → Thread → Type 0
NotAfter t u = (t.vruntime <ℤ u.vruntime) ⊎ ((t.vruntime ≡ u.vruntime) × (t.tid ≤ u.tid))

NotAfter-refl : (t : Thread) → NotAfter t t
NotAfter-refl t = inr (refl, omega arith)

NotAfter-trans : (t u v : Thread) → NotAfter t u → NotAfter u v → NotAfter t v
NotAfter-trans t u v (inl h) (inl k) = inl (omega arith)
NotAfter-trans t u v (inl h) (inr k) = inl (rw (sym (k.0)) h)
NotAfter-trans t u v (inr h) (inl k) = inl (rw (h.0) k)
NotAfter-trans t u v (inr h) (inr k) = inr (h.0 ∙ k.0, omega arith)

better-NotAfter : (t u : Thread) → better t u ≡ true → NotAfter t u
better-NotAfter t u h =
    ground (arith, eq_of_parts t.vruntime u.vruntime, eq_of_parts u.vruntime t.vruntime)

not_better-NotAfter : (t u : Thread) → better t u ≡ false → NotAfter u t
not_better-NotAfter t u h =
    ground (arith, eq_of_parts t.vruntime u.vruntime, eq_of_parts u.vruntime t.vruntime)

-- the loop's answer is its start or in the list, and comes after neither
pub find_loop_lem :
    (threads : ℕ → Thread) (front : ℕ) (is : List ℕ)
    → ((find_loop threads front is ≡ front) ⊎ Memᴰ (find_loop threads front is) is)
      × NotAfter (threads (find_loop threads front is)) (threads front)
      × ((j : ℕ) → Memᴰ j is → NotAfter (threads (find_loop threads front is)) (threads j))
unfolding find_loop
find_loop_lem threads front [] = (inl refl, NotAfter-refl (threads front), λ j m. elim m [ ])
find_loop_lem threads front (i ∷ is) = elim (Bool-cases (better (threads i) (threads front))) [
  | inl e ↦ rw e (
      let ih = find_loop_lem threads i is in
      let le = better-NotAfter (threads i) (threads front) e in
      (
        inr (elim (ih.0) [ inl k ↦ Memᴰ.head k | inr k ↦ Memᴰ.tail k ]),
        NotAfter-trans (threads (find_loop threads i is)) (threads i) (threads front) (ih.1) le,
        λ j m. elim (Memᴰ.cases_cons m) [ inl k ↦ rw k (ih.1) | inr k ↦ ih.2 j k ],
      ))
  | inr e ↦ rw e (
      let ih = find_loop_lem threads front is in
      let le = not_better-NotAfter (threads i) (threads front) e in
      (
        elim (ih.0) [ inl k ↦ inl k | inr k ↦ inr (Memᴰ.tail k) ],
        ih.1,
        λ j m. elim (Memᴰ.cases_cons m) [
          | inl k ↦ rw k (
              NotAfter-trans (threads (find_loop threads front is)) (threads front) (threads i)
                (ih.1) le)
          | inr k ↦ ih.2 j k
        ],
      ))
]

pub eq_cases : (i j : ℕ) → ((i ≡ j) × ((i == j) ≡ true)) ⊎ ((i ≢ j) × ((i == j) ≡ false))
eq_cases i j = elim (Bool-cases (i == j)) [
  | inl e ↦ inl (ground arith, e)
  | inr e ↦ inr (ground arith, e)
]

remove-Permᴰ : (i : ℕ) (is : List ℕ) → Memᴰ i is → Permᴰ is (i ∷ remove i is)
unfolding remove
remove-Permᴰ i [] m = elim m [ ]
remove-Permᴰ i (j ∷ js) m = elim (eq_cases j i) [
  | inl e ↦ rw (e.1) (Permᴰ.cons (e.0) (Permᴰ.refl js))
  | inr e ↦ rw (e.1) (elim (Memᴰ.cases_cons m) [
    | inl k ↦ absurd (e.0 (sym k))
    | inr k ↦ Permᴰ.trans (Permᴰ.cons refl (remove-Permᴰ i js k)) (Permᴰ.swap refl refl)
  ])
]

-- `nr_ready` is the number of threads of the ready list.
abbrev pub Counted : ReadyQueue → Type 0
Counted rq = (rq.nr_ready ≡ length rq.ready_list) × (rq.nr_ready < 2 ^ 32)

-- `i` leaves the ready list of `s`, which makes `s'`.
pub record Picked (now : ℤ) (s : Sched) (i : ℕ) (s' : Sched) : Type 0 where
  pub taken : Permᴰ s.rq.ready_list (i ∷ s'.rq.ready_list)
  pub least : (j : ℕ) → Memᴰ j s.rq.ready_list → NotAfter (s.threads i) (s.threads j)
  pub counted : Counted s'.rq
  pub starts : (s'.threads i).timer_start ≡ now

length-remove : (i : ℕ) (is : List ℕ) → Memᴰ i is → length is ≡ suc (length (remove i is))
unfolding remove
length-remove i [] m = elim m [ ]
length-remove i (j ∷ js) m = elim (eq_cases j i) [
  | inl e ↦ rw (e.1) refl
  | inr e ↦ rw (e.1) (elim (Memᴰ.cases_cons m) [
    | inl k ↦ absurd (e.0 (sym k))
    | inr k ↦ ap suc (length-remove i js k)
  ])
]

-- what `sched_pick_next` returns of a ready list that is not empty
abbrev after_pick : (now : ℤ) → Sched → (front : ℕ) → (others : List ℕ) → Option ℕ × Sched
after_pick now s front others =
    let i = find_loop s.threads front (front ∷ others) in
    (
      some i,
      record s {
        threads = update s.threads i (record (s.threads i) { timer_start = now });
        rq = record (s.rq) {
          ready_list = remove i (front ∷ others);
          nr_ready = (s.rq.nr_ready + (2 ^ 32 - 1)) % 2 ^ 32;
        };
      },
    )

pick_next-∷ :
    (now : ℤ) (s : Sched) (front : ℕ) (others : List ℕ)
    → s.rq.ready_list ≡ front ∷ others
    → sched_pick_next now s ≡ after_pick now s front others
unfolding sched_pick_next
pick_next-∷ now s front others e = rw e refl

pick_next-[] : (now : ℤ) (s : Sched) → s.rq.ready_list ≡ [] → sched_pick_next now s ≡ (none, s)
unfolding sched_pick_next
pick_next-[] now s e = rw e refl

List-cases : (is : List ℕ) → (is ≡ []) ⊎ ((i : ℕ) × (js : List ℕ) × (is ≡ i ∷ js))
List-cases [] = inl refl
List-cases (i ∷ js) = inr (i, js, refl)

after_pick-Picked :
    (now : ℤ) (s : Sched) (front : ℕ) (others : List ℕ)
    → s.rq.ready_list ≡ front ∷ others
    → Counted s.rq
    → Picked now s (find_loop s.threads front (front ∷ others)) (after_pick now s front others).1
after_pick-Picked now s front others e ok =
    let i = find_loop s.threads front (front ∷ others) in
    let found = find_loop_lem s.threads front (front ∷ others) in
    let mem : Memᴰ i (front ∷ others) = elim (found.0) [ inl k ↦ Memᴰ.head k | inr k ↦ k ] in
    let len = length-remove i (front ∷ others) mem in
    let counted : s.rq.nr_ready ≡ length (front ∷ others) = ok.0 ∙ ap length e in
    record {
      taken = rw e (remove-Permᴰ i (front ∷ others) mem);
      least = λ j m. found.2 j (rw (sym e) m);
      counted = (omega arith, omega arith);
      starts = ground arith;
    }

some-inj : {i j : ℕ} → some i ≡ some j → i ≡ j
some-inj e = cc

-- `sched_pick_next` answers NULL exactly when no thread is ready.
pub pick_next-none_iff :
    (now : ℤ) (s : Sched) → ((sched_pick_next now s).0 ≡ none) ↔ (s.rq.ready_list ≡ [])
pick_next-none_iff now s = elim (List-cases s.rq.ready_list) [
  | inl e ↦ (λ _. e, λ _. ap (λ r. r.0) (pick_next-[] now s e))
  | inr (i, js, e) ↦ rw (pick_next-∷ now s i js e, e) (λ k. absurd (cc), λ k. absurd (cc))
]

-- Where `nr_ready` counts the ready list, `sched_pick_next` takes one thread off that list, and no
-- ready thread comes before it by virtual run time and number; its time slice starts now and
-- `nr_ready` counts the ready list again.
pub pick_next-Picked :
    (now : ℤ) (s : Sched) (i : ℕ)
    → Counted s.rq
    → (sched_pick_next now s).0 ≡ some i
    → Picked now s i (sched_pick_next now s).1
pick_next-Picked now s i ok e = elim (List-cases s.rq.ready_list) [
  | inl empty ↦
      let none_some : none ≡ some i = sym (ap (λ r. r.0) (pick_next-[] now s empty)) ∙ e in
      absurd (cc none_some)
  | inr (front, others, full) ↦
      let eq = pick_next-∷ now s front others full in
      let same_i : some (find_loop s.threads front (front ∷ others)) ≡ some i =
        sym (ap (λ r. r.0) eq) ∙ e in
      rw (eq, sym (some-inj same_i)) (after_pick-Picked now s front others full ok)
]
