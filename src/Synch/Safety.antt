-- ===== src/Synch/Safety.antt =====
-- What locks and condition variables of threads/synch.c promise.
use mathlib.Core.Path.{subst}
use modeling_unix.Base.{
  ℕ, ◌≡◌, sym, ◌∙◌, ==_iff, ◌≢◌, ◌⊎◌, ◌↔◌, inl, inr, refl, ap, Bool-cases, true, false, Option,
  none, some, if◌then◌else◌, arith,
}
use modeling_unix.Synch.{is, lock_held_by_current_thread}
use modeling_unix.Synch.System.{
  Place, outside, trying, asleep, taken, holding, broadcasting, giving, cond_giving, cond_asleep,
  cond_trying, System, Call, lock_acquire, lock_try_acquire, lock_release, cond_wait, signal,
  cond_broadcast, start_call, turn, turn_at, Reach, start, later, init, acquire, try_acquire, wait,
  cond_signal, broadcast_turn,
}
use modeling_unix.Synch.Counts.{count, critical, holds}
use modeling_unix.Synch.Invariant.{Inv, Kept, WellFormed, list-cases}
use modeling_unix.Synch.Turns.{
  misuse, rest, is_first, woken_waiter, turn-Kept, cond_signal-Signalled,
}

init-WellFormed : WellFormed init
init-WellFormed = (
  none,
  record {
    single = refl;
    local = λ t. record {
      inside = refl;
      holder = refl;
      asleep = refl;
      waiting = omega arith;
      unsignalled = omega arith;
      dozing = refl;
    };
    awake = inr (inl refl);
  },
)

outside-stops :
    (s : System) (me : ℕ) (call : Call)
    → lock_held_by_current_thread me s.lock ≡ false
    → misuse outside call s.cond ≡ true
    → start_call me call s ≡ none
unfolding start_call wait cond_signal
outside-stops s me lock_acquire f h = cc
outside-stops s me lock_try_acquire f h = cc
outside-stops s me lock_release f h = rw f refl
outside-stops s me cond_wait f h = rw f refl
outside-stops s me signal f h = rw f refl
outside-stops s me cond_broadcast f h = elim (list-cases s.cond) [
  | inl e ↦ let g = ap (λ x. misuse outside cond_broadcast x) e in cc
  | inr (x, xs, e) ↦ subst (λ y. broadcast_turn me (s.place me) y s ≡ none) (sym e) (rw f refl)
]

holding-stops :
    (s : System) (me : ℕ) (call : Call)
    → lock_held_by_current_thread me s.lock ≡ true
    → misuse holding call s.cond ≡ true
    → start_call me call s ≡ none
unfolding start_call acquire try_acquire
holding-stops s me lock_acquire f h = rw f refl
holding-stops s me lock_try_acquire f h = rw f refl
holding-stops s me lock_release f h = cc
holding-stops s me cond_wait f h = cc
holding-stops s me signal f h = cc
holding-stops s me cond_broadcast f h = cc

misuse-stops :
    (s : System) (me : ℕ) (call : Call) (p : Place)
    → WellFormed s
    → s.place me ≡ p
    → misuse p call s.cond ≡ true
    → turn_at p me call s ≡ none
misuse-stops s me call outside (o, i) e h =
    outside-stops s me call ((i.local me).holder ∙ ap holds e) h
misuse-stops s me call holding (o, i) e h =
    holding-stops s me call ((i.local me).holder ∙ ap holds e) h
misuse-stops s me call trying w e h = cc
misuse-stops s me call asleep w e h = cc
misuse-stops s me call taken w e h = cc
misuse-stops s me call broadcasting w e h = cc
misuse-stops s me call giving w e h = cc
misuse-stops s me call cond_giving w e h = cc
misuse-stops s me call cond_trying w e h = cc
misuse-stops s me call cond_asleep w e h = cc

Kept-some : (r : Option System) (s : System) → Kept r → r ≡ some s → WellFormed s
Kept-some r s k e = subst Kept e k

Kept-not_none : (r : Option System) → Kept r → r ≢ none
Kept-not_none r k e = subst Kept e k

some-not_none : (r : Option System) (s : System) → r ≡ some s → r ≢ none
some-not_none r s e f = cc

Reach-WellFormed : {s : System} → Reach s → WellFormed s
Reach-WellFormed start = init-WellFormed
Reach-WellFormed (later {s} {s'} me call r e) =
    let w = Reach-WellFormed r in
    elim (Bool-cases (misuse (s.place me) call s.cond)) [
      | inl h ↦
          absurd
            (some-not_none (turn me call s) s' e (misuse-stops s me call (s.place me) w refl h))
      | inr h ↦ Kept-some (turn me call s) s' (turn-Kept s me call w h) e
    ]

is_unique : (o : Option ℕ) (t u : ℕ) → is o t ≡ true → is o u ≡ true → t ≡ u
is_unique none t u a b = cc
is_unique (some h) t u a b = sym ((==_iff h t).0 a) ∙ (==_iff h u).0 b

-- However calls of any threads interleave: at most one thread is between the `sema_down` that gets it
-- the lock and the `sema_up` that gives it back, and the lock's `holder` is the thread that holds it.
pub lock_exclusion :
    {s : System}
    → Reach s
    → ((t u : ℕ) → critical (s.place t) ≡ true → critical (s.place u) ≡ true → t ≡ u)
      × ((t : ℕ) → lock_held_by_current_thread t s.lock ≡ holds (s.place t))
lock_exclusion r =
    let (o, i) = Reach-WellFormed r in
    (
      (λ t u a b. is_unique o t u ((i.local t).inside ∙ a) ((i.local u).inside ∙ b)),
      λ t. (i.local t).holder,
    )

-- However calls of any threads interleave, a thread's turn stops the kernel exactly when the thread
-- misuses a call: acquires the lock that it holds, or releases, waits, signals or broadcasts to a
-- waiter without it. No other ASSERT fails; whom a call wakes is always blocked.
pub turn-stops :
    {s : System}
    → Reach s
    → (me : ℕ) (call : Call) → (turn me call s ≡ none) ↔ (misuse (s.place me) call s.cond ≡ true)
turn-stops {s} r me call =
    let w = Reach-WellFormed r in
    (
      (λ e. elim (Bool-cases (misuse (s.place me) call s.cond)) [
        | inl h ↦ h
        | inr h ↦ absurd (Kept-not_none (turn me call s) (turn-Kept s me call w h) e)
      ]),
      λ h. misuse-stops s me call (s.place me) w refl h,
    )

remembered :
    (s : System) (t : ℕ)
    → s.place t ≡ asleep
    → (o : Option ℕ) → Inv o s
    → (u : ℕ) × ((critical (s.place u) ≡ true) ⊎ (s.place u ≡ trying))
remembered s t e none i =
    let l = i.local t in
    elim i.awake [
      | inl v ↦ absurd (omega (arith, i.single))
      | inr (inl w) ↦ absurd (ground (arith, w))
      | inr (inr (u, f)) ↦ (u, inr f)
    ]
remembered s t e (some h) i = (h, inl (sym (i.local h).inside ∙ (==_iff h h).1 refl))

-- However calls of any threads interleave, a thread that sleeps in `lock_acquire` is not forgotten:
-- another thread has the lock or is about to test whether it is free.
pub sleeper_remembered :
    {s : System}
    → Reach s
    → (t : ℕ) → s.place t ≡ asleep
    → (u : ℕ) × ((critical (s.place u) ≡ true) ⊎ (s.place u ≡ trying))
sleeper_remembered {s} r t e = let (o, i) = Reach-WellFormed r in remembered s t e o i

-- However calls of any threads interleave, a thread that sleeps in `cond_wait` stands in the
-- condition's list exactly once, so that no signal for it was lost; one that was signalled is not in
-- the list, and does not sleep.
pub signal_kept :
    {s : System}
    → Reach s
    → (t : ℕ)
    → (s.place t ≡ cond_asleep → count t s.cond ≡ 1)
      × ((s.own t).value ≡ 1 → (count t s.cond ≡ 0) × (s.place t ≢ cond_asleep))
signal_kept {s} r t =
    let (o, i) = Reach-WellFormed r in
    let l = i.local t in ((λ e. ground arith), λ e. (ground arith, λ f. ground arith))

-- A signal by the thread that holds the lock, however it came there, passes its ASSERT, takes the
-- first waiter off the condition's list and wakes it where it sleeps; no other thread moves.
pub cond_signal-woken :
    {s : System}
    → Reach s
    → (me : ℕ) → holds (s.place me) ≡ true
    → (s' : System) × (cond_signal me s ≡ some s')
      × (s'.cond ≡ rest s.cond)
      × ((t : ℕ) → s'.place t ≡ (if is_first s.cond t then woken_waiter (s.place t) else s.place t))
cond_signal-woken {s} r me h =
    let (s', e, w, p, c, m) = cond_signal-Signalled s me (Reach-WellFormed r) h in (s', e, c, m)
