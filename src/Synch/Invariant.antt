-- ===== src/Synch/Invariant.antt =====
-- What holds of a lock, its condition and its threads after every turn.
use mathlib.Core.Path.{subst}
use modeling_unix.Base.{
  ℕ, suc, ◌+◌, ◌≡◌, sym, ◌∙◌, ==_iff, ◌⊎◌, inl, inr, refl, ap, Bool-cases, ltb, true, false, Option,
  none, some, List, [], ◌∷◌, ◌==◌, arith,
}
use modeling_unix.Synch.{
  is, Semaphore, sema_down, sema_try_down, sema_up, up_from, lock_held_by_current_thread,
}
use modeling_unix.Synch.System.{
  Place, outside, trying, asleep, taken, holding, giving, cond_giving, cond_trying, cond_asleep,
  System, own_lock, acquire_turn, try_acquire, acquire, give, up_turn, wait, wait_turn, upd,
}
use modeling_unix.Synch.Counts.{Local, count, count-append, sleeps}

-- While the semaphore is up and threads sleep at it, some thread is about to test it.
abbrev pub Awake : Semaphore → (ℕ → Place) → Type 0
Awake sema place = (sema.value ≡ 0) ⊎ (sema.waiters ≡ []) ⊎ ((t : ℕ) × (place t ≡ trying))

abbrev pub size : Option ℕ → ℕ
size none = 0
size (some t) = 1

pub record Inv (o : Option ℕ) (s : System) : Type 0 where
  pub single : s.lock.semaphore.value + size o ≡ 1
  pub local : (t : ℕ) → Local o s t
  pub awake : Awake s.lock.semaphore s.place

abbrev pub WellFormed : System → Type 0
WellFormed s = (o : Option ℕ) × Inv o s

abbrev pub Kept : Option System → Type 0
Kept none = ⊥
Kept (some s) = WellFormed s

pub Awake-upd :
    (sema : Semaphore) (place : ℕ → Place) (me : ℕ) (p : Place)
    → Awake sema place
    → ((place me ≡ trying) → p ≡ trying)
    → Awake sema (upd place me p)
Awake-upd sema place me p w h = elim w [
  | inl a ↦ inl a
  | inr (inl a) ↦ inr (inl a)
  | inr (inr (t, e)) ↦ inr (inr (t, ground (arith, e, h)))
]

pub acquire-Kept : (s : System) (me : ℕ) → s.place me ≡ outside → WellFormed s → Kept (acquire me s)
unfolding acquire
acquire-Kept s me e (o, i) =
    let l = i.local me in
    let f : lock_held_by_current_thread me s.lock ≡ false = ground arith in
    rw f (
      o,
      record {
        single = i.single;
        local = λ t. let m = i.local t in ground arith;
        awake = Awake-upd s.lock.semaphore s.place me trying i.awake (λ x. refl);
      },
    )

pub own-Kept :
    (s : System) (me : ℕ) → s.place me ≡ taken → WellFormed s → WellFormed (own_lock me s)
own-Kept s me e (o, i) =
    let l = i.local me in
    let a : is o me ≡ true = ground arith in
    (
      o,
      record {
        single = i.single;
        local = λ t. let m = i.local t in ground arith;
        awake = Awake-upd s.lock.semaphore s.place me holding i.awake (λ x. cc);
      },
    )

pub down-Kept :
    (s : System) (me : ℕ)
    → s.place me ≡ trying
    → WellFormed s
    → WellFormed (acquire_turn me s (sema_down me s.lock.semaphore))
unfolding sema_down
down-Kept s me e (none, i) =
    let f : (s.lock.semaphore.value == 0) ≡ false = ground (arith, i.single) in
    let l = i.local me in
    rw f (
      some me,
      record {
        single = omega (arith, i.single);
        local = λ t. let m = i.local t in ground arith;
        awake = inl (omega (arith, i.single));
      },
    )
down-Kept s me e (some h, i) =
    let f : (s.lock.semaphore.value == 0) ≡ true = ground (arith, i.single) in
    let l = i.local me in
    rw f (
      some h,
      record {
        single = i.single;
        local = λ t.
            let m = i.local t in ground (arith, count-append t s.lock.semaphore.waiters (me ∷ []));
        awake = inl (omega (arith, i.single));
      },
    )

pub try-Kept : (s : System) (me : ℕ) → s.place me ≡ outside → WellFormed s → Kept (try_acquire me s)
unfolding try_acquire sema_try_down
try-Kept s me e (none, i) =
    let l = i.local me in
    let g : lock_held_by_current_thread me s.lock ≡ false = ground arith in
    let f : ltb 0 s.lock.semaphore.value ≡ true = ground (arith, i.single) in
    rw (g, f)
      (
        some me,
        record {
          single = omega (arith, i.single);
          local = λ t. let m = i.local t in ground arith;
          awake = inl (omega (arith, i.single));
        },
      )
try-Kept s me e (some h, i) =
    let l = i.local me in
    let g : lock_held_by_current_thread me s.lock ≡ false = ground arith in
    let f : ltb 0 s.lock.semaphore.value ≡ false = ground (arith, i.single) in
    rw (g, f)
      (
        some h,
        record {
          single = i.single;
          local = λ t. let m = i.local t in ground arith;
          awake = inl (omega (arith, i.single));
        },
      )

pub give-Kept :
    (s : System) (me : ℕ) → s.place me ≡ holding → WellFormed s → Kept (give me giving s)
give-Kept s me e (o, i) =
    let l = i.local me in
    let f : lock_held_by_current_thread me s.lock ≡ true = ground arith in
    let a : is o me ≡ true = ground arith in
    rw f (
      o,
      record {
        single = i.single;
        local = λ t. let m = i.local t in ground arith;
        awake = Awake-upd s.lock.semaphore s.place me giving i.awake (λ x. cc);
      },
    )

pub wait-Kept : (s : System) (me : ℕ) → s.place me ≡ holding → WellFormed s → Kept (wait me s)
unfolding wait
wait-Kept s me e (o, i) =
    let l = i.local me in
    let f : lock_held_by_current_thread me s.lock ≡ true = ground arith in
    let a : is o me ≡ true = ground arith in
    rw f (
      o,
      record {
        single = i.single;
        local = λ t. let m = i.local t in ground (arith, count-append t s.cond (me ∷ []));
        awake = Awake-upd s.lock.semaphore s.place me cond_giving i.awake (λ x. cc);
      },
    )

pub doze-Kept :
    (s : System) (me : ℕ)
    → s.place me ≡ cond_trying
    → WellFormed s
    → Kept (wait_turn me s (sema_down me (s.own me)))
unfolding sema_down acquire
doze-Kept s me e (o, i) =
    let l = i.local me in
    elim (Bool-cases ((s.own me).value == 0)) [
      | inl f ↦ rw f (
        o,
        record {
          single = i.single;
          local = λ t. let m = i.local t in ground (arith, f);
          awake = Awake-upd s.lock.semaphore s.place me cond_asleep i.awake (λ x. cc);
        },
      )
      | inr f ↦
          let g : lock_held_by_current_thread me s.lock ≡ false = ground arith in
          rw (f, g)
            (
              o,
              record {
                single = i.single;
                local = λ t. let m = i.local t in ground (arith, f);
                awake = Awake-upd s.lock.semaphore s.place me trying i.awake (λ x. refl);
              },
            )
    ]

-- behind the `sema_up` of a release
abbrev Leaves : Place → Place → Type 0
Leaves p q = ((p ≡ giving) × (q ≡ outside)) ⊎ ((p ≡ cond_giving) × (q ≡ cond_trying))

pub is_owner : (o : Option ℕ) (t : ℕ) → is o t ≡ true → o ≡ some t
is_owner none t h = cc
is_owner (some h) t e = ap some ((==_iff h t).0 e)

sleeps-asleep : (p : Place) (n : ℕ) → suc n ≡ sleeps p → p ≡ asleep
sleeps-asleep p n h = ground arith

up_empty-Kept :
    (s : System) (me : ℕ) (q : Place)
    → Leaves (s.place me) q
    → Inv (some me) s
    → s.lock.semaphore.waiters ≡ []
    → Kept (up_turn me q s (up_from [] s.lock.semaphore))
up_empty-Kept s me q e i f =
    let l = i.local me in
    (
      none,
      record {
        single = ground (arith, i.single);
        local = λ t. let m = i.local t in ground (arith, f);
        awake = inr (inl f);
      },
    )

up_first-Kept :
    (s : System) (me : ℕ) (q : Place) (w : ℕ) (ws : List ℕ)
    → Leaves (s.place me) q
    → Inv (some me) s
    → s.lock.semaphore.waiters ≡ w ∷ ws
    → Kept (up_turn me q s (up_from (w ∷ ws) s.lock.semaphore))
up_first-Kept s me q w ws e i f =
    let l = i.local me in
    let c : count w s.lock.semaphore.waiters ≡ suc (count w ws) = rw f (ground arith) in
    let a : s.place w ≡ asleep =
      sleeps-asleep (s.place w) (count w ws) (sym c ∙ (i.local w).asleep) in
    let b : (me == w) ≡ false = ground arith in
    rw (b, a)
      (
        none,
        record {
          single = ground (arith, i.single);
          local = λ t. let m = i.local t in ground (arith, f);
          awake = inr (inr (w, ground arith));
        },
      )

pub list-cases : (xs : List ℕ) → (xs ≡ []) ⊎ ((x : ℕ) × (ys : List ℕ) × (xs ≡ x ∷ ys))
list-cases [] = inl refl
list-cases (x ∷ xs) = inr (x, xs, refl)

pub up-Kept :
    (s : System) (me : ℕ) (q : Place)
    → Leaves (s.place me) q
    → WellFormed s
    → Kept (up_turn me q s (sema_up s.lock.semaphore))
unfolding sema_up
up-Kept s me q e (o, i) =
    let l = i.local me in
    let a : is o me ≡ true = ground arith in
    let j : Inv (some me) s = subst (λ x. Inv x s) (is_owner o me a) i in
    elim (list-cases s.lock.semaphore.waiters) [
      | inl f ↦
          subst (λ x. Kept (up_turn me q s (up_from x s.lock.semaphore))) (sym f)
            (up_empty-Kept s me q e j f)
      | inr (w, ws, f) ↦
          subst (λ x. Kept (up_turn me q s (up_from x s.lock.semaphore))) (sym f)
            (up_first-Kept s me q w ws e j f)
    ]
