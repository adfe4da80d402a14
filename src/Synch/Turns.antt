-- ===== src/Synch/Turns.antt =====
-- Signals, broadcasts and whole turns at a lock and its condition.
use mathlib.Core.Path.{subst}
use modeling_unix.Base.{
  ℕ, suc, ◌+◌, ◌≡◌, sym, ◌∙◌, ◌⊎◌, inl, inr, refl, ap, Bool, true, false, not, Option, some, List,
  [], ◌∷◌, ◌==◌, if◌then◌else◌, arith,
}
use modeling_unix.Synch.{sema_up, lock_held_by_current_thread}
use modeling_unix.Synch.System.{
  Place, outside, trying, asleep, taken, holding, broadcasting, giving, cond_giving, cond_trying,
  cond_asleep, System, move, signal_first, cond_signal, broadcast_turn, Call, lock_acquire,
  lock_try_acquire, lock_release, cond_wait, signal, cond_broadcast, start_call, turn, turn_at,
}
use modeling_unix.Synch.Counts.{count, waits, holds}
use modeling_unix.Synch.Invariant.{
  Inv, Kept, WellFormed, Awake-upd, list-cases, acquire-Kept, own-Kept, down-Kept, try-Kept,
  give-Kept, wait-Kept, doze-Kept, up-Kept,
}

-- Where a thread goes on whose `struct semaphore_elem` is counted up.
abbrev pub woken_waiter : Place → Place
woken_waiter cond_asleep = cond_trying
woken_waiter p = p

abbrev pub is_first : List ℕ → ℕ → Bool
is_first [] t = false
is_first (x ∷ xs) t = x == t

abbrev pub rest : List ℕ → List ℕ
rest [] = []
rest (x ∷ xs) = xs

-- A signal takes the first waiter off the list and wakes it, and no other thread moves.
abbrev pub Signalled : (me : ℕ) → System → Option System → Type 0
Signalled me s r =
    (s' : System) × (r ≡ some s')
    × WellFormed s'
    × (s'.place me ≡ s.place me)
    × (s'.cond ≡ rest s.cond)
    × ((t : ℕ) → s'.place t ≡ (if is_first s.cond t then woken_waiter (s.place t) else s.place t))

waits-cases :
    (p : Place) (n m : ℕ)
    → suc n + m ≡ waits p
    → (p ≡ cond_asleep) ⊎ ((p ≡ cond_giving) ⊎ (p ≡ cond_trying))
waits-cases p n m h = ground arith

signal_awake-Signalled :
    (s : System) (me w : ℕ) (ws : List ℕ) (o : Option ℕ)
    → Inv o s
    → s.cond ≡ w ∷ ws
    → (s.place w ≡ cond_giving) ⊎ (s.place w ≡ cond_trying)
    → Signalled me s (signal_first (w ∷ ws) s)
unfolding sema_up
signal_awake-Signalled s me w ws o i f e =
    let l = i.local w in
    let v : (s.own w).waiters ≡ [] = ground arith in
    let a : (s.own w).value ≡ 0 = ground (arith, f) in
    rw v (
      _,
      refl,
      (
        o,
        record {
          single = i.single;
          local = λ t. let m = i.local t in ground (arith, f);
          awake = i.awake;
        },
      ),
      refl,
      rw f refl,
      λ t. rw f (ground arith),
    )

signal_asleep-Signalled :
    (s : System) (me w : ℕ) (ws : List ℕ) (o : Option ℕ)
    → Inv o s
    → s.cond ≡ w ∷ ws
    → holds (s.place me) ≡ true
    → s.place w ≡ cond_asleep
    → Signalled me s (signal_first (w ∷ ws) s)
unfolding sema_up
signal_asleep-Signalled s me w ws o i f h e =
    let l = i.local w in
    let v : (s.own w).waiters ≡ w ∷ [] = ground arith in
    let a : (s.own w).value ≡ 0 = ground (arith, f) in
    let b : (w == me) ≡ false = ground arith in
    rw (v, e)
      (
        _,
        refl,
        (
          o,
          record {
            single = i.single;
            local = λ t. let m = i.local t in ground (arith, f);
            awake = Awake-upd s.lock.semaphore s.place w cond_trying i.awake (λ x. cc);
          },
        ),
        rw b refl,
        rw f refl,
        λ t. rw f (ground arith),
      )

signal_first-Signalled :
    (s : System) (me w : ℕ) (ws : List ℕ)
    → WellFormed s
    → s.cond ≡ w ∷ ws
    → holds (s.place me) ≡ true
    → Signalled me s (signal_first (w ∷ ws) s)
signal_first-Signalled s me w ws (o, i) f h =
    let c : suc (count w ws) ≡ count w s.cond = rw f (ground arith) in
    let d : suc (count w ws) + (s.own w).value ≡ waits (s.place w) =
      ap (λ k. k + (s.own w).value) c ∙ (i.local w).waiting in
    elim (waits-cases (s.place w) (count w ws) (s.own w).value d) [
      | inl e ↦ signal_asleep-Signalled s me w ws o i f h e
      | inr e ↦ signal_awake-Signalled s me w ws o i f e
    ]

-- A holder's signal passes its ASSERT.
holder-asserts :
    (s : System) (me : ℕ)
    → WellFormed s
    → holds (s.place me) ≡ true
    → lock_held_by_current_thread me s.lock ≡ true
holder-asserts s me (o, i) h = (i.local me).holder ∙ h

pub cond_signal-Signalled :
    (s : System) (me : ℕ)
    → WellFormed s
    → holds (s.place me) ≡ true
    → Signalled me s (cond_signal me s)
unfolding cond_signal
cond_signal-Signalled s me w h = rw (holder-asserts s me w h) (elim (list-cases s.cond) [
  | inl f ↦
      subst (λ x. Signalled me s (signal_first x s)) (sym f)
        (s, refl, w, refl, rw f refl, λ t. rw f refl)
  | inr (x, xs, f) ↦
      subst (λ x. Signalled me s (signal_first x s)) (sym f)
        (signal_first-Signalled s me x xs w f h)
])

stay-Kept :
    (s : System) (me : ℕ) (q : Place)
    → WellFormed s
    → ((holds (s.place me) ≡ true) × (holds q ≡ true)) ⊎ ((s.place me ≡ outside) × (q ≡ outside))
    → WellFormed (move me q s)
stay-Kept s me q (o, i) h =
    let l = i.local me in
    (
      o,
      record {
        single = i.single;
        local = λ t. let m = i.local t in ground arith;
        awake = Awake-upd s.lock.semaphore s.place me q i.awake (λ x. ground arith);
      },
    )

broadcast-Kept :
    (s : System) (me : ℕ) (q : Place)
    → WellFormed s
    → ((holds (s.place me) ≡ true) × (holds q ≡ true))
      ⊎ ((s.place me ≡ outside) × (q ≡ outside) × (s.cond ≡ []))
    → Kept (broadcast_turn me q s.cond s)
broadcast-Kept s me q w h = elim (list-cases s.cond) [
  | inl f ↦
      subst (λ x. Kept (broadcast_turn me q x s)) (sym f) (stay-Kept s me q w (ground (arith, h)))
  | inr (x, xs, f) ↦
      let k : holds (s.place me) ≡ true = ground (arith, h, f) in
      let (s', e, w', p, c, m) = cond_signal-Signalled s me w k in
      subst (λ x. Kept (broadcast_turn me q x s)) (sym f)
        (rw e (stay-Kept s' me broadcasting w' (inl (ap holds p ∙ k, refl))))
]

abbrev is_empty : List ℕ → Bool
is_empty [] = true
is_empty (x ∷ xs) = false

-- A call that the thread at this place must not make: the lock again for its holder, or without the
-- lock a release, a wait, a signal, or a broadcast with a waiter.
abbrev pub misuse : Place → Call → List ℕ → Bool
misuse outside lock_release cond = true
misuse outside cond_wait cond = true
misuse outside signal cond = true
misuse outside cond_broadcast cond = not (is_empty cond)
misuse holding lock_acquire cond = true
misuse holding lock_try_acquire cond = true
misuse p call cond = false

not_empty : (xs : List ℕ) → not (is_empty xs) ≡ false → xs ≡ []
not_empty [] h = refl
not_empty (x ∷ xs) h = cc

outside-Kept :
    (s : System) (me : ℕ) (call : Call)
    → WellFormed s
    → s.place me ≡ outside
    → misuse outside call s.cond ≡ false
    → Kept (start_call me call s)
unfolding start_call
outside-Kept s me lock_acquire w e h = acquire-Kept s me e w
outside-Kept s me lock_try_acquire w e h = try-Kept s me e w
outside-Kept s me lock_release w e h = cc
outside-Kept s me cond_wait w e h = cc
outside-Kept s me signal w e h = cc
outside-Kept s me cond_broadcast w e h =
    broadcast-Kept s me (s.place me) w (inr (e, e, not_empty s.cond h))

holding-Kept :
    (s : System) (me : ℕ) (call : Call)
    → WellFormed s
    → s.place me ≡ holding
    → misuse holding call s.cond ≡ false
    → Kept (start_call me call s)
unfolding start_call
holding-Kept s me lock_acquire w e h = cc
holding-Kept s me lock_try_acquire w e h = cc
holding-Kept s me lock_release w e h = give-Kept s me e w
holding-Kept s me cond_wait w e h = wait-Kept s me e w
holding-Kept s me signal w e h =
    let (s', f, w', p, c, m) = cond_signal-Signalled s me w (ap holds e) in rw f w'
holding-Kept s me cond_broadcast w e h =
    broadcast-Kept s me (s.place me) w (inl (ap holds e, ap holds e))

place_turn-Kept :
    (s : System) (me : ℕ) (call : Call) (p : Place)
    → WellFormed s
    → s.place me ≡ p
    → misuse p call s.cond ≡ false
    → Kept (turn_at p me call s)
place_turn-Kept s me call outside w e h = outside-Kept s me call w e h
place_turn-Kept s me call holding w e h = holding-Kept s me call w e h
place_turn-Kept s me call trying w e h = down-Kept s me e w
place_turn-Kept s me call asleep w e h = w
place_turn-Kept s me call taken w e h = own-Kept s me e w
place_turn-Kept s me call broadcasting w e h =
    broadcast-Kept s me holding w (inl (ap holds e, refl))
place_turn-Kept s me call giving w e h = up-Kept s me outside (inl (e, refl)) w
place_turn-Kept s me call cond_giving w e h = up-Kept s me cond_trying (inr (e, refl)) w
place_turn-Kept s me call cond_trying w e h = doze-Kept s me e w
place_turn-Kept s me call cond_asleep w e h = w

pub turn-Kept :
    (s : System) (me : ℕ) (call : Call)
    → WellFormed s
    → misuse (s.place me) call s.cond ≡ false
    → Kept (turn me call s)
turn-Kept s me call w h = place_turn-Kept s me call (s.place me) w refl h
