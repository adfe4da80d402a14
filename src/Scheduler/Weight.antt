-- ===== src/Scheduler/Weight.antt =====
-- `calc_vruntime` of threads/scheduler.c with its table of weights: how a thread's virtual run time
-- grows while it runs.
use modeling_unix.Base.{
  ℕ, zero, suc, ◌+◌, ◌-◌, ◌*◌, ◌/◌, ◌≤◌, ◌<◌, ◌≡◌, refl, sym, ap, ◌∙◌, Bool, true, ◌&&◌, some, List,
  [], ◌∷◌, leb, arith, get_elem?, length,
}
use native.Mathlib.Nat.{le-div_iff_mul-le, mul-div-le, mul-le-mul_left, mul_comm, le_trans}
use modeling_unix.Base.Int.{ℤ, pos, negsuc, ◌+ℤ◌, ◌-ℤ◌, ◌*ℤ◌, ◌/ℤ◌, ◌≤ℤ◌, ◌<ℤ◌, int_laws}
use modeling_unix.Scheduler.{Thread, prio_to_weight, weight, calc_vruntime}

-- all numbers of the list are at least 1 and no number is below the one after it
abbrev falls : (bound : ℕ) → List ℕ → Bool
falls b [] = true
falls b (x ∷ xs) = leb 1 x && leb x b && falls x xs

falls-first :
    (b : ℕ) (xs : List ℕ) (i : ℕ)
    → falls b xs ≡ true
    → i < length xs
    → (w : ℕ) × (get_elem? xs i ≡ some w) × (1 ≤ w) × (w ≤ b)
falls-first b [] i f h = absurd (omega arith)
falls-first b (x ∷ xs) zero f h = (x, refl, ground arith, ground arith)
falls-first b (x ∷ xs) (suc i) f h =
    let r = falls-first x xs i (ground arith) (omega arith) in (r.0, r.1, r.2, ground arith)

falls-pair :
    (b : ℕ) (xs : List ℕ) (i j : ℕ)
    → falls b xs ≡ true
    → i ≤ j
    → j < length xs
    → (v : ℕ) × (w : ℕ) × (get_elem? xs i ≡ some v) × (get_elem? xs j ≡ some w) × (1 ≤ w) × (w ≤ v)
falls-pair b [] i j f le h = absurd (omega arith)
falls-pair b (x ∷ xs) zero zero f le h = (x, x, refl, refl, ground arith, ground arith)
falls-pair b (x ∷ xs) zero (suc j) f le h =
    let r = falls-first x xs j (ground arith) (omega arith) in (x, r.0, refl, r.1, r.2, r.3)
falls-pair b (x ∷ xs) (suc i) zero f le h = absurd (omega arith)
falls-pair b (x ∷ xs) (suc i) (suc j) f le h =
    falls-pair x xs i j (ground arith) (omega arith) (omega arith)

table-falls : falls 88761 prio_to_weight ≡ true
table-falls = refl

-- The nice levels go from -20 to 19.
abbrev pub IsNice : ℤ → Type 0
IsNice n = (negsuc 19 ≤ℤ n) × (n <ℤ pos 20)

-- the entry of the table for a nice level
abbrev pub level : ℤ → ℕ
level (pos n) = n + 20
level (negsuc n) = 19 - n

level_lem : (n : ℤ) → IsNice n → (n +ℤ pos 20 ≡ pos (level n)) × (level n < 40)
unfolding ◌+ℤ◌
level_lem (pos n) h = (ground arith, omega arith)
level_lem (negsuc n) h = (ground arith, omega arith)

pos-mul : (a b : ℕ) → pos a *ℤ pos b ≡ pos (a * b)
unfolding ◌*ℤ◌
pos-mul a b = ground arith

pos-div : (a b : ℕ) → pos a /ℤ pos b ≡ pos (a / b)
unfolding ◌/ℤ◌
pos-div a b = ground arith

scaled : (d w : ℕ) → pos d *ℤ pos 1024 /ℤ pos w ≡ pos (d * 1024 / w)
scaled d w = rw (pos-mul d 1024) (pos-div (d * 1024) w)

-- the virtual run time after `d` nanoseconds at a weight of `w`
pub calc_vruntime-weight :
    (t : Thread) (d w : ℕ)
    → IsNice t.nice
    → t.timer_stop -ℤ t.timer_start ≡ pos d
    → get_elem? prio_to_weight (level t.nice) ≡ some w
    → calc_vruntime t (pos 20) ≡ some (t.vruntime +ℤ pos (d * 1024 / w))
unfolding calc_vruntime weight
calc_vruntime-weight t d w nice ran e = rw ((level_lem t.nice nice).0, e, ran, scaled d w) refl

0+ℤ : (k : ℕ) → pos 0 +ℤ pos k ≡ pos k
unfolding ◌+ℤ◌
0+ℤ k = ground arith

scaled_woken : (d w : ℕ) → pos d *ℤ pos 88761 /ℤ pos w ≡ pos (d * 88761 / w)
scaled_woken d w = rw (pos-mul d 88761) (pos-div (d * 88761) w)

pos+0 : (n : ℕ) → pos n +ℤ pos 0 ≡ pos n
unfolding ◌+ℤ◌
pos+0 n = ground arith

-- The bonus 0 scales by the weight of the nice level -20 over an entry 20 levels too early.
pub calc_vruntime-woken :
    (t : Thread) (n k w : ℕ)
    → t.nice ≡ pos n
    → t.timer_stop -ℤ t.timer_start ≡ pos k
    → get_elem? prio_to_weight n ≡ some w
    → calc_vruntime t (pos 0) ≡ some (t.vruntime +ℤ pos (k * 88761 / w))
unfolding calc_vruntime weight
calc_vruntime-woken t n k w e ran at = rw (e, pos+0 n, at, ran, scaled_woken k w) refl

-- A thread's run of `d` nanoseconds.
abbrev pub Ran : Thread → ℕ → Type 0
Ran t d = t.timer_stop -ℤ t.timer_start ≡ pos d

-- A thread of the default nice level ages by exactly the time that it ran.
pub calc_vruntime-default :
    (t : Thread) (d : ℕ)
    → t.nice ≡ pos 0
    → Ran t d
    → calc_vruntime t (pos 20) ≡ some (t.vruntime +ℤ pos d)
calc_vruntime-default t d e ran =
    let nice : IsNice t.nice = rw e (omega arith, omega arith) in
    calc_vruntime-weight t d 1024 nice ran (rw e refl)
    ∙ ap (λ n. some (t.vruntime +ℤ pos n)) (omega arith)

weight-antitone : (d v w : ℕ) → 1 ≤ w → w ≤ v → d * 1024 / v ≤ d * 1024 / w
weight-antitone d v w h le = (le-div_iff_mul-le {k = w} (omega arith)).1 (
    le_trans (mul-le-mul_left (d * 1024 / v) le)
      (rw (mul_comm (d * 1024 / v) v) (mul-div-le (d * 1024) v)))

+ℤ-pos_mono : (a : ℤ) (m n : ℕ) → m ≤ n → a +ℤ pos m ≤ℤ a +ℤ pos n
+ℤ-pos_mono a m n h = omega (int_laws)

+ℤ-pos_le : (a : ℤ) (m : ℕ) → a ≤ℤ a +ℤ pos m
+ℤ-pos_le a m = omega (int_laws)

level_mono : (m n : ℤ) → IsNice m → IsNice n → m ≤ℤ n → level m ≤ level n
level_mono m n hm hn h = ground arith

-- Of two threads of nice levels of -20 to 19 that ran for the same time, from the same virtual run
-- time on, the one of the higher nice level is
-- not ahead of the other, and neither went back.
pub calc_vruntime-fair :
    (t u : Thread) (d : ℕ)
    → IsNice t.nice
    → IsNice u.nice
    → t.nice ≤ℤ u.nice
    → t.vruntime ≡ u.vruntime
    → Ran t d
    → Ran u d
    → (v w : ℤ) × (calc_vruntime t (pos 20) ≡ some v)
      × (calc_vruntime u (pos 20) ≡ some w)
      × (t.vruntime ≤ℤ v)
      × (v ≤ℤ w)
calc_vruntime-fair t u d nt nu le same rt ru =
    let (a, b, ea, eb, pos_b, b≤a) =
      falls-pair 88761 prio_to_weight (level t.nice) (level u.nice) table-falls
        (level_mono t.nice u.nice nt nu le) (level_lem u.nice nu).1 in
    (
      t.vruntime +ℤ pos (d * 1024 / a),
      u.vruntime +ℤ pos (d * 1024 / b),
      calc_vruntime-weight t d a nt rt ea,
      calc_vruntime-weight u d b nu ru eb,
      +ℤ-pos_le t.vruntime (d * 1024 / a),
      rw (sym same)
          (+ℤ-pos_mono t.vruntime (d * 1024 / a) (d * 1024 / b) (weight-antitone d a b pos_b b≤a)),
    )
