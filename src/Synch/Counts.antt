-- ===== src/Synch/Counts.antt =====
-- How often threads stand in the lists of a lock and its condition, by where they are.
use modeling_unix.Base.{
  ℕ, suc, ◌+◌, ◌≤◌, ◌≡◌, Bool, true, false, Option, List, [], ◌∷◌, ◌++◌, ◌==◌, if◌then◌else◌, arith,
}
use modeling_unix.Synch.{is}
use modeling_unix.Synch.System.{
  Place, asleep, taken, holding, broadcasting, giving, cond_giving, cond_trying, cond_asleep,
  System,
}

abbrev pub count : ℕ → List ℕ → ℕ
count t [] = 0
count t (x ∷ xs) = if x == t then suc (count t xs) else count t xs

-- has come down the lock's semaphore, and not up again
abbrev pub critical : Place → Bool
critical taken = true
critical holding = true
critical broadcasting = true
critical giving = true
critical cond_giving = true
critical p = false

abbrev pub holds : Place → Bool
holds holding = true
holds broadcasting = true
holds p = false

abbrev pub sleeps : Place → ℕ
sleeps asleep = 1
sleeps p = 0

abbrev pub waits : Place → ℕ
waits cond_giving = 1
waits cond_trying = 1
waits cond_asleep = 1
waits p = 0

abbrev pub dozers : ℕ → Place → List ℕ
dozers t cond_asleep = t ∷ []
dozers t p = []

abbrev pub dozes : Place → ℕ
dozes cond_asleep = 1
dozes p = 0

-- One thread: the lists and the semaphores fit to where it is.
pub record Local (owner : Option ℕ) (s : System) (t : ℕ) : Type 0 where
  pub inside : is owner t ≡ critical (s.place t)
  pub holder : is s.lock.holder t ≡ holds (s.place t)
  pub asleep : count t s.lock.semaphore.waiters ≡ sleeps (s.place t)
  pub waiting : count t s.cond + (s.own t).value ≡ waits (s.place t)
  pub unsignalled : (s.own t).value + dozes (s.place t) ≤ 1
  pub dozing : (s.own t).waiters ≡ dozers t (s.place t)

pub count-append : (t : ℕ) (xs ys : List ℕ) → count t (xs ++ ys) ≡ count t xs + count t ys
count-append t [] ys = omega arith
count-append t (x ∷ xs) ys = ground (arith, count-append t xs ys)
