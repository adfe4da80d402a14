-- ===== src/Malloc/Tests.antt =====
-- Runs of lib/user/malloc.c's allocator.
use modeling_unix.Base.{
  ℕ, ◌+◌, ◌-◌, ◌*◌, ◌≤◌, ◌<◌, ◌^◌, ◌≡◌, refl, Bool, true, false, List, [], ◌∷◌, ◌==◌, ltb,
  if◌then◌else◌, arith, Option, none, some, ◌>>=◌, ltb→lt,
}
use modeling_unix.Malloc.{
  int30, mark_block_free, Heap, fence, get_list, adjusted, align, mm_init, malloc, free, coalesce,
  extend_heap, place, find_fit, get_non_empty_list,
}
use modeling_unix.Malloc.Layout.{Block, tag}
use modeling_unix.Malloc.Lists.{in_use}
use modeling_unix.Malloc.Payload.{Intact}
use modeling_unix.Malloc.Join.{Good}
use modeling_unix.Malloc.Coalesce.{free-Freed}
use modeling_unix.Malloc.Extend.{mm_init-Started}
use modeling_unix.Malloc.Allocate.{malloc-Allocated, Allocated}

abbrev empty_heap : Heap
empty_heap = record { tags = λ i. fence; listp = 0; seg_list = λ i. []; brk = 1000 }

-- a kernel with room for 4 MB
abbrev some_room : ℕ → ℕ → Bool
some_room b n = ltb (b + n) (2 ^ 20)

-- one block of 8 words
abbrev one_block : Bool → List ℕ → Heap
one_block u l = record {
  tags = λ i. if i == 10 then tag u true 8 else if i == 17 then tag u true 8 else tag true u 0;
  listp = 10;
  seg_list = λ i. if 3 == i then l else [];
  brk = 19;
}

one_block_free-Good : Good (one_block false (10 ∷ [])) ((false, 8) ∷ [])
unfolding get_list
one_block_free-Good = record {
  chain = (refl, omega arith, (λ e. (refl, refl)), refl);
  lists = λ i a. ground arith;
  started = omega arith;
  end = refl;
  small = omega arith;
}

one_block_used-Good : Good (one_block true []) ((true, 8) ∷ [])
one_block_used-Good = record {
  chain = (refl, omega arith, (λ e. cc), refl);
  lists = λ i a. ground arith;
  started = omega arith;
  end = refl;
  small = omega arith;
}

some_room-fits : (b n : ℕ) → some_room b n ≡ true → b + n < 2 ^ 29
some_room-fits b n e = omega (arith, ltb→lt (b + n) (2 ^ 20) e)

mm_init-Started_example :
    (h' : Heap) × (bs : List Block) × (mm_init some_room empty_heap ≡ some h')
    × Good h' bs
    × (h'.listp ≡ 1003)
    × (in_use 1003 bs ≡ [])
mm_init-Started_example = mm_init-Started some_room empty_heap refl some_room-fits

free-Freed_example :
    (h' : Heap) × (bs : List Block) × (free 11 (one_block true []) ≡ some h')
    × Good h' bs
    × (h'.listp ≡ 10)
    × (in_use 10 bs ≡ [])
    × Intact (one_block true []).tags h'.tags (in_use 10 bs)
free-Freed_example = free-Freed (one_block true []) [] 8 [] one_block_used-Good

malloc-Allocated_example :
    Allocated some_room
      (one_block false (10 ∷ []))
      ((false, 8) ∷ [])
      20
      (malloc some_room 20 (one_block false (10 ∷ [])))
    × (24 ≤ 4 * adjusted 20)
malloc-Allocated_example =
    malloc-Allocated some_room (one_block false (10 ∷ [])) ((false, 8) ∷ []) 20 one_block_free-Good
      (omega arith) (omega arith) some_room-fits

-- A block of 2^29 words reads back as a negative size, and one of 2^30 words as an empty one.
sizes_wrap :
    (int30 (2 ^ 29) ≡ 2 ^ 32 - 2 ^ 29) × (mark_block_free 10 (2 ^ 30) (one_block true []) ≡ none)
sizes_wrap = (refl, refl)

abbrev address : Option (Option ℕ × Heap) → Option ℕ
address none = none
address (some (a, h)) = a

-- Two blocks one after the other, and the first of them again when it has been freed.
malloc_run :
    (address (mm_init some_room empty_heap >>= malloc some_room 20) ≡ some 1004)
    × (address (malloc some_room 20 empty_heap >>= λ (a, h). malloc some_room 1000 h) ≡ some 1012)
    × (address (
          malloc some_room 20 empty_heap >>= λ (a, h).
          malloc some_room 1000 h >>= λ (b, h'). free 1004 h' >>= malloc some_room 16)
        ≡ some 1004)
unfolding mm_init malloc free coalesce extend_heap place find_fit get_list get_non_empty_list
    adjusted align
malloc_run = (refl, refl, refl)

-- A request of 2^32 - 1 bytes is taken for one of few.
adjusted_run : adjusted 4294967295 ≡ 8
unfolding adjusted align
adjusted_run = refl
