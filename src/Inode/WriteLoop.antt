-- ===== src/Inode/WriteLoop.antt =====
-- `inode_write_at` of filesys/inode.c as a whole.
use mathlib.Core.Path.{subst}
use modeling_unix.Base.{
  ℕ, zero, suc, ◌+◌, ◌-◌, ◌*◌, ◌%◌, ◌≤◌, ◌<◌, ◌≡◌, ◌≢◌, inl, inr, refl, sym, ap, ◌∙◌, true, false,
  ◌&&◌, Option, some, List, length, get_or, take, drop, max, length-take, length-drop, get_or-take,
  get_or-drop, ltb, lt→ltb, ◌==◌, if◌then◌else◌, arith, Bool-cases, assert,
}
use modeling_unix.Inode.{
  Disk, Volume, no_sector, no_space, put_word, put_bytes, lesser, write_loop, inode_length,
  inode_write_at,
}
use modeling_unix.Inode.Slots.{slot_zero, IsIndex}
use modeling_unix.Inode.Install.{eq-cases}
use modeling_unix.Inode.Sector.{max_sectors, byte_to_sector-Located}
use modeling_unix.Inode.Read.{sector_at}
use modeling_unix.Inode.Bytes.{file_byte}
use modeling_unix.Inode.Frame.{Frame-refl, Frame-trans, same-Frame}
use modeling_unix.Inode.Keep.{
  slot-same, IsIndex-same, length-SameTables, sector_at-same, length-file_byte,
}
use modeling_unix.Inode.Write.{Wrote, Full-Wrote, round-Wrote}

-- the first round and the others
join :
    (v v₂ v' : Volume) (i p c n : ℕ) (l : List ℕ)
    → c ≤ length l
    → Wrote v i p (take c l) c (v.disk i 0) v₂
    → Wrote v₂ i (p + c) (drop c l) n (v₂.disk i 0) v'
    → Wrote v i p l (c + n) (v.disk i 0) v'
join v v₂ v' i p c n l h first second = record {
  index = second.index;
  all = elim second.all [
    | inl e ↦ inl (omega (arith, length-drop c l))
    | inr (few, taken) ↦ inr (omega (arith, length-drop c l), taken)
  ];
  there = λ k less. elim (Bool-cases (ltb k c)) [
    | inl early ↦ λ z.
        first.there k (ground arith)
          (sym (second.sectors (p + k) (first.there k (ground arith))) ∙ z)
    | inr late ↦
        let at : p + c + (k - c) ≡ p + k = ground arith in
        λ z. second.there (k - c) (ground arith) (ap (sector_at v' i) at ∙ z)
  ];
  new = λ k less. elim (Bool-cases (ltb k c)) [
    | inl early ↦
        let small : k < c = ground arith in
        second.rest (p + k) (inl (omega arith)) (second.sectors (p + k) (first.there k small))
        ∙ first.new k small
        ∙ ap (λ b. b % 256) (get_or-take c l k 0 small)
    | inr late ↦
        let at : p + k ≡ p + c + (k - c) = ground arith in
        let split : c + (k - c) ≡ k = ground arith in
        ap (file_byte v' i) at
        ∙ second.new (k - c) (ground arith)
        ∙ ap (λ b. b % 256) (get_or-drop c l (k - c) 0 ∙ ap (λ j. get_or l j 0) split)
  ];
  sectors = λ q real. let e = first.sectors q real in second.sectors q (λ z. real (sym e ∙ z)) ∙ e;
  rest = λ q out e.
      let mid : sector_at v₂ i q ≡ sector_at v i q = elim (eq-cases (sector_at v i q) no_sector) [
        | inr (real, _) ↦ first.sectors q real
        | inl (hole, _) ↦ elim (eq-cases (sector_at v₂ i q) no_sector) [
          | inl (also, _) ↦ also ∙ sym hole
          | inr (real, _) ↦ sym (second.sectors q real) ∙ e
        ]
      ] in
      second.rest q (ground arith) (e ∙ sym mid) ∙ first.rest q (ground arith) mid;
  length_now = second.length_now ∙ first.length_now;
  framed = Frame-trans v v₂ v' i first.framed second.framed;
}

-- the outcome of a call of the loop
abbrev Written : Volume → (inode p : ℕ) → List ℕ → Option (ℕ × ℕ × Volume) → Type 0
Written v i p l out =
    (n : ℕ) × (v' : Volume) × (out ≡ some (n, p + n, v')) × Wrote v i p l n (v.disk i 0) v'

-- Nothing is left to write.
stop :
    (v : Volume) (i p : ℕ) (l : List ℕ)
    → IsIndex v i
    → length l ≡ 0
    → Written v i p l (some (0, p, v))
stop v i p l ok e = (
  0,
  v,
  ap (λ q. some (0, q, v)) (omega arith),
  record {
    index = ok;
    all = inl (sym e);
    there = λ k h. absurd (omega arith);
    new = λ k h. absurd (omega arith);
    sectors = λ q real. refl;
    rest = λ q out e. refl;
    length_now = refl;
    framed = Frame-refl v i;
  },
)

write_loop-Wrote :
    (fuel : ℕ) (v : Volume) (i : ℕ) (l : List ℕ) (p : ℕ)
    → IsIndex v i
    → length l ≤ fuel
    → p + length l ≤ max_sectors * 512
    → Written v i p l (write_loop fuel v i l p)
unfolding write_loop
write_loop-Wrote zero v i l p ok enough room = stop v i p l ok (omega arith)
write_loop-Wrote (suc fuel) v i l p ok enough room = elim (eq-cases (length l) 0) [
  | inl (e, test) ↦ rw test (stop v i p l ok e)
  | inr (more, test) ↦
      let c = lesser (length l) (512 - p % 512) in
      let small : c ≤ length l = ground arith in
      let taken : length (take c l) ≡ c = ground (arith, length-take c l) in
      elim (byte_to_sector-Located v i ok p (omega arith)) [
        | inl (v₁, ran, full) ↦
            let at : p ≡ p + 0 = omega arith in
            (
              0,
              v₁,
              rw (test, ran) (ap (λ q. some (0, q, v₁)) at),
              Full-Wrote v v₁ i p l (omega arith) full,
            )
        | inr (s, v₁, ran, loc) ↦
            let space : (s == no_space) ≡ false = ground (arith, loc.real, loc.index.valid.small) in
            let device : ltb s v₁.free_map.bit_cnt ≡ true = lt→ltb s v₁.free_map.bit_cnt loc.real in
            let checked : (if p % 512 == 0 && c == 512
                  then some tt
                  else assert (ltb s v₁.free_map.bit_cnt))
                ≡ some tt =
              elim (Bool-cases (p % 512 == 0 && c == 512)) [
                | inl whole ↦ rw whole refl
                | inr partial ↦ rw (partial, device) refl
              ] in
            let fits : p % 512 + length (take c l) ≤ 512 = ground (arith, taken) in
            let v₂ = record v₁ { disk = put_bytes (take c l) v₁.disk s (p % 512) } in
            let once = round-Wrote v v₁ i p s (take c l) (omega arith) fits loc in
            let first : Wrote v i p (take c l) c (v.disk i 0) v₂ =
              subst (λ k. Wrote v i p (take c l) k (v.disk i 0) v₂) taken once in
            let left : length (drop c l) ≤ fuel = ground (arith, length-drop c l) in
            let below : p + c + length (drop c l) ≤ max_sectors * 512 =
              ground (arith, length-drop c l) in
            let (n, v', ran', others) =
              write_loop-Wrote fuel v₂ i (drop c l) (p + c) first.index left below in
            let at : p + c + n ≡ p + (c + n) = omega arith in
            (
              c + n,
              v',
              rw (test, ran, space, checked, ran') (ap (λ q. some (c + n, q, v')) at),
              join v v₂ v' i p c n l small first others,
            )
      ]
]

-- A write to a well-formed file, below the largest size of a file, never stops and writes the buffer's
-- bytes from `offset` on: all of them, or the first ones until the device is full. No sector of the
-- file moves, the file's other bytes stay, but those of a hole that now has a sector, the length
-- grows to the end of what was written, the index stays well formed, and no sector that is not the
-- file's changes.
pub write_at-Wrote :
    (v : Volume) (i : ℕ) (l : List ℕ) (offset : ℕ)
    → IsIndex v i
    → offset + length l ≤ max_sectors * 512
    → (n : ℕ) × (v' : Volume) × (inode_write_at v i 0 l offset ≡ some (n, v'))
      × Wrote v i offset l n (max (inode_length v i) (offset + n)) v'
unfolding inode_write_at inode_length
write_at-Wrote v i l p ok room = pick (write_loop-Wrote (length l) v i l p ok (omega arith) room)
  where
    put_away : (d : Disk) (n t k : ℕ) → t ≢ i → put_word d i 0 n t k ≡ d t k
    put_away d n t k other = ground arith

    put_here : (d : Disk) (n : ℕ) → put_word d i 0 n i 0 ≡ n
    put_here d n = ground arith

    pick :
        Written v i p l (write_loop (length l) v i l p)
        → (n : ℕ) × (v' : Volume) × (inode_write_at v i 0 l p ≡ some (n, v'))
          × Wrote v i p l n (max (inode_length v i) (p + n)) v'
    pick (n, v', ran, w) = elim (Bool-cases (ltb (v'.disk i 0) (p + n))) [
      | inl longer ↦
          let same = length-SameTables v' i (p + n) w.index in
          let d' = put_word v'.disk i 0 (p + n) in
          let v₂ = record v' { disk = d' } in
          let at = sector_at-same v' d' i same in
          (
            n,
            v₂,
            rw (ran, longer) refl,
            record {
              index = IsIndex-same v' d' i w.index same (
                  rw (put_here v'.disk (p + n))
                    (elim w.all [ inl e ↦ omega arith | inr (few, _) ↦ omega arith ]));
              all = w.all;
              there = λ k h z. w.there k h (sym (at (p + k)) ∙ z);
              new = λ k h. length-file_byte v' i (p + k) (p + n) w.index ∙ w.new k h;
              sectors = λ q real. at q ∙ w.sectors q real;
              rest = λ q out e.
                  length-file_byte v' i q (p + n) w.index ∙ w.rest q out (sym (at q) ∙ e);
              length_now = put_here v'.disk (p + n) ∙ ground (arith, w.length_now);
              framed = Frame-trans v v' v₂ i w.framed (
                  same-Frame v' v₂ i 0 (omega arith) (slot-same v'.disk d' i same) refl
                    (λ t k other.
                      put_away v'.disk (p + n) t k (λ z. other (z ∙ sym (slot_zero v'.disk i)))));
            },
          )
      | inr short ↦ (
        n,
        v',
        rw (ran, short) refl,
        subst (λ len. Wrote v i p l n len v') (ground (arith, w.length_now)) w,
      )
    ]
