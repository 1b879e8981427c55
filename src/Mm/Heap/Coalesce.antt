-- ===== src/Mm/Heap/Coalesce.antt =====
-- `coalesce_free_blocks` of kernel/mm/heap.c.
use scarlett_os.Base.{
  ℕ, ◌+◌, ◌^◌, ◌<◌, ◌≡◌, inl, inr, refl, ◌∙◌, true, false, ◌&&◌, none, List, [], ◌∷◌, arith, ◌==◌,
  Bool-cases,
}
use scarlett_os.Mm.Pmm.{word}
use scarlett_os.Mm.Heap.{Block, block_header_size, coalesce_from, coalesce_free_blocks}
use scarlett_os.Mm.Heap.Blocks.{allocation, charged, end_of, Tiled, end_of-above, allocation-below}

-- Coalescing keeps the memory in use.
pub record Same (start : ℕ) (bs cs : List Block) : Type 0 where
  pub tiled : Tiled start cs
  pub ends : end_of start cs ≡ end_of start bs
  pub used : (a : ℕ) → allocation a cs ≡ allocation a bs
  pub cost : charged cs ≡ charged bs

merged_used :
    (start : ℕ) (b c : Block) (cs : List Block) (n : ℕ)
    → Tiled start (b ∷ c ∷ cs)
    → b.free ≡ true
    → c.free ≡ true
    → (a : ℕ) → allocation a (record b { size = n } ∷ cs) ≡ allocation a (b ∷ c ∷ cs)
merged_used start b c cs n (at, (at', t)) b_free c_free a = elim (Bool-cases (b.address == a)) [
  | inl e ↦ rw (e, b_free) refl
  | inr e ↦ elim (Bool-cases (c.address == a)) [
    | inr e' ↦ rw (e, e') refl
    | inl e' ↦
        let gone : allocation a cs ≡ none =
          allocation-below a (start + 40 + b.size + 40 + c.size) cs t (ground arith) in
        rw (e, e', c_free) gone
  ]
]

coalesce_join :
    (b c : Block) (cs : List Block)
    → (b.free && c.free) ≡ true
    → coalesce_from b (c ∷ cs)
      ≡ coalesce_from (record b { size = word (b.size + (block_header_size + c.size)) }) cs
unfolding coalesce_from
coalesce_join b c cs e = rw (coalesce_from, e) refl

coalesce_skip :
    (b c : Block) (cs : List Block)
    → (b.free && c.free) ≡ false
    → coalesce_from b (c ∷ cs) ≡ b ∷ coalesce_from c cs
unfolding coalesce_from
coalesce_skip b c cs e = rw (coalesce_from, e) refl

pub coalesce_from-Same :
    (start : ℕ) (b : Block) (bs : List Block)
    → Tiled start (b ∷ bs)
    → end_of start (b ∷ bs) < 2 ^ 64
    → Same start (b ∷ bs) (coalesce_from b bs)
unfolding coalesce_from
coalesce_from-Same start b [] t h = record { tiled = t; ends = refl; used = λ a. refl; cost = refl }
coalesce_from-Same start b (c ∷ cs) (at, (at', t)) h = elim (Bool-cases (b.free && c.free)) [
  | inr e ↦
      let v = coalesce_from-Same (start + 40 + b.size) c cs (at', t) h in
      rw (coalesce_skip b c cs e) (record {
        tiled = (at, v.tiled);
        ends = v.ends;
        used = λ a. elim (Bool-cases (b.address == a)) [
          | inl here ↦ rw here refl
          | inr away ↦ rw away (v.used a)
        ];
        cost = omega (arith, v.cost);
      })
  | inl e ↦
      let b_free : b.free ≡ true = ground arith in
      let c_free : c.free ≡ true = ground arith in
      let low = end_of-above (start + 40 + b.size + 40 + c.size) cs in
      let size : word (b.size + (block_header_size + c.size)) ≡ b.size + 40 + c.size =
        omega arith in
      let end : start + 40 + (b.size + 40 + c.size) ≡ start + 40 + b.size + 40 + c.size =
        omega arith in
      let b' : Block = record b { size = b.size + 40 + c.size } in
      let v : Same start (b' ∷ cs) (coalesce_from b' cs) =
        coalesce_from-Same start b' cs (at, rw end t) (rw end h) in
      rw (coalesce_join b c cs e, size)
        (record {
          tiled = v.tiled;
          ends = v.ends ∙ (rw end refl);
          used = λ a.
              v.used a
              ∙ merged_used start b c cs (b.size + 40 + c.size) (at, (at', t)) b_free c_free a;
          cost = v.cost ∙ (rw (b_free, c_free) (omega arith));
        })
]

pub coalesce-Same :
    (start : ℕ) (bs : List Block)
    → Tiled start bs
    → end_of start bs < 2 ^ 64
    → Same start bs (coalesce_free_blocks bs)
unfolding coalesce_free_blocks
coalesce-Same start [] t h = record { tiled = tt; ends = refl; used = λ a. refl; cost = refl }
coalesce-Same start (b ∷ bs) t h = coalesce_from-Same start b bs t h
