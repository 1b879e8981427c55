-- ===== src/Mm/Heap/Layout.antt =====
-- Where the blocks of kernel/mm/heap.c lie, and the block that `kmalloc` puts at their end.
use scarlett_os.Base.{
  ℕ, ◌+◌, ◌≤◌, ◌<◌, ◌≡◌, ◌≢◌, inl, inr, refl, true, false, none, some, List, [], ◌∷◌, ◌++◌, arith,
  ◌==◌, Bool-cases,
}
use scarlett_os.Mm.Heap.{Block, last_end}
use scarlett_os.Mm.Heap.Blocks.{allocation, charged, end_of, Tiled, end_of-above}

-- A block in use lies between the first address and the end.
pub allocation-inside :
    (a n start : ℕ) (bs : List Block)
    → Tiled start bs
    → allocation a bs ≡ some n
    → (start ≤ a) × (a + 40 + n ≤ end_of start bs)
allocation-inside a n start [] t h = ground arith
allocation-inside a n start (b ∷ bs) (at, t) h = elim (Bool-cases (b.address == a)) [
  | inl e ↦
      let above = end_of-above (start + 40 + b.size) bs in
      let n_size : b.size ≡ n = ground arith in (ground arith, ground arith)
  | inr e ↦
      let rest : allocation a bs ≡ some n = ground arith in
      let (low, high) = allocation-inside a n (start + 40 + b.size) bs t rest in (omega arith, high)
]

-- Of two blocks in use, the first ends before the second begins.
pub allocation-disjoint :
    (a n b m start : ℕ) (bs : List Block)
    → Tiled start bs
    → allocation a bs ≡ some n
    → allocation b bs ≡ some m
    → a < b
    → a + 40 + n ≤ b
allocation-disjoint a n b m start [] t h k lt = ground arith
allocation-disjoint a n b m start (c ∷ bs) (at, t) h k lt = elim (Bool-cases (c.address == b)) [
  | inl e ↦ let (low, high) = allocation-inside a n start (c ∷ bs) (at, t) h in ground arith
  | inr e ↦
      let later : allocation b bs ≡ some m = ground arith in
      elim (Bool-cases (c.address == a)) [
        | inl e' ↦
            let (low, high) = allocation-inside b m (start + 40 + c.size) bs t later in
            let n_size : c.size ≡ n = ground arith in ground arith
        | inr e' ↦
            let first : allocation a bs ≡ some n = ground arith in
            allocation-disjoint a n b m (start + 40 + c.size) bs t first later lt
      ]
]

pub last_end_lem :
    (start : ℕ) (bs : List Block)
    → Tiled start bs
    → start + 1 ≤ end_of start bs
    → last_end bs ≡ some (end_of start bs)
unfolding last_end
last_end_lem start [] t h = ground arith
last_end_lem start (b ∷ []) (at, t) h = rw at refl
last_end_lem start (b ∷ c ∷ cs) (at, t) h =
    let above = end_of-above (start + 40 + b.size + 40 + c.size) cs in
    last_end_lem (start + 40 + b.size) (c ∷ cs) t (omega arith)

-- The blocks with one more at their end.
module _ (b : Block) (in_use : b.free ≡ false) where
  pub record Appended (start : ℕ) (bs cs : List Block) : Type 0 where
    pub tiled : Tiled start cs
    pub ends : end_of start cs ≡ end_of start bs + 40 + b.size
    pub unused : allocation b.address bs ≡ none
    pub at_address : allocation b.address cs ≡ some b.size
    pub others : (a : ℕ) → b.address ≢ a → allocation a cs ≡ allocation a bs
    pub cost : charged cs ≡ charged bs + (b.size + 40)

  pub append-Appended :
      (start : ℕ) (bs : List Block)
      → Tiled start bs
      → b.address ≡ end_of start bs
      → Appended start bs (bs ++ (b ∷ []))
  append-Appended start [] t at = record {
    tiled = (at, tt);
    ends = refl;
    unused = refl;
    at_address =
        let self : (b.address == b.address) ≡ true = ground arith in rw (self, in_use) refl;
    others = λ a ne. let other : (b.address == a) ≡ false = ground arith in rw other refl;
    cost = rw in_use (omega arith);
  }
  append-Appended start (c ∷ cs) (at, t) end =
      let v = append-Appended (start + 40 + c.size) cs t end in
      let above = end_of-above (start + 40 + c.size) cs in
      let other : (c.address == b.address) ≡ false = ground arith in
      record {
        tiled = (at, v.tiled);
        ends = v.ends;
        unused = rw other v.unused;
        at_address = rw other v.at_address;
        others = λ a ne. elim (Bool-cases (c.address == a)) [
          | inl e ↦ rw e refl
          | inr e ↦ rw e (v.others a ne)
        ];
        cost = omega (arith, v.cost);
      }
