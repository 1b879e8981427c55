-- ===== src/Mm/Heap/Blocks.antt =====
-- What a list of blocks of kernel/mm/heap.c says: the memory in use and the tiling of the heap.
use scarlett_os.Base.{
  ℕ, ◌+◌, ◌≤◌, ◌<◌, ◌≡◌, ◌≢◌, inl, inr, refl, false, Option, none, some, List, [], ◌∷◌, arith, ◌==◌,
  if◌then◌else◌, Bool-cases,
}
use scarlett_os.Mm.Heap.{Block}

-- The memory in use: the size of the block in use at an address.
abbrev pub allocation : ℕ → List Block → Option ℕ
allocation a [] = none
allocation a (b ∷ bs) =
    if b.address == a then (if b.free then none else some b.size) else allocation a bs

-- What `heap_used_size` is to be: the blocks in use with their headers.
abbrev pub charge : Block → ℕ
charge b = if b.free then 0 else b.size + 40

abbrev pub charged : List Block → ℕ
charged [] = 0
charged (b ∷ bs) = charge b + charged bs

-- Where the blocks end that begin at `start`.
abbrev pub end_of : ℕ → List Block → ℕ
end_of start [] = start
end_of start (b ∷ bs) = end_of (start + 40 + b.size) bs

-- Each block begins where the one before ends.
abbrev pub Tiled : ℕ → List Block → Type 0
Tiled start [] = Unit
Tiled start (b ∷ bs) = (b.address ≡ start) × Tiled (start + 40 + b.size) bs

pub end_of-above : (start : ℕ) (bs : List Block) → start + charged bs ≤ end_of start bs
end_of-above start [] = omega arith
end_of-above start (b ∷ bs) = ground (arith, end_of-above (start + 40 + b.size) bs)

pub allocation-below :
    (a start : ℕ) (bs : List Block) → Tiled start bs → a < start → allocation a bs ≡ none
allocation-below a start [] t h = refl
allocation-below a start (b ∷ bs) (at, t) h =
    let other : (b.address == a) ≡ false = ground arith in
    rw other (allocation-below a (start + 40 + b.size) bs t (omega arith))

-- A change of the blocks from `start` on: the tiling and its end are kept, and the memory in use is
-- what it was but for one address.
pub record Changed (start address : ℕ) (now : Option ℕ) (bs cs : List Block) : Type 0 where
  pub tiled : Tiled start cs
  pub ends : end_of start cs ≡ end_of start bs
  pub at_address : allocation address cs ≡ now
  pub above : start ≤ address
  pub others : (a : ℕ) → address ≢ a → allocation a cs ≡ allocation a bs

-- A change further on.
pub Changed-cons :
    {start address : ℕ} {now : Option ℕ} (b : Block) {bs cs : List Block}
    → b.address ≡ start
    → Changed (start + 40 + b.size) address now bs cs
    → Changed start address now (b ∷ bs) (b ∷ cs)
Changed-cons {start} {address} b {bs} {cs} at v = record {
  tiled = (at, v.tiled);
  ends = v.ends;
  at_address =
      let other : (b.address == address) ≡ false = ground (arith, v.above) in rw other v.at_address;
  above = omega (arith, v.above);
  others = λ a ne. elim (Bool-cases (b.address == a)) [
    | inl e ↦ rw e refl
    | inr e ↦ rw e (v.others a ne)
  ];
}
