-- ===== src/Mm/Heap/Search.antt =====
-- The search of `kmalloc` in kernel/mm/heap.c and the split of the block that it finds.
use scarlett_os.Base.{
  ℕ, ◌+◌, ◌-◌, ◌^◌, ◌≤◌, ◌<◌, ◌≡◌, ◌⊎◌, inl, inr, refl, sym, true, false, ◌&&◌, Option, none, some,
  List, [], ◌∷◌, arith, leb, ◌==◌, Bool-cases,
}
use scarlett_os.Mm.Pmm.{word}
use scarlett_os.Mm.Heap.{Block, Fit, block_header_size, take_block, first_fit}
use scarlett_os.Mm.Heap.Blocks.{allocation, charged, Tiled, allocation-below, Changed, Changed-cons}

-- The search of `kmalloc` takes a free block of at least the size, or none is large enough.
module _ (size : ℕ) (small : size + 72 < 2 ^ 64) where
  pub record Taken (start : ℕ) (bs : List Block) (f : Fit) : Type 0 where
    pub change : Changed start f.taken.address (some f.taken.size) bs f.blocks
    pub unused : allocation f.taken.address bs ≡ none
    pub enough : size ≤ f.taken.size
    pub cost : charged f.blocks ≡ charged bs + (f.taken.size + 40)

  take_block-Taken :
      (start : ℕ) (b : Block) (bs : List Block)
      → Tiled start (b ∷ bs)
      → b.free ≡ true
      → size ≤ b.size
      → Taken start (b ∷ bs) (take_block size b bs)
  unfolding take_block
  take_block-Taken start b bs (at, t) is_free fits =
      elim (Bool-cases (leb (word (size + block_header_size + 32)) b.size)) [
        | inl large ↦
            let room : size + 72 ≤ b.size = ground arith in
            let end : start + 40 + size + 40 + (b.size - size - 40) ≡ start + 40 + b.size =
              omega arith in
            let self : (b.address == b.address) ≡ true = ground arith in
            rw large (record {
              change = record {
                tiled = (at, (omega (arith, at), rw end t));
                ends = rw end refl;
                at_address = rw self refl;
                above = omega (arith, at);
                others = λ a ne.
                    let other : (b.address == a) ≡ false = ground arith in
                    elim (Bool-cases (b.address + block_header_size + size == a)) [
                      | inl e ↦
                          let gone : allocation a bs ≡ none =
                            allocation-below a (start + 40 + b.size) bs t (ground arith) in
                          rw (other, e) (sym gone)
                      | inr e ↦ rw (other, e) refl
                    ];
              };
              unused = rw (self, is_free) refl;
              enough = omega arith;
              cost = rw is_free (omega arith);
            })
        | inr tight ↦
            let self : (b.address == b.address) ≡ true = ground arith in
            rw tight (record {
              change = record {
                tiled = (at, t);
                ends = refl;
                at_address = rw self refl;
                above = omega (arith, at);
                others =
                    λ a ne. let other : (b.address == a) ≡ false = ground arith in rw other refl;
              };
              unused = rw (self, is_free) refl;
              enough = fits;
              cost = rw is_free (omega arith);
            })
      ]

  -- A search that ends early or late.
  abbrev pub FitOutcome : ℕ → List Block → Option Fit → Type 0
  FitOutcome start bs r = (r ≡ none) ⊎ ((f : Fit) × (r ≡ some f) × Taken start bs f)

  Taken-cons :
      (start : ℕ) (b : Block) (bs : List Block) (f : Fit)
      → b.address ≡ start
      → Taken (start + 40 + b.size) bs f
      → Taken start (b ∷ bs) (record f { blocks = b ∷ f.blocks })
  Taken-cons start b bs f at v = record {
    change = Changed-cons b at v.change;
    unused =
        let other : (b.address == f.taken.address) ≡ false = ground (arith, v.change.above) in
        rw other v.unused;
    enough = v.enough;
    cost = omega (arith, v.cost);
  }

  pub first_fit_lem :
      (start : ℕ) (bs : List Block) → Tiled start bs → FitOutcome start bs (first_fit size bs)
  unfolding first_fit
  first_fit_lem start [] t = inl refl
  first_fit_lem start (b ∷ bs) (at, t) = elim (Bool-cases (b.free && leb size b.size)) [
    | inl e ↦ rw e (
        inr (
          take_block size b bs,
          refl,
          take_block-Taken start b bs (at, t) (ground arith) (ground arith),
        ))
    | inr e ↦ elim (first_fit_lem (start + 40 + b.size) bs t) [
      | inl none_fits ↦ rw (e, none_fits) (inl refl)
      | inr (f, found, v) ↦
          rw (e, found)
            (inr (record f { blocks = b ∷ f.blocks }, refl, Taken-cons start b bs f at v))
    ]
  ]
