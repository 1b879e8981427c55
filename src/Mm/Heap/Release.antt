-- ===== src/Mm/Heap/Release.antt =====
-- The block that `kfree` of kernel/mm/heap.c makes free.
use scarlett_os.Base.{
  ℕ, ◌+◌, ◌≡◌, ◌⊎◌, inl, inr, refl, true, false, Option, none, some, List, [], ◌∷◌, arith, ◌==◌,
  Bool-cases,
}
use scarlett_os.Mm.Heap.{Block, Fit, release_block}
use scarlett_os.Mm.Heap.Blocks.{allocation, charged, Tiled, Changed, Changed-cons}

-- Freeing finds the block in use at an address and makes it free, or there is none.
pub record Released (start address : ℕ) (bs : List Block) (f : Fit) : Type 0 where
  pub change : Changed start address none bs f.blocks
  pub was : allocation address bs ≡ some f.taken.size
  pub cost : charged f.blocks + (f.taken.size + 40) ≡ charged bs

abbrev pub ReleaseOutcome : ℕ → ℕ → List Block → Option Fit → Type 0
ReleaseOutcome start address bs r =
    ((r ≡ none) × (allocation address bs ≡ none))
    ⊎ ((f : Fit) × (r ≡ some f) × Released start address bs f)

Released-here :
    (start : ℕ) (b : Block) (bs : List Block)
    → Tiled start (b ∷ bs)
    → b.free ≡ false
    → Released start b.address
        (b ∷ bs)
        (record { taken = b; blocks = record b { free = true } ∷ bs })
Released-here start b bs (at, t) in_use =
    let self : (b.address == b.address) ≡ true = ground arith in
    record {
      change = record {
        tiled = (at, t);
        ends = refl;
        at_address = rw self refl;
        above = omega (arith, at);
        others = λ a ne. let other : (b.address == a) ≡ false = ground arith in rw other refl;
      };
      was = rw (self, in_use) refl;
      cost = rw in_use (omega arith);
    }

release_here :
    (address : ℕ) (b : Block) (bs : List Block)
    → (b.address == address) ≡ true
    → b.free ≡ false
    → release_block address (b ∷ bs)
      ≡ some (record { taken = b; blocks = record b { free = true } ∷ bs })
unfolding release_block
release_here address b bs e in_use = ground arith

pub release_block_lem :
    (address start : ℕ) (bs : List Block)
    → Tiled start bs
    → ReleaseOutcome start address bs (release_block address bs)
unfolding release_block
release_block_lem address start [] t = inl (refl, refl)
release_block_lem address start (b ∷ bs) (at, t) = elim (Bool-cases (b.address == address)) [
  | inl e ↦ elim (Bool-cases b.free) [
    | inl is_free ↦ rw (e, is_free) (inl (refl, refl))
    | inr in_use ↦
        let same : b.address ≡ address = ground arith in
        inr (
          record { taken = b; blocks = record b { free = true } ∷ bs },
          release_here address b bs e in_use,
          rw (← same) (Released-here start b bs (at, t) in_use),
        )
  ]
  | inr e ↦ elim (release_block_lem address (start + 40 + b.size) bs t) [
    | inl (missing, gone) ↦ rw (e, missing) (inl (refl, gone))
    | inr (f, found, v) ↦
        let u : Released start address (b ∷ bs) (record f { blocks = b ∷ f.blocks }) = record {
          change = Changed-cons b at v.change;
          was = rw e v.was;
          cost = omega (arith, v.cost);
        } in
        rw (release_block, e, found) (inr (record f { blocks = b ∷ f.blocks }, refl, u))
  ]
]
