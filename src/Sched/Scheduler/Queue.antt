-- ===== src/Sched/Scheduler/Queue.antt =====
-- The linked lists of kernel/sched/scheduler.c.
use scarlett_os.Base.{
  ℕ, zero, suc, ◌<◌, ◌≡◌, ◌≢◌, refl, sym, ap, ◌⊎◌, inl, inr, false, some, List, [], ◌∷◌, ◌++◌,
  length, ◌==◌, arith,
}
use scarlett_os.Base.Update.{update}
use scarlett_os.Sched.Scheduler.{last_of}

-- From `p` on the list holds these threads.
abbrev pub Holds : (ℕ → ℕ) → ℕ → List ℕ → Type 0
Holds next p [] = p ≡ 0
Holds next p (t ∷ ts) = (p ≡ t) × (t ≢ 0) × Holds next (next t) ts

abbrev pub NotIn : ℕ → List ℕ → Type 0
NotIn t [] = Unit
NotIn t (u ∷ us) = (t ≢ u) × NotIn t us

abbrev pub Distinct : List ℕ → Type 0
Distinct [] = Unit
Distinct (t ∷ ts) = NotIn t ts × Distinct ts

-- A write to the link of a thread that is not in a list does not change the list.
pub Holds-update :
    (next : ℕ → ℕ) (t v p : ℕ) (ts : List ℕ)
    → NotIn t ts
    → Holds next p ts
    → Holds (update next t v) p ts
Holds-update next t v p [] h k = k
Holds-update next t v p (u ∷ us) (h, hs) (e, n, k) =
    let other : (t == u) ≡ false = ground arith in
    (e, n, rw other (Holds-update next t v (next u) us hs k))

-- A list with a last thread is not empty.
pub Holds-nonempty :
    (next : ℕ → ℕ) (p last : ℕ) (ts : List ℕ) → Holds next p (ts ++ last ∷ []) → p ≢ 0
Holds-nonempty next p last [] (e, n, z) = rw e n
Holds-nonempty next p last (t ∷ ts) (e, n, h) = rw e n

-- The walk to the end of a list finds its last thread, with fuel for its length.
pub last_of_lem :
    (fuel : ℕ) (next : ℕ → ℕ) (p last : ℕ) (ts : List ℕ)
    → Holds next p (ts ++ last ∷ [])
    → length ts < fuel
    → last_of fuel next p ≡ some last
unfolding last_of
last_of_lem zero next p last ts h k = absurd (omega arith)
last_of_lem (suc fuel) next p last [] (e, n, z) k = rw (last_of, e, z) refl
last_of_lem (suc fuel) next p last (t ∷ ts) (e, n, h) k =
    let more : (next t == 0) ≡ false = ground (arith, Holds-nonempty next (next t) last ts h) in
    rw (last_of, e, more) (last_of_lem fuel next (next t) last ts h (omega arith))

-- A thread is put behind the last: only its link and the last one's are written.
pub Holds-append :
    (next next' : ℕ → ℕ) (p last t : ℕ) (ts : List ℕ)
    → next' last ≡ t
    → next' t ≡ 0
    → ((u : ℕ) → u ≢ last → u ≢ t → next' u ≡ next u)
    → NotIn last ts
    → NotIn t ts
    → t ≢ 0
    → Holds next p (ts ++ last ∷ [])
    → Holds next' p ((ts ++ last ∷ []) ++ t ∷ [])
Holds-append next next' p last t [] to_t to_0 same h k nz (e, n, z) = (e, n, (to_t, nz, to_0))
Holds-append next next' p last t (x ∷ xs) to_t to_0 same (h, hs) (k, ks) nz (e, n, z) =
    let kept : next' x ≡ next x = same x (λ q. h (sym q)) (λ q. k (sym q)) in
    (e, n, rw kept (Holds-append next next' (next x) last t xs to_t to_0 same hs ks nz z))

-- A thread that is in a list is made its last: what stood behind it is in the list no longer.
pub Holds-cut :
    (next next' : ℕ → ℕ) (p last t : ℕ) (ts rest : List ℕ)
    → next' t ≡ 0
    → ((u : ℕ) → u ≢ last → u ≢ t → next' u ≡ next u)
    → NotIn last ts
    → NotIn t ts
    → Holds next p (ts ++ t ∷ rest)
    → Holds next' p (ts ++ t ∷ [])
Holds-cut next next' p last t [] rest to_0 same h k (e, n, z) = (e, n, to_0)
Holds-cut next next' p last t (x ∷ xs) rest to_0 same (h, hs) (k, ks) (e, n, z) =
    let kept : next' x ≡ next x = same x (λ q. h (sym q)) (λ q. k (sym q)) in
    (e, n, rw kept (Holds-cut next next' (next x) last t xs rest to_0 same hs ks z))

-- The last thread of a list is linked to another list.
pub Holds-join :
    (next next' : ℕ → ℕ) (p t b : ℕ) (ts bs : List ℕ)
    → next' t ≡ b
    → ((u : ℕ) → u ≢ t → next' u ≡ next u)
    → NotIn t ts
    → Holds next' b bs
    → Holds next p (ts ++ t ∷ [])
    → Holds next' p (ts ++ t ∷ bs)
Holds-join next next' p t b [] bs to_b same n k (e, nz, z) = (e, nz, rw to_b k)
Holds-join next next' p t b (x ∷ xs) bs to_b same (n, ns) k (e, nz, z) =
    let kept : next' x ≡ next x = same x (λ q. n (sym q)) in
    (e, nz, rw kept (Holds-join next next' (next x) t b xs bs to_b same ns k z))

-- A list is empty or has a last thread.
pub last_cases : (ts : List ℕ) → (ts ≡ []) ⊎ ((us : List ℕ) × (l : ℕ) × (ts ≡ us ++ l ∷ []))
last_cases [] = inl refl
last_cases (t ∷ ts) = elim (last_cases ts) [
  | inl e ↦ inr ([], t, ap (λ (l : List ℕ). t ∷ l) e)
  | inr (us, l, e) ↦ inr (t ∷ us, l, ap (λ (l : List ℕ). t ∷ l) e)
]

pub NotIn-append : (t l : ℕ) (ts : List ℕ) → NotIn t (ts ++ l ∷ []) → NotIn t ts × (t ≢ l)
NotIn-append t l [] (h, u) = (tt, h)
NotIn-append t l (x ∷ xs) (h, hs) = let (rest, other) = NotIn-append t l xs hs in ((h, rest), other)

pub Distinct-last : (l : ℕ) (ts : List ℕ) → Distinct (ts ++ l ∷ []) → NotIn l ts
Distinct-last l [] d = tt
Distinct-last l (x ∷ xs) (h, d) =
    let (rest, other) = NotIn-append x l xs h in (λ q. other (sym q), Distinct-last l xs d)

-- No thread of the second list is in the first.
abbrev pub Disjoint : List ℕ → List ℕ → Type 0
Disjoint us [] = Unit
Disjoint us (t ∷ ts) = NotIn t us × Disjoint us ts

pub Disjoint-last : (us : List ℕ) (l : ℕ) (ts : List ℕ) → Disjoint us (ts ++ l ∷ []) → NotIn l us
Disjoint-last us l [] (h, u) = h
Disjoint-last us l (x ∷ xs) (h, hs) = Disjoint-last us l xs hs

pub Disjoint-parts :
    (us : List ℕ) (l : ℕ) (ts : List ℕ) → Disjoint us (ts ++ l ∷ []) → Disjoint us ts × NotIn l us
Disjoint-parts us l [] (h, u) = (tt, h)
Disjoint-parts us l (x ∷ xs) (h, hs) =
    let (rest, last) = Disjoint-parts us l xs hs in ((h, rest), last)
