-- ===== src/Security/Capability/Table.antt =====
-- One process's table: ids are distinct, so that looking one up, adding and revoking are the
-- operations of a finite map.
use scarlett_os.Base.{
  ℕ, ◌+◌, ◌≤◌, ◌<◌, ◌≡◌, ◌≢◌, refl, inl, inr, Bool-cases, Option-cases, none, some, List, [], ◌∷◌,
  ◌++◌, ◌==◌, if◌then◌else◌, arith, length, ◌&&◌,
}
use scarlett_os.Security.Capability.{
  Capability, find_id, remove_id, last_entry, but_last, pull_last, find_port, type_ipc_port,
}

abbrev pub IsDistinct : List Capability → Type 0
IsDistinct [] = Unit
IsDistinct (c ∷ cs) = (find_id cs c.cap_id ≡ none) × IsDistinct cs

-- Every id lies between 1 and `next`.
abbrev pub InRange : ℕ → List Capability → Type 0
InRange next [] = Unit
InRange next (c ∷ cs) = (1 ≤ c.cap_id) × (c.cap_id < next) × InRange next cs

pub find_id-append :
    (cs : List Capability) (c : Capability) (j : ℕ)
    → find_id cs c.cap_id ≡ none
    → find_id (cs ++ (c ∷ [])) j ≡ (if c.cap_id == j then some c else find_id cs j)
unfolding find_id
find_id-append [] c j h = refl
find_id-append (d ∷ ds) c j h = ground (arith, find_id-append ds c j)

pub find_id_of_InRange :
    (next : ℕ) (cs : List Capability) → InRange next cs → find_id cs next ≡ none
unfolding find_id
find_id_of_InRange next [] h = refl
find_id_of_InRange next (c ∷ cs) h = ground (arith, find_id_of_InRange next cs h.2)

pub InRange-mono : (cs : List Capability) (n m : ℕ) → n ≤ m → InRange n cs → InRange m cs
InRange-mono [] n m le h = tt
InRange-mono (c ∷ cs) n m le h = (h.0, omega arith, InRange-mono cs n m le h.2)

pub InRange-append :
    (next : ℕ) (cs : List Capability) (c : Capability)
    → InRange next cs
    → 1 ≤ c.cap_id
    → c.cap_id < next
    → InRange next (cs ++ (c ∷ []))
InRange-append next [] c h lo hi = (lo, hi, tt)
InRange-append next (d ∷ ds) c h lo hi = (h.0, h.1, InRange-append next ds c h.2 lo hi)

pub IsDistinct-append :
    (cs : List Capability) (c : Capability)
    → find_id cs c.cap_id ≡ none
    → IsDistinct cs
    → IsDistinct (cs ++ (c ∷ []))
unfolding find_id
IsDistinct-append [] c h d = (refl, tt)
IsDistinct-append (e ∷ es) c h d =
    (ground (arith, find_id-append es c e.cap_id), IsDistinct-append es c (ground arith) d.1)

find_id-last :
    (c : Capability) (cs : List Capability) (j : ℕ)
    → IsDistinct (c ∷ cs)
    → find_id (last_entry c cs ∷ but_last c cs) j ≡ find_id (c ∷ cs) j
unfolding find_id last_entry but_last
find_id-last c [] j d = refl
find_id-last c (e ∷ es) j d =
    ground (arith, find_id-last e es j d.1, find_id-last e es c.cap_id d.1)

-- Moving the last entry to the front loses no id.
pub find_id-pull_last :
    (cs : List Capability) (j : ℕ) → IsDistinct cs → find_id (pull_last cs) j ≡ find_id cs j
unfolding pull_last
find_id-pull_last [] j d = refl
find_id-pull_last (c ∷ cs) j d = find_id-last c cs j d

IsDistinct-but_last :
    (c : Capability) (cs : List Capability)
    → IsDistinct (c ∷ cs)
    → IsDistinct (last_entry c cs ∷ but_last c cs)
unfolding find_id last_entry but_last
IsDistinct-but_last c [] d = d
IsDistinct-but_last c (e ∷ es) d =
    let rest = IsDistinct-but_last e es d.1 in
    (
      ground (arith, find_id-last e es c.cap_id d.1, rest.0),
      (ground (arith, find_id-last e es c.cap_id d.1), rest.1),
    )

pub IsDistinct-pull_last : (cs : List Capability) → IsDistinct cs → IsDistinct (pull_last cs)
unfolding pull_last
IsDistinct-pull_last [] d = d
IsDistinct-pull_last (c ∷ cs) d = IsDistinct-but_last c cs d

InRange-but_last :
    (next : ℕ) (c : Capability) (cs : List Capability)
    → InRange next (c ∷ cs)
    → InRange next (last_entry c cs ∷ but_last c cs)
unfolding last_entry but_last
InRange-but_last next c [] h = h
InRange-but_last next c (e ∷ es) h =
    let rest = InRange-but_last next e es h.2 in (rest.0, rest.1, (h.0, h.1, rest.2))

InRange-pull_last :
    (next : ℕ) (cs : List Capability) → InRange next cs → InRange next (pull_last cs)
unfolding pull_last
InRange-pull_last next [] h = h
InRange-pull_last next (c ∷ cs) h = InRange-but_last next c cs h

length-but_last : (c : Capability) (cs : List Capability) → length (but_last c cs) ≡ length cs
unfolding but_last
length-but_last c [] = refl
length-but_last c (d ∷ ds) = omega (arith, length-but_last d ds)

length-pull_last : (cs : List Capability) → length (pull_last cs) ≡ length cs
unfolding pull_last
length-pull_last [] = refl
length-pull_last (c ∷ cs) = omega (arith, length-but_last c cs)

module _ (cap_id : ℕ) where
  -- What the loop of `capability_revoke` leaves.
  pub record Removed (cs cs' : List Capability) (next : ℕ) : Type 0 where
    pub lookup : (j : ℕ) → find_id cs' j ≡ (if cap_id == j then none else find_id cs j)
    pub distinct : IsDistinct cs'
    pub in_range : InRange next cs'
    pub shorter : length cs' + 1 ≡ length cs

  pub remove_id-Removed :
      (next : ℕ) (cs : List Capability) {cs' : List Capability}
      → remove_id cs cap_id ≡ some cs'
      → IsDistinct cs
      → InRange next cs
      → Removed cs cs' next
  unfolding remove_id find_id
  remove_id-Removed next [] h d r = cc
  remove_id-Removed next (c ∷ cs) {cs'} h d r = elim (Bool-cases (c.cap_id == cap_id)) [
    | inl hit ↦
        let e : pull_last cs ≡ cs' = ground arith in
        let same : c.cap_id ≡ cap_id = ground arith in
        rw (← e) (record {
          lookup = λ j. ground (arith, find_id-pull_last cs j d.1, find_id-pull_last cs cap_id d.1);
          distinct = IsDistinct-pull_last cs d.1;
          in_range = InRange-pull_last next cs r.2;
          shorter = omega (arith, length-pull_last cs);
        })
    | inr miss ↦ elim (Option-cases (remove_id cs cap_id)) [
      | inl absent ↦ absurd (ground arith)
      | inr (ds, found) ↦
          let e : (c ∷ ds) ≡ cs' = ground arith in
          let rest = remove_id-Removed next cs {cs' = ds} found d.1 r.2 in
          rw (← e) (record {
            lookup = λ j. ground (arith, rest.lookup j);
            distinct = (ground (arith, rest.lookup c.cap_id, d.0), rest.distinct);
            in_range = (r.0, r.1, rest.in_range);
            shorter = omega (arith, rest.shorter);
          })
    ]
  ]

  pub find_id_of_not_removed :
      (cs : List Capability) → remove_id cs cap_id ≡ none → find_id cs cap_id ≡ none
  unfolding remove_id find_id
  find_id_of_not_removed [] h = refl
  find_id_of_not_removed (c ∷ cs) h = ground (arith, find_id_of_not_removed cs)

-- A port's capability is one of the table, found again by its id.
pub find_port_sound :
    (cs : List Capability) (port : ℕ)
    → IsDistinct cs
    → find_port cs port ≢ 0
    → (c : Capability) × (find_id cs (find_port cs port) ≡ some c)
      × (c.kind ≡ type_ipc_port)
      × (c.resource_id ≡ port)
unfolding find_port find_id
find_port_sound [] port d h = absurd (h refl)
find_port_sound (c ∷ cs) port d h =
    elim (Bool-cases ((c.kind == type_ipc_port) && (c.resource_id == port))) [
      | inl hit ↦ (c, ground arith, ground arith, ground arith)
      | inr miss ↦
          let (e, found, kind, resource) = find_port_sound cs port d.1 (ground arith) in
          (e, ground arith, kind, resource)
    ]
