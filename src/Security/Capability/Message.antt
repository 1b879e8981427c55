-- ===== src/Security/Capability/Message.antt =====
-- `capability_transfer`: a capability's description is written into a message's inline bytes.
use native.Mathlib.Nat.{pow-suc}
use scarlett_os.Base.{
  ℕ, zero, suc, ◌+◌, ◌*◌, ◌/◌, ◌%◌, ◌^◌, ◌≤◌, ◌<◌, ◌≡◌, refl, ◌∙◌, ◌⊎◌, inl, inr, Bool-cases, Bool,
  true, false, Option, none, some, leb, if◌then◌else◌, arith, ◌&&◌,
}
use scarlett_os.Base.Int.{ℤ}
use scarlett_os.Base.Update.{update}
use scarlett_os.Ipc.Message.{Message, inline_capacity}
use scarlett_os.Security.Capability.{
  Capability, System, find_id, current_entries, grants, right_transfer,
}

-- The bytes of a word, the lowest first, as the processor stores them.
unfoldable pub write_bytes : ℕ → ℕ → ℕ → (ℕ → ℕ) → ℕ → ℕ
write_bytes zero at v bytes = bytes
write_bytes (suc n) at v bytes = write_bytes n (at + 1) (v / 256) (update bytes at (v % 256))

-- `ptr[0] = magic; ptr[1] = type; ptr[2] = resource_id; ptr[3] = rights` at index `at`.
unfoldable pub write_descriptor : ℕ → Capability → (ℕ → ℕ) → ℕ → ℕ
unfolding write_bytes
write_descriptor at c bytes = write_bytes 8 (at + 24) c.rights (
    write_bytes 8 (at + 16) c.resource_id
      (write_bytes 8 (at + 8) c.kind (write_bytes 8 at 0xCAFEBABECAFEBABE bytes)))

-- `capability_transfer`; `true` is the return value 0. The size is a `uint32_t`.
unfoldable pub transfer : Option ℤ → Option Message → ℕ → System → Bool × Option Message
transfer current none cap_id s = (false, none)
transfer current (some msg) cap_id s = elim (find_id (current_entries current s) cap_id) [
  | none ↦ (false, some msg)
  | some c ↦
      if grants c.rights right_transfer && leb ((msg.inline_size + 32) % 2 ^ 32) inline_capacity
      then (
        true,
        some (record msg {
          inline_size = (msg.inline_size + 32) % 2 ^ 32;
          inline_data = write_descriptor msg.inline_size c msg.inline_data;
        }),
      )
      else (false, some msg)
]

-- The number that `n` bytes from `at` on stand for.
pub read_bytes : ℕ → ℕ → (ℕ → ℕ) → ℕ
read_bytes zero at bytes = 0
read_bytes (suc n) at bytes = bytes at + 256 * read_bytes n (at + 1) bytes

write_bytes-before :
    (n at v : ℕ) (bytes : ℕ → ℕ) (i : ℕ) → i < at → write_bytes n at v bytes i ≡ bytes i
unfolding write_bytes
write_bytes-before zero at v bytes i h = refl
write_bytes-before (suc n) at v bytes i h =
    ground (arith, write_bytes-before n (at + 1) (v / 256) (update bytes at (v % 256)) i)

write_bytes-after :
    (n at v : ℕ) (bytes : ℕ → ℕ) (i : ℕ) → at + n ≤ i → write_bytes n at v bytes i ≡ bytes i
unfolding write_bytes
write_bytes-after zero at v bytes i h = refl
write_bytes-after (suc n) at v bytes i h =
    ground (arith, write_bytes-after n (at + 1) (v / 256) (update bytes at (v % 256)) i)

read-write_before :
    (m at n to v : ℕ) (bytes : ℕ → ℕ)
    → at + m ≤ to
    → read_bytes m at (write_bytes n to v bytes) ≡ read_bytes m at bytes
unfolding read_bytes
read-write_before zero at n to v bytes h = refl
read-write_before (suc m) at n to v bytes h =
    ground (arith, write_bytes-before n to v bytes at, read-write_before m (at + 1) n to v bytes)

read-write :
    (n at v : ℕ) (bytes : ℕ → ℕ) → v < 256 ^ n → read_bytes n at (write_bytes n at v bytes) ≡ v
unfolding read_bytes write_bytes
read-write zero at v bytes h = omega arith
read-write (suc n) at v bytes h =
    let e : 256 ^ suc n ≡ 256 ^ n * 256 = pow-suc 256 n in
    let low =
      write_bytes-before n (at + 1) (v / 256) (update bytes at (v % 256)) at (omega arith) in
    let high = read-write n (at + 1) (v / 256) (update bytes at (v % 256)) (omega arith) in
    rw (low, high) (ground arith)

-- The receiver reads the three words of the capability behind the mark.
pub record Describes (at : ℕ) (c : Capability) (bytes : ℕ → ℕ) : Type 0 where
  pub mark : read_bytes 8 at bytes ≡ 0xCAFEBABECAFEBABE
  pub kind : read_bytes 8 (at + 8) bytes ≡ c.kind
  pub resource : read_bytes 8 (at + 16) bytes ≡ c.resource_id
  pub rights : read_bytes 8 (at + 24) bytes ≡ c.rights

module _ (at : ℕ) (c : Capability) (bytes : ℕ → ℕ) where
  -- The bytes after the first, the second and the third of the four writes.
  abbrev with_mark : ℕ → ℕ
  with_mark = write_bytes 8 at 0xCAFEBABECAFEBABE bytes

  abbrev with_kind : ℕ → ℕ
  with_kind = write_bytes 8 (at + 8) c.kind with_mark

  abbrev with_resource : ℕ → ℕ
  with_resource = write_bytes 8 (at + 16) c.resource_id with_kind

  write_descriptor-Describes :
      c.kind < 2 ^ 64
      → c.resource_id < 2 ^ 64
      → c.rights < 2 ^ 64
      → Describes at c (write_descriptor at c bytes)
  unfolding write_descriptor
  write_descriptor-Describes k r g = record {
    mark = rw (read-write_before 8 at 8 (at + 24) c.rights _ (omega arith)) (
        rw (read-write_before 8 at 8 (at + 16) c.resource_id _ (omega arith)) (
          rw (read-write_before 8 at 8 (at + 8) c.kind _ (omega arith))
            (read-write 8 at 0xCAFEBABECAFEBABE bytes (omega arith))));
    kind = rw (read-write_before 8 (at + 8) 8 (at + 24) c.rights _ (omega arith)) (
        rw (read-write_before 8 (at + 8) 8 (at + 16) c.resource_id _ (omega arith))
          (read-write 8 (at + 8) c.kind _ k));
    resource =
        rw (read-write_before 8 (at + 16) 8 (at + 24) c.rights _ (omega arith))
          (read-write 8 (at + 16) c.resource_id _ r);
    rights = read-write 8 (at + 24) c.rights _ g;
  }

  write_descriptor_outside :
      (i : ℕ) → (i < at) ⊎ (at + 32 ≤ i) → write_descriptor at c bytes i ≡ bytes i
  unfolding write_descriptor
  write_descriptor_outside i (inl lo) =
      write_bytes-before 8 (at + 24) c.rights with_resource i (omega arith)
      ∙ write_bytes-before 8 (at + 16) c.resource_id with_kind i (omega arith)
      ∙ write_bytes-before 8 (at + 8) c.kind with_mark i (omega arith)
      ∙ write_bytes-before 8 at 0xCAFEBABECAFEBABE bytes i lo
  write_descriptor_outside i (inr hi) =
      write_bytes-after 8 (at + 24) c.rights with_resource i (omega arith)
      ∙ write_bytes-after 8 (at + 16) c.resource_id with_kind i (omega arith)
      ∙ write_bytes-after 8 (at + 8) c.kind with_mark i (omega arith)
      ∙ write_bytes-after 8 at 0xCAFEBABECAFEBABE bytes i (omega arith)

-- The capability may be transferred, and the message now carries it inside its 64 bytes behind
-- what was there, and is otherwise as before.
pub record Transferred (c : Capability) (msg msg' : Message) : Type 0 where
  pub allowed : grants c.rights right_transfer ≡ true
  pub size : msg'.inline_size ≡ msg.inline_size + 32
  pub fits : msg'.inline_size ≤ inline_capacity
  pub carried : Describes msg.inline_size c msg'.inline_data
  pub untouched :
      (i : ℕ)
      → (i < msg.inline_size) ⊎ (msg'.inline_size ≤ i)
      → msg'.inline_data i ≡ msg.inline_data i

module _ (s : System) (current : Option ℤ) (msg : Message) (cap_id : ℕ) {c : Capability}
    (held : find_id (current_entries current s) cap_id ≡ some c) where
  -- For a message whose size is at most 64, a successful `capability_transfer` of a capability that
  -- the process has means that it has the transfer right, and that the message carries its type,
  -- resource and rights, readable again, in 32 bytes that end within the 64.
  pub transfer_lem :
      {msg' : Message}
      → msg.inline_size ≤ inline_capacity
      → c.kind < 2 ^ 64
      → c.resource_id < 2 ^ 64
      → c.rights < 2 ^ 64
      → transfer current (some msg) cap_id s ≡ (true, some msg')
      → Transferred c msg msg'
  unfolding transfer
  transfer_lem {msg'} small k r g h =
      elim (Bool-cases
        (grants c.rights right_transfer && leb ((msg.inline_size + 32) % 2 ^ 32) inline_capacity)) [
          | inr refused ↦ absurd (ground arith)
          | inl accepted ↦
              let e : record msg {
                inline_size = (msg.inline_size + 32) % 2 ^ 32;
                inline_data = write_descriptor msg.inline_size c msg.inline_data;
              }
                  ≡ msg' =
                ground arith in
              rw (← e) (record {
                allowed = ground arith;
                size = omega arith;
                fits = ground arith;
                carried = write_descriptor-Describes msg.inline_size c msg.inline_data k r g;
                untouched = λ i out.
                    write_descriptor_outside msg.inline_size c msg.inline_data i (omega arith);
              })
        ]

  -- For a size from 2 ^ 32 - 32 on the test of the space passes by wrap-around, and the words are
  -- written from that index on, past the 64 bytes of the message.
  pub transfer_past_end :
      2 ^ 32 ≤ msg.inline_size + 32
      → msg.inline_size < 2 ^ 32
      → grants c.rights right_transfer ≡ true
      → c.kind < 2 ^ 64
      → c.resource_id < 2 ^ 64
      → c.rights < 2 ^ 64
      → (msg' : Message) × (transfer current (some msg) cap_id s ≡ (true, some msg'))
        × (inline_capacity ≤ msg.inline_size)
        × Describes msg.inline_size c msg'.inline_data
  unfolding transfer
  transfer_past_end big below allowed k r g =
      let passes : leb ((msg.inline_size + 32) % 2 ^ 32) inline_capacity ≡ true = ground arith in
      (
        record msg {
          inline_size = (msg.inline_size + 32) % 2 ^ 32;
          inline_data = write_descriptor msg.inline_size c msg.inline_data;
        },
        rw (held, transfer) (rw (allowed, passes)),
        omega arith,
        write_descriptor-Describes msg.inline_size c msg.inline_data k r g,
      )
