-- ===== src/Memory.antt =====
-- The kernel's buffers (`Kernel/kernelTypes.h`, `Kernel/kernelConsts.h`) and the byte accesses of
-- `Kernel/KernelFunctions.cpp`. A pointer is a number, 0 is NULL. A buffer is addressed by the
-- pointer that the kernel hands out, behind its header: the class code (BUFF_CODE), the link
-- (BUFF_NEXT), and then the message bytes at offsets from 0 on.
pub mod Bytes
use publisher_subscriber_ser.Base.{ℕ, ◌+◌, ◌*◌, ◌/◌, ◌%◌, ◌^◌, ◌==◌, if◌then◌else◌}

abbrev pub Ptr : Type 0
Ptr = ℕ

abbrev pub null : Ptr
null = 0

-- Bytes by their offset.
abbrev pub Bytes : Type 0
Bytes = ℕ → ℕ

-- The buffers that the kernel has: the class code, the link and the message bytes of each.
pub record Mem : Type 0 where
  pub code : Ptr → ℕ
  pub next : Ptr → Ptr
  pub bytes : Ptr → Bytes

-- A function changed at one argument.
unfoldable pub update {ℓ} : {A : Type ℓ} → (ℕ → A) → ℕ → A → ℕ → A
update f p v a = if a == p then v else f a

-- `addr[offset] = value`, a `uint8` store.
unfoldable pub set_byte : Bytes → ℕ → ℕ → Bytes
set_byte b i v j = if j == i then v % 256 else b j

unfoldable pub set_uint16 : Bytes → ℕ → ℕ → Bytes
unfolding set_byte
set_uint16 b i v = set_byte (set_byte b i v) (i + 1) (v / 256)

unfoldable pub set_uint32 : Bytes → ℕ → ℕ → Bytes
unfolding set_byte
set_uint32 b i v =
    set_byte (set_byte (set_byte (set_byte b i v) (i + 1) (v / 256)) (i + 2) (v / 2 ^ 16)) (i + 3)
      (v / 2 ^ 24)

-- `tmp <<= 8; tmp |= byte` in a word of `w` bits: the byte is below 256, so the two do not overlap.
unfoldable pub shift_in : ℕ → ℕ → ℕ → ℕ
shift_in w tmp byte = (tmp * 256) % 2 ^ w + byte

unfoldable pub get_uint16 : Bytes → ℕ → ℕ
unfolding shift_in
get_uint16 b i = shift_in 16 (b (i + 1)) (b i)

unfoldable pub get_uint32 : Bytes → ℕ → ℕ
unfolding shift_in
get_uint32 b i = shift_in 32 (shift_in 32 (shift_in 32 (b (i + 3)) (b (i + 2))) (b (i + 1))) (b i)

-- The accesses of a message's fields: bytes of the buffer at `p`.
unfoldable pub store_byte : Mem → Ptr → ℕ → ℕ → Mem
unfolding update set_byte
store_byte m p i v = record m { bytes = update m.bytes p (set_byte (m.bytes p) i v) }

unfoldable pub store_uint16 : Mem → Ptr → ℕ → ℕ → Mem
unfolding update set_uint16
store_uint16 m p i v = record m { bytes = update m.bytes p (set_uint16 (m.bytes p) i v) }

unfoldable pub store_uint32 : Mem → Ptr → ℕ → ℕ → Mem
unfolding update set_uint32
store_uint32 m p i v = record m { bytes = update m.bytes p (set_uint32 (m.bytes p) i v) }

abbrev pub load_uint16 : Mem → Ptr → ℕ → ℕ
load_uint16 m p i = get_uint16 (m.bytes p) i

abbrev pub load_uint32 : Mem → Ptr → ℕ → ℕ
load_uint32 m p i = get_uint32 (m.bytes p) i
