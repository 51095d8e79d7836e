-- ===== src/Memory/Bytes.antt =====
-- What is stored by `SetUint16` and `SetUint32` is read back, and nothing else changes.
use publisher_subscriber_ser.Base.{ℕ, ◌+◌, ◌%◌, ◌^◌, ◌<◌, ◌≤◌, ◌≡◌, ◌⊎◌, arith}
use publisher_subscriber_ser.Memory.{Bytes, set_uint16, set_uint32, get_uint16, get_uint32}

-- `GetUint16` after `SetUint16` at the same address is the value modulo 2^16.
pub get_uint16-set_uint16 : (b : Bytes) (i v : ℕ) → get_uint16 (set_uint16 b i v) i ≡ v % 2 ^ 16
unfolding get_uint16 set_uint16
get_uint16-set_uint16 b i v = ground arith

-- `GetUint32` after `SetUint32` at the same address is the value modulo 2^32.
pub get_uint32-set_uint32 : (b : Bytes) (i v : ℕ) → get_uint32 (set_uint32 b i v) i ≡ v % 2 ^ 32
unfolding get_uint32 set_uint32
get_uint32-set_uint32 b i v = ground arith

-- `SetUint16` writes the two bytes at its address and no other.
pub set_uint16-frame : (b : Bytes) (i v j : ℕ) → (j < i) ⊎ (i + 2 ≤ j) → set_uint16 b i v j ≡ b j
unfolding set_uint16
set_uint16-frame b i v j h = ground arith

-- `SetUint32` writes the four bytes at its address and no other.
pub set_uint32-frame : (b : Bytes) (i v j : ℕ) → (j < i) ⊎ (i + 4 ≤ j) → set_uint32 b i v j ≡ b j
unfolding set_uint32
set_uint32-frame b i v j h = ground arith
