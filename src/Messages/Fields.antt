-- ===== src/Messages/Fields.antt =====
-- A field that is written is read back, and the others stay.
use publisher_subscriber_ser.Base.{ℕ, ◌+◌, ◌%◌, ◌^◌, ◌<◌, ◌≤◌, ◌≡◌, ◌≢◌, ◌⊎◌, inl, inr, refl, arith}
use publisher_subscriber_ser.Memory.{
  Ptr, Mem, Bytes, update, set_byte, get_uint32, store_byte, store_uint32, load_uint32,
}
use publisher_subscriber_ser.Memory.Bytes.{get_uint32-set_uint32, set_uint32-frame}

pub byte-store_byte : (m : Mem) (p : Ptr) (i v : ℕ) → (store_byte m p i v).bytes p i ≡ v % 256
unfolding store_byte update set_byte
byte-store_byte m p i v = ground arith

pub byte-store_byte_ne :
    (m : Mem) (p : Ptr) (i v j : ℕ) → j ≢ i → (store_byte m p i v).bytes p j ≡ m.bytes p j
unfolding store_byte update set_byte
byte-store_byte_ne m p i v j ne = ground arith

pub byte-store_uint32_ne :
    (m : Mem) (p : Ptr) (i v j : ℕ)
    → (j < i) ⊎ (i + 4 ≤ j)
    → (store_uint32 m p i v).bytes p j ≡ m.bytes p j
unfolding store_uint32 update
byte-store_uint32_ne m p i v j h = let kept = set_uint32-frame (m.bytes p) i v j h in ground arith

pub uint32-store_uint32 :
    (m : Mem) (p : Ptr) (i v : ℕ) → load_uint32 (store_uint32 m p i v) p i ≡ v % 2 ^ 32
unfolding store_uint32 update
uint32-store_uint32 m p i v = let back = get_uint32-set_uint32 (m.bytes p) i v in ground arith

-- Four bytes that stay are read as they were.
uint32-same :
    (b c : Bytes) (i : ℕ)
    → ((j : ℕ) → i ≤ j → j < i + 4 → c j ≡ b j)
    → get_uint32 c i ≡ get_uint32 b i
unfolding get_uint32
uint32-same b c i same =
    rw
      (
        same i (omega arith) (omega arith),
        same (i + 1) (omega arith) (omega arith),
        same (i + 2) (omega arith) (omega arith),
        same (i + 3) (omega arith) (omega arith),
      )
      refl

pub uint32-store_byte_ne :
    (m : Mem) (p : Ptr) (i v j : ℕ)
    → (i < j) ⊎ (j + 4 ≤ i)
    → load_uint32 (store_byte m p i v) p j ≡ load_uint32 m p j
uint32-store_byte_ne m p i v j h =
    uint32-same (m.bytes p) ((store_byte m p i v).bytes p) j
      (λ k low high. byte-store_byte_ne m p i v k (omega (arith, h, low, high)))

pub uint32-store_uint32_ne :
    (m : Mem) (p : Ptr) (i v j : ℕ)
    → (j + 4 ≤ i) ⊎ (i + 4 ≤ j)
    → load_uint32 (store_uint32 m p i v) p j ≡ load_uint32 m p j
uint32-store_uint32_ne m p i v j (inl h) =
    uint32-same (m.bytes p) ((store_uint32 m p i v).bytes p) j
      (λ k low high. byte-store_uint32_ne m p i v k (inl (omega (arith, h, low, high))))
uint32-store_uint32_ne m p i v j (inr h) =
    uint32-same (m.bytes p) ((store_uint32 m p i v).bytes p) j
      (λ k low high. byte-store_uint32_ne m p i v k (inr (omega (arith, h, low, high))))
