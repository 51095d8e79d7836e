-- ===== src/KernelApi/Addresses.antt =====
-- What the header of a message says when its sender has filled it.
use publisher_subscriber_ser.Base.{ℕ, ◌%◌, ◌^◌, ◌≡◌, inl, refl, ap, ◌∙◌, arith}
use publisher_subscriber_ser.Memory.{Ptr, Mem, get_uint32, store_byte, store_uint32}
use publisher_subscriber_ser.Messages.{
  get_msg_from_automate, get_msg_from_group, get_msg_object_number_from, get_msg_to_automate,
  get_msg_to_group, get_msg_object_number_to, get_msg_call_id,
}
use publisher_subscriber_ser.Messages.Fields.{
  byte-store_byte, byte-store_byte_ne, byte-store_uint32_ne, uint32-store_uint32,
  uint32-store_byte_ne, uint32-store_uint32_ne,
}
use publisher_subscriber_ser.KernelApi.{Party, set_message_from_data, set_message_to_data}

-- The message says whom it is from and for, in the sizes of its fields.
pub record IsAddressed (m : Mem) (msg : Ptr) (from to : Party) (call_id : ℕ) : Type 0 where
  pub from_automate : get_msg_from_automate m msg ≡ from.automate % 256
  pub from_group : get_msg_from_group m msg ≡ from.group % 256
  pub from_object : get_msg_object_number_from m msg ≡ from.object_id % 2 ^ 32
  pub to_automate : get_msg_to_automate m msg ≡ to.automate % 256
  pub to_group : get_msg_to_group m msg ≡ to.group % 256
  pub to_object : get_msg_object_number_to m msg ≡ to.object_id % 2 ^ 32
  pub call : get_msg_call_id m msg ≡ call_id % 2 ^ 32

module _ (m : Mem) (p : Ptr) (from to : Party) (call_id : ℕ) where
  abbrev filled : Mem
  filled = set_message_to_data (set_message_from_data m p from) p to call_id

  pub filled-IsAddressed :
      IsAddressed
        (set_message_to_data (set_message_from_data m p from) p to call_id)
        p
        from
        to
        call_id
  unfolding set_message_from_data set_message_to_data
  filled-IsAddressed =
      let m1 = store_byte m p 0 from.automate in
      let m2 = store_byte m1 p 1 from.group in
      let m3 = store_uint32 m2 p 6 from.object_id in
      let m4 = store_byte m3 p 2 to.automate in
      let m5 = store_byte m4 p 3 to.group in
      let m6 = store_uint32 m5 p 10 to.object_id in
      record {
        from_automate =
            byte-store_uint32_ne m6 p 14 call_id 0 (inl (omega arith))
            ∙ byte-store_uint32_ne m5 p 10 to.object_id 0 (inl (omega arith))
            ∙ byte-store_byte_ne m4 p 3 to.group 0 (omega arith)
            ∙ byte-store_byte_ne m3 p 2 to.automate 0 (omega arith)
            ∙ byte-store_uint32_ne m2 p 6 from.object_id 0 (inl (omega arith))
            ∙ byte-store_byte_ne m1 p 1 from.group 0 (omega arith)
            ∙ byte-store_byte m p 0 from.automate;
        from_group =
            byte-store_uint32_ne m6 p 14 call_id 1 (inl (omega arith))
            ∙ byte-store_uint32_ne m5 p 10 to.object_id 1 (inl (omega arith))
            ∙ byte-store_byte_ne m4 p 3 to.group 1 (omega arith)
            ∙ byte-store_byte_ne m3 p 2 to.automate 1 (omega arith)
            ∙ byte-store_uint32_ne m2 p 6 from.object_id 1 (inl (omega arith))
            ∙ byte-store_byte m1 p 1 from.group;
        from_object =
            uint32-store_uint32_ne m6 p 14 call_id 6 (inl (omega arith))
            ∙ uint32-store_uint32_ne m5 p 10 to.object_id 6 (inl (omega arith))
            ∙ uint32-store_byte_ne m4 p 3 to.group 6 (inl (omega arith))
            ∙ uint32-store_byte_ne m3 p 2 to.automate 6 (inl (omega arith))
            ∙ uint32-store_uint32 m2 p 6 from.object_id;
        to_automate =
            byte-store_uint32_ne m6 p 14 call_id 2 (inl (omega arith))
            ∙ byte-store_uint32_ne m5 p 10 to.object_id 2 (inl (omega arith))
            ∙ byte-store_byte_ne m4 p 3 to.group 2 (omega arith)
            ∙ byte-store_byte m3 p 2 to.automate;
        to_group =
            byte-store_uint32_ne m6 p 14 call_id 3 (inl (omega arith))
            ∙ byte-store_uint32_ne m5 p 10 to.object_id 3 (inl (omega arith))
            ∙ byte-store_byte m4 p 3 to.group;
        to_object =
            uint32-store_uint32_ne m6 p 14 call_id 10 (inl (omega arith))
            ∙ uint32-store_uint32 m5 p 10 to.object_id;
        call = uint32-store_uint32 m6 p 14 call_id;
      }

  pub filled-next :
      (set_message_to_data (set_message_from_data m p from) p to call_id).next ≡ m.next
  unfolding set_message_from_data set_message_to_data store_byte store_uint32
  filled-next = refl

-- Only the bytes of the message matter.
pub bytes-IsAddressed :
    (m m' : Mem) (p : Ptr) (from to : Party) (call_id : ℕ)
    → m'.bytes ≡ m.bytes
    → IsAddressed m p from to call_id
    → IsAddressed m' p from to call_id
unfolding get_uint32
bytes-IsAddressed m m' p from to call_id e h = record {
  from_automate = ap (λ b. b p 0) e ∙ h.from_automate;
  from_group = ap (λ b. b p 1) e ∙ h.from_group;
  from_object = ap (λ b. get_uint32 (b p) 6) e ∙ h.from_object;
  to_automate = ap (λ b. b p 2) e ∙ h.to_automate;
  to_group = ap (λ b. b p 3) e ∙ h.to_group;
  to_object = ap (λ b. get_uint32 (b p) 10) e ∙ h.to_object;
  call = ap (λ b. get_uint32 (b p) 14) e ∙ h.call;
}
