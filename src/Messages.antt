-- ===== src/Messages.antt =====
-- The fields of a message's header: the inline accessors of MessageHandler (`Kernel/messages.h`), by
-- the offsets of `Kernel/kernelConsts.h`. The getters read the current message and the setters write
-- the new one; here the message is an argument.
pub mod Fields
use publisher_subscriber_ser.Base.{ℕ}
use publisher_subscriber_ser.Memory.{
  Ptr, Mem, store_byte, store_uint16, store_uint32, load_uint16, load_uint32,
}

abbrev pub get_msg_from_automate : Mem → Ptr → ℕ
get_msg_from_automate m msg = m.bytes msg 0

abbrev pub get_msg_from_group : Mem → Ptr → ℕ
get_msg_from_group m msg = m.bytes msg 1

abbrev pub get_msg_to_automate : Mem → Ptr → ℕ
get_msg_to_automate m msg = m.bytes msg 2

abbrev pub get_msg_to_group : Mem → Ptr → ℕ
get_msg_to_group m msg = m.bytes msg 3

abbrev pub get_msg_code : Mem → Ptr → ℕ
get_msg_code m msg = load_uint16 m msg 4

abbrev pub get_msg_object_number_from : Mem → Ptr → ℕ
get_msg_object_number_from m msg = load_uint32 m msg 6

abbrev pub get_msg_object_number_to : Mem → Ptr → ℕ
get_msg_object_number_to m msg = load_uint32 m msg 10

abbrev pub get_msg_call_id : Mem → Ptr → ℕ
get_msg_call_id m msg = load_uint32 m msg 14

abbrev pub get_msg_info_coding : Mem → Ptr → ℕ
get_msg_info_coding m msg = m.bytes msg 18

abbrev pub get_msg_info_length : Mem → Ptr → ℕ
get_msg_info_length m msg = load_uint16 m msg 19

abbrev pub set_msg_from_automate : Mem → Ptr → ℕ → Mem
set_msg_from_automate m msg from = store_byte m msg 0 from

abbrev pub set_msg_from_group : Mem → Ptr → ℕ → Mem
set_msg_from_group m msg from = store_byte m msg 1 from

abbrev pub set_msg_to_automate : Mem → Ptr → ℕ → Mem
set_msg_to_automate m msg to = store_byte m msg 2 to

abbrev pub set_msg_to_group : Mem → Ptr → ℕ → Mem
set_msg_to_group m msg to = store_byte m msg 3 to

abbrev pub set_msg_code : Mem → Ptr → ℕ → Mem
set_msg_code m msg code = store_uint16 m msg 4 code

abbrev pub set_msg_object_number_from : Mem → Ptr → ℕ → Mem
set_msg_object_number_from m msg from = store_uint32 m msg 6 from

abbrev pub set_msg_object_number_to : Mem → Ptr → ℕ → Mem
set_msg_object_number_to m msg to = store_uint32 m msg 10 to

abbrev pub set_msg_call_id : Mem → Ptr → ℕ → Mem
set_msg_call_id m msg id = store_uint32 m msg 14 id

abbrev pub set_msg_info_coding : Mem → Ptr → ℕ → Mem
set_msg_info_coding m msg coding_type = store_byte m msg 18 coding_type

abbrev pub set_msg_info_length : Mem → Ptr → ℕ → Mem
set_msg_info_length m msg length = store_uint16 m msg 19 length
