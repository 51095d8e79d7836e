-- ===== src/KernelApi.antt =====
-- KernelAPI (`Kernel/kernelAPI.cpp`, `Kernel/kernelAPI.h`): what an automaton does with messages and timers.
-- The automaton's own data, and those of its left and right partner, are what the virtual getters return.
pub mod Addresses
pub mod Sends
use publisher_subscriber_ser.Base.{
  ℕ, ◌+◌, ◌-◌, ◌%◌, ◌^◌, Bool, not, ◌==◌, Run, ok, fault, ◌>>=◌, ◌>>◌, in_bounds, Build,
}
use publisher_subscriber_ser.Memory.{Ptr, null, Mem}
use publisher_subscriber_ser.Buffers.{get_buffer}
use publisher_subscriber_ser.PostOffice
use publisher_subscriber_ser.PostOffice.{Office}
use publisher_subscriber_ser.Timer
use publisher_subscriber_ser.Timer.{CTimer, msg_header_length}
use publisher_subscriber_ser.Messages.{
  get_msg_from_automate, get_msg_from_group, get_msg_object_number_from, get_msg_call_id,
  set_msg_from_automate, set_msg_from_group, set_msg_to_automate, set_msg_to_group, set_msg_code,
  set_msg_object_number_from, set_msg_object_number_to, set_msg_call_id, set_msg_info_coding,
  set_msg_info_length,
}

-- An automaton as others address it.
pub record Party : Type 0 where
  pub mbx : ℕ
  pub automate : ℕ
  pub group : ℕ
  pub object_id : ℕ

pub record KernelApi : Type 0 where
  pub timer : CTimer
  pub own : Party
  pub left : Party
  pub right : Party
  pub call_id : ℕ
  pub default_param_coding : ℕ
  pub timer_resolution : ℕ
  pub current_message : Ptr
  pub new_message : Ptr

abbrev pub with_mem : KernelApi → Mem → KernelApi
with_mem k m = record k { timer = record k.timer { office = record k.timer.office { mem = m } } }

-- `SetMessageFromData`.
unfoldable pub set_message_from_data : Mem → (msg : Ptr) → (from : Party) → Mem
set_message_from_data m msg from =
    let m = set_msg_from_automate m msg from.automate in
    let m = set_msg_from_group m msg from.group in set_msg_object_number_from m msg from.object_id

-- The part of the senders that writes whom the message is for.
unfoldable pub set_message_to_data : Mem → (msg : Ptr) → (to : Party) (call_id : ℕ) → Mem
set_message_to_data m msg to call_id =
    let m = set_msg_to_automate m msg to.automate in
    let m = set_msg_to_group m msg to.group in
    let m = set_msg_object_number_to m msg to.object_id in set_msg_call_id m msg call_id

-- The new message goes to a mailbox.
unfoldable pub post_new_message : (mbx_id : ℕ) → KernelApi → Run KernelApi
post_new_message mbx_id k = do
  office ← PostOffice.add mbx_id k.new_message k.timer.office
  ok (record k { timer = record k.timer { office = office }; new_message = null })

unfoldable pub send_message : (mbx_id : ℕ) → KernelApi → Run KernelApi
send_message mbx_id k = do
  in_bounds (not (k.new_message == null))
  post_new_message mbx_id
      (with_mem k (set_message_from_data k.timer.office.mem k.new_message k.own))

-- A message to a partner.
unfoldable pub send_to : (to : Party) (call_id : ℕ) → KernelApi → Run KernelApi
send_to to call_id k = do
  in_bounds (not (k.new_message == null))
  let m = set_message_from_data k.timer.office.mem k.new_message k.own
  post_new_message to.mbx (with_mem k (set_message_to_data m k.new_message to call_id))

abbrev pub send_message_left : KernelApi → Run KernelApi
send_message_left k = send_to k.left k.call_id k

abbrev pub send_message_right : KernelApi → Run KernelApi
send_message_right k = send_to k.right k.call_id k

-- The new message goes back to the sender of the current one. What it is addressed with is read
-- when the sender's own data stand in the new message.
unfoldable pub return_msg : (mbx_id : ℕ) → KernelApi → Run KernelApi
return_msg mbx_id k = do
  in_bounds (not (k.new_message == null))
  in_bounds (not (k.current_message == null))
  let m = set_message_from_data k.timer.office.mem k.new_message k.own
  let m = set_msg_to_automate m k.new_message (get_msg_from_automate m k.current_message)
  let m = set_msg_to_group m k.new_message (get_msg_from_group m k.current_message)
  let m = set_msg_object_number_to m k.new_message (get_msg_object_number_from m k.current_message)
  let m = set_msg_call_id m k.new_message (get_msg_call_id m k.current_message)
  post_new_message mbx_id (with_mem k m)

-- `KernelAPI::StartTimer`.
unfoldable pub start_timer :
    (fuel : ℕ) → Build → (code count : ℕ) → KernelApi → Run (Ptr × KernelApi)
start_timer fuel b code count k = do
  r ← get_buffer b k.timer.office.mem k.timer.office.pool msg_header_length
  in_bounds (not (r.0 == null))
  let m = set_msg_to_automate k.timer.office.mem r.0 k.own.automate
  let m = set_msg_to_group m r.0 k.own.group
  let m = set_msg_code m r.0 code
  let m = set_msg_call_id m r.0 k.call_id
  let m = set_msg_object_number_to m r.0 k.own.object_id
  let m = set_msg_info_coding m r.0 k.default_param_coding
  let m = set_msg_info_length m r.0 0
  let t = record k.timer { office = record k.timer.office { mem = m; pool = r.1 } }
  t ← Timer.start_timer fuel r.0 k.own.mbx count k.timer_resolution t
  ok (r.0, record k { timer = t })
