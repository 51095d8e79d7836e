-- ===== src/KernelApi/Sends.antt =====
-- Where a message goes that an automaton sends, and what its header says then.
use publisher_subscriber_ser.Base.{ℕ, ◌<◌, ◌≡◌, ◌≢◌, ap, ◌∙◌, List, arith, Run, ok, ◌>>=◌, ne→==}
use publisher_subscriber_ser.Memory.{Ptr, null, Mem, update, get_uint32, store_byte, store_uint32}
use publisher_subscriber_ser.PostOffice.{Office}
use publisher_subscriber_ser.PostOffice.Holds.{
  OfficeHolds, OutOfBoxes, posted_to, delivered, add-delivered, delivered-mem,
  delivered-OfficeHolds, same_next-OfficeHolds,
}
use publisher_subscriber_ser.Messages.{
  get_msg_from_automate, get_msg_from_group, get_msg_object_number_from, get_msg_call_id,
}
use publisher_subscriber_ser.KernelApi.{
  Party, KernelApi, with_mem, set_message_from_data, set_message_to_data, post_new_message, send_to,
  send_message_left, send_message_right, return_msg,
}
use publisher_subscriber_ser.KernelApi.Addresses.{
  IsAddressed, filled-IsAddressed, filled-next, bytes-IsAddressed,
}

-- The program ends; the new message lies behind the others of the mailbox, addressed from the
-- automaton to `to`, and the automaton has no new message any more.
pub record Sent (run : Run KernelApi) (k : KernelApi) (mbx : ℕ) (to : Party) (call_id : ℕ)
    (boxes : ℕ → List Ptr) : Type 0 where
  pub office : Office
  pub returns :
      run ≡ ok (record k { timer = record k.timer { office = office }; new_message = null })
  pub holds : OfficeHolds office (posted_to boxes mbx k.new_message)
  pub addressed : IsAddressed office.mem k.new_message k.own to call_id

-- What a sender needs: a new message that is in no mailbox.
pub record Sendable (k : KernelApi) (mbx : ℕ) (boxes : ℕ → List Ptr) : Type 0 where
  pub holds : OfficeHolds k.timer.office boxes
  pub inside : mbx < k.timer.office.post.mail_boxes_num
  pub message : k.new_message ≢ null
  pub unsent : OutOfBoxes k.timer.office.post.mail_boxes_num k.new_message boxes

abbrev filled : KernelApi → (to : Party) (call_id : ℕ) → Mem
filled k to call_id =
    set_message_to_data (set_message_from_data k.timer.office.mem k.new_message k.own) k.new_message
      to call_id

post-Sent :
    (k : KernelApi) (mbx : ℕ) (to : Party) (call_id : ℕ) (boxes : ℕ → List Ptr)
    → Sendable k mbx boxes
    → Sent (post_new_message mbx (with_mem k (filled k to call_id))) k mbx to call_id boxes
unfolding post_new_message
post-Sent k mbx to call_id boxes s =
    let m = filled k to call_id in
    let w = record k.timer.office { mem = m } in
    let holds =
      same_next-OfficeHolds k.timer.office boxes m
        (filled-next k.timer.office.mem k.new_message k.own to call_id) s.holds in
    let b = holds.held mbx s.inside in
    let sent = delivered w mbx b.box k.new_message in
    record {
      office = sent;
      returns =
          ap
            (λ r. r >>= λ o.
              ok (record k { timer = record k.timer { office = o }; new_message = null }))
            (add-delivered w mbx b.box k.new_message s.inside b.there s.message);
      holds =
          delivered-OfficeHolds w boxes mbx b.box k.new_message holds s.inside b.there b.messages
            s.message s.unsent;
      addressed =
          bytes-IsAddressed m sent.mem k.new_message k.own to call_id
            (delivered-mem w mbx b.box k.new_message).0
            (filled-IsAddressed k.timer.office.mem k.new_message k.own to call_id);
    }

send_to-Sent :
    (k : KernelApi) (to : Party) (call_id : ℕ) (boxes : ℕ → List Ptr)
    → Sendable k to.mbx boxes
    → Sent (send_to to call_id k) k to.mbx to call_id boxes
unfolding send_to
send_to-Sent k to call_id boxes s =
    let h = post-Sent k to.mbx to call_id boxes s in
    record {
      office = h.office;
      returns = rw (send_to, ne→== k.new_message null s.message, ◌>>=◌) h.returns;
      holds = h.holds;
      addressed = h.addressed;
    }

other_byte :
    (m : Mem) (p : Ptr) (i v : ℕ) (q : Ptr) → q ≢ p → (store_byte m p i v).bytes q ≡ m.bytes q
unfolding store_byte update
other_byte m p i v q ne = ground arith

other_uint32 :
    (m : Mem) (p : Ptr) (i v : ℕ) (q : Ptr) → q ≢ p → (store_uint32 m p i v).bytes q ≡ m.bytes q
unfolding store_uint32 update
other_uint32 m p i v q ne = ground arith

-- Who sent the current message, as it says before the call.
abbrev pub sender : KernelApi → Party
sender k =
    let m = k.timer.office.mem in
    record {
      mbx = 0;
      automate = get_msg_from_automate m k.current_message;
      group = get_msg_from_group m k.current_message;
      object_id = get_msg_object_number_from m k.current_message;
    }

return_msg-filled :
    (k : KernelApi) (mbx : ℕ)
    → k.new_message ≢ null
    → k.current_message ≢ null
    → k.current_message ≢ k.new_message
    → return_msg mbx k
      ≡ post_new_message mbx
          (with_mem k (filled k (sender k) (get_msg_call_id k.timer.office.mem k.current_message)))
unfolding return_msg set_message_from_data set_message_to_data
return_msg-filled k mbx new current ne =
    let p = k.new_message in
    let q = k.current_message in
    let m0 = k.timer.office.mem in
    let m1 = store_byte m0 p 0 k.own.automate in
    let m2 = store_byte m1 p 1 k.own.group in
    let m3 = store_uint32 m2 p 6 k.own.object_id in
    let v4 = m3.bytes q 0 in
    let m4 = store_byte m3 p 2 v4 in
    let v5 = m4.bytes q 1 in
    let m5 = store_byte m4 p 3 v5 in
    let v6 = get_uint32 (m5.bytes q) 6 in
    let m6 = store_uint32 m5 p 10 v6 in
    let e3 : m3.bytes q ≡ m0.bytes q =
      other_uint32 m2 p 6 k.own.object_id q ne
      ∙ other_byte m1 p 1 k.own.group q ne
      ∙ other_byte m0 p 0 k.own.automate q ne in
    let e4 = other_byte m3 p 2 v4 q ne ∙ e3 in
    let e5 = other_byte m4 p 3 v5 q ne ∙ e4 in
    let e6 = other_uint32 m5 p 10 v6 q ne ∙ e5 in
    let to : (a g o c : ℕ) → Run KernelApi = λ a g o c. post_new_message mbx (
      with_mem k
        (store_uint32 (store_uint32 (store_byte (store_byte m3 p 2 a) p 3 g) p 10 o) p 14 c)) in
    let a = m0.bytes q 0 in
    let g = m0.bytes q 1 in
    let o = get_uint32 (m0.bytes q) 6 in
    rw (return_msg, ne→== p null new, ne→== q null current, ◌>>=◌)
      (ap (λ b. to (b 0) v5 v6 (get_uint32 (m6.bytes q) 14)) e3
        ∙ ap (λ b. to a (b 1) v6 (get_uint32 (m6.bytes q) 14)) e4
        ∙ ap (λ b. to a g (get_uint32 b 6) (get_uint32 (m6.bytes q) 14)) e5
        ∙ ap (λ b. to a g o (get_uint32 b 14)) e6)

-- An automaton sends its new message, which is in no mailbox, to its left or to its right partner,
-- whose mailboxes there are: the call ends, the message lies behind the others of the partner's
-- mailbox, its header says whom it is from and for and to which call it belongs, and every other
-- message stays in its mailbox.
pub partners_lem :
    (k : KernelApi) (boxes : ℕ → List Ptr)
    → Sendable k k.left.mbx boxes
    → Sendable k k.right.mbx boxes
    → Sent (send_message_left k) k k.left.mbx k.left k.call_id boxes
      × Sent (send_message_right k) k k.right.mbx k.right k.call_id boxes
partners_lem k boxes left right =
    (send_to-Sent k k.left k.call_id boxes left, send_to-Sent k k.right k.call_id boxes right)

-- The new message, which is in no mailbox and is not the current one, is sent through a mailbox that
-- there is: it is addressed to the automaton that the current message is from, and belongs to the
-- call of the current message.
pub return_msg_lem :
    (k : KernelApi) (mbx : ℕ) (boxes : ℕ → List Ptr)
    → Sendable k mbx boxes
    → k.current_message ≢ null
    → k.current_message ≢ k.new_message
    → Sent
        (return_msg mbx k)
        k
        mbx
        (sender k)
        (get_msg_call_id k.timer.office.mem k.current_message)
        boxes
return_msg_lem k mbx boxes s current ne =
    let h =
      post-Sent k mbx (sender k) (get_msg_call_id k.timer.office.mem k.current_message) boxes s in
    record {
      office = h.office;
      returns = return_msg-filled k mbx s.message current ne ∙ h.returns;
      holds = h.holds;
      addressed = h.addressed;
    }
