-- ===== src/Examples/Messages.antt =====
-- The pool, the mailboxes and the parameters of a message on small values.
use publisher_subscriber_ser.Base.{
  ℕ, ◌<◌, ◌≡◌, ◌≢◌, false, some, List, [], ◌∷◌, ok, thrown, fault, refl, arith, debug, release,
  ◌==◌, if◌then◌else◌, ◌>>=◌,
}
use publisher_subscriber_ser.Memory.{Ptr, Mem, Bytes, get_uint16}
use publisher_subscriber_ser.Line.{no_line}
use publisher_subscriber_ser.BuffersQueue.{TBufferQue}
use publisher_subscriber_ser.BuffersQueue.Laws.{IsQueue}
use publisher_subscriber_ser.Buffers.{
  TBuffers, Classes, sort_classes, put_queue, get_buffer, ret_buffer,
}
use publisher_subscriber_ser.Buffers.Sort.{Sorted, sort_classes_lem}
use publisher_subscriber_ser.Buffers.Lookup.{ret_buffer_lem, get_buffer-too_long}
use publisher_subscriber_ser.MailBox.{TMailBox, World}
use publisher_subscriber_ser.MailBox.Laws.{IsMailBox}
use publisher_subscriber_ser.PostOffice.{Office, add, get}
use publisher_subscriber_ser.PostOffice.Laws.{add-IsMailBox, get-add}
use publisher_subscriber_ser.Params.{StdMsg, get_param, remove_param}
use publisher_subscriber_ser.Params.Held.{Param, HasParams, size}
use publisher_subscriber_ser.Params.Places.{remove_param_lem}
use publisher_subscriber_ser.Params.Find.{located, get_param_lem}

abbrev memory : Mem
memory = record { code = λ _. 0; next = λ _. 0; bytes = λ _. λ _. 0 }

abbrev one : TBufferQue
one = record {
  line = record { head = 9; tail = 9 };
  free_buffer_count = 1;
  buffers_initiated = 1;
  locks = 0;
}

abbrev empty : TBufferQue
empty = record { line = no_line; free_buffer_count = 0; buffers_initiated = 1; locks = 0 }

-- One class, of buffers of 16 bytes.
abbrev pool : TBufferQue → TBuffers
pool q = record { queues = λ _. some q; buffers_length = λ _. 16; class_buffer_num = 1 }

abbrev classes : Classes
classes = record { lengths = λ k. if k == 0 then 64 else 16; counts = λ k. k }

sort_classes_lem_example : Sorted 3 classes (sort_classes 2 0 classes)
sort_classes_lem_example = sort_classes_lem 3 classes (omega arith)

-- The smaller class is empty, the larger one has a buffer.
abbrev queues : ℕ → TBufferQue
queues k = if k == 0 then empty else one

abbrev free : ℕ → List Ptr
free k = if k == 0 then [] else 9 ∷ []

abbrev two_classes : TBuffers
two_classes = record {
  queues = λ k. some (queues k);
  buffers_length = λ k. if k == 0 then 16 else 64;
  class_buffer_num = 2;
}

ret_buffer_lem_example :
    (m' : Mem) × (q' : TBufferQue) × (ret_buffer debug memory (pool empty) 9
      ≡ ok (m', put_queue (pool empty) 0 q'))
    × IsQueue m' q' (9 ∷ [])
    × (q'.locks ≡ 0)
ret_buffer_lem_example =
    ret_buffer_lem debug memory (pool empty) empty 9 [] (λ e. absurd (omega arith)) (omega arith)
      (omega arith) refl (record { holds = record { chain = refl; tail = refl }; counted = refl })
      tt

get_buffer-too_long_example :
    ((pool one).class_buffer_num ≡ 32 → get_buffer release memory (pool one) 20 ≡ fault)
    × ((pool one).class_buffer_num < 32
        → get_buffer release memory (pool one) 20 ≡ thrown 0x21000604)
get_buffer-too_long_example = get_buffer-too_long release memory (pool one) 20 (λ k h. omega arith)

abbrev box : TMailBox
box = record { line = record { head = 9; tail = 9 }; count = 1; locks = 0 }

abbrev world : World
world = record { mem = memory; pool = pool empty; box = box }

abbrev empty_box : TMailBox
empty_box = record { line = no_line; count = 0; locks = 0 }

abbrev office : Office
office = record {
  mem = memory;
  pool = pool empty;
  post = record { mail_boxes = λ _. some empty_box; mail_boxes_num = 1; released = [] };
}

add-IsMailBox_example :
    (w' : Office) × (box' : TMailBox) × (add 0 9 office ≡ ok w')
    × (w'.post.mail_boxes 0 ≡ some box')
    × IsMailBox w'.mem box' (9 ∷ [])
    × ((k : ℕ) → k ≢ 0 → w'.post.mail_boxes k ≡ some empty_box)
    × (w'.post.released ≡ 0 ∷ [])
add-IsMailBox_example =
    add-IsMailBox office 0 empty_box [] 9 (omega arith) refl
      (record { holds = record { chain = refl; tail = refl }; counted = refl })
      (λ e. absurd (omega arith)) tt

get-add_example :
    (w' : Office) × (box' : TMailBox) × ((do v ← add 0 9 office; get 3 debug 0 v) ≡ ok (9, w'))
    × (w'.post.mail_boxes 0 ≡ some box')
    × IsMailBox w'.mem box' []
unfolding get_uint16
get-add_example =
    get-add 2 debug office 0 empty_box 9 (omega arith) refl
      (record { holds = record { chain = refl; tail = refl }; counted = refl })
      (λ e. absurd (omega arith)) (λ e. absurd (omega arith))

-- A message with the parameter 5, whose one byte is 9.
abbrev bytes : Bytes
bytes k =
    if k == 19 then 7 else if k == 21 then 5 else if k == 23 then 1 else if k == 25 then 9 else 0

abbrev five : List Param
five = record { code = 5; body = 9 ∷ [] } ∷ []

bytes-HasParams : HasParams bytes five
unfolding get_uint16 size
bytes-HasParams = record {
  sized = refl;
  params = (refl, (λ e. absurd (omega arith)), refl, (refl, tt), refl);
}

abbrev msg : StdMsg
msg = record { current_message = some bytes; new_message = some bytes; current_offset = 0 }

get_param_lem_example :
    (offset : ℕ) × (get_param 3 debug 5 (record msg { current_message = some bytes })
      ≡ ok
          (located 5 five 21, record msg { current_message = some bytes; current_offset = offset }))
unfolding size
get_param_lem_example =
    get_param_lem 3 debug 5 msg bytes five bytes-HasParams (λ e. absurd (omega arith)) (omega arith)
      (omega arith)

remove_param_lem_example :
    (offset : ℕ) × (remove_param 3 debug 5 msg
      ≡ ok (false, record msg { new_message = some bytes; current_offset = offset }))
unfolding size
remove_param_lem_example =
    remove_param_lem 3 debug 5 msg bytes five refl bytes-HasParams (λ e. absurd (omega arith))
      (omega arith) (omega arith)
