-- ===== src/Buffers.antt =====
-- TBuffers of `Kernel/buffers.cpp`: the queues of free buffers, one for each size, in the order of
-- the sizes. `queues` is the array `Buffers`, `none` a null pointer in it; the array and
-- `BuffersLength` have 32 entries, and an access behind them is a `fault`.
pub mod Lookup
pub mod Stock
pub mod Take
pub mod Rearrange
pub mod Sort
pub mod Constructor
use publisher_subscriber_ser.Base.{
  ℕ, zero, suc, ◌+◌, ◌-◌, Bool, true, false, not, ◌&&◌, ◌==◌, ltb, leb, if◌then◌else◌, Option, none,
  some, Run, ok, fault, thrown, out_of_fuel, ◌>>=◌, ◌>>◌, throw_if, in_bounds, Build,
}
use publisher_subscriber_ser.Memory.{Ptr, null, Mem, update}
use publisher_subscriber_ser.BuffersQueue
use publisher_subscriber_ser.BuffersQueue.{TBufferQue}

pub record TBuffers : Type 0 where
  pub queues : ℕ → Option TBufferQue
  pub buffers_length : ℕ → ℕ
  pub class_buffer_num : ℕ

abbrev pub max_buff_class_no : ℕ
max_buff_class_no = 32

-- The arrays of the constructor, which it sorts in place.
pub record Classes : Type 0 where
  pub lengths : ℕ → ℕ
  pub counts : ℕ → ℕ

-- The comparison of the entries `i` and `j`.
unfoldable pub sort_pair : (i j : ℕ) → Classes → Classes
unfolding update
sort_pair i j a =
    if ltb (a.lengths j) (a.lengths i)
    then record {
      lengths = update (update a.lengths i (a.lengths j)) j (a.lengths i);
      counts = update (update a.counts i (a.counts j)) j (a.counts i);
    }
    else a

-- The inner loop, with `rounds` entries left from `j` on.
unfoldable pub sort_from : (rounds i j : ℕ) → Classes → Classes
sort_from zero i j a = a
sort_from (suc rounds) i j a = sort_from rounds i (j + 1) (sort_pair i j a)

-- The outer loop, over the entries from `i` on, of which there are `rounds + 1`.
unfoldable pub sort_classes : (rounds i : ℕ) → Classes → Classes
sort_classes zero i a = a
sort_classes (suc rounds) i a = sort_classes rounds (i + 1) (sort_from (suc rounds) i (i + 1) a)

-- A queue for each class; `bases` are the addresses of the memory obtained.
unfoldable pub create_queues :
    Build → (bases : ℕ → Ptr) → (rounds i : ℕ) → Classes → Mem → TBuffers → Run (Mem × TBuffers)
create_queues b bases zero i a m s = ok (m, s)
create_queues b bases (suc rounds) i a m s = do
  r ← BuffersQueue.create b (bases i) (a.counts i) (a.lengths i) i m
  create_queues b bases rounds (i + 1) a r.0 (record s {
    queues = update s.queues i (some r.1);
    buffers_length = update s.buffers_length i (a.lengths i);
  })

-- The constructor; `none` is a null pointer to an array.
unfoldable pub create :
    Build
    → (bases : ℕ → Ptr) (class_buffer_num : ℕ) (buffers_count buffers_length : Option (ℕ → ℕ)) → Mem
    → Run (Mem × TBuffers)
create b bases class_buffer_num buffers_count buffers_length m = do
  throw_if (class_buffer_num == 0) 0x01010600
  throw_if (class_buffer_num == 0xff) 0x01010600
  throw_if (ltb max_buff_class_no class_buffer_num) 0x01010600
  elim buffers_count [
    | none ↦ thrown 0x01010601
    | some counts ↦ elim buffers_length [
      | none ↦ thrown 0x01010602
      | some lengths ↦
          let a =
            sort_classes (class_buffer_num - 1) 0 (record { lengths = lengths; counts = counts }) in
          create_queues b bases class_buffer_num 0 a m (record {
            queues = λ _. none;
            buffers_length = λ _. 0;
            class_buffer_num = class_buffer_num;
          })
    ]
  ]

-- The loop that looks for the class: the length is read before the index is tested.
unfoldable pub find_class : (fuel : ℕ) → TBuffers → (buffer_length i : ℕ) → Run ℕ
find_class zero s buffer_length i = out_of_fuel
find_class (suc fuel) s buffer_length i = do
  in_bounds (ltb i max_buff_class_no)
  if ltb (s.buffers_length i) buffer_length && ltb i s.class_buffer_num
      then find_class fuel s buffer_length (i + 1)
      else ok i

abbrev pub put_queue : TBuffers → ℕ → TBufferQue → TBuffers
put_queue s i q = record s { queues = update s.queues i (some q) }

unfoldable pub queue_at : TBuffers → ℕ → Run TBufferQue
queue_at s i = do
  in_bounds (ltb i max_buff_class_no)
  elim (s.queues i) [ none ↦ fault | some q ↦ ok q ]

-- The loop that takes the buffer, from the class `i` on with `rounds` classes left.
unfoldable pub take_buffer : Build → (rounds : ℕ) → Mem → TBuffers → (i : ℕ) → Run (Ptr × TBuffers)
take_buffer b zero m s i = thrown 0x21000604
take_buffer b (suc rounds) m s i = do
  q ← queue_at s i
  r ← BuffersQueue.get b m q
  let s' = put_queue s i r.1
  if r.0 == null then take_buffer b rounds m s' (i + 1) else ok (r.0, s')

unfoldable pub get_buffer : Build → Mem → TBuffers → (buffer_length : ℕ) → Run (Ptr × TBuffers)
get_buffer b m s buffer_length = do
  i ← find_class (max_buff_class_no + 1) s buffer_length 0
  throw_if (i == s.class_buffer_num) 0x21000604
  take_buffer b (s.class_buffer_num - i) m s i

unfoldable pub ret_buffer : Build → Mem → TBuffers → Ptr → Run (Mem × TBuffers)
ret_buffer b m s info = do
  throw_if (info == null) 0x21000605
  let code = m.code info
  throw_if (leb s.class_buffer_num code) 0x21050609
  q ← queue_at s code
  r ← BuffersQueue.add b m q info
  ok (r.0, put_queue s code r.1)

-- `GetLength` of a class, and of a buffer.
unfoldable pub get_length : TBuffers → (data_class : ℕ) → Run ℕ
get_length s data_class = do
  throw_if (leb s.class_buffer_num data_class) 0x21050607
  in_bounds (ltb data_class max_buff_class_no)
  ok (s.buffers_length data_class)

unfoldable pub get_length_of : Mem → TBuffers → Ptr → Run ℕ
get_length_of m s info = do
  throw_if (info == null) 0x21050608
  throw_if (leb s.class_buffer_num (m.code info)) 0x21050609
  in_bounds (ltb (m.code info) max_buff_class_no)
  ok (s.buffers_length (m.code info))
