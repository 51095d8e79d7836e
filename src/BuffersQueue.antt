-- ===== src/BuffersQueue.antt =====
-- TBufferQue of `Kernel/buffersQueue.cpp` (the WIN32 build): the free buffers of one size.
-- `locks` is how deep the calling thread holds the critical section, which a thread may enter
-- again; `new` is the parameter `base`, the address of the memory obtained.
pub mod Laws
pub mod Short
pub mod Create
use publisher_subscriber_ser.Base.{
  ℕ, zero, suc, ◌+◌, ◌-◌, ◌*◌, ◌%◌, ◌^◌, Bool, not, ◌==◌, if◌then◌else◌, Run, ok, ◌>>=◌, ◌>>◌,
  throw_if, Build, assert_in, in_bounds, leb,
}
use publisher_subscriber_ser.Memory.{Ptr, null, Mem, update}
use publisher_subscriber_ser.Line.{Line, no_line, push_back, pop_front}

pub record TBufferQue : Type 0 where
  pub line : Line
  pub free_buffer_count : ℕ
  pub buffers_initiated : ℕ
  pub locks : ℕ

pub lock_buff : TBufferQue → TBufferQue
lock_buff q = record q { locks = q.locks + 1 }

pub unlock_buff : TBufferQue → TBufferQue
unlock_buff q = record q { locks = q.locks - 1 }

-- On an empty queue the code returns before it unlocks.
pub get_from_head : Mem → TBufferQue → Ptr × TBufferQue
unfolding lock_buff unlock_buff pop_front
get_from_head m q =
    let q' = lock_buff q in
    let (info, line') = pop_front m.next q'.line in
    if q'.line.head == null then (null, q') else (
      info,
      unlock_buff (record q' {
        line = line';
        free_buffer_count = (q'.free_buffer_count + 2 ^ 32 - 1) % 2 ^ 32;
      }),
    )

pub put_on_tail : Mem → TBufferQue → Ptr → Mem × TBufferQue
unfolding lock_buff unlock_buff push_back
put_on_tail m q info =
    let q' = lock_buff q in
    let (next', line') = push_back m.next q'.line info in
    (
      record m { next = next' },
      unlock_buff
          (record q' { line = line'; free_buffer_count = (q'.free_buffer_count + 1) % 2 ^ 32 }),
    )

pub add : Build → Mem → TBufferQue → Ptr → Run (Mem × TBufferQue)
add b m q info = do assert_in b (not (info == null)); ok (put_on_tail m q info)

pub get : Build → Mem → TBufferQue → Run (Ptr × TBufferQue)
get b m q = do let r = get_from_head m q; assert_in b (not (r.0 == null)); ok r

pub is_empty : TBufferQue → Bool × TBufferQue
unfolding lock_buff unlock_buff
is_empty q = let q' = lock_buff q in (q'.free_buffer_count == 0, unlock_buff q')

-- BUFF_HEADER_LENGTH: a byte and two pointers of four bytes.
abbrev pub buff_header_length : ℕ
buff_header_length = 9

-- The size of the memory for all buffers, a `uint32`.
unfoldable pub mem_size : (buffers_no buffer_length : ℕ) → ℕ
mem_size buffers_no buffer_length =
    ((buffer_length + buff_header_length) % 2 ^ 32 * buffers_no) % 2 ^ 32

-- The loop that cuts the memory from `tmp` on into `n` buffers. The memory ends at `limit`, and a
-- header that is written behind it is a `fault`.
pub cut :
    Build → (limit : Ptr) → ℕ → Ptr → (length code : ℕ) → Mem → TBufferQue → Run (Mem × TBufferQue)
cut b limit zero tmp length code m q = ok (m, q)
cut b limit (suc n) tmp length code m q = do
  let p = tmp + buff_header_length
  in_bounds (leb p limit)
  let m' = record m { code = update m.code p (code % 256); next = update m.next p null }
  r ← add b m' q p
  cut b limit n (p + length) length code r.0 r.1

-- The constructor.
pub create :
    Build → (base : Ptr) → (buffers_no buffer_length code : ℕ) → Mem → Run (Mem × TBufferQue)
unfolding cut
create b base buffers_no buffer_length code m = do
  throw_if (buffers_no == 0) 0x01010500
  throw_if (buffer_length == 0) 0x01010501
  throw_if (base == null) 0x01010501
  cut b (base + mem_size buffers_no buffer_length) buffers_no base buffer_length code m
      (record { line = no_line; free_buffer_count = 0; buffers_initiated = buffers_no; locks = 0 })

-- The destructor's check that all buffers are back.
pub destroy : Build → TBufferQue → Run (Unit {0})
destroy b q = assert_in b (q.free_buffer_count == q.buffers_initiated)
