-- ===== src/Buffers/Lookup.antt =====
-- Which class a length is served from, and where a buffer goes back to.
use publisher_subscriber_ser.Base.{
  lt→leb, ℕ, zero, suc, ◌+◌, ◌<◌, ◌≤◌, ◌≡◌, ◌≢◌, ap, refl, arith, List, [], ◌∷◌, ◌++◌, some, ok,
  fault, thrown, ◌==◌, ltb, Build, Bool-cases, inl, inr, ==→eq, ==→ne, ltb→lt, eq→==, ne→==,
}
use publisher_subscriber_ser.Memory.{Ptr, null, Mem}
use publisher_subscriber_ser.Line.{Out}
use publisher_subscriber_ser.BuffersQueue.{TBufferQue, put_on_tail}
use publisher_subscriber_ser.BuffersQueue.Laws.{IsQueue, add_lem}
use publisher_subscriber_ser.Buffers.{
  TBuffers, find_class, put_queue, queue_at, get_buffer, ret_buffer,
}

find_class_from :
    (fuel : ℕ) (s : TBuffers) (len i n : ℕ)
    → i ≤ n
    → n < 32
    → n ≤ s.class_buffer_num
    → n < fuel + i
    → ((k : ℕ) → k < n → s.buffers_length k < len)
    → (n < s.class_buffer_num → len ≤ s.buffers_length n)
    → find_class fuel s len i ≡ ok n
unfolding find_class
find_class_from zero s len i n below small inside enough less fits = absurd (omega arith)
find_class_from (suc fuel) s len i n below small inside enough less fits =
    elim (Bool-cases (i == n)) [
      | inl e ↦
          let same = ==→eq i n e in let len_same = ap s.buffers_length same in ground (arith, fits)
      | inr e ↦
          let other = ==→ne i n e in
          let low = less i (omega arith) in
          let rest =
            find_class_from fuel s len (i + 1) n (omega arith) small inside (omega arith) less
              fits in
          ground arith
    ]

-- The class that serves a length is the first whose buffers are long enough; with none, and fewer
-- than 32 classes, the search ends at their number.
pub find_class_lem :
    (s : TBuffers) (len n : ℕ)
    → n < 32
    → n ≤ s.class_buffer_num
    → ((k : ℕ) → k < n → s.buffers_length k < len)
    → (n < s.class_buffer_num → len ≤ s.buffers_length n)
    → find_class 33 s len 0 ≡ ok n
find_class_lem s len n small inside less fits =
    find_class_from 33 s len 0 n (omega arith) small inside (omega arith) less fits

find_class-full_from :
    (fuel : ℕ) (s : TBuffers) (len i : ℕ)
    → i ≤ 32
    → 32 < fuel + i
    → s.class_buffer_num ≡ 32
    → ((k : ℕ) → k < 32 → s.buffers_length k < len)
    → find_class fuel s len i ≡ fault
unfolding find_class
find_class-full_from zero s len i below enough full less = absurd (omega arith)
find_class-full_from (suc fuel) s len i below enough full less = elim (Bool-cases (ltb i 32)) [
  | inl e ↦
      let low = less i (ltb→lt i 32 e) in
      let inside = ltb→lt i 32 e in
      let rest = find_class-full_from fuel s len (i + 1) (omega arith) (omega arith) full less in
      ground arith
  | inr e ↦ ground arith
]

-- A request for a buffer longer than all of 32 classes reads behind the array of lengths, where
-- one of fewer classes is refused with an error.
pub get_buffer-too_long :
    (b : Build) (m : Mem) (s : TBuffers) (len : ℕ)
    → ((k : ℕ) → k < s.class_buffer_num → s.buffers_length k < len)
    → (s.class_buffer_num ≡ 32 → get_buffer b m s len ≡ fault)
      × (s.class_buffer_num < 32 → get_buffer b m s len ≡ thrown 0x21000604)
unfolding get_buffer
get_buffer-too_long b m s len less = (
  λ full.
      rw
        (find_class-full_from 33 s len 0 (omega arith) (omega arith) full
          (λ k h. less k (omega arith)))
        refl,
  λ few.
      rw
        (
          find_class_lem s len s.class_buffer_num few (omega arith) less
              (λ h. absurd (omega arith)),
          eq→== s.class_buffer_num s.class_buffer_num refl,
        )
        refl,
)

pub queue_at_lem :
    (s : TBuffers) (n : ℕ) (q : TBufferQue) → n < 32 → s.queues n ≡ some q → queue_at s n ≡ ok q
unfolding queue_at
queue_at_lem s n q h e = ground arith

-- A buffer that is returned goes to the end of the queue of its class.
pub ret_buffer_lem :
    (b : Build) (m : Mem) (s : TBuffers) (q : TBufferQue) (x : Ptr) (xs : List Ptr)
    → x ≢ null
    → m.code x < s.class_buffer_num
    → s.class_buffer_num ≤ 32
    → s.queues (m.code x) ≡ some q
    → IsQueue m q xs
    → Out x xs
    → (m' : Mem) × (q' : TBufferQue) × (ret_buffer b m s x ≡ ok (m', put_queue s (m.code x) q'))
      × IsQueue m' q' (xs ++ x ∷ [])
      × (q'.locks ≡ q.locks)
unfolding ret_buffer
ret_buffer_lem b m s q x xs ne inside small at is out =
    let added = add_lem b m q xs x is ne out in
    (
      (put_on_tail m q x).0,
      (put_on_tail m q x).1,
      rw
          (
            ne→== x null ne,
            lt→leb s.class_buffer_num (m.code x) inside,
            queue_at_lem s (m.code x) q (omega arith) at,
            added.0,
          )
          refl,
      added.1,
      added.2,
    )
