-- ===== src/BuffersQueue/Create.antt =====
-- A queue that has just been made holds as many buffers as were asked for, at their addresses.
use publisher_subscriber_ser.Base.{
  ℕ, zero, suc, ◌+◌, ◌*◌, ◌%◌, ◌^◌, ◌≤◌, ◌<◌, ◌≡◌, ◌≢◌, ◌∙◌, refl, List, [], ◌∷◌, ◌++◌, All, arith,
  length, Run, ok, Build, ne→==, fault, le→leb,
}
use mathlib.Core.List.{append-nil, append_assoc}
use mathlib.Core.Path.{subst}
use publisher_subscriber_ser.Memory.{Ptr, null, Mem, update}
use publisher_subscriber_ser.Line.{Out, Seg, no_line}
use publisher_subscriber_ser.Line.Laws.{frame}
use publisher_subscriber_ser.BuffersQueue.{
  TBufferQue, put_on_tail, buff_header_length, cut, create, mem_size,
}
use publisher_subscriber_ser.BuffersQueue.Laws.{IsQueue, add_lem, put_on_tail-frame}
use publisher_subscriber_ser.BuffersQueue.Short.{cut-short, mem_size-fits, mem_size-short}

-- The addresses of `n` buffers that lie behind one another from `tmp` on.
unfoldable pub slots : ℕ → Ptr → ℕ → List Ptr
slots zero tmp length = []
slots (suc n) tmp length =
    (tmp + buff_header_length) ∷ slots n (tmp + buff_header_length + length) length

pub length-slots : (n tmp len : ℕ) → length (slots n tmp len) ≡ n
unfolding slots
length-slots zero tmp len = refl
length-slots (suc n) tmp len = omega (arith, length-slots n (tmp + 9 + len) len)

Out-below : (p : Ptr) (xs : List Ptr) → All (λ x. x < p) xs → Out p xs
Out-below p [] h = tt
Out-below p (x ∷ xs) h = (omega arith, Out-below p xs h.1)

below-append :
    (p q : Ptr) (xs : List Ptr) → p < q → All (λ x. x < p) xs → All (λ x. x < q) (xs ++ p ∷ [])
below-append p q [] le h = (le, tt)
below-append p q (x ∷ xs) le h = (omega arith, below-append p q xs le h.1)

All-last : (P : Ptr → Type 0) (xs : List Ptr) (p : Ptr) → All P xs → P p → All P (xs ++ p ∷ [])
All-last P [] p h hp = (hp, tt)
All-last P (x ∷ xs) p h hp = (h.0, All-last P xs p h.1 hp)

-- What the loop has made when it starts at `tmp` with a queue `q` of `xs`.
record Cut (m : Mem) (q : TBufferQue) (n tmp len code : ℕ) (xs : List Ptr) (r : Mem × TBufferQue)
    : Type 0 where
  queue : IsQueue r.0 r.1 (xs ++ slots n tmp len)
  coded : All (λ p. r.0.code p ≡ code % 256) (slots n tmp len)
  kept : (p : Ptr) → p < tmp + buff_header_length → r.0.code p ≡ m.code p
  locks : r.1.locks ≡ q.locks
  frame :
      (a : Ptr) (zs : List Ptr)
      → Seg m.next a zs
      → All (λ x. Out x zs) xs
      → All (λ x. Out x zs) (slots n tmp len)
      → Seg r.0.next a zs
  same : (p : Ptr) → Out p (slots n tmp len) → r.0.code p ≡ m.code p
  initiated : r.1.buffers_initiated ≡ q.buffers_initiated

code-put_on_tail : (m : Mem) (q : TBufferQue) (p : Ptr) → (put_on_tail m q p).0.code ≡ m.code
unfolding put_on_tail
code-put_on_tail m q p = refl

initiated-put_on_tail :
    (m : Mem) (q : TBufferQue) (p : Ptr)
    → (put_on_tail m q p).1.buffers_initiated ≡ q.buffers_initiated
unfolding put_on_tail
initiated-put_on_tail m q p = refl

step_fits :
    (tmp len n limit : ℕ) → tmp + (len + 9) * suc n ≤ limit → tmp + 9 + len + (len + 9) * n ≤ limit
step_fits tmp len n limit h = grind arith

cut-Cut :
    (b : Build) (limit : Ptr) (n tmp len code : ℕ) (m : Mem) (q : TBufferQue) (xs : List Ptr)
    → 0 < len
    → tmp + (len + 9) * n ≤ limit
    → IsQueue m q xs
    → All (λ x. x < tmp + buff_header_length) xs
    → (r : Mem × TBufferQue) × (cut b limit n tmp len code m q ≡ ok r) × Cut m q n tmp len code xs r
unfolding cut slots update
cut-Cut b limit zero tmp len code m q xs pos fits is below = (
  (m, q),
  refl,
  record {
    queue = rw append-nil is;
    coded = tt;
    kept = λ p h. refl;
    locks = refl;
    frame = λ a zs seg h h'. seg;
    same = λ p h. refl;
    initiated = refl;
  },
)
cut-Cut b limit (suc n) tmp len code m q xs pos fits is below =
    let p : Ptr = tmp + buff_header_length in
    let m' : Mem = record m { code = update m.code p (code % 256); next = update m.next p null } in
    let out : Out p xs = Out-below p xs below in
    let chain = frame m.next q.line.head p null xs is.holds.chain out in
    let is' : IsQueue m' q xs = record {
      holds = record { chain = chain; tail = is.holds.tail };
      counted = is.counted;
    } in
    let added = add_lem b m' q xs p is' (omega arith) out in
    let s = put_on_tail m' q p in
    let below' = below-append p (p + len + buff_header_length) xs (omega arith) below in
    let next : p + len + (len + 9) * n ≤ limit = step_fits tmp len n limit fits in
    let (r, runs, rest) =
      cut-Cut b limit n (p + len) len code s.0 s.1 (xs ++ p ∷ []) pos next added.1 below' in
    (
      r,
      rw (le→leb p limit (omega (arith, next)), added.0) runs,
      record {
        queue =
            subst (IsQueue r.0 r.1) (append_assoc xs (p ∷ []) (slots n (p + len) len)) rest.queue;
        coded = (ground (arith, rest.kept p, code-put_on_tail m' q p), rest.coded);
        kept = λ a h. ground (arith, rest.kept a, code-put_on_tail m' q p);
        locks = rest.locks ∙ added.2;
        frame = λ a zs seg h h'.
            rest.frame a zs
              (put_on_tail-frame m' q xs p a zs is' (frame m.next a p null zs seg h'.0) h'.0 h)
              (All-last (λ x. Out x zs) xs p h h'.0) h'.1;
        same = λ a h. ground (arith, rest.same a h.1, h.0, code-put_on_tail m' q p);
        initiated = rest.initiated ∙ initiated-put_on_tail m' q p;
      },
    )

-- The program makes a queue of `n` buffers in the order of their addresses from `base` on, each
-- with the class code `code`; the lists of other buffers, and their class codes, stay.
pub record Made (run : Run (Mem × TBufferQue)) (m : Mem) (base : Ptr) (n len code : ℕ)
    : Type 0 where
  pub result : Mem × TBufferQue
  pub returns : run ≡ ok result
  pub queue : IsQueue result.0 result.1 (slots n base len)
  pub coded : All (λ p. result.0.code p ≡ code % 256) (slots n base len)
  pub counted : length (slots n base len) ≡ n
  pub locks : result.1.locks ≡ 0
  pub frame :
      (a : Ptr) (zs : List Ptr)
      → Seg m.next a zs
      → All (λ x. Out x zs) (slots n base len)
      → Seg result.0.next a zs
  pub same : (p : Ptr) → Out p (slots n base len) → result.0.code p ≡ m.code p

-- The constructor is given at least one buffer of at least one byte, the length below 2^32, and
-- an address for the memory. Where `buffers_no * (buffer_length + 9)` is below 2^32, it makes a
-- queue of `buffers_no` buffers in the order of their addresses, each with the class code
-- `buffer_code`; its lock is free, and no list of other buffers and no other class code changes.
-- From 2^32 on the size of the memory has wrapped, and it writes behind the memory.
pub create_lem :
    (b : Build) (base : Ptr) (buffers_no buffer_length code : ℕ) (m : Mem)
    → 0 < buffers_no
    → 0 < buffer_length
    → buffer_length < 2 ^ 32
    → base ≢ null
    → ((buffer_length + 9) * buffers_no < 2 ^ 32
        → Made (create b base buffers_no buffer_length code m) m base buffers_no buffer_length code)
      × (2 ^ 32 ≤ (buffer_length + 9) * buffers_no
          → create b base buffers_no buffer_length code m ≡ fault)
unfolding create
create_lem b base zero len code m pos pos' small ne = absurd (omega arith)
create_lem b base (suc n) len code m pos pos' small ne =
    let q : TBufferQue = record {
      line = no_line;
      free_buffer_count = 0;
      buffers_initiated = suc n;
      locks = 0;
    } in
    let limit = base + mem_size (suc n) len in
    let start : IsQueue m q [] = omega arith in
    let some = ne→== (suc n) 0 (omega arith) in
    let long = ne→== len 0 (omega arith) in
    let there = ne→== base null ne in
    (
      λ h.
          let (r, runs, made) =
            cut-Cut b limit (suc n) base len code m q [] pos'
              (omega (arith, mem_size-fits (suc n) len pos h)) start tt in
          record {
            result = r;
            returns = rw (some, long, there) runs;
            queue = made.queue;
            coded = made.coded;
            counted = length-slots (suc n) base len;
            locks = made.locks;
            frame = λ a zs seg h. made.frame a zs seg tt h;
            same = made.same;
          },
      λ h.
          rw (some, long, there)
            (cut-short b limit n base len code m q (omega (arith, mem_size-short n len small h))),
    )
