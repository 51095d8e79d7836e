-- ===== src/FsmSystem/Kernel.antt =====
-- `FSMSystem::InitKernel`: the pool, the mailboxes and the timers are made, and the timers run beside
-- empty mailboxes.
use publisher_subscriber_ser.Base.{
  ℕ, zero, suc, ◌+◌, ◌%◌, ◌<◌, ◌≤◌, ◌≡◌, ◌≢◌, refl, ap, ◌∙◌, [], arith, Option, some, none, ok, Run,
  ◌>>=◌, Build, ◌==◌, ne→==, true, Bool-cases, inl, inr, ==→eq, ==→ne,
}
use publisher_subscriber_ser.Memory.{Ptr, null, Mem, update}
use publisher_subscriber_ser.Line.{no_line}
use publisher_subscriber_ser.Buffers
use publisher_subscriber_ser.Buffers.{TBuffers}
use publisher_subscriber_ser.MailBox
use publisher_subscriber_ser.MailBox.{TMailBox}
use publisher_subscriber_ser.PostOffice
use publisher_subscriber_ser.PostOffice.{TPostOffice, Office, create_boxes}
use publisher_subscriber_ser.Timer
use publisher_subscriber_ser.Timer.{CTimer, count, set_count, link}
use publisher_subscriber_ser.Timer.Chain.{count-set_count, next-set_count, update_self, update_ne}
use publisher_subscriber_ser.Timer.Sent.{Running}
use publisher_subscriber_ser.FsmSystem.{FsmSystem}

-- `bases` are the addresses of the memory for the buffers, and `head` that of the timers' dummy message.
unfoldable pub init_kernel :
    Build
    → (bases : ℕ → Ptr) (head : Ptr) (buff_class_no : ℕ)
      (buffers_count buffers_length : Option (ℕ → ℕ)) (num_of_mbxs timer_res : ℕ)
    → FsmSystem
    → Run (FsmSystem × CTimer)
init_kernel b bases head buff_class_no buffers_count buffers_length num_of_mbxs timer_res s = do
  r ← Buffers.create b bases buff_class_no buffers_count buffers_length s.office.mem
  post ← PostOffice.create ((s.number_of_mbx + num_of_mbxs) % 256) (some r.1)
  t ← Timer.create head timer_res r.0 (some r.1) (some post)
  ok (record s { office = t.office; free_kernel_memory = true }, t)

abbrev empty_box : TMailBox
empty_box = record { line = no_line; count = 0; locks = 0 }

-- The mailboxes from `i` on are made, and the others stay.
record Made (run : Run TPostOffice) (rounds i : ℕ) (p : TPostOffice) : Type 0 where
  post : TPostOffice
  returns : run ≡ ok post
  num : post.mail_boxes_num ≡ p.mail_boxes_num
  made : (k : ℕ) → i ≤ k → k < i + rounds → post.mail_boxes k ≡ some empty_box
  kept : (k : ℕ) → k < i → post.mail_boxes k ≡ p.mail_boxes k

box_created : (pool : TBuffers) → MailBox.create (some pool) ≡ ok empty_box
unfolding MailBox.create
box_created pool = refl

create_boxes-Made :
    (rounds i : ℕ) (pool : TBuffers) (p : TPostOffice)
    → Made (create_boxes rounds i (some pool) p) rounds i p
unfolding create_boxes
create_boxes-Made zero i pool p = record {
  post = p;
  returns = refl;
  num = refl;
  made = λ k low high. absurd (omega (arith, low, high));
  kept = λ k below. refl;
}
create_boxes-Made (suc rounds) i pool p =
    let h =
      create_boxes-Made rounds (i + 1) pool
        (record p { mail_boxes = update p.mail_boxes i (some empty_box) }) in
    record {
      post = h.post;
      returns = rw (create_boxes, box_created pool, ◌>>=◌) h.returns;
      num = h.num;
      made = λ k low high. elim (Bool-cases (k == i)) [
        | inl e ↦
            let same = ==→eq k i e in
            h.kept k (omega (arith, same))
            ∙ ap (update p.mail_boxes i (some empty_box)) same
            ∙ update_self p.mail_boxes i (some empty_box)
        | inr e ↦ let ne = ==→ne k i e in h.made k (omega (arith, low, ne)) (omega (arith, high))
      ];
      kept = λ k below.
          h.kept k (omega (arith, below))
          ∙ update_ne p.mail_boxes i k (some empty_box) (omega (arith, below));
    }

post_office-Made :
    (n : ℕ) (pool : TBuffers)
    → n ≢ 0
    → Made
        (PostOffice.create n (some pool))
        n
        0
        (record { mail_boxes = λ _. none; mail_boxes_num = n; released = [] })
unfolding PostOffice.create
post_office-Made n pool ne =
    let h =
      create_boxes-Made n 0 pool
        (record { mail_boxes = λ _. none; mail_boxes_num = n; released = [] }) in
    record {
      post = h.post;
      returns = rw (PostOffice.create, ne→== n 0 ne, ◌>>=◌) h.returns;
      num = h.num;
      made = h.made;
      kept = h.kept;
    }

-- The timers as they are made.
abbrev timer_of : (head : Ptr) (timer_res : ℕ) → Mem → TBuffers → TPostOffice → CTimer
timer_of head timer_res m pool post = record {
  office = record { mem = set_count (link m head null) head 0; pool = pool; post = post };
  head = head;
  locks = 0;
  timer_resolution = timer_res;
}

timer_of-Running :
    (head : Ptr) (timer_res : ℕ) (m : Mem) (pool : TBuffers) (post : TPostOffice)
    → head ≢ null
    → ((k : ℕ) → k < post.mail_boxes_num → post.mail_boxes k ≡ some empty_box)
    → Running (timer_of head timer_res m pool post) [] (λ _. [])
timer_of-Running head timer_res m pool post live made = record {
  list = record {
    delta = record {
      chain =
          ap (λ n. n head) (next-set_count (link m head null) head 0)
          ∙ update_self m.next head null;
      counts = tt;
      small = tt;
    };
    dummy = count-set_count (link m head null) head 0 (omega arith);
    live = live;
    outside = tt;
  };
  office = record {
    held = λ id inside. record {
      box = empty_box;
      there = made id inside;
      messages = record { holds = record { chain = refl; tail = refl }; counted = refl };
    };
    apart = λ i j p q ne. tt;
  };
  apart = λ id inside. tt;
  addressed = tt;
}

-- What `InitKernel` makes.
pub record Initialized (run : Run (FsmSystem × CTimer)) (s : FsmSystem) (mbxs : ℕ) (pool : TBuffers)
    : Type 0 where
  pub timer : CTimer
  pub returns : run ≡ ok (record s { office = timer.office; free_kernel_memory = true }, timer)
  pub running : Running timer [] (λ _. [])
  pub boxes : timer.office.post.mail_boxes_num ≡ mbxs
  pub buffers : timer.office.pool ≡ pool

-- Where the pool can be made and the number of mailboxes, which is taken modulo 256, is not zero:
-- the call ends with that many mailboxes, all empty, with no timer running beside them and the lists
-- as the timers need them, and with the pool.
pub init_kernel_lem :
    (b : Build) (bases : ℕ → Ptr) (head : Ptr) (buff_class_no : ℕ)
    (buffers_count buffers_length : Option (ℕ → ℕ)) (num_of_mbxs timer_res : ℕ) (s : FsmSystem)
    (m : Mem) (pool : TBuffers)
    → Buffers.create b bases buff_class_no buffers_count buffers_length s.office.mem ≡ ok (m, pool)
    → (s.number_of_mbx + num_of_mbxs) % 256 ≢ 0
    → head ≢ null
    → Initialized
        (init_kernel b bases head buff_class_no buffers_count buffers_length num_of_mbxs timer_res
          s)
        s
        ((s.number_of_mbx + num_of_mbxs) % 256)
        pool
unfolding init_kernel Timer.create
init_kernel_lem b bases head buff_class_no buffers_count buffers_length num_of_mbxs timer_res s m
      pool made ne live =
    let h = post_office-Made ((s.number_of_mbx + num_of_mbxs) % 256) pool ne in
    record {
      timer = timer_of head timer_res m pool h.post;
      returns = rw (init_kernel, made, ◌>>=◌, h.returns, ◌>>=◌) refl;
      running =
          timer_of-Running head timer_res m pool h.post live
            (λ k inside. h.made k (omega arith) (omega (arith, inside, h.num)));
      boxes = h.num;
      buffers = refl;
    }
