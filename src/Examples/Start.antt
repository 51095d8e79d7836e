-- ===== src/Examples/Start.antt =====
-- The kernel when it starts, with one class of two buffers.
use publisher_subscriber_ser.Base.{
  ℕ, zero, suc, ◌+◌, ◌*◌, ◌<◌, ◌^◌, ◌≢◌, refl, All, ◌==◌, if◌then◌else◌, ◌≡◌, ap, [], none, some,
  false, ok, debug, arith, ◌>>=◌, Run,
}
use publisher_subscriber_ser.Memory.{Ptr, null, Mem, update}
use publisher_subscriber_ser.Buffers
use publisher_subscriber_ser.Buffers.{
  TBuffers, Classes, create_queues, sort_classes, sort_from, sort_pair,
}
use publisher_subscriber_ser.Buffers.Constructor.{block, Blocks, Pooled, create-Pooled}
use publisher_subscriber_ser.Line.{Out}
use publisher_subscriber_ser.BuffersQueue
use publisher_subscriber_ser.BuffersQueue.{TBufferQue}
use publisher_subscriber_ser.BuffersQueue.Create.{slots, Made, create_lem}
use publisher_subscriber_ser.FsmSystem.{FsmSystem, absent, no_automata}
use publisher_subscriber_ser.FsmSystem.Kernel.{init_kernel, Initialized, init_kernel_lem}

abbrev memory : Mem
memory = record { code = λ _. 0; next = λ _. 0; bytes = λ _. λ _. 0 }

abbrev system : FsmSystem
system = record {
  office = record {
    mem = memory;
    pool = record { queues = λ _. none; buffers_length = λ _. 0; class_buffer_num = 0 };
    post = record { mail_boxes = λ _. none; mail_boxes_num = 0; released = [] };
  };
  automates = λ _. absent;
  number_of_objects = λ _. 0;
  use_free_automate_list = λ _. false;
  free_automates = λ _. no_automata;
  next = λ _. 0;
  object_id = λ _. 0;
  group = λ _. 0;
  number_of_automates = 3;
  number_of_mbx = 2;
  server_id = 4;
  free_kernel_memory = false;
  system_working = false;
}

abbrev made : Made (BuffersQueue.create debug 100 2 16 0 memory) memory 100 2 16 0
made =
    (create_lem debug 100 2 16 0 memory (omega arith) (omega arith) (omega arith)
        (λ e. absurd (omega arith))).0
      (omega arith)

abbrev queue : Mem × TBufferQue
queue = made.result

abbrev pool : TBuffers
pool = record {
  queues = update (λ _. none) 0 (some queue.1);
  buffers_length = update (λ _. 0) 0 16;
  class_buffer_num = 1;
}

pool_made :
    Buffers.create debug (λ _. 100) 1 (some (λ _. 2)) (some (λ _. 16)) memory ≡ ok (queue.0, pool)
unfolding Buffers.create create_queues sort_classes
pool_made =
    ap
      (λ (r : Run (Mem × TBufferQue)). r >>= λ r. ok (
        r.0,
        record {
          queues = update (λ _. none) 0 (some r.1);
          buffers_length = update (λ _. 0) 0 16;
          class_buffer_num = 1;
        },
      ))
      made.returns

init_kernel_lem_example :
    Initialized
      (init_kernel debug (λ _. 100) 9 1 (some (λ _. 2)) (some (λ _. 16)) 1 10 system)
      system
      3
      pool
init_kernel_lem_example =
    init_kernel_lem debug (λ _. 100) 9 1 (some (λ _. 2)) (some (λ _. 16)) 1 10 system queue.0 pool
      pool_made (λ e. absurd (omega arith)) (λ e. absurd (omega arith))

-- Two classes, the longer one first, and memory for them in the order of their lengths.
abbrev classes : Classes
classes = record { lengths = λ k. if k == 0 then 64 else 16; counts = λ k. if k == 0 then 1 else 2 }

abbrev bases : ℕ → Ptr
bases k = if k == 0 then 100 else 1000

both : (P : ℕ → Type 0) → P 0 → P 1 → (k : ℕ) → k < 2 → P k
both P a b zero h = a
both P a b (suc zero) h = b
both P a b (suc (suc k)) h = absurd (omega arith)

classes-Blocks : Blocks bases 2 (sort_classes 1 0 classes)
unfolding sort_classes sort_from sort_pair update slots
classes-Blocks =
    let a = sort_classes 1 0 classes in
    record {
      counted = both (λ k. 0 < a.counts k) (omega arith) (omega arith);
      sized = both (λ k. 0 < a.lengths k) (omega arith) (omega arith);
      small = both (λ k. a.lengths k < 2 ^ 32) (omega arith) (omega arith);
      fits = both (λ k. (a.lengths k + 9) * a.counts k < 2 ^ 32) (omega arith) (omega arith);
      live = both (λ k. bases k ≢ null) (λ e. absurd (omega arith)) (λ e. absurd (omega arith));
      apart = λ i j p q.
          both (λ i. (j : ℕ) → j < 2 → i ≢ j → All (λ x. Out x (block bases a j)) (block bases a i))
            (both (λ j. 0 ≢ j → All (λ x. Out x (block bases a j)) (block bases a 0))
              (λ ne. absurd (ne refl))
              (λ ne. (((λ e. absurd (omega arith)), tt), (((λ e. absurd (omega arith)), tt), tt))))
            (both (λ j. 1 ≢ j → All (λ x. Out x (block bases a j)) (block bases a 1))
              (λ ne. (((λ e. absurd (omega arith)), ((λ e. absurd (omega arith)), tt)), tt))
              (λ ne. absurd (ne refl)))
            i p j q;
    }

create-Pooled_example :
    Pooled
      (Buffers.create debug bases 2 (some classes.counts) (some classes.lengths) memory)
      bases
      2
      classes
create-Pooled_example =
    create-Pooled debug bases 2 classes.counts classes.lengths memory (omega arith) (omega arith)
      classes-Blocks
