-- ===== src/Examples/Timers.antt =====
-- The timers on small values.
use publisher_subscriber_ser.Base.{
  ℕ, ◌-◌, ◌^◌, ◌==◌, if◌then◌else◌, List, [], ◌∷◌, some, none, refl, ◌<◌, arith, ◌>>=◌,
}
use publisher_subscriber_ser.Memory.{Ptr, Mem, get_uint32}
use publisher_subscriber_ser.Line.{no_line}
use publisher_subscriber_ser.Buffers.{TBuffers}
use publisher_subscriber_ser.MailBox.{TMailBox}
use publisher_subscriber_ser.Timer.{CTimer, start_timer, timer_int_handler, ticks}
use publisher_subscriber_ser.Timer.Delta.{Waiting}
use publisher_subscriber_ser.Timer.Sent.{Running}
use publisher_subscriber_ser.Timer.OnTime.{Delivered, start_timer-run_ticks}
use publisher_subscriber_ser.Timer.Handler.{Elapsed, timer_int_handler-underflow}
use publisher_subscriber_ser.Timer.Served.{Served, run_ticks, run_ticks-Served}
use publisher_subscriber_ser.Timer.Starts.{Started, start_timer-Started}

-- The timers 1 and 2, with `k` ticks and 2 more, behind the dummy message 9.
abbrev memory : ℕ → Mem
memory k = record {
  code = λ _. 0;
  next = λ p. if p == 9 then 1 else if p == 1 then 2 else 0;
  bytes = λ p. λ i. if i == 6 then if p == 1 then k else if p == 2 then 2 else 0 else 0;
}

abbrev empty_box : TMailBox
empty_box = record { line = no_line; count = 0; locks = 0 }

abbrev no_buffers : TBuffers
no_buffers = record { queues = λ _. none; buffers_length = λ _. 16; class_buffer_num = 0 }

abbrev pub timer : ℕ → CTimer
timer k = record {
  office = record {
    mem = memory k;
    pool = no_buffers;
    post = record { mail_boxes = λ _. some empty_box; mail_boxes_num = 2; released = [] };
  };
  head = 9;
  locks = 0;
  timer_resolution = 10;
}

abbrev waiting : ℕ → List Waiting
waiting k = record { timer = 1; wait = k } ∷ record { timer = 2; wait = 2 } ∷ []

abbrev pub no_messages : ℕ → List Ptr
no_messages _ = []

pub timer-Running : (k : ℕ) → k < 256 → Running (timer k) (waiting k) no_messages
unfolding get_uint32
timer-Running k small = record {
  list = record {
    delta = record {
      chain = (
        refl,
        (λ e. absurd (omega arith)),
        ((λ e. absurd (omega arith)), tt),
        (refl, (λ e. absurd (omega arith)), tt, refl),
      );
      counts = (omega arith, (refl, tt));
      small = (omega (arith, small), (omega arith, tt));
    };
    dummy = refl;
    live = λ e. absurd (omega arith);
    outside = ((λ e. absurd (omega arith)), ((λ e. absurd (omega arith)), tt));
  };
  office = record {
    held = λ id inside. record {
      box = empty_box;
      there = refl;
      messages = record { holds = record { chain = refl; tail = refl }; counted = refl };
    };
    apart = λ i j p q ne. tt;
  };
  apart = λ id inside. tt;
  addressed = (omega arith, (omega arith, tt));
}

run_ticks-Served_example : Served (run_ticks 4 5 (timer 3)) 4 (timer 3) (waiting 3) no_messages
run_ticks-Served_example =
    run_ticks-Served 4 5 (timer 3) (waiting 3) no_messages (timer-Running 3 (omega arith))
      (omega arith) (omega arith)

start_timer-Started_example :
    Started
      (start_timer 8 3 1 4 10 (timer 3))
      (timer 3)
      3
      1
      (ticks (timer 3) 4 10)
      (waiting 3)
      no_messages
start_timer-Started_example =
    start_timer-Started 8 3 1 4 10 (timer 3) (waiting 3) no_messages (timer-Running 3 (omega arith))
      (record {
        live = λ e. absurd (omega arith);
        apart = λ e. absurd (omega arith);
        out = ((λ e. absurd (omega arith)), ((λ e. absurd (omega arith)), tt));
        unsent = λ id inside. tt;
        inside = omega arith;
        byte = omega arith;
      })
      (λ e. absurd (omega arith)) (omega arith)

start_timer-run_ticks_example :
    Delivered
      (start_timer 8 3 1 4 10 (timer 3) >>= run_ticks 4 8)
      4
      (ticks (timer 3) 4 10)
      (timer 3)
      3
      1
start_timer-run_ticks_example =
    start_timer-run_ticks 4 8 3 1 4 10 (timer 3) (waiting 3) no_messages
      (timer-Running 3 (omega arith)) (omega arith)
      (record {
        live = λ e. absurd (omega arith);
        apart = λ e. absurd (omega arith);
        out = ((λ e. absurd (omega arith)), ((λ e. absurd (omega arith)), tt));
        unsent = λ id inside. tt;
        inside = omega arith;
        byte = omega arith;
      })
      (λ e. absurd (omega arith)) (omega arith) (omega arith)

timer_int_handler-underflow_example :
    Elapsed
      (timer_int_handler 5 (timer 0))
      (timer 0)
      (record { timer = 1; wait = 2 ^ 32 - 1 } ∷ record { timer = 2; wait = 2 } ∷ [])
      no_messages
timer_int_handler-underflow_example =
    timer_int_handler-underflow 5 (timer 0) (record { timer = 1; wait = 0 })
      (record { timer = 2; wait = 2 } ∷ []) no_messages (timer-Running 0 (omega arith)) refl
      (omega arith)
