-- ===== src/Examples/Mails.antt =====
-- A mailbox with a discarded message, beside a pool.
use publisher_subscriber_ser.Base.{
  ℕ, ◌==◌, if◌then◌else◌, List, [], ◌∷◌, some, true, false, ok, debug, refl, arith,
}
use publisher_subscriber_ser.Memory.{Ptr, Mem, get_uint16}
use publisher_subscriber_ser.Line.{no_line}
use publisher_subscriber_ser.BuffersQueue.{TBufferQue}
use publisher_subscriber_ser.MailBox.{World, get}
use publisher_subscriber_ser.FsmSystem.{FsmSystem, Automata, absent, no_automata}
use publisher_subscriber_ser.FsmSystem.Start.{turn}
use publisher_subscriber_ser.FsmSystem.Turns.{Turned, turn_lem}
use publisher_subscriber_ser.MailBox.Clean.{Stored, Got, freed, get-Got}

abbrev memory : Mem
memory = record {
  code = λ _. 0;
  next = λ p. if p == 9 then 8 else 0;
  bytes = λ p. λ i. if p == 9 then if i == 4 then 255 else if i == 5 then 127 else 0 else 0;
}

abbrev drained : TBufferQue
drained = record { line = no_line; free_buffer_count = 0; buffers_initiated = 2; locks = 0 }

-- The discarded message 9 and the message 8.
abbrev world : World
world = record {
  mem = memory;
  pool = record { queues = λ _. some drained; buffers_length = λ _. 16; class_buffer_num = 1 };
  box = record { line = record { head = 9; tail = 8 }; count = 2; locks = 0 };
}

abbrev no_buffers : ℕ → List Ptr
no_buffers _ = []

world-Stored : Stored world (9 ∷ 8 ∷ []) no_buffers
world-Stored = record {
  messages = record {
    holds = record {
      chain = (
        refl,
        (λ e. absurd (omega arith)),
        ((λ e. absurd (omega arith)), tt),
        (refl, (λ e. absurd (omega arith)), tt, refl),
      );
      tail = refl;
    };
    counted = refl;
  };
  pool = record {
    held = λ c inside. record {
      queue = drained;
      there = refl;
      buffers = record { holds = record { chain = refl; tail = refl }; counted = refl };
    };
    apart = λ c d p q ne. tt;
    classes = omega arith;
  };
  apart = λ c inside. tt;
  classes = (omega arith, (omega arith, tt));
}

get-Got_example : Got (get 3 debug world) world (8 ∷ []) (freed (λ _. 0) (9 ∷ []) no_buffers)
unfolding get_uint16
get-Got_example =
    get-Got 3 debug world (9 ∷ []) (8 ∷ []) no_buffers world-Stored (refl, tt)
      (λ e. absurd (omega arith)) (omega arith)

-- The system with that mailbox, in which no automaton does anything.
abbrev system : FsmSystem
system = record {
  office = record {
    mem = memory;
    pool = world.pool;
    post = record { mail_boxes = λ _. some world.box; mail_boxes_num = 2; released = [] };
  };
  automates = λ _. absent;
  number_of_objects = λ _. 0;
  use_free_automate_list = λ _. false;
  free_automates = λ _. no_automata;
  next = λ _. 0;
  object_id = λ _. 0;
  group = λ _. 0;
  number_of_automates = 3;
  number_of_mbx = 2;
  server_id = 4;
  free_kernel_memory = true;
  system_working = true;
}

abbrev idle : Automata
idle = record {
  initialize = λ p s. ok s;
  process = λ p msg s. ok s;
  no_free_object_procedure = λ p msg s. ok s;
}

turn_lem_example :
    Turned
      (turn 3 debug idle 1 system)
      debug
      idle
      system
      1
      (8 ∷ [])
      (freed (λ _. 0) (9 ∷ []) no_buffers)
unfolding get_uint16
turn_lem_example =
    turn_lem 3 debug idle 1 system world.box (9 ∷ []) (8 ∷ []) no_buffers (omega arith)
      (omega arith) refl world-Stored (refl, tt) (λ e. absurd (omega arith)) (omega arith)
