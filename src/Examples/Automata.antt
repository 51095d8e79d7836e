-- ===== src/Examples/Automata.antt =====
-- An automaton that sends messages and keeps timers, on small values.
use publisher_subscriber_ser.Base.{ℕ, ◌<◌, ◌==◌, if◌then◌else◌, true, debug, refl, arith}
use publisher_subscriber_ser.Memory.{null}
use publisher_subscriber_ser.KernelApi.{
  KernelApi, send_message_left, send_message_right, return_msg,
}
use publisher_subscriber_ser.KernelApi.Sends.{Sendable, Sent, sender, partners_lem, return_msg_lem}
use publisher_subscriber_ser.Messages.{get_msg_call_id}
use publisher_subscriber_ser.FsmTimers.{FiniteStateMachine, reset}
use publisher_subscriber_ser.FsmTimers.Reset.{Resets, reset_lem}
use publisher_subscriber_ser.Examples.Timers.{timer, timer-Running, no_messages}

-- The automaton of the mailbox 0, with the new message 5 and the current message 6.
abbrev api : KernelApi
api = record {
  timer = timer 3;
  own = record { mbx = 0; automate = 2; group = 1; object_id = 7 };
  left = record { mbx = 1; automate = 3; group = 1; object_id = 8 };
  right = record { mbx = 0; automate = 4; group = 1; object_id = 9 };
  call_id = 11;
  default_param_coding = 0;
  timer_resolution = 10;
  current_message = 6;
  new_message = 5;
}

api-Sendable : (mbx : ℕ) → mbx < 2 → Sendable api mbx no_messages
api-Sendable mbx less = record {
  holds = (timer-Running 3 (omega arith)).office;
  inside = less;
  message = λ e. absurd (omega arith);
  unsent = λ id inside. tt;
}

partners_lem_example :
    Sent (send_message_left api) api 1 api.left 11 no_messages
    × Sent (send_message_right api) api 0 api.right 11 no_messages
partners_lem_example =
    partners_lem api no_messages (api-Sendable 1 (omega arith)) (api-Sendable 0 (omega arith))

return_msg_lem_example :
    Sent (return_msg 1 api) api 1 (sender api) (get_msg_call_id (timer 3).office.mem 6) no_messages
return_msg_lem_example =
    return_msg_lem api 1 no_messages (api-Sendable 1 (omega arith)) (λ e. absurd (omega arith))
      (λ e. absurd (omega arith))

-- Its timer 0 runs in the buffer 1, and its timer 1 does not.
abbrev machine : FiniteStateMachine
machine = record {
  api = api;
  num_of_timers = 2;
  timer_store = λ i. record {
    count = 3;
    signal_id = 20;
    valid = true;
    timer_buffer = if i == 0 then 1 else null;
  };
  state = 4;
}

reset_lem_example : Resets (reset 0 debug machine) debug machine 0
reset_lem_example = reset_lem 0 debug machine (λ i less. refl)
