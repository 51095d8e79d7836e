-- ===== src/Examples/Kernel.antt =====
-- The kernel's tables, queues and fields on small values.
use publisher_subscriber_ser.Base.{
  ◌+◌, ◌*◌, ◌<◌, ℕ, ◌%◌, ◌^◌, ◌≤◌, ◌≡◌, ◌≢◌, ◌⊎◌, false, none, some, [], ok, fault, refl, arith,
  debug,
}
use publisher_subscriber_ser.Memory.{Mem, set_uint32, get_uint32}
use publisher_subscriber_ser.Memory.Bytes.{get_uint32-set_uint32}
use publisher_subscriber_ser.Fsm.{FsmTable, used, init_event_proc, get_procedure}
use publisher_subscriber_ser.Fsm.Table.{bound, init_event_proc_lem}
use publisher_subscriber_ser.BuffersQueue.{create}
use publisher_subscriber_ser.BuffersQueue.Create.{Made, create_lem}

get_uint32-set_uint32_example :
    get_uint32 (set_uint32 (λ _. 0) 8 4294967298) 8 ≡ 4294967298 % 2 ^ 32
get_uint32-set_uint32_example = get_uint32-set_uint32 (λ _. 0) 8 4294967298

abbrev memory : Mem
memory = record { code = λ _. 0; next = λ _. 0; bytes = λ _. λ _. 0 }

create_lem_example :
    ((16 + 9) * 2 < 2 ^ 32 → Made (create debug 100 2 16 3 memory) memory 100 2 16 3)
    × (2 ^ 32 ≤ (16 + 9) * 2 → create debug 100 2 16 3 memory ≡ fault)
create_lem_example =
    create_lem debug 100 2 16 3 memory (omega arith) (omega arith) (omega arith)
      (λ e. absurd (omega arith))

abbrev fresh : FsmTable ℕ
fresh = record {
  num_of_states = 2;
  max_num_of_proc_per_state = 1;
  states = λ _. record { state_valid = false; branches = []; unexpected = none };
}

init_event_proc_lem_example :
    (t' : FsmTable ℕ) × (init_event_proc 0 fresh 1 5 8 ≡ ok t')
    × (get_procedure debug t' 1 5 ≡ ok (some 8))
    × ((s e : ℕ) → (s ≢ 1) ⊎ (e ≢ 5) → bound t' s e ≡ bound fresh s e)
unfolding used
init_event_proc_lem_example =
    init_event_proc_lem debug 0 fresh 1 5 8 (omega arith) refl (omega arith)
