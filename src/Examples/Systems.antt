-- ===== src/Examples/Systems.antt =====
-- The system of automata on small values.
use publisher_subscriber_ser.Base.{
  ℕ, ◌<◌, ◌≤◌, ◌≡◌, ◌≢◌, ◌==◌, if◌then◌else◌, List, [], ◌∷◌, true, false, none, ok, thrown, aborted,
  fault, ◌>>=◌, debug, release, Build, refl, arith,
}
use publisher_subscriber_ser.Memory.{Ptr, null, update}
use publisher_subscriber_ser.Line.{Links}
use publisher_subscriber_ser.FsmSystem.{
  FsmList, FsmSystem, Automata, present, absent, deleted, no_automata, free_fsm, add_object,
  add_type, remove_type, invalid_32,
}
use publisher_subscriber_ser.FsmSystem.Start.{dispatch, discard_msg}
use publisher_subscriber_ser.FsmSystem.Lists.{IsFreeList}
use publisher_subscriber_ser.FsmSystem.Fills.{IsFilled, placed, add_object_lem}
use publisher_subscriber_ser.FsmSystem.Removes.{unused, remove_type_lem}
use publisher_subscriber_ser.FsmSystem.Routes.{to_number, dispatch_lem}

abbrev no_links : Links
no_links _ = null

-- The automaton 5 in the first of two slots of the type 1; the message 9 is for it, with the number `i`.
abbrev slots : ℕ → Ptr
slots i = if i == 0 then 5 else null

abbrev system : ℕ → FsmSystem
system i = record {
  office = record {
    mem = record {
      code = λ _. 0;
      next = no_links;
      bytes = λ p. λ k. if k == 2 then 1 else if k == 10 then i else 0;
    };
    pool = record { queues = λ _. none; buffers_length = λ _. 16; class_buffer_num = 0 };
    post = record { mail_boxes = λ _. none; mail_boxes_num = 2; released = [] };
  };
  automates = λ t. if t == 1 then present slots else absent;
  number_of_objects = λ t. if t == 1 then 2 else 0;
  use_free_automate_list = λ _. false;
  free_automates = λ _. no_automata;
  next = no_links;
  object_id = λ _. 0;
  group = λ _. 0;
  number_of_automates = 3;
  number_of_mbx = 2;
  server_id = 4;
  free_kernel_memory = true;
  system_working = true;
}

system-IsFilled : (i : ℕ) → IsFilled (system i) 1 slots 1 2
system-IsFilled i = record {
  there = refl;
  objects = refl;
  type_inside = omega arith;
  types = omega arith;
  some = omega arith;
  held = λ j less. ground arith;
  numbered = λ j less. omega (arith, less);
  free = λ j above less. ground arith;
}

-- Automata that do nothing.
abbrev idle : Automata
idle = record {
  initialize = λ p s. ok s;
  process = λ p msg s. ok s;
  no_free_object_procedure = λ p msg s. ok s;
}

add_object_lem_example :
    (1 < 2
      → (add_object debug idle 6 1 (system 0)
          ≡ (ok (placed (system 0) 1 slots 1 6) >>= free_fsm 6 1))
        × IsFilled (placed (system 0) 1 slots 1 6) 1 (update slots 1 6) 2 2)
    × (2 ≤ 1 → add_object debug idle 6 1 (system 0) ≡ thrown 0x01010200)
add_object_lem_example =
    add_object_lem debug idle 6 1 slots 1 2 (system 0) (system-IsFilled 0)
      (λ e. absurd (omega arith)) (λ i less. ground arith)

abbrev emptied : FsmSystem
emptied = record (system 0) {
  automates = update (system 0).automates 1 deleted;
  number_of_objects = update (system 0).number_of_objects 1 0;
}

remove_type_lem_example :
    ((b : Build) → remove_type b 1 (system 0) ≡ ok emptied)
    × (add_type debug idle (λ _. 0) 6 1 2 false emptied ≡ aborted)
    × (add_type release idle (λ _. 0) 6 1 2 false emptied
        ≡ add_type release idle (λ _. 0) 6 1 2 false (unused (system 0) 1))
    × (remove_type debug 1 emptied ≡ aborted)
    × (remove_type release 1 emptied ≡ fault)
remove_type_lem_example =
    remove_type_lem idle (λ _. 0) 6 1 2 false slots 1 2 (system 0) (system-IsFilled 0)
      (λ e. absurd (omega arith))

dispatch_lem_example :
    ((x : Ptr) (xs : List Ptr)
      → to_number (system 2) 9 ≡ invalid_32
      → IsFreeList no_links no_automata (x ∷ xs)
      → (links : Links) × (q : FsmList) × IsFreeList links q xs
        × (dispatch debug idle 9 (system 2)
            ≡ ok (record (system 2) {
              next = links;
              free_automates = update (λ _. no_automata) 1 q;
            })))
    × (to_number (system 2) 9 ≡ invalid_32
        → IsFreeList no_links no_automata []
        → dispatch debug idle 9 (system 2) ≡ thrown 0x21030504)
    × (to_number (system 2) 9 ≢ invalid_32
        → to_number (system 2) 9 < 1
        → to_number (system 2) 9 < 2
        → dispatch debug idle 9 (system 2) ≡ ok (system 2))
    × (to_number (system 2) 9 ≢ invalid_32
        → 1 ≤ to_number (system 2) 9
        → to_number (system 2) 9 < 2
        → dispatch debug idle 9 (system 2) ≡ fault)
    × (to_number (system 2) 9 ≢ invalid_32
        → to_number (system 2) 9 ≡ 2
        → dispatch debug idle 9 (system 2) ≡ fault)
    × (to_number (system 2) 9 ≢ invalid_32
        → 2 < to_number (system 2) 9
        → dispatch debug idle 9 (system 2) ≡ discard_msg debug 9 (system 2))
dispatch_lem_example = dispatch_lem debug idle 9 slots 1 2 (system 2) (system-IsFilled 2)
