-- ===== src/Lib.antt =====
-- The publisher-subscriber server of this repository and the kernel that its automaton runs on
-- (`Publisher Subscriber server/Publisher_Subscriber_server`; its `Kernel` and
-- `POP3ClientCppUnit` folders are meant below).
--
-- The server is one automaton, ChAuto (`POP3ClientCppUnit/ChAuto.cpp`). It receives a datagram
-- (`FSM_Ch_Idle_Cl_Connected`), looks at it (`FSM_Ch_Store_Data_SubPub`) and answers it
-- (`FSM_Ch_Share_Topic_Data`, `FSM_Ch_Share_All_Topics`, `FSM_Ch_Publish_ACK`), and goes from one to
-- the next by messages to itself, which the kernel dispatches through the automaton's table of event
-- procedures (`Kernel/fsm.cpp`). Its state is a handful of globals: the texts of the topics, an array
-- of pointers to them and their number.
--
-- - Base: shared names, Boolean tests, lists over the native numbers, and `Run`, how a C++ function
--   ends: a result, a thrown error, a failed assert, an access out of bounds, or no more fuel.
-- - Memory: bytes and addresses, `Kernel/KernelFunctions.cpp`. Line: the linked list with head and
--   tail that the queues share. Text: C strings in arrays of a size, the loops over them.
-- - Fsm: the table of `FiniteStateMachine` (`InitEventProc`, `InitUnexpectedEventProc`,
--   `GetProcedure`). BuffersQueue: `Kernel/buffersQueue.cpp` (Create and Short are its constructor).
--   Buffers: the pool over these queues, `Kernel/buffers.cpp` (Rearrange, Sort and Constructor are
--   its constructor, Stock and Take the loop of `GetBuffer`, Lookup the search before it and
--   `RetBuffer`). MailBox and PostOffice: the messages on their way, `Kernel/mailbox.cpp` and
--   `Kernel/postOffice.cpp`. Params: the parameters of a message, `Kernel/stdMsgpc16pl16.cpp`.
-- - Timer: the timers in their delta list, `Kernel/timer.cpp` (Delta and Elapse are that list on its
--   own, Steps to Adds what `Add` does, Sent to Served the handler of the ticks, Starts and OnTime
--   `StartTimer`). FsmSystem: the automata of each type and the loop that gives them their messages,
--   `Kernel/fsmSystem.cpp`; what an automaton does is a parameter there (Kernel is `InitKernel`, Fills and
--   Removes are `Add` and `Remove`, Routes and Turns are the loop of `Start`).
-- - Messages: the fields of a message's header, `Kernel/messages.h`. KernelApi: what an automaton
--   sends and starts, `Kernel/kernelAPI.cpp`. FsmTimers: the timers that an automaton keeps,
--   `Kernel/fsm.cpp`.
-- - Channel: ChAuto. `Channel.Channel` is its globals; Topics says when they hold a list of topics;
--   Store is the handler of a request (`publish`, `subscribe`, `store_data_sub_pub`), Share the
--   three replies, Machine the table (`initialize`), the start and the rounds of the loop, and
--   Protocol what the server offers, without its memory and messages.
-- - Examples: the theorems on concrete inputs.
--
-- Loops over strings take their fuel from the size of the array that is read, so that running out
-- of it means that the code had left the array; `copy_ack` takes one round more than the size.
-- `MailBox.get`, `MailBox.purge` and the searches of Params take their fuel as an argument: one round
-- more than there are messages or parameters is enough. The handler of the timers needs one round
-- more than there are timers, `Timer.add` two.
-- The winsock library is outside: what recvfrom brings and whether a call succeeds are arguments,
-- as is what an uninitialised array on the stack holds. The memory that `new` gives is an address
-- (`base`, `bases`), and a header written behind it is a fault. Output by printf, the log, threads, the
-- network automata, which the server does not use, and the vendored CppUnit are not modelled;
-- nor yet are the destructor of FSMSystem (`Kernel/fsmSystem.cpp`) and the
-- messages with one-byte parameter codes (`Kernel/standardMsg.cpp`).
pub mod Base
pub mod Memory
pub mod Line
pub mod Text
pub mod Fsm
pub mod Channel
pub mod BuffersQueue
pub mod Examples
pub mod Buffers
pub mod MailBox
pub mod PostOffice
pub mod Params
pub mod Timer
pub mod FsmSystem
pub mod Messages
pub mod KernelApi
pub mod FsmTimers
