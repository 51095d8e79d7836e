-- ===== src/Examples.antt =====
-- The theorems on concrete inputs.
mod Given
mod Requests
mod Service
mod Kernel
mod Messages
mod Timers
mod Systems
mod Automata
mod Mails
mod Start
