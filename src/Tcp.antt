-- ===== src/Tcp.antt =====
-- kernel/tcp.h and kernel/tcp.cpp: TCP sockets. `State` has the sockets, `Send` what goes out,
-- `Receive` what the interrupt does with a segment that comes in, and `Calls` the calls of the
-- programs. What the card and the heap answer is the argument of type `Env`.
pub mod State
pub mod Send
pub mod Receive
pub mod Calls
pub mod Buffer
pub mod Diagram
pub mod Machine
pub mod Received
mod Tests
