-- ===== src/Ktp.antt =====
-- Lab 4 Final: the KTP sockets, a sliding-window protocol over UDP. `Types` has the shared memory,
-- the other modules the library calls of ksocket.c and the threads of initksocket.c.
pub mod Types
pub mod Sockets
pub mod Send
pub mod Receive
pub mod Acks
pub mod Arrivals
pub mod Transmit
pub mod Threads
pub mod Window
pub mod Buffer
pub mod EndToEnd
pub mod Users
mod UsersExamples
mod Examples
