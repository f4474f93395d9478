-- ===== src/Lib.antt =====
-- Assignments in computer networks: eight programs and what makes each of them correct.
--
-- 1. KTP, a reliable message protocol over UDP (Lab 4 Final). A process calls k_socket, k_bind,
--    k_sendto, k_recvfrom and k_close of ksocket.c on entries in shared memory; initksocket.c
--    serves the entries with thread R (arrivals), thread S (sending and timeouts), a garbage
--    collector and a loop that binds.
--      Ktp/Types         ksocket.h: the entry, the windows, the three semaphores
--      Ktp/Sockets       k_socket, k_bind, k_close, init_ksocket, the bind loop, garbage_collector
--      Ktp/Send          k_sendto, the frame of a message
--      Ktp/Receive       k_recvfrom
--      Ktp/Acks          thread R on an ACK
--      Ktp/Arrivals      thread R on a data message, and its round over the sockets
--      Ktp/Transmit      thread S: retransmission and first transmission
--      Ktp/Threads       the passes of both threads
--      Ktp/Window        the sender's invariant: which messages are queued, and in which slots;
--                        Ktp/Window/History takes the steps of the sender in any order, of which
--                        Ktp/Window/Steps and Ktp/Window/InUse say what each does
--      Ktp/Buffer        the receiver's invariant: slots, numbers and the room advertised
--      Ktp/EndToEnd      a message from one application to the other
--      Ktp/Users         user1.c and user2.c, by what the calls return
--    sem_wait on a semaphore at 0 ends with `blocked`, an index outside an array with `fault`. What
--    the system calls answer (sem_open, getpid, the time, the datagrams that arrive, which of them
--    dropMessage drops) are arguments. Numbers are bytes without 0: 255 of them, ten slots. The
--    loops that go from number to number in a ring have fuel: 256 rounds, or 257 where a test comes
--    first, are enough to go once round, and a loop that would go on ends with `blocked`.
--
-- 2. A task queue (Lab 5/task_queue_server.c and Lab 5/worker_client.c). Children of main share the tasks under one mutex.
--      TaskQueue           the shared memory, get_next_task, complete_task, clear_assigned_tasks,
--                          all_tasks_completed, and a turn of handle_client
--      TaskQueue/Load      load_tasks
--      TaskQueue/System    main and the children as steps in any order
--      TaskQueue/Take, TaskQueue/Clear, TaskQueue/Turns     the operations and the turns
--      TaskQueue/Invariant, TaskQueue/Exclusion, TaskQueue/Abandoned, TaskQueue/Progress
--                          what holds in every order of steps
--      TaskQueue/Worker    worker_client.c: perform_operation and the loop, with the server's turns
--      TaskQueue/Work, TaskQueue/Completion, TaskQueue/Unreadable     what a worker gets done
--    The text of a quotient under "%.2f" is an argument; other results are ints, printed exactly.
--    A turn takes the mutex at most once, so that it counts as one step.
--
-- 3. A mail server and its client (Lab 6/mysmtp_server.c and Lab 6/mysmtp_client.c).
--      Smtp                the session and the commands that change it or the mailbox files
--      Smtp/Reading        handle_list and handle_get_mail over the lines of a file
--      Smtp/Service        process_command and handle_client
--      Smtp/Waiting, Smtp/Session, Smtp/Storage, Smtp/Listing, Smtp/Retrieval     what they guarantee
--      Smtp/MailClient     mysmtp_client.c: what it sends of the lines that its user types
--      Smtp/Delivery       a mail from the client's lines to the mailbox
--    A file is read by fgets into 1024 bytes, with as many rounds as it has bytes, which is enough
--    since each line takes at least one.
--
-- 4. A lookup protocol over raw IP (Lab 7/cldp_server.c and Lab 7/cldp_client.c).
--      Cldp                the headers, the checksum, the turns of server and client
--      Cldp/Checksum, Cldp/OnesComplement, Cldp/Nodes, Cldp/Exchange     what they guarantee
--      Cldp/Server, Cldp/Server/Answered     the loop of the server's main, and what it sends
--      Cldp/Client         the client's main
--      Cldp/Client/Values, Cldp/Client/Asked, Cldp/Client/Run     what it prints
--    32-bit sums keep their wrap-around. The two programs meet in the datagrams alone.
--
-- 5. A chat server that announces the largest number of a round, and its client
--    (Lab_Test_1/chatserver.c, Lab_Test_1/chatclient.c).
--      Chat                the table of clients, its operations, and the loop over the ready sockets
--      Chat/Rounds, Chat/Stall     the end of a round, and a client that goes before it
--      Chat/Client         the lines that the user types, up to the server's atoi
--
-- 6. An encryption server and its client (Lab 3/doencfileserver.c and
--    Lab 3/retrieveencfileclient.c).
--      Cipher              the pieces that arrive, the substitution, and the file that goes back
--      Cipher/Substitution, Cipher/WholeFile     what they guarantee
--      Cipher/FileClient   the client with the server at the other end; what each recv returns of the
--                          stream is an argument
--    The file is read by fgets into 100 bytes, with as many rounds as it has bytes.
--
-- 7. An earlier KTP (Lab 4/asg4), a stop-and-wait protocol within one process, and its two users.
--      StopWait            ksocket.h and ksocket.c: k_socket, k_bind, k_sendto, k_recvfrom
--      StopWait/Users      user1.c and user2.c: the loops that send a file and write it
--      StopWait/Sending, StopWait/Rounds, StopWait/Receiving     how a call ends
--      StopWait/Transmissions, StopWait/Steps, StopWait/Transfer     a file from end to end
--      StopWait/Closing    the loops that end the connection
--    The loop of k_sendto runs over the list of what the system answers in each round, and ends in a
--    value of its own when the list ends first; no fuel is needed.
--
-- 8. The first KTP (Lab 4/ksocket.h, Lab 4/ksocket.c and Lab 4/initksocket.c), with shared memory and
--    two threads, but without a window that moves.
--      Early               the calls, and the passes of the threads and of the collector
--      Early/Sends         what the send buffer holds and thread S sends
--      Early/Idle          what happens from the start on
--    The mutex is one of each process and held for a whole pass, so a pass is one step. A k_sendto
--    that writes outside the arrays of its entry ends with `fault`, and nothing is said after it.
--
-- Base holds what they share: Boolean tests, lists and texts of bytes, files of lines, arrays as
-- functions, C integers that may be negative, and outcomes.
--
-- Not modelled: the users of the first KTP (Lab 4), the sample codes and trials of Labs 2 and 3;
-- printing; the creation and removal of shared memory, sockets, threads and processes.
pub mod Base
pub mod Ktp
pub mod TaskQueue
pub mod Smtp
pub mod Cldp
pub mod Chat
pub mod Cipher
pub mod StopWait
pub mod Early
