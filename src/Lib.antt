-- ===== src/Lib.antt =====
-- agentsmith watches a log file. A line that matches a regular expression yields the address of a
-- host, which is counted in a vector of host records. When a host has been seen often enough within a
-- time, an action script is run, and other agents are told. The parts that are modelled:
--
--   * Slots: the growing vector of pointers that src/records.c and src/exclude.c both keep.
--   * Records: src/records.c. The functions keep their names, without the underscore in front of the
--     static ones; the parts of a function that run under its mutex are functions of their own
--     (`add_ip_found`). `Records.Maintenance` has enumeration, maintenance and destruction.
--   * Exclude: src/exclude.c, the networks that are never acted upon. `Exclude.Address` parses,
--     `Exclude.Mask` has the masks, `Exclude.Rules` the vector, `Exclude.File` the reading thread.
--     The static `_records_find` of src/exclude.c is `rules_find`.
--   * Wire: the commands of src/network/netshared.c. Transfer: its loops round `read` and `write`, which
--     recurse on the answers of the system.
--   * Queue: src/network/cli/clientqueue.c, a queue for each agent, and the rounds of its worker: in short in
--     `worker_round`, with sockets, TLS pointers and memory in `Queue.Connection`, and with the results of
--     `SSL_write` and the cancelling of the worker too in `Queue.Sending`. `Queue.History` has sequences of appends
--     and rounds. To send a buffer is to hand it to `SSL_write`.
--   * Client: src/network/cli/client.c, which collects records and appends them to all queues.
--   * Action: the callbacks of src/threads.c, which connect the vector, the script and the client.
--   * Watch: src/regex.c, from a line to the vector. Follow: src/follow.c, which cuts the log into lines
--     while it grows; what is done with a line is a parameter, and `Follow.Counted` puts `regex_do` there.
--   * Worker: src/network/srv/worker.c, which takes the records of another agent; `Worker.Delivered` joins
--     it with the queue of that agent. Server: src/network/srv/server.c, its sockets and its waits;
--     `Server.Loop` has the rounds of `select`, a list that ends with the thread.
--   * Settings: src/cfg.c. `Settings.Addresses` has the lists of addresses, `Settings.Options` the table of
--     options, `Settings.File` the loop over the file; `Config` has the numbers alone.
--   * Signals: src/sighandler.c, and in `Signals.Setup` the registration of the handlers.
--   * Tls: src/network/netssl.c and src/network/sslutils.c. `Tls.Handshake` has `netssl_client` and
--     `netssl_server`, `Tls.Secured` the condition under which `netssl_initialize` succeeds. The failures of
--     OpenSSL that `_add_crl_to_ssl_ctx` does not look at are answers.
--   * Output: src/output.c, the channel of the messages and the lines that are written.
--   * Program: src/main.c with `threads_start` and `threads_stop` of src/threads.c, which sets the parts up, starts the
--     thread that reads the exclude file, and tears the parts down. That thread has read the file when the log begins to
--     be followed, or has not begun; in `Threads` it may run at any time. `Program.Run` has `main` from its
--     arguments to its end, where the threads for action, maintenance and the server, the workers and the signals
--     have no turn.
--   * Threads: all threads over their common state. A step is one call of a part, with whatever answers of the
--     system: a line of the log, a round of the action thread, of the maintenance thread or of a queue's worker,
--     a command of a peer, or a signal. The modules named Kept have what such a call leaves.
--
-- The state of a part is a record of its static variables, and every function takes it and returns it
-- with the result. A call returns, ends the program by `exit`, fails an assertion or has undefined
-- behaviour (`Outcome`). What the system answers during a call is an argument (`Env` and its kin): the
-- results of the locks, whether memory is found, and the clock. A theorem that speaks of any `Env`
-- covers every failure of the system; those named `_served` are about a system that grants everything.
-- A mutex makes the part that it guards one step, so that the state at a call is whatever the other
-- threads have left. `inet_pton` is a parameter (`Inet`), as are PCRE (`Pcre`), OpenSSL (`Openssl`,
-- `HandshakeEnv`), `getaddrinfo` (`Names`) and `access`. `Records.History` has sequences of calls, which
-- stand for the calls of all threads in the order in which they get the mutex.
--
-- Integers are their bit patterns, as natural numbers, and wrap at their width. A host is little-endian,
-- and `long` has 64 bits. C strings are lists of bytes that end before the first zero; they are never
-- NULL. The build is without CHECK and DEBUG, and with IPv6. The quotient that
-- `records_maintenance` rounds up in floating point is computed on integers, which is exact below
-- 2 ^ 53 slots. The log, the configuration and the exclude file have no zero bytes, and `strsep` is there.
--
-- Loops over a counted range recurse on the count. The reading of a file is on fuel, as many rounds as the
-- file has bytes, since every line has one at least. `client_queue_record` calls itself after a flush: its
-- fuel is 2, since the flush makes room. The loop of `config_read` has two rounds more than the file has bytes,
-- since it goes round once more behind the last line. The rounds of `follow` are a list, which ends with the
-- stop.
--
-- Not modelled: the loops of the two threads of src/threads.c around their bodies, which end with the
-- thread; what a cancelled thread holds, so that every `pthread_join` of `threads_stop` returns; the end of a queue's
-- worker when its mutex or its condition fails; an error of `fgets` that is not the end of the file; an address
-- without a NUL byte in `records_add_record` itself (`add_received` has it); the functions for the locks of
-- OpenSSL before 1.1.0, which only the library calls; the loop round `SSL_shutdown` and
-- `netssl_ssl_error_to_string`, which keep no state of the program; `malloc(0)` for old systems
-- (src/malloc.c).
pub mod Base
pub mod Slots
pub mod Config
pub mod Records
pub mod Wire
pub mod Transfer
pub mod Exclude
pub mod Program
pub mod Queue
pub mod Client
pub mod Action
pub mod Watch
pub mod Follow
pub mod Worker
pub mod Settings
pub mod Samples
pub mod Server
pub mod Signals
pub mod Threads
pub mod Tls
pub mod Output
