-- ===== src/Lib.antt =====
-- UringMachine's C extension (ext/um): fibers that wait for io_uring operations.
--
-- A machine (`struct um`) runs fibers. A fiber that does I/O takes an operation (`struct um_op`),
-- puts it on the submission queue and switches to the next fiber on the run queue; the kernel's
-- completions put fibers back there. Reads of streams go through the buffer pool, whose buffers are
-- lent to the kernel, and come back as segments. Mutexes and queues let fibers wait for one another.
--
--   Base.antt            numbers, lists, machine words, and how a C call ends (`Outcome`)
--   Pool.antt, Pool/     ext/um/um_buffer_pool.c: buffers, their reference counts, the buffer ring
--   Op.antt, Op/         ext/um/um_op.c and ext/um/um.c: operations, completions, the scheduler, the
--                        calls that block on one operation, and the buffers of ext/um/um_utils.c
--                        that they read into
--   Op/AsyncOp.antt, Op/AsyncOp/  ext/um/um_async_op.c and um_async_op_class.c: timeouts that run on
--                        their own, and the objects that stand for them
--   Op/IntoQueue.antt, Op/IntoQueue/  um_accept_into_queue of ext/um/um.c, which joins the scheduler
--                        with the queues of Sync
--   Sidecar.antt, Sidecar/  ext/um/um_sidecar.c: the signal between the machine's thread and the
--                        thread that waits for completions
--   Writev.antt          um_writev of ext/um/um.c and the iovecs of ext/um/um_utils.c
--   Stream.antt, Stream/ ext/um/um_io.c: the stream layer, from completions to lines and integers;
--                        Stream/Each.antt: the multishot reads of ext/um/um.c
--   Resp.antt, Resp/     ext/um/um_io.c from resp_read_line on: objects of the RESP protocol
--   Sync.antt, Sync/     ext/um/um_sync.c: mutexes and queues
--   Ssl.antt, Ssl/       the writes of ext/um/um_ssl.c, over any SSL_write
--   Inotify.antt, Inotify/  inotify_get_events of ext/um/um_class.c
--
-- Definitions have the names of the C functions. A function takes the state that it works on and
-- returns the new one: `Machine` (the pool's part of `struct um`), `Core` (the scheduler's part),
-- `Io`, `Queue`, `Mutex`. `Outcome` tells a return from a Ruby exception, from a fault (a null
-- pointer or a read past the end), and from a wait for something that the environment does not give.
-- Pointers are numbers, 0 for null; memory is a function, and that of a buffer of the pool, which is
-- filled from its first byte on, the list of the bytes that have been written to it. Sizes of 32 and 64
-- bits wrap where the code subtracts; counters that only grow are taken not to overflow. Assertions are
-- compiled out and `malloc` succeeds.
--
-- The kernel, liburing and Ruby are not modelled: what they give is a list in the state (completions with the bytes that the kernel writes for them,
-- results of reads, whether a fiber is resumed with an exception), so that theorems hold for all of
-- it. The conversions of the C library between doubles and texts are a parameter, `Floats`, and
-- so is OpenSSL's SSL_write. A blocking call is two functions, the parts before and behind the switch
-- of fibers; where the code switches in a loop, what the rest of the machine does until the fiber is
-- resumed is a list of functions, of which a theorem says what they may do.
--
-- Loops are structural where they follow a list. The others run on fuel: `commit_loop` on one round
-- more than the ring has slots, `grow` on 30 doublings, which reach any quarter of the largest level,
-- the loops of the stream on `budget`, the segments there are and the completions to come,
-- `um_switch` on the number of rounds that its caller gives, the write of a buffer by SSL on its
-- length, inotify_get_events on the length of the events, and `resp_read` on the depth to which
-- objects are nested, which is at most their number.
--
-- The sidecar thread runs in parallel with the machine's, so that `Sidecar` has a step relation, of
-- which a step is one access to the signal or one system call; FUTEX_WAIT may return at any time.
--
-- Not modelled: the writes of ext/um/um_io.c (io_write_raw, io_writev), multishot
-- timeouts, the reads of SSL, the Ruby classes but AsyncOp, and the garbage collector's callbacks.
pub mod Base
pub mod Pool
pub mod Op
pub mod Writev
pub mod Stream
pub mod Resp
pub mod Sync
pub mod Sidecar
pub mod Inotify
pub mod Ssl
