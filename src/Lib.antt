-- ===== src/Lib.antt =====
-- The core of udaq, a data acquisition system: the router, which hands out the buffers of a shared memory
-- to the programs that write and read experiment data, the library through which these programs talk
-- to it, the library that reads the blocks over the network, the ring of blocks between the threads of the
-- collector, the rounds of the collector that fill it, the table of configuration parameters, the check of the
-- data format, the transfer of blocks to other machines, their recording, and the blocks of an ADC.
--
-- The parts and the files:
--   Router (src/router/src/listen.c, src/router/header): `Router.State.Router` holds the globals of the
--     process, `Router.Shm` the lists of the shared memory (get_shm, shm_free_insert), `Router.Outbox`
--     the messages for the clients (que_msg, que_snd), `Router.Holds` and `Router.Buffers` what processes
--     hold and how buffers go round (get_buf, send_buf, release_buf, new_pl, remove_pl),
--     `Router.Messages` the cases of `message`, and `Router.Listen` the loop `do_listen` with the steps
--     of the clients around it. The other modules of Router hold proofs: Memory, References, Limits, Pids,
--     Delivery, Fuel and Faults by what they are about, Frame and Keeps the lemmas they share.
--   Startup (src/router/src/router.c): the command line, and the objects of the system that the process
--     makes and removes.
--   Client (src/router/src/router_lib.c): the descriptors, the keys and the calls of a session;
--     `Client.Exchange` ties them to `Router.Messages`.
--   Tcp (src/router/tools/tcplib.c): the opening of a connection and the reading of blocks.
--   Fifo (src/gr/ring_buf.c): put_rb_data and get_rb_data.
--   Config (src/config/config.c): the table of parameters, its registrations and searches.
--   Format (src/router/tools/check_format_lib.c, mtformat.h): `Format.State.Checker` holds the globals,
--     `Format.Regions`, `Format.Fields`, `Format.Events` and `Format.Block` the functions check_rgns,
--     check_flds, check_evts and check_buf with their proofs below them, `Format.Modules` the tables of the
--     modules that are kept for display. `Format.Encode` is the format as a tree, with the words of a tree.
--   Collector (src/gr/collect_data.c, grcollect.c, grlib.c, src/vmelib/src): `Collector.Loop` is the thread
--     collect_data, a round at a time, with what it does to the ring and to the hardware as a list of
--     actions, `Collector.Commands` the function collect_cmd of the other thread, `Collector.RunBlocks`
--     the blocks of a start and an end, `Collector.Registers` the register of librpv.c.
--     `Collector.Format` gives these blocks to `Format.Block`. `Collector.Sender` is collect_tcp.c, which sends
--     the blocks of the ring to a client.
--   Transfer (src/router/tools/router_tcp.c, tcp_router.c): `Transfer.Request` is send_data, `Transfer.Server` and
--     `Transfer.Files` the functions that send the buffers of a router and the blocks of a file,
--     `Transfer.Client` the loop that puts what it reads into another router. `Transfer.Closed` joins both ends.
--   Recorder (src/router/tools/router_save.c, assign_j11.c): the loop that writes blocks to files.
--   Acquisition (src/vmedaq/vmedaq.c, include/madc32.h): `Acquisition.Adc` is madc32_check_data, which makes a block
--     of the words that an ADC gives. Its children hold proofs: Events and Blocks on whole events, Cut on an event that
--     is cut off, Repair on an event without a header, Bounds on the size of the block.
--   Base: the names and lemmas that all share.
--
-- The functions have the names of the source. Each takes the state and returns it, with the code that the
-- source returns as a `ℤ`. `malloc n` says whether the n-th call of malloc gives memory, and
-- `msgsnd n` what the system answers to the n-th message; the other system calls are fields of
-- `Client.Session.System`, `Startup.Objects.Ipc` and `Tcp.Net`. `EINTR` comes finitely often in a row.
--
-- Positions, sizes and the arguments of messages are natural numbers: a negative size in a message is not
-- modelled, nor is one that overflows when it is rounded up, and the size -1 of a forced release is 0, as
-- only a size above 0 has an effect. In the source `new_pl` cuts a pid to an `int`, and here it stays as it
-- is: `Router.Pids.IntReach` excludes pids that do not fit one. A pointer to a node of the used list is the
-- position of the node. Names of processes, times, the log and the displays are left out. `msgrcv` fails
-- only where the queue is removed. A wait on an empty queue ends the round.
--
-- Fuel: `release_all` takes the number of buffers that the process holds, and the loop over new messages
-- the number of those that are there and one, as each round takes one away: `Router.Fuel`.
--
-- The check of the format walks over a memory, a function from positions to 16-bit words, as it reads words
-- behind a block too. check_rgns has as many rounds as the field has words, which is enough as each takes
-- one: `check_rgns-fuel`. check_flds and check_evts may have no end, so their rounds are an argument and
-- the result is none where they are not enough. The bit fields of fera.h, lr3377.h and pcos.h,
-- which are not in the repository, are the parameter `Format.State.Layout`. Counters do not wrap.
--
-- A round of collect_data is one step, between two commands; the wait of put_rb_data for room in the ring
-- is in `Fifo` only. A ring has at most 128 blocks, the pointers of `ring_buf_t`; new_rb gives none for more.
--
-- What comes over a connection is a list of pieces, and a read takes what it wants from the first of them.
-- A loop of reads that wants more than the reads that are given is a result of its own. At the end of a
-- connection `read` gives 0, as often as it is called; the loops for replies and blocks read again then.
-- send_file takes the length of the file and one as its rounds, as each takes a header at least.
--
-- Not modelled: the other tools around the router, the sockets and the processes around a transfer, run
-- control, the other modules of vmedaq.c and the output of their blocks, the reading of configuration
-- lines, and the programs for hardware modules.
pub mod Base
pub mod Router
pub mod Startup
pub mod Client
pub mod Tcp
pub mod Fifo
pub mod Config
pub mod Format
pub mod Collector
pub mod Transfer
pub mod Recorder
pub mod Acquisition
