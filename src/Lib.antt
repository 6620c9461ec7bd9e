-- ===== src/Lib.antt =====
-- VirtualForce: a program on a PC, a controller, and the force core of a robot behind it.
--
-- The window of SimForce_Qt/widget.cpp sends commands of 32 bytes over a socket when its buttons
-- are clicked. The parent process of VirtualForce_linux/main.c receives them into a ring
-- (VirtualForce_linux/network_client.c, on the ring of VirtualForce_linux/buffer_manager.c), takes
-- them out again and executes them (VirtualForce_linux/controller.c): it fills regions of physical
-- memory that the force core reads (VirtualForce_linux/force_interface.c, mapped by
-- VirtualForce_linux/mmap_comm.c). A child process reads the news of the force core from such a
-- region and sends a report of 56 bytes to the PC. When the PC disconnects, the parent kills the
-- child, accepts a new connection and forks a new child.
--
-- The modules, and the code that they are about:
--   Prelude, Memory   shared names, tests and lemmas; byte memory with `memcpy`
--   Buffer            buffer_manager.c and .h: `buffer_info_t` is `BufferInfo`, and each function has
--                     its name; Queue, Laws and Stream are what it promises, Blocks, Fifo, Copy,
--                     Bundle and Single the way there, Inv and Moves its ranges
--   Wire              the two structs of the socket in force_interface.h, as bytes
--   Layout            where the fields of the structs of force_interface.h and SimForce_Qt/Force_Comm.h
--                     lie; Casts is about the messages of the socket, Apart about the regions
--                     at their physical addresses
--   Force             force_interface.c: Regions has the structs and the static pointers as
--                     `Interface`, Codes the enumerations of force_interface.h; Service, Params,
--                     Exchange and Handshake have the functions, by their
--                     names without the prefix `Servo_Force_Comm_` or `Force_`; Slots has
--                     `Force_Virtual_Download`, `Force_Monitor_Upload` and
--                     `Servo_Force_Comm_Set_Cmd` access by access
--   Mmap              mmap_comm.c, and `Servo_Force_Comm_Init`
--   Network           network_client.c: `Net_Circle_Buff_t` is `Net`, without the stream and the
--                     mutex; Sending has `network_set` and `network_close`; Read and Waiting are
--                     about the loop of `read_data`, Receiving about `network_rcv`, Start about
--                     the connection, Shipped and Misfit about the length 280
--   Shmem             shmem_client.c; Single is about the ring and the two segments
--   Controller        controller.c: `controller_msg_parase`, with its `switch` as `dispatch`, and
--                     `controller_display_res`; Trials has `contoller_send_thread` and
--                     `controller_display_result`, Priority what the compiled program does not run
--   Threads           `network_producer` and `controller_msg_process` as a step relation; Exclusion is
--                     about the mutex, Progress about waiting for it, Log, Count and Order about the
--                     queue between them, up to the first command that is written over the mutex
--   Main              main.c: `boot`, `round` and `sighandler`; Rounds, Safety, Commands, Whole,
--                     Children and Overrun are about any number of rounds; Sharing has parent, child and force core
--                     in turn, Apart and Forces what becomes of reports and of forces then
--   Pc                SimForce_Qt: Comm has Force_Comm.h; Widget has widget.cpp and widget.h, each slot
--                     by its name, and `handle` for the connections that the constructor makes;
--                     States has the numbers of the states, Doubles and Truncation
--                     the conversion of `setForceVal`; Messages and Clicks follow a click to the regions of the force
--                     core, Latest and Reports a report to the window; Buttons is about the two
--                     buttons for the connection
--   System            the window, the parent, the child and the force core together, with what is under
--                     way between them, as a step relation with the state of the connection; Start is
--                     where it begins, Sound, Keeps and Run are about its runs; Spec is
--                     what it is to do, without messages, bytes and processes, Stands, Events and
--                     Refines relate the two, and Settles and Calm are about how it comes to rest
--   Examples          the theorems at concrete inputs, and runs
--
-- State is passed along: a function that changes what a pointer points to, or a static variable,
-- takes it as a value and returns it changed. A fault, an access through NULL, is `none` of an
-- `Option`; a process that calls `exit` is a case of a result type. What the operating system
-- returns is an argument: a record of the results of the system calls of one call (`Sockets`,
-- `Fread`, `Receive`, `Boot`, `Segments`), the functions `mmap` and `shmdt`, or a step that any
-- process may take. Qt is a parameter, with its conversions between texts and doubles, and its
-- signals are events. The force core is a parameter as well: in Slots what it makes of a region,
-- under the named conditions `Polite` and `Patient`, in Sharing and System any function on the regions.
--
-- Numbers are natural numbers. An `int32_t` that is stored or sent is its pattern of 32 bits, a
-- `double` its pattern of 64; offsets are nonnegative, and Buffer.Inv is about their ranges. The
-- product of `setForceVal` is exact, since its factor is 2 ^ 24, and is cut down to an `int` bit by
-- bit; a product that no `int` holds, which C leaves open, becomes the least one. The heartbeat and
-- the count of forces keep their wrap at 2 ^ 32. The loops over reads recurse on the list of reads
-- that the stream delivers, so that no fuel is needed: a list that ends too early is a process that
-- waits. The loop of `Servo_Force_Comm_Set_Para` runs its 82 rounds, the 90 numbers of the struct
-- less 8.
--
-- Not modelled: the layout of the window in SimForce_Qt/widget.ui, but for its first texts;
-- printing, sleeping and scheduling; the initialising of the mutex and the conditions; the `main`
-- that is compiled out, which alone starts the threads. A signal arrives between two rounds. The
-- steps of Threads have the mutex apart from the bytes behind the ring, and so they go up to the first
-- command that is written there. In System every command is read in one piece (what a read
-- in pieces does is in Network.Read and Main.Commands), a connection that the window ends before the
-- parent accepts it is lost with its messages, and one that the window has ended may be read on until
-- the parent finds it ended. In Qt a write without a connection does nothing, one while the connection
-- is made waits for it, and a second connectToHost does nothing.
pub mod Prelude
pub mod Memory
pub mod Buffer
pub mod Wire
pub mod Layout
pub mod Force
pub mod Mmap
pub mod Network
pub mod Shmem
pub mod Controller
pub mod Threads
pub mod Main
pub mod Pc
pub mod System
pub mod Examples
