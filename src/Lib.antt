-- ===== src/Lib.antt =====
-- A model of mcmqhost, the host frontend for the MCMQ SSD simulator, and its verification.
--
-- The program takes a configuration and a workload, brings an NVMe controller up over a link to a
-- simulated or a real device, lets one I/O thread per flow submit reads and writes, and exports
-- their statistics. Its parts, the files here, and the sources (paths from the repository's root):
--
-- - `Memory`: the allocator of `MemorySpace` (memory_space.h, memory_space.cpp). `hole_head` with its
--   `next` pointers is the list `Table.holes`, each hole with the index of its slot; `free_slots` is
--   a list of slots. `Memory.Space` is the mapped memory with its accessors, `read`, `write` and
--   `memset`, and the constructors of `SharedMemorySpace` and `VfioMemorySpace`. The proofs are in
--   `Order` (the holes are in order and do not touch), `FirstFit`, `Cover` (which addresses are
--   free), `Slots`, `Laws`, `Reuse`, `Space.Access` and `Space.Init`.
-- - `Nvme`: the driver (nvme_driver.h, nvme_driver.cpp, with the two entry formats of nvme.h).
--   `World` is the driver's state with the memory, what it wrote to the link's registers, the values
--   that register reads will return, and what the device will do while the driver waits; a method
--   is a function from a world to a value or an error, with the world that it leaves. `Queue` has
--   the rings and doorbells, `Prp` `setup_buffer`, `Irq` the command map, the completion path and
--   `AsyncCommand::wait`, `Submit` the commands and transfers, `Controller` the controller's
--   registers, `Admin` the admin commands, `Setup` the start of the driver. `Sized` is about the
--   number of queues, `Owned` about who holds which address of the memory space.
-- - `IoThread`: `IOThread` (io_thread.h, io_thread.cpp) and, in `Synthetic`, `IOThreadSynthetic`
--   (io_thread_synthetic.h, io_thread_synthetic.cpp), over an interface `Host` of the driver and the
--   allocator. The interleaving with the device is a list of events. `Zipf` is zipf_distribution.h over
--   an interface of the arithmetic on `double`, `Histogram` is histogram.h over an interface of the
--   HdrHistogram library. The other proofs are in `Invariant`, `Progress`, `Total` (what
--   throws only where the driver or the memory does), `Finish` and `Requests`.
-- - `Link`: `PCIeLinkMcmq` (pcie_link_mcmq.h, pcie_link_mcmq.cpp), the messages to the device
--   (`Messages`, `Requests`) and the receiving thread, over an interface of the vendored ring buffer
--   (ringbuffer.h): `Mcmq` has the messages of one `recv`, `Mcmq.Rounds` the loop over `epoll_wait`, and
--   `Mcmq.Setup` `init`. `Link.Base` is the thread and the readiness of pcie_link.h and pcie_link.cpp.
--   `Link.Access` has the register accesses of pcie_link.h, over what a subclass does,
--   and those of pcie_link_vfio.cpp, over loads and stores of 32 bits; `Link.Vfio` has the interrupts
--   of `PCIeLinkVfio`, `Link.Vfio.Init` its `init`, `map_dma` and destructor, over what the system calls
--   return.
-- - `Config`: the readers of config_reader.h and config_reader.cpp, over an interface of yaml-cpp,
--   with the messages of proto/ssd_config.proto.
-- - `Export`: result_exporter.cpp with the messages of proto/sim_result.proto, over interfaces of the
--   JSON library and of HdrHistogram, and the statistics that `IOThread::run` leaves. `Import` is a
--   reader of the exported value, `RoundTrip` is about what it gets back, `Totals` composes the run of a
--   thread with its export, and `Values` are JSON values that obey the interface's laws.
-- - `Program`: `main` (main.cpp) from the options to the threads that it makes, over an `Environment`:
--   what the files hold, whether mappings and the link come up, and what the device does.
--   `Program.Finish` is the whole of `main`, with the options' defaults and, over an `Aftermath`, what
--   the threads' runs leave, to the exported file and the exit.
-- - `Prelude`: the shared names, Boolean tests, list lemmas and machine words.
--
-- How they interact: `Nvme` allocates, reads and writes through `Memory`; `Link` delivers the
-- interrupts that `Nvme.Irq` handles; `IoThread` calls the driver's `read_async` and `write_async`,
-- which appear in `Host` as calls that may fail; `Link.Vfio.Init` maps the memory space of `Memory` for
-- the device; `Config` makes the flows that become the threads'
-- workloads; `Program` composes `Config`, `Memory` and the start of `Nvme` with the making of the threads.
--
-- Numbers: machine integers are natural numbers, with the wrap-around of their width written out
-- where the source can reach it (`u16`, `u32`, `u64`, `add32`, ...). Words lie in memory in little
-- endian order, as on the machines that the program runs on.
--
-- Loops: most are recursion on the list that they walk. The others have fuel: the loop of
-- `setup_buffer` gets a round for each page of the buffer and one more, the loop of `nvme_irq` one
-- more than the queue has entries, the inner loop of the receiving thread two more than there are
-- bytes. That this is enough is part of what `irq_loop_lem`, `setup_buffer_listed` and
-- `recv_thread-payloads` state. Loops that wait for the device (`wait_ready`, `wait`) recur on what the
-- device does and end as `blocked` where it does nothing more.
--
-- Threads: a step that holds a mutex from its first access of the shared state to its last is one
-- step. While a method of the driver waits, the link's thread runs its handler for each arrival. A
-- callback that the handler calls is recorded, not run.
--
-- Not modelled: opening and mapping the files, clocks and statistics of time, the random engines (the
-- draws are given), logging, the text of a JSON value and its file, and the reading of the command
-- line by cxxopts. What system calls and libraries return is a parameter. ringbuffer.h and nvme.h are
-- copies of other projects' files: the ring buffer is an interface, and of nvme.h there are the two
-- entry formats. The threads of `IoThread` run one at a time over their `Host`; what they do to the
-- driver together is, in `Program.Finish`, a parameter, and in `Nvme.Owned.Reach` any sequence of
-- their calls.
pub mod Prelude
pub mod Memory
pub mod Link
pub mod Nvme
pub mod IoThread
pub mod Config
pub mod Export
pub mod Program
