-- ===== src/Lib.antt =====
-- Morion OS: the parts of the kernel that keep its own state, the loading of programs, and two of the
-- services in user space: the TCP sockets and the mount table.
--
-- The kernel (kernel/src) is a microkernel: user domains run in address spaces of their own, hold
-- capabilities, and talk by messages. Each part keeps its state in a few statics, and the system calls
-- (kernel/src/syscall.rs), the timer and the interrupts change it. Every function that is modelled runs
-- with interrupts off on one CPU, so it is one step from state to state; a function that blocks is split
-- where it blocks. State is passed explicitly, a panic is `none`, and locks, the interrupt flag and the
-- lines printed are left out. Machine words are natural numbers, with the wrap-around or the saturation
-- written out where the source computes with them.
--
--   Cap       kernel/src/cap.rs: capabilities, their codes, and the table of each domain's capabilities
--             (Cap/Table) and handles (Cap/Handles), with SYS_CAP_SEND of kernel/src/syscall.rs and the
--             grants of spawn_elf in kernel/src/exec.rs.
--   Sched     kernel/src/scheduler/mod.rs: the task table and the switch (Sched), the calls that end in
--             a switch or wake tasks (Sched/Ops). Registers, stacks and the switch in assembly are left
--             out; the page-table root that is loaded is part of the state. `domain::reclaim_pending`,
--             with which a tick begins, is in Domains.
--   Ipc       kernel/src/ipc.rs: mailboxes and messages, on top of Cap and Sched. `receive` and `call`
--             are `receive_round` and `call` with `call_round`: up to where they block, and one round of
--             their loops after they have been woken.
--   Irq       kernel/src/irq.rs: interrupts for drivers in user domains, with SYS_IRQ_POLL and
--             SYS_IRQ_WAIT.
--   Frames    kernel/src/memory/frame_allocator.rs: the bitmap of frames (Frames), and the reference counts
--             of shared frames (Frames/Refs).
--   Net       kernel/src/net.rs: which domain owns which port (Net; Net/Owners and Net/Ports on it).
--             Nothing in the kernel calls its `remove_domain`.
--   Pager     kernel/src/pager.rs: the pager of each domain, and page faults as messages.
--   Domains   kernel/src/domain.rs: numbers of domains, and the end of a domain across all the tables.
--   Syscalls  kernel/src/syscall.rs: system calls that ask for a capability or another right before they
--             act on the tables above.
--   Key       kernel/src/key.rs: the ring of key presses.
--   Klog      kernel/src/klog.rs: the ring of the kernel log, for any capacity above 0, and SYS_LOG_READ
--             (Klog/UserBuffer) with `is_user_address` of kernel/src/memory/paging.rs.
--   Elf       kernel/src/elf.rs: the parser of executables (Elf, Elf/Valid), and kernel/src/exec.rs: the
--             memory of a new program (Elf/Loading), with frames from Frames. Elf/Pages has the pages
--             and rights of segments, Elf/Mapped, Elf/Filled, Elf/Contents and Elf/Built the memory that
--             comes out, Elf/Rights its permissions. The page tables of a domain are a list of mappings.
--   Tcp       user/srv/src/netstack_srv.rs: one TCP connection (Tcp; Tcp/Window, Tcp/Timer, Tcp/Resend,
--             Tcp/Stream and Tcp/Exchange on it), two that talk to each other (Tcp/Dialogue), and the
--             table of connections with the calls of the applications, the passive open, the loopback
--             and the timer (Tcp/Sockets; Tcp/Identity, Tcp/Ownership and Tcp/Authority on it). There
--             a frame is its TCP header and payload; the bytes of a segment over IPv4 are in Tcp/Wire, with
--             their checksum in Tcp/Checksum. The kernel's answer to `sys_net_owner` is a parameter.
--   Mount     user/srv/src/mount_srv.rs: the mount table and its requests (Mount), the resolution of
--             paths (Mount/Paths, Mount/Resolve), what always holds of the table (Mount/Invariant) and the decimal
--             names (Mount/Names).
--   Prelude   what these share: tests on numbers, lists and tables that grow by filling, words, byte
--             strings, properties of all elements, and results that panic or refuse.
--
-- No definition runs on fuel but the loops with a fixed number of rounds in the source: 32 slots in
-- `next_ready`, 16 vectors in `take_pending_any` and `irq_mask_ok`, 32 frames in `lo_pump`, 20 digits in
-- `dec_to_str`; the loop of `csum_fold`, which ends after two turns for every `u32` (`fold_carries-ends` in
-- Tcp/Checksum); and `pages_from`, whose fuel is one more than the pages that a segment can touch
-- (`pages_lem` in Elf/Pages: the pages are all there). The loop of `reclaim_pending` ends
-- because nothing that it calls adds to the queue that it empties. `call` and `receive` loop for as long
-- as no message comes; only their rounds are modelled.
--
-- Not modelled: the initialisation of the frame allocator, the page tables as such (so `destroy` here does
-- not release the address space, and loading does not count the frames of the tables), the new domain
-- and first task of a loaded program, the other system calls, PCI devices, the hardware layer
-- (kernel/src/arch), the boot loader (boot), the Ethernet, IPv4 and IPv6 headers, ARP, NDP,
-- ICMP and UDP, and the other services and libraries in user.
pub mod Prelude
pub mod Cap
pub mod Domains
pub mod Elf
pub mod Frames
pub mod Ipc
pub mod Irq
pub mod Key
pub mod Klog
pub mod Mount
pub mod Net
pub mod Pager
pub mod Sched
pub mod Syscalls
pub mod Tcp
