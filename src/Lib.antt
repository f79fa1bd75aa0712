-- ===== src/Lib.antt =====
-- The C programs of this repository: two hypervisors on Linux's KVM with the guest of one of them,
-- and the kernel modules of the exercise on Linux internals.
--
-- The parts, and where each is modelled:
--
-- SimpleKvm: KVM Hypervisor + Virtualization/part1/simple-kvm.c. State has the global variables,
-- the guest's memory and the fields of `struct kvm_run` that are read; Exits the body of the loop
-- in `run_vm`, one function for each port; Run the loop and the test of the result; Modes the
-- functions `setup_…` and `run_…_mode` up to `run_vm`; Main `vm_init`, `vcpu_init` and `main`.
-- Counters, Safety, Success, Starts and Paging have the proofs; Paging.Walk is a page walk of the
-- processor, written from its manual for the entries that the program uses. RealGuest has
-- guest16.s, the guest of the real mode, in machine code that the processor reads from the memory,
-- three instructions of fuel being enough, and RealGuest.Whole the run of the program with it.
--
-- Guest: KVM Hypervisor + Virtualization/part1/guest.c. A port instruction (Machine) leaves the
-- guest, is handled by `handle_exit` of SimpleKvm, and lets the guest go on; the value goes through
-- the bytes at `data_offset`, which both sides share. Calls has the hypercalls, Start `_start`.
-- Ports, Translate, Counts, ByType and Start.Output have the proofs. Traced turns a run of the
-- guest into the list of results that `run_vm` gets from KVM_RUN, with the memory as the guest
-- leaves it, and Traced.Whole puts the two programs together, from `main` to the exit status.
--
-- Matrix: KVM Hypervisor + Virtualization/part2. Program is what matrix.c, matrix-a.c and
-- matrix-b.c have in common, with Vm and Load for the functions up to the loop of `kvm_run_vm`;
-- MatrixC, MatrixA and MatrixB are the three programs, each with its set-up, its round of the loop
-- and its binaries. Quota, OnIo and Alternate are these rounds, in the same order, over what Sched
-- has in common for the three; Thread is a round of `kvm_cpu_thread`. Signals is a step relation
-- for the timer's signals between `timer_handler`, KVM_RUN and `sigwait`; Output what the loops
-- print. Load.Loop runs the loop of `load_binary` against a file, with fuel of which more than the
-- length of the file is enough. Guests has the guests' programs in assembler, and the loop with
-- them: Guests.Loops what KVM_RUN brings of each, Guests.Shares how the quanta are shared,
-- Guests.Printed what matrix-a.c prints. Setup, StartAddress, Starvation, Fairness, Signals.Quanta,
-- Signals.Turns, Output.Started, Program.Release, Program.OneGuest, Program.Completes,
-- Program.Whole and Program.Fails have proofs.
--
-- PageWalk: `page_table_walk` of Linux Internals Exploration/1/lkm3.c and 2_I/driver.c;
-- PageWalk.Levels compares it with a walk that is the same at each level. Lkm: the modules lkm1.c
-- to lkm4.c of Linux Internals Exploration/1, over the changes that they make in the kernel
-- (Kernel), and the programs lkm3_test.c and lkm4_test.c that these are tried on (Clients).
-- Drivers: Linux Internals Exploration/2_I/driver.c (PhysicalMemory, with its client
-- 2_I/user_program.c in UserProgram) and 2_II/doom.c (Reparent), and the set-up that both share
-- (Module); 2_II/soldier.c (Soldier), which runs on the driver of doom.c, and
-- 2_II/control_station.c (Station), whose handler of SIGCHLD is part of a step relation over the
-- deaths of its children. Procfs: the two modules of Linux Internals Exploration/3.
--
-- Containers: Containerization/task1/namespace_prog.c (Namespaces), over an interface of the system
-- calls, with the buffers of the three processes' outputs; Documented states the laws of the calls,
-- Children what the two children see and leave, Hostnames what is printed, and Waits when the
-- program hangs.
--
-- Memory has byte-addressed memory, words, C strings, and decimal texts with `atoi`; Kvm the
-- registers and how a step can end a program; Bits laws of the bit operations; Prelude the names,
-- tests and lists that all share. Examples has concrete runs.
--
-- What the kernel answers to a system call or a kernel function is an argument of the model: the
-- results of `open`, `mmap` and `ioctl`, the exits of a guest, KVM_TRANSLATE, the functions on page
-- tables, `pid_task`. A run of a hypervisor is a list of such answers, and its loop goes over the
-- list; a list that ends leaves a run that is still going on, so there is no fuel there. Numbers
-- are natural numbers with the wrap-around of their C type written out. An access outside of an
-- object, and one through a null pointer, is a result of its own.
--
-- Not modelled: text on stderr (but for soldier.c and control_station.c and the loops of part2);
-- sleeping; how long a quantum lasts; how a guest of part2 gets from the address where it is
-- started, which StartAddress is about, to its first instruction; `seq_read` and `single_open`,
-- which are the kernel's; the linker scripts and Makefiles; the shell scripts of Containerization.
pub mod Prelude
pub mod Bits
pub mod Memory
pub mod Kvm
pub mod SimpleKvm
pub mod Guest
pub mod Matrix
pub mod PageWalk
pub mod Lkm
pub mod Drivers
pub mod Procfs
pub mod Containers
mod Examples
