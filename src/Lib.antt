-- ===== src/Lib.antt =====
-- DragonHeartOS: a verification library for its kernel, Katline, and for its first user programs and
-- libraries. A call of the kernel is a function from a state to a result and a state; an address is a number, 0 for
-- `nullptr`, and each type of object has its own addresses.
--
-- `Base` has the numbers, lists and options that all parts share. `CommonLib` has interfaces for the
-- containers of vendor/CommonLib, a git submodule: `HashMap` with the laws of a finite map, and
-- `FlagSets` with those of sets of flags. `CommonLib.AssociationMap` and `CommonLib.Levels` are
-- instances, for runs on concrete inputs.
--
-- `Process` has the records of Katline/Arch/Thread.cppm, and `MemoryObject` the objects of
-- Katline/Memory/MemoryObject.cppm with their reference counts; the frame allocator enters as its two
-- calls (`PageSource`). `HandleManager` is Katline/HandleManager.cppm: `Ownership` is about who may
-- use a handle, `References` and `History` about reference counts over a history of calls.
--
-- `FrameAllocator` is Katline/Memory/FrameAllocator.cppm: a page is taken and freed. The words of its
-- bitmap come from vendor/CommonLib and enter as an interface, `FrameBits`.
--
-- `ProcessMappings` is Katline/Memory/ProcessMappings.cppm, the search for a free range; it takes
-- fuel, and one step more than there are mappings is enough, since each step passes a mapping.
-- `MapPages` and `MemoryMap` are Katline/Syscalls/MemoryMapHelpers.cppm: `map_memory_object` chooses a
-- range, retains the object, maps its pages and records the mapping, and undoes all that on an error.
-- The page tables are an interface, `PageTables`. `SyscallResult` is how a result crosses the kernel
-- boundary (Katline/API/Syscalls.cppm, Katline/API/SyscallCalls.cppm).
--
-- Katline/Arch/Scheduler.cppm is in four parts: `ReadyQueue`, the queue of one processor; `Scheduler`,
-- which thread runs next, with stealing; `Timer`, the tick and the register swap; `Lifecycle`, how
-- threads and processes start, block, wake and exit. The loop over a queue (`drain`) has as fuel one
-- more than the slots of its array; each round passes one. A call is one step of one processor: what
-- other processors do between two of its locked parts is not modelled, nor is log output.
--
-- `Capabilities` is Katline/Syscalls/ProcessGrantCapabilities.cppm with the guard in front of a system
-- call (Katline/Syscalls/KernelContract.cppm).
--
-- `KernelSymbols` is Katline/KernelSymbols.cppm, and `LibC` is Libraries/LibC/src/String.cpp over a
-- memory of bytes; `strlen` has fuel, since the source reads on without bound.
--
-- The user programs stand over `UserSpace`: a program is a function on its memory and on the list of
-- the system calls that it made; what the kernel answers to each call, and what the call does to the
-- memory of the program, is a parameter (`Kernel`). `send_message`, `send_kernel_message` and
-- `receive_message`, which both programs have, stand there as well. They wait without bound in the
-- source and take fuel: one round for each answer that they wait for. `Elf` is how both programs read
-- an image: its header, its segments, the flags of its pages (`Elf.Runs` has the runs of pages that are
-- mapped at once) and the copy of the segments. `Loader` is Applications/Loader/main.cpp: a module is
-- found, its image is placed and mapped into a new process, and its thread is started;
-- `Loader.Requests` is the loop over requests, for a given number of them. `Bootstrap` is
-- Applications/Bootstrap/main.cpp with `Bootstrap.Start` for `_start`, and `Bootstrap.Stubs` is
-- Applications/Bootstrap/RuntimeStubs.cpp. The loops over the pages of an image take one step more of
-- fuel than there are pages, since each step passes a page. The number of program headers is read once
-- for a loop over them. CL::Memory::align_up and align_down come from vendor/CommonLib and enter as an
-- interface, `Rounding`. `UserHeap` is Libraries/LibRuntime/OperatorNewDelete.cpp, over the same system
-- calls, `LibRuntime` is Libraries/LibRuntime/RT.cpp, where a write through a null pointer ends
-- the run as a fault (`Outcome.faulted`), and `KernelNew` is Katline/Memory/NewDelete.cpp
-- over the kernel's heap as an interface.
--
-- Katline/Memory/Heap.cppm is in two parts, over a store of words: `DList`, its linked lists, with `Rings` and
-- `Stacks` about them, and `KernelHeap`, the heap. There `Sizes` and `Blocks` are about the list that serves a
-- request, `Manager` is Katline/Memory/MemoryManager.cppm, `Aligned` is about its aligned blocks, and `Regions` about the memory map that the heap is given, with the ranges that
-- Katline/Runtime.cppm reserves. The search for a list has one step more of fuel than there are lists; a size
-- is halved at most 64 times.
--
-- Katline/Runtime.cppm is in three parts: `BootBlob` writes bytes into the pages of a memory object,
-- each round of its loop at least one; `BootInfo` builds the packed table of what the kernel was started
-- with, with `Sizes`, `Writes` and `Enough` about its size; `KernelIpc` answers the messages to the kernel, with Katline/Syscalls/IPCSend.cppm and
-- Katline/Syscalls/IPCReceive.cppm. A message queue of vendor/CommonLib is an interface, `BoundedQueue`, with
-- `CommonLib.ListQueue` as an instance.
--
-- Not modelled: the page tables behind their interface, how the frame allocator reads the memory map,
-- interrupt and descriptor tables, boot code and drivers.
pub mod Base
pub mod BootBlob
pub mod BootInfo
pub mod Bootstrap
pub mod Capabilities
pub mod CommonLib
pub mod DList
pub mod Elf
pub mod FrameAllocator
pub mod HandleManager
pub mod KernelHeap
pub mod KernelIpc
pub mod KernelNew
pub mod KernelSymbols
pub mod LibC
pub mod LibRuntime
pub mod Lifecycle
pub mod Loader
pub mod MapPages
pub mod MemoryMap
pub mod MemoryObject
pub mod Process
pub mod ProcessMappings
pub mod ReadyQueue
pub mod Scheduler
pub mod SyscallResult
pub mod Timer
pub mod UserHeap
pub mod UserSpace
