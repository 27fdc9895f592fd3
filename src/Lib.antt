-- ===== src/Lib.antt =====
-- Verification library of the MVME147 emulator: the parts of the 68030 board that carry its own logic,
-- as executable definitions, with the theorems that make them correct.
--
-- The board runs one CPU (Em68030/Core/MC68030.cpp) whose instructions compute with the ALU. Devices
-- sit on the bus and answer ReadByte to WriteLong. The Peripheral Channel Controller (PCC) collects the
-- devices' interrupt lines, latches them in interrupt control registers (ICR) and tells the CPU a level
-- and a vector by SetIPL; the serial ports call their InterruptOutput, which the board wires to the
-- PCC's SetDeviceInterrupt or to the CPU.
--
-- Files and the code they model:
--   Alu/      Em68030/Core/Alu.h, Alu.cpp. The source repeats each function for 8, 16 and 32 bits; here
--             a function takes a Size. AddSub, Shifts, Rotates, Bcd and MulDiv are the functions; Carry,
--             Compare, Shifting, Rotating, Decimal and LongMath hold their laws, Flags the condition codes. The
--             loops that shift once per round are recursion on the count.
--   Breakpoint/ Em68030/Core/ConditionEvaluator.h. Text has SplitOutsideNesting, Numbers ParseNumber, Values
--             ParseRegisterValue and ParseAddrExpression, Single EvaluateSingleCondition, Evaluate
--             EvaluateCondition and EvaluateLeaf. Splitting is about the parts of a condition, Lengths,
--             Members and Deciding about the fuel, Reading about what an evaluation leaves alone.
--   Cpu/      Em68030/Core/MC68030.h, MC68030.cpp. State holds the registers, the snapshot and the shadow
--             stack, with SetSR; Access is TranslateRead to WriteLong, Fetch the fetches, PushWord to PopLong
--             and the user's memory, Exceptions has RaiseException, RaiseBusError, HandleBusError,
--             ProcessInterrupt, RaiseTrap and EvaluateCondition, Execute Reset, ExecuteStep and
--             ExecuteNextFast. Keeping says what an access leaves alone, Stacks and Entering what an
--             exception changes; Translating compares TranslateRead with Translate. Faults, Interrupts and
--             Running are about the execution loop, the conditions of breakpoints between its steps among
--             it, Conditions about the condition codes. Ram is an interface of a range of RAM that the
--             stack lies in, OnBus the memory bus behind it; Frames, Faulting, Framing and Returning are
--             about the frames of bus errors, interrupts and system calls in that RAM.
--             Em68030/Core/AddressingModes.h, AddressingModes.cpp: Addressing is Decode, ResolveAddress and
--             ResolveIndexed, Operands ReadValue to WriteValue; Modifying is about operands in memory
--             that are read and written, Parts about those in data registers.
--   Pcc/      Em68030/IO/PccDevice.h, PccDevice.cpp. Timer is AdvanceTimer, GetCurrentTimerCount and
--             WriteTimerControl; Irq the ICR writes and CheckIcr; State the members, UpdateIPL,
--             HardwareReset, Tick, SetDeviceInterrupt and the DMA registers; Registers ReadByte to
--             WriteLong. Counting and Clock are about the timers, Priority about UpdateIPL, Wiring and
--             History about every sequence of events, Acknowledge about ICR writes, Dma about the DMA
--             registers. The two timers' members are one record each.
--   Mmu/      Em68030/Core/Mmu.h, Mmu.cpp, and SetBusError and ClearBusError of MC68030.h. State holds
--             the registers and the cache, Walk is TableWalk, Translate has Translate,
--             TranslateReadFast, PLoad and the flushes, Probe is PTest with its theorem. Agreement,
--             Caching and Flushing hold the laws. The memory behind it is a record of two operations.
--   Memory/   Em68030/Core/Memory.h, Memory.cpp. Store holds the members and finds a region or a
--             device, Access is ReadByte to WriteLong, Debug is PeekByte to PokeLong, LoadData and
--             GetRange. Plain is an access without the two caches. Regions, Invariant, Keeping and
--             History are about the memories that the program reaches, Agreement and Refining
--             compare Access with Plain, Laws and Errors say what an access does. The three sizes
--             of an access are one function. Interface is what the LANCE and the loader use of the
--             memory, and the bus behind it; Holding and Poking are about the bytes of a region of RAM.
--   Lance/    Em68030/IO/LanceDevice.h, LanceDevice.cpp. State holds the members and the reading of a
--             CSR, Rings is DoInit, ProcessTxRing and ProcessRxRing, Device the registers on the bus and
--             Tick. Ring, Transmit and Draining are about the transmit ring, OnBus about that ring in
--             RAM on the memory bus, Receiving about the receive ring, Status about CSR0, Reporting and History about the interrupt output. The memory and
--             the network handler (Em68030/IO/INetworkHandler.h) are records of operations.
--   Nvram/    Em68030/IO/Mk48t02Device.h, Mk48t02Device.cpp: Device is the chip, Laws are about its
--             array, Clock about its clock registers and the board's configuration.
--   Uart/     Em68030/IO/Uart16550Device.h, Uart16550Device.cpp: Device is the port, Laws are about its
--             queue and interrupt output, Latch about the divisor latch.
--   Scc/      Em68030/IO/Z8530Device.h, Z8530Device.cpp: Device is a channel with the callbacks that
--             the constructor sets, Bus the two channels on the bus, Output and History the interrupt
--             output along any history, Console the way of the console's characters.
--   VirtualNetwork/  Em68030/IO/VirtualNetworkHandler.h, VirtualNetworkHandler.cpp. Checksum is
--             ComputeChecksum, Handler the members and the frames that are built, Replies ProcessPacket and
--             what it calls. Summing is about the checksum, Serving about the handler behind the
--             LANCE.
--   Loader/   LoadElf of Em68030/IO/FileLoader.h, FileLoader.cpp: Elf is the function over the bytes of the
--             file, Loading about its errors, Placing about the bytes of a segment in RAM on the memory bus.
--   Common/   arrays, Boolean tests, bits of numbers, integers.
-- A file Tests.antt of a part runs it at concrete inputs.
--
-- Numbers: an unsigned w-bit integer is a native number, with the wrap-around written out as % 2 ^ w
-- where the source can wrap; a signed one is an integer of Common/Int. Callbacks that only report are
-- lists of the values that they were called with, the latest first. Recursion is on the shift count, a
-- number of ticks, the levels of the page tables or a list, and every definition is total. Only the two
-- loops of the LANCE and the conditions of breakpoints run on fuel, none being a loop that has not ended:
-- one round more than the transmit ring has descriptors, or than packets wait, is enough where the ring's
-- memory keeps what is written or the packets grow fewer; one more than a condition's or a set's length is
-- enough to evaluate it. What C++ leaves undefined (a division by a zero low word, a quotient outside
-- its type, a shift below zero) is none in the ALU and the MMU.
--
-- Parameters: what the SCSI controller does in the PCC's Tick, the watchdog callback, and the time from
-- the steady clock and the calendar, the memory behind the MMU, what each device on the bus does, the
-- LANCE's memory and network handler, and of the CPU its memory, what a translation does where C++
-- leaves it undefined, the instruction decoder with its cycles, the tick handlers and TrapExecuted.
--
-- Not modelled: the instruction decoder, the FPU, the JIT compiler and its execution loop, the CPU's
-- callbacks that report, its watchpoints and its wall-clock time in STOP, SCSI, the Slirp and TAP handlers,
-- S-records and the other devices, which this library does not reach yet; mutexes, every operation
-- being one step; the user interface, files, sockets and settings, which are input and output.
pub mod Common
pub mod Alu
pub mod Breakpoint
pub mod Cpu
pub mod Lance
pub mod Memory
pub mod Loader
pub mod Mmu
pub mod Nvram
pub mod Pcc
pub mod Scc
pub mod Uart
pub mod VirtualNetwork
