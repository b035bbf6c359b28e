-- ===== src/Lib.antt =====
-- LEN5 is a RISC-V core; this library is about the C software that runs on it, the run-time
-- support under sw/device, the applications under sw/applications and the benchmark programs under
-- sw/benchmarks, about the C++ test benches under tb that drive its simulation, and about units of
-- its hardware description under rtl.
--
-- Parts and how they interact. A program is linked with the routines of sw/device/base/memory.c
-- and with the system calls of sw/device/runtime/syscall.c, which reach the serial interface
-- through sw/device/runtime/len5.c. The benchmarks compute over memory that they own, and report
-- their results through those calls. Each part is modelled in a module of its own:
--
-- - Device.Memory: memcpy, memset, memcmp, memchr, memrchr, read_32 and write_32. A memory is a
--   function from addresses to bytes, and addresses are numbers: objects do not wrap around the
--   end of the address space. A counted loop recurs on the rounds that are left. What is undefined, a
--   memcpy between areas that overlap and a word at an address that is not aligned, is none.
-- - Device.Syscall: the system calls as functions from a machine state to a new one and a result.
--   The characters that the receiver will deliver are a list; a read that waits for ever is none.
--   The loop of _write runs on size + 1 units of fuel, one more than its rounds.
--   Device.Syscall.Calls has the calls that only answer, Calls.Program all calls as steps, with what
--   the C library says of the structures that they fill as a parameter, and Calls.Steps their effect.
-- - Coremark.Crc: the CRC routines of sw/benchmarks/coremark/src/all/core_util.c.
-- - Coremark.Parseval: parseval and get_seed_args of core_util.c, on strings as lists.
-- - Coremark.LinkedList: the list of sw/benchmarks/coremark/src/all/core_list_join.c. The block of
--   list heads and the block of items are two arrays of structs, and a pointer is an index into its
--   array, 0 the null pointer. A loop over a list runs on more fuel than the list has cells.
-- - Coremark.StateMachine: sw/benchmarks/coremark/src/all/core_state.c, over a memory of bytes. The
--   loops run on fuel: a scan needs more than the distance to the next NUL, the corruption and the
--   initialisation more than the size of the buffer. The step of the corruption is positive, and
--   StateMachine.Init has the patterns and core_init_state.
-- - Coremark.Matrix: sw/benchmarks/coremark/src/all/core_matrix.c with integer matrices, in
--   Matrix.Init core_init_matrix without its pointers. Matrices are functions from indices to
--   patterns. The search for the dimension of a block of up to 2^31 bytes needs 20001 units of fuel.
-- - Embench.Matmult: sw/benchmarks/embench/src/matmult-int/matmult-int.c; a matrix is the list of its
--   rows.
-- - Embench.Mont64: sw/benchmarks/embench/src/aha-mont64/mont64.c, with both versions of mulul64.
--   The loop of xbinGCD gets 65 units of fuel: 64 halvings bring a 64-bit number to 0.
-- - Embench.Support: sw/benchmarks/embench/support/beebsc.c, the random numbers and the allocator; a
--   sequence of calls of the allocator is a list.
-- - Embench.Crc32: sw/benchmarks/embench/src/crc32/crc_32.c, which takes its bytes from the random
--   numbers of Embench.Support.
-- - Tb.Logger: tb/verilator/tb_macros.cpp and tb_macros.hh, down to the text of each line. Tb.Options:
--   the command lines of both benches, behind getopt_long.
-- - Tb.Bare: tb/verilator/len5_tb.cpp. The model of the core that Verilator generates is an argument of
--   the loop, which gets one unit of fuel more than the half cycles it may simulate.
-- - Tb.Alu: tb/expipe/alu/tb_components.cpp, and in Tb.Alu.Main alu_tb.cpp: the requests, whose random
--   draws are streams, the driver, the monitors, the scoreboard and the loop around an arbitrary
--   device, with fuel as above. Main.Device has the devices: any combinational function, and alu.sv.
-- - Rtl.Alu: that device, the combinational part of rtl/expipe/exec-units/alu.sv, and in Alu.Unit the
--   unit with its output register. Isa: what the operations mean, the reference for all of them.
-- - Rtl.Handshake: the interface of a stage with valid and ready, and what follows for every stage that
--   stands for a queue. Rtl.SpillCell (rtl/common/spill_cell*.sv) and Rtl.Fifo (fifo.sv, over the
--   counter of Rtl.Counter, modn_counter.sv) fill it.
-- - Rtl.PrioEnc, Rtl.RrArbiter, Rtl.FairArbiter: rtl/common/prio_enc.sv, rr_arbiter.sv, which uses the
--   encoder, and fair_2way_arbiter.sv. Rtl.Ras: rtl/frontend/ras.sv. Rtl.Rob:
--   rtl/expipe/commit-unit/rob.sv. Rtl.IntRegstat: rtl/expipe/register-file/int_regstat.sv over the
--   counters of rtl/common/updown_counter.sv.
--   Of a unit with registers, a function gives the registers after one rising edge of the clock with
--   rst_ni high, from those before and the inputs; the values under reset are separate. A vector or an
--   array of registers is the function of its index, of which the indices below the size count.
-- - Apps.Hello and Apps.Timer: the programs of sw/applications. The fuel of print_char is the length of
--   the text.
-- - Common: Boolean tests, lists, integers and the laws of the bit operations for every width.
--
-- A w-bit unsigned number is a natural number with the wrap-around written out.
--
-- Not modelled: assembly, the RTL beyond those units, floating-point programs, printing and timing
-- of the benchmarks, and the copy of the sglib library; of the benches the wave files and the usage
-- text.
pub mod Common
pub mod Device
pub mod Coremark
pub mod Embench
pub mod Isa
pub mod Rtl
pub mod Tb
pub mod Apps
