-- ===== src/Lib.antt =====
-- agoge: the core of a Game Boy emulator, its processor, bus, cartridge and disassembler.
--
-- The program is a library, core/, with one record of state, the context of core/include/agoge/ctx.h.
-- core/src/ctx.c offers a reset and a step; both go to core/src/cpu.c, an interpreter that fetches
-- through core/src/bus.c and jumps through two tables of labels, `op_tbl` and `cb_tbl`. The bus divides
-- the 16-bit addresses among the cartridge, two RAMs and the serial port; core/src/cart.c checks a
-- cartridge when it is inserted and installs the function that reads its second bank.
-- core/src/disasm.c prints the instruction at an address, and the registers that an instruction has
-- changed. core/src/log.h guards core/src/log.c, which prints a message and hands it to the
-- application's callback. app/main.c resets, inserts, and steps for ever, with a line in the log for
-- each instruction: one call of the disassembler before it runs and one after.
--
-- Which file models which part:
--   Ctx          the state: core/include/agoge/{ctx,bus,cart,cpu,log,disasm}.h
--   Step         actions on the state, `Ctx → Result (A × Ctx)`; what C leaves undefined, and a failed
--                `assert`, is a fault as a value
--   Printf       what the core uses of the C library's `sprintf`: %0nX, %d, %u, %zu and %s
--   Log          `LOG_HANDLE` of core/src/log.h, and `agoge_core_log_handle` of core/src/log.c with its
--                prefixes and its buffer
--   Bus          core/src/bus.c, the banked reads of core/src/cart.c: `bus_read` is
--                `agoge_core_bus_read`, `bus_write` is `agoge_core_bus_write`
--   Cart         core/src/cart.c: `cart_set` is `agoge_core_cart_set`
--   Cpu.Reg      the register file of core/include/agoge/cpu.h, and the flag helpers
--   Cpu.Alu, Cpu.Arith, Cpu.Flow
--                the helpers of core/src/cpu.c, under their own names
--   Cpu.Op       the opcodes of core/src/cpu-defs.h, named after the labels of the interpreter
--   Cpu.Handlers the labels of `agoge_core_cpu_run`, by rows of the opcode table
--   Cpu.Tables   the two jump tables; an entry that no line sets is `none`
--   Cpu.Run      the dispatch, `agoge_core_cpu_run`, and core/src/ctx.c
--   Disasm       core/src/disasm.c: `disasm_single` is `agoge_core_disasm_single`, and so on; Disasm.Buffer
--                writes `res.str`, and Disasm.Tables has the entries, sixteen instructions at a time
--   Boot         the zeroed context, and a client of core/src/ctx.c and core/src/cart.c that resets,
--                inserts and steps, without the disassembler
--   Libc         what app/main.c asks of the C library to read its file, as parameters
--   App          app/main.c, its loop with the traces of the disassembler
-- The other files hold proofs: Valid is the invariant; Runs, RunsReg, RunsBus, RunsFetch and RunsCpu
-- carry it through every helper, handler and table; Bus.Memory, Bus.Ram and Bus.Line are the abstract
-- views of the bus; Log.Fits, Log.Texts and Log.Sends have the messages; Cart.Insert is the
-- specification of an insertion; Disasm.Line sees the result as a text with zeros behind it,
-- Disasm.Entries, Disasm.Shows and Disasm.Mnemonics look through the tables, Disasm.Instr,
-- Disasm.Single, Disasm.Before, Disasm.Traces and Disasm.After say what is printed, and App.Round and
-- App.Loop put that together; App.Input, App.Terminal and App.Program have the program around its loop,
-- and App.Untraced the loop beside a run without traces; Cpu.Flags, Cpu.AddSub, Cpu.Daa, Cpu.Rotate,
-- Cpu.Delay, Cpu.Stack, Cpu.Decode and those beside them set the processor against arithmetic. Examples
-- applies the theorems to concrete states. Prelude has words, bits, lists and tests.
--
-- How C is read: an unsigned value is a native number that is cut where C stores it; an `int` that may be
-- negative is its 32-bit two's complement pattern; the host is little-endian, which the register pairs
-- rely on. Array accesses and pointers are tested at each use. Assertions are on. A dispatch counts
-- instructions, so `dispatch` recurs on that count, which is
-- cut to 32 bits where `agoge_core_ctx_step` and `agoge_core_cpu_run` take it; the text that `%s` reads is
-- cut by the size of the serial buffer, past which the read is out of bounds. No other recursion needs a
-- bound.
--
-- The serial buffer takes 128 bytes, and nothing but an end of line empties it. The invariant counts the
-- bytes that still fit, none at least. An instruction writes at most two bytes to the bus, so it stays
-- within the buffer while that holds fewer than 126; from there on its theorem leaves the two ends open,
-- a return or an access past the buffer, and a run that ends so is traced back to that point (RunsCrowded).
--
-- The C library is taken by its documentation, for the conversions that the core uses: a conversion
-- without an argument is a fault, and so is a text that does not fit where it goes. The handler's buffer
-- has 512 bytes, the disassembler's result 257; no number has more than 8 hexadecimal or 20 decimal
-- digits, which bounds the recursion on digits. The endless loop of `main` is cut after a number of
-- turns that the theorems quantify over. The calls of `stat`, `fopen`, `fread`, `ferror` and `strerror`
-- are parameters of `main`; what `fread` is relied on is a hypothesis where a theorem needs it.
--
-- Not modelled: a callback that changes the context. That of app/main.c does not, and so the log keeps
-- the messages that were handed over, and `log_cb` is a function from a message to what it prints.
-- Compiler attributes and unused macros (core/src/comp.h, core/src/defs.h) are left out.
pub mod Prelude
pub mod Ctx
pub mod Step
pub mod Valid
pub mod Runs
pub mod RunsReg
pub mod RunsBus
pub mod RunsFetch
pub mod RunsCrowded
pub mod RunsCpu
pub mod Printf
pub mod Libc
pub mod Log
pub mod Bus
pub mod Cart
pub mod Cpu
pub mod Disasm
pub mod Boot
pub mod App
pub mod Examples
