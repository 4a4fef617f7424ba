-- ===== src/Lib.antt =====
-- MeringueOS, a small AArch64 kernel for QEMU's virt machine: its physical frame allocator, its heap,
-- the string, number and output functions that the parts use, the UART driver, the exception handlers,
-- the shell, and the order in which they start.
--
-- At boot src/boot/kernel.c initialises the frame allocator, then the heap, and starts the shell. The
-- heap gets its pages from the frame allocator by `alloc_frame`, and keeps the headers of its blocks
-- in those pages; the frame allocator keeps its bitmap in memory that the linker reserves within the
-- kernel image. The shell reads a line from the UART by `kgetc_blocking`, cuts it into words by
-- `strtok`, finds the command of that name by `strcmp`, and the command reads its numbers by
-- `simple_strtoull` and looks at memory, writes it, or calls the heap. All parts print by `kprintf`,
-- which sends what it has put together to the UART.
--
-- The machine's state is passed explicitly. Memory (Memory) is a function from addresses to bytes; an
-- address is a natural number, and what C keeps in 64 bits is reduced modulo 2 ^ 64 where it is
-- computed. `Pmm` (Frames) is memory with the static variables of the frame allocator, `Kheap` (Heap)
-- that with the static variables of the heap, and `Shell` (Shell/Loop) that with what `strtok` keeps
-- and the characters that are still to come. A C function becomes one of the same name from the state
-- and its arguments to the new state and its result; NULL is 0.
--
--   Memory      `memset`, `memcpy` of src/lib/string.c, and multi-byte loads and stores
--   Strings     the other functions of src/lib/string.c
--   Numbers     `simple_strtoull`, `simple_strtoul` of src/lib/stdlib_stubs.c
--   Frames      src/memory/frame_alloc.c with src/include/memory/frame_alloc.h; the linker's symbols
--               and the boot parameters of src/include/kernel.h are records (`Linker`, `BootParams`)
--   Heap        src/memory/kheap.c; Heap/Header is the layout of `heap_block_t` in memory
--   Stdio       `kprintf` of src/lib/stdio.c; Stdio/Calls has its calls with literal formats, `abort`
--               of src/lib/stdlib_stubs.c among them
--   Uart        src/lib/uart.c, and the functions of src/lib/stdio.c that send and receive characters
--   Exceptions  src/exceptions/exceptions.c with src/include/exceptions/exceptions.h
--   Kernel      src/boot/kernel.c: `boot_debug_copy`, and `kernel_main` in Kernel/Main
--   Tui         src/ui/tui.c
--   Shell       the address check and the commands of src/shell/shell.c; Shell/Dump is `memdump`,
--               Shell/Line its line reader, Shell/Words its cutting of a line, and Shell/Loop its
--               table and its rounds
--   Prelude     the library names, lists, tests, texts and machine words that the parts share
--   Tests, Frames/Tests, Heap/Tests    examples on small states
--
-- Loops over a counter are structural recursion on the rounds that are left. The search of the frame
-- allocator goes over all 262144 frames; a dump has a round for each 16 bytes; `num_buf` and
-- `size_str` have room for 20 and 16 characters, and the loops that fill them run on that room. A walk
-- over a string that ends in NUL, and the search of the heap's free list, run on fuel: fuel above the
-- length of the string (of both strings, where one is searched for the bytes of another) is enough, and
-- `none` says that it was not. `kprintf` needs more fuel than its format has pieces and a string
-- argument has bytes; a wait for the UART needs more than the device makes it wait. The loop of the
-- shell does not end; a number of its rounds is run.
--
-- Messages of the frame allocator, the heap and `kernel_main` are left out, and so are the echo, the
-- prompt and the debug output of the shell. The shell's commands, the exception handlers and Tui keep
-- their calls of `kprintf`, each with its format and its arguments (`Print`); what such calls send to
-- the UART is a matter of the model of `kprintf`, which consumes no argument for %02x, %zu and the like. The
-- linker's symbols, the boot parameters, the addresses of literals and of arrays on the stack, the
-- system registers, what memory holds at first and the registers of the UART are parameters. Not
-- modelled are the assembly (src/boot/boot.S, src/exceptions/exceptions_asm.S), which saves and
-- restores the registers, sets the stack and the vectors up and copies the sections, and the linker
-- script.
pub mod Prelude
pub mod Memory
pub mod Strings
pub mod Numbers
pub mod Frames
pub mod Heap
pub mod Stdio
pub mod Uart
pub mod Exceptions
pub mod Kernel
pub mod Tui
pub mod Shell
mod Tests
