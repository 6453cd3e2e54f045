-- ===== src/Lib.antt =====
-- Verification of pithread: cooperative threads, synchronisation and the kernel library of a bare-metal
-- Raspberry Pi program.
--
-- Parts and files:
--   Thread/State      the state of thread.c: the statics, the threads, semaphores, locks, conditions
--                     and channels by their addresses, and the outcome of a call.
--   Thread/ListLib    <list.h>, which is not in the repository, as a record of operations and laws.
--   Thread/Sched      thread.c: get, put, run, release, thread_init, thread_exit, thread_self,
--                     thread_join, thread_pause.
--   Thread/Create     thread.c: thread_new.
--   Thread/Sync       thread.c: semaphores, locks, conditions; interrupts.h as a flag.
--   Thread/Chan       thread.c: channels.
--   Thread/Inv        the invariant: a thread is on the one list that it names, and a lock has one
--                     token, in its semaphore or with its holder.
--   Thread/Safe       what a call does at every switch, against every conduct of the other threads.
--   Thread/Tests      a concrete list library and a small state.
--   Memory            byte memory, and memcpy and memset of lib/string.c.
--   Round             lib/round.h.
--   Words             the bit operations of C.
--   Bitmap            lib/bitmap.c; bitmap_create and bitmap_destroy are in Malloc/Bitmaps.
--   Palloc            lib/palloc.c and page.h, over the bitmap and the lock of the pool. Its words are
--                     the field `used` of the state.
--   Malloc            lib/malloc.c and pg_round_down of page.h, over Palloc and the locks; the calls are
--                     in Malloc/Calls. The lists of free blocks are the field `free_blocks` of the state.
--   Str               lib/string.c: memmove, memcmp, memchr, and strings. Str/Tokens has strpbrk,
--                     strstr and strtok_r.
--   Atags             atags.c, with <atags.h>, which is not in the repository, as a record.
--   Mmio              mmio.h: reads and writes of device registers. A device is a parameter.
--   Uart              uart.c, with the addresses of gpio.h and aux.h.
--   Rand              rand.c, with the answers of the board as a parameter.
--   Debug             lib/debug.c and bitmap_dump: hex_dump in Debug/Dump, debug_backtrace in
--                     Debug/Trace, by what they print.
--   Sieve             sieve_test.c: source, filter and sink, by the numbers that pass through their
--                     channels, and sieve_test; Sieve/Primes compares them with the primes.
--   Sort              sort_test.c: the parallel quicksort. A range ends with the place behind its last
--                     number; a thread runs quick to its end, since quick never gives up the processor.
--                     Which thread_new gets memory is a parameter.
--   Spin              spin_test.c: the functions of its threads, safe against every conduct of the
--                     others.
--   Stdio             lib/stdio.c: parse_conversion. Stdio/Format has format_integer and format_string,
--                     Stdio/Print the conversions and the loop of __vprintf. Stdio/Spec prints a
--                     conversion, its numbers with the digit loop of the code; Stdio/Reader reads a
--                     number and knows nothing of the code.
--
-- A call is a function from the state to an outcome. A call of swtch is the outcome `switched`,
-- with the state that it leaves to the next thread and what the caller does once it is switched
-- back to; so a theorem about a call that sleeps speaks of every sequence of steps of the other
-- threads. Preemption is not in the model, since thread_init refuses it. The argument `fuel` of a
-- call that sleeps bounds how often it is woken in vain; the theorems ask for more fuel than the
-- number of switches that they look at, so that every number of switches is covered. The other
-- loops are bounded by the length of the list or of the format that they step through, by the 64
-- digits that an integer may have, or by the number of bits, bytes or pages that they step over;
-- what meets its bound is `out_of_fuel`. A string's loop takes its bound as an argument. A call of
-- quick goes as deep as its range is long, and a sort of n numbers has at most 2 n + 1 threads.
--
-- Not modelled: the registers that swtch.S saves, the interrupt vectors and the link map;
-- kernel_main and the second half of spin_test, which call the modelled functions in order; the calls
-- of the channels in sieve_test.c. What printf prints is the list of bytes that go to uart_putc.
pub mod Atags
pub mod Bitmap
pub mod Common
pub mod Debug
pub mod Malloc
pub mod Memory
pub mod Mmio
pub mod Palloc
pub mod Rand
pub mod Round
pub mod Sieve
pub mod Sort
pub mod Spin
pub mod Stdio
pub mod Str
pub mod Thread
pub mod Uart
pub mod Words
