-- ===== src/Lib.antt =====
-- The Osakauss kernel: what its C code does, and what can be relied on.
--
-- The kernel is a small x86-64 kernel in C. src/kernel/main.c brings its parts up in this order: the
-- framebuffer, the log with the console and the serial port, the segment and interrupt tables, the
-- physical memory manager, the input, and the virtual file system with its devices. Everything that
-- allocates calls pmm_alloc; the file system and the dynamic lists keep pointers to what it returns;
-- interrupts put characters into the ring of the input, from which the readers take them; and all
-- output goes through formatv, to the console, which draws with the font, and to the serial port.
--
-- * Pmm (src/kernel/mem/pmm.c; Pmm.Init and Pmm.Memory for pmmInit and for pmm_realloc and
--   pmm_calloc). `Pmm` holds the static variables, `pmm_alloc`, `pmm_free`, `pmm_init`,
--   `pmm_realloc` and `pmm_calloc` are the functions of the same names. The bitmap and the table of
--   block counts lie in memory of their own. pmm_alloc's loop ends with the table, so it is a
--   recursion on the rounds that are left, and needs no fuel.
-- * Bitmap (src/libs/bitmap.c). Two bits of the manager's bitmap stand for each block. The functions
--   shift by counts of 32 and more, which C leaves undefined; Bits.Word gives the shifts the meaning
--   that x86-64 gives them, the count modulo 32.
-- * Klibc.Mem, Klibc.Str and Klibc.Num (src/libs/klibc/mem.c, string.c and libc.c), over a memory of
--   bytes. A loop that ends at a NUL byte has fuel, and the theorems ask for more fuel than the string
--   is long; the loops of itoa, itob and digit_count have fuel for the digits of an int in base 2.
-- * Format (src/libs/format.c). The callback is the list of the bytes that it is called with; the
--   fuel of the conversion loop is the room in its buffer of 64 bytes, and is proved to be enough.
-- * Input (src/kernel/input.c). `KeyBuffer` is the ring. An interrupt that appends to the ring is
--   taken while a reader waits. The readers have fuel; a line of n typed characters needs more than n.
-- * Console, Graphics, Font and Serial (src/kernel/drivers: console/framebuffer/console.c,
--   graphics/framebuffer.c and bitmap.c, uart/serial.c; src/include/kernel/drivers/graphics/fonts:
--   font.h). Pixels are bytes of the memory; the drawing functions take the font as an argument, and
--   `font` is the kernel's; what the serial device answers is a list.
-- * Log (src/kernel/log.c), over the console and the serial port, and Log.Faults (fault_handler of
--   src/kernel/cpu/ISR.c), which writes the number of an interrupt to the stack with itoa, and
--   kernel_error (src/libs/klibc/libc.c).
-- * Typing (src/kernel/drivers/kb/kb.c, and handle_serial_in of uart/serial.c): the two interrupt
--   handlers that put characters into the ring.
-- * Interrupts (src/kernel/cpu/IDT.c and ISR.c) and Gdt (src/kernel/cpu/GDT.c). The addresses of the
--   assembly stubs and of the tables are arguments.
-- * Vfs (src/kernel/fs/vfs.c). Nodes and arrays of pointers are typed stores over the addresses that
--   pmm_alloc gives out. Function pointers are addresses, and what they do is an argument. The
--   look-ups take the names of a path; Vfs.Path is vfs_token_path, which gets the names from a path in
--   memory through strtok into a dynamic list, with fuel for the bytes of the path.
--   An array that grows is copied by memcpy, whose number of bytes is a u32: the theorems on growing
--   arrays, here and in Dynlist, bound the number of pointers so that it fits.
-- * Tar (src/kernel/fs/tar.c). A header is given by its name and its size field; the walk has fuel for
--   the headers that it looks at.
-- * Dynlist (src/libs/klibc/dynlist.c), over a typed store of arrays of pointers, and Fd
--   (src/kernel/fs/fd.c and devfs.c, and vfs_init of vfs.c, which sets up the list of descriptors).
-- * Boot (stivale2_get_tag and init_initrd of src/kernel/main.c), with fuel for the tags of the list,
--   and Boot.Start, the first steps of init: the framebuffer, the log and its first messages.
-- * Common and Bits are the helpers that these share: tests on numbers, lists, integers, and bits.
--
-- Undefined behaviour is a result of its own (`none`), as are a halt of the kernel (KERNEL_ERROR) and
-- a wait that never ends. Machine integers are natural numbers with the wrap-around written out.
--
-- Not modelled: the assembly files and the inline assembly (x86.h, lidt); the parts of the header of
-- the stivale2 boot protocol that the kernel does not read; the empty files fs.c and mm.c; psf.h, which
-- nothing uses; and of main.c, init behind its first two messages, which calls the parts in their order.
-- initrd_init, whose file is missing, is an argument, which may write to the log and may not return.
pub mod Common
pub mod Bits
pub mod Graphics
pub mod Console
pub mod Serial
pub mod Input
pub mod Interrupts
pub mod Vfs
pub mod Typing
pub mod Tar
pub mod Dynlist
pub mod Fd
pub mod Boot
pub mod Font
pub mod Log
pub mod Gdt
pub mod Bitmap
pub mod Format
pub mod Klibc
pub mod Pmm
