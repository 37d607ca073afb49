-- ===== src/Lib.antt =====
-- Verification library of the C++ kernel.
--
-- The kernel is a set of objects that the platform layer (arch/) creates: containers and strings
-- that everything uses, the file layer (VFS, the table of open files, the file systems under it),
-- the scheduler and the drivers. This library follows the parts that decide things, and takes the
-- hardware as parameters. A function of the source is a function of the same name in the style of
-- this library (List::deleteAt is `delete_at`), its loops run on fuel or on a count that the source
-- bounds, and it returns an `Outcome` where it can loop or go through a null pointer.
--
--   LinkedList    List (inc/list.hh, src/list.cpp), on a heap of nodes
--   Memory        Mem::copy, move, set and cmp (src/string.cpp), on a memory of bytes
--   Text          String (inc/string.hh, src/string.cpp), as its characters
--   Files         the table of open files and the paths of Filesystem (src/fs/filesystem.cpp)
--   Vfs           the mounts (src/fs/vfs.cpp)
--   Devfs         the file system of devices (src/fs/devfs.cpp), a client of Files and Text
--   Ustar         the tar file system (src/fs/ustar.cpp), a client of Files and Text; Ustar/Reading
--                 is its read and Ustar/Calls the calls of the file layer
--   Waitlist      the queue of blocked tasks (src/waitlist.cpp)
--   Mutex         BaseMutex (inc/mutex.hh) on a Waitlist, as actions of tasks on one processor; the
--                 return of schedule to a blocked task is an event of its own
--   Bits          sets of numbers (inc/bits.h, src/bits.cpp)
--   Video         the text mode of Video (src/video.cpp); Video/Decimal is about printed numbers
--   MemoryManager MM (inc/mm.h, src/mm.cpp), on the links of its free blocks; its children are proofs
--   ClothesFs     the file system ClothesFS (src/fs/clothesfs.cpp), a client of Files and Text; its
--                 children Bytes, Volume, Chain, Meta, Iterator and Calls are its layers
--   Paging        the pages and frames of the x86 (arch/x86/pagingx86.cpp, src/paging.cpp), a client of
--                 Bits; Paging/Entry is an entry and Paging/Start the start
--   Keyboard      the keyboard of a PC (arch/x86/kbx86.cpp); Keyboard/Layouts are its layouts
--   Ata           the driver of ATA drives (src/ata.cpp) on a bus that is a parameter; Ata/Commands are
--                 its commands, Ata/Detect the detection of a drive, and Ata/Latches and
--                 Ata/Registers are about the registers that prepareAccess writes
--   Storage       the list of devices (src/storage.cpp)
--   Pci           the searches of the configuration space (src/pci.cpp)
--   Gdt           the segment descriptors (src/gdt.cpp)
--   Framebuffer   the framebuffer (src/fb.cpp), on the bytes of the memory
--   Syscalls      system calls on files (libc/syscall_fileio.cpp), which join Video, Keyboard and Vfs
--   Division      64-bit and ARM division (src/math.cpp)
--   Scheduler     ProcessManager and Task (src/processmanager.cpp, inc/task.h), a client of
--                 LinkedList
--   Tests         runs of all of these on concrete inputs
--
-- Files keeps the list of open files as its items, in order: LinkedList relates the operations on
-- nodes to operations on items. Machine words are natural numbers with the wrap written out.
--
-- Fuel: get_block takes 3, since its loop makes at most two rounds; read takes one for each byte
-- asked for and one more; udivmod takes 65 and 66, one more than the bits of a word; uidiv takes
-- one for each unit of the quotient and one more; delete_all takes one for each item and one more;
-- stripslash takes the length of the name and one more. The loops of the memory manager take one
-- for each free block; findUnset takes one for each word that is left and one more; the count of
-- the digits of a number takes more than the number; getBlock and putBlock of ClothesFS take 3, as
-- that of Ustar; its tables, whose blocks can link in a circle, run on fuel that the caller gives,
-- and say when it is used up.
-- A call of Paging that looks for a frame takes the fuel of findUnset, one for each word and one more,
-- and the endless loop of mapFrame is a result of its own, `hangs`;
-- the loops of the drivers end by their own counters, which are counts here; a search of the PCI bus
-- visits at most 256 busses of 32 devices of 8 functions; read on the keyboard takes one for each
-- byte and each sleep and two more.
--
-- Not modelled: the paging of ARM, the interrupts and the other parts of the architectures, which are
-- registers of the machine; printf of Video and the fonts; ATA::init, which reads the controllers;
-- readv, stat and ioctl; allocation failures, which the kernel does not check for in most of the code
-- followed here; the copy constructors of the file systems; Mem::setw on its own; several processors.
pub mod Base
pub mod LinkedList
pub mod Memory
pub mod Text
pub mod Files
pub mod Vfs
pub mod Devfs
pub mod Ustar
pub mod Division
pub mod Scheduler
pub mod MemoryManager
pub mod ClothesFs
pub mod Waitlist
pub mod Mutex
pub mod Bits
pub mod Video
pub mod Paging
pub mod Keyboard
pub mod Ata
pub mod Storage
pub mod Pci
pub mod Gdt
pub mod Framebuffer
pub mod Syscalls
pub mod Tests
