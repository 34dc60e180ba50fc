-- ===== src/Lib.antt =====
-- The xv6 kernel of this repository (kernel/) and its audit extension, as executable models.
--
-- A kernel function is a function on the state that it changes. `panic` is the failure of `Run`
-- (Base.Runs). A spin lock is held over the code between `acquire` and `release`, which is one step of
-- the model; where a function sleeps, the states that it finds on waking are an argument.
--
--   Base     shared notation: tests, lists with native indices, memories as functions, machine words
--   Log      kernel/log.c, with bwrite, bpin and bunpin of kernel/bio.c
--   Bio      kernel/bio.c: the buffer cache, with the sleep locks of kernel/sleeplock.c
--   Kalloc   kernel/kalloc.c
--   Vm       kernel/vm.c, with the page-table entries of kernel/riscv.h: tables, the pages of a process,
--            and copies to and from it
--   Pipe     kernel/pipe.c
--   Proc     kernel/proc.c: the process table
--   Fs       kernel/fs.c: the free map, inodes on the disk and in memory, reads, writes and truncation of
--            files, and directories
--   Paths    kernel/fs.c: path names
--   Files    kernel/file.c: the table of open files and its reference counts, with the set-up of files in
--            `pipealloc` (kernel/pipe.c) and `sys_open` (kernel/sysfile.c)
--   Console  kernel/console.c: line editing and reads
--   Spinlock kernel/spinlock.c: locks and the nesting of disabled interrupts
--   Printf   kernel/printf.c, with atoi of user/ulib.c
--   Strings  kernel/string.c
--   Grep     user/grep.c: the matcher and the loop over the lines
--   Audit    the audit calls: kernel/syscall.c, audit of kernel/proc.c, sys_audit of kernel/sysproc.c
--
-- Loops are recursions on the rounds that are left; the fuel of `freerange` is one more than the pages
-- below PHYSTOP, that of `print_lines` one more than the bytes in the buffer, that of `grep` one more than
-- the bytes of the input, that of `namex` one more than the bytes of the path, that of `balloc` one more
-- than the blocks of the map, that of `readi` and `writei` the bytes to move, that of `printint` 32
-- rounds, that of `mappages` one more than the pages below MAXVA, that of `uvmalloc` the pages of the new
-- size and two, that of `copyout`, `copyin` and `copyinstr` the bytes to copy, that of `bget` the buffers,
-- and that of `dirlookup` and `dirlink` the entries and two; each is enough.
--
-- The theorems on writes to files build on those on the free map and on inodes: `writei` calls `bmap`,
-- which calls `balloc`; `iput` calls `itrunc`, which calls `bfree`; both end in `iupdate`. Those on page
-- tables build on the page allocator: the free list, the tables and the pages of a process are disjoint.
-- `writei` takes how full the log is where it logs a block, and panics as `log_write` does; the
-- reservations of `begin_op` are in Log. `dirlookup` and `dirlink` work through `readi` and `writei`; the
-- walk of Paths is stated for any lookup by name, of which they are one.
--
-- Not modelled: the set-up of kernel/fs.c, the contents of new pages and the boot and fork parts of
-- kernel/vm.c, the other files of kernel/ (traps, system calls on files and the drivers), mkfs/, the
-- assembly files, and the programs under user/ but grep.
pub mod Audit
pub mod Base
pub mod Bio
pub mod Console
pub mod Files
pub mod Fs
pub mod Grep
pub mod Kalloc
pub mod Log
pub mod Paths
pub mod Pipe
pub mod Printf
pub mod Proc
pub mod Spinlock
pub mod Strings
pub mod Vm
