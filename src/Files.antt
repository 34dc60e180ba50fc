-- ===== src/Files.antt =====
-- kernel/file.c: the table of open files and its reference counts.
--
-- `ftable.lock` is held over each function, so each is one step. The work that `fileclose` does after
-- the lock is released is its answer.
pub mod Counts
pub mod Objects
pub mod Holders
mod Tests
use csse_332_final.Base.{
  ℕ, zero, suc, ◌+◌, ◌-◌, ◌/◌, ◌%◌, Bool, true, false, not, ◌||◌, Option, none, some, Run, returns,
  panics, ltb, ◌==◌, if◌then◌else◌, update,
}

pub data FileType : Type 0 where
  fd_none fd_pipe fd_inode fd_device : FileType

pub record File : Type 0 where
  pub type : FileType
  pub ref : ℕ
  pub readable : Bool
  pub writable : Bool
  pub pipe : ℕ  -- the addresses of the pipe and of the inode
  pub ip : ℕ
  pub off : ℕ
  pub major : ℕ

abbrev pub n_file : ℕ
n_file = 100

-- `file` of `ftable`
abbrev pub Ftable : Type 0
Ftable = ℕ → File

-- `k` rounds of the loop of `filealloc`, from slot `i` on
pub find_file : Ftable → ℕ → ℕ → Option ℕ
find_file t zero i = none
find_file t (suc k) i = let rest = find_file t k (i + 1) in if (t i).ref == 0 then some i else rest

pub filealloc : Ftable → Option ℕ × Ftable
filealloc t = elim (find_file t n_file 0) [
  | none ↦ (none, t)
  | some i ↦ (some i, update t i (record (t i) { ref = 1 }))
]

pub filedup : ℕ → Ftable → Run Ftable
filedup i t =
    if ltb (t i).ref 1
    then panics "filedup"
    else returns (update t i (record (t i) { ref = (t i).ref + 1 }))

-- `pipealloc` for the end of a pipe that is written, or that is read.
pub set_pipe : ℕ → Bool → File → File
set_pipe pi writes f = record f {
  type = fd_pipe;
  readable = not writes;
  writable = writes;
  pipe = pi;
}

-- `omode & O_WRONLY` and `omode & O_RDWR`
abbrev wronly : ℕ → Bool
wronly omode = omode % 2 == 1

abbrev rdwr : ℕ → Bool
rdwr omode = omode / 2 % 2 == 1

-- `sys_open` for the inode `ip`, which is a device or is not.
pub set_inode : Bool → ℕ → ℕ → ℕ → File → File
set_inode device ip major omode f =
    let opened = record f {
      ip = ip;
      readable = not (wronly omode);
      writable = wronly omode || rdwr omode;
    } in
    if device
    then record opened { type = fd_device; major = major }
    else record opened { type = fd_inode; off = 0 }

-- What `fileclose` does without the lock.
pub data Closing : Type 0 where
  still_open nothing : Closing
  closes_pipe : ℕ → Bool → Closing  -- `pipeclose(ff.pipe, ff.writable)`
  puts_inode : ℕ → Closing  -- `iput(ff.ip)` in a transaction

abbrev pub last_close : File → Closing
last_close f = elim f.type [
  | fd_pipe ↦ closes_pipe f.pipe f.writable
  | fd_inode ↦ puts_inode f.ip
  | fd_device ↦ puts_inode f.ip
  | fd_none ↦ nothing
]

pub fileclose : ℕ → Ftable → Run (Ftable × Closing)
fileclose i t =
    if ltb (t i).ref 1
    then panics "fileclose"
    else if ltb 0 ((t i).ref - 1)
    then returns (update t i (record (t i) { ref = (t i).ref - 1 }), still_open)
    else returns (update t i (record (t i) { ref = 0; type = fd_none }), last_close (t i))
