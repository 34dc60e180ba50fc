-- ===== src/Files/Tests.antt =====
-- kernel/file.c: a file for the end of a pipe.
use csse_332_final.Base.{◌≡◌, ℕ, refl, [], ◌∷◌, true, false, returns, update}
use csse_332_final.Files.{
  File, fd_none, Ftable, find_file, filealloc, fileclose, set_pipe, closes_pipe,
}
use csse_332_final.Files.Counts.{Counted}
use csse_332_final.Files.Objects.{Object, no_object, pipe_end}
use csse_332_final.Files.Holders.{Holders, opens, sets_pipe, Reach, here, next, fileclose_last}

abbrev free_file : File
free_file = record {
  type = fd_none;
  ref = 0;
  readable = false;
  writable = false;
  pipe = 0;
  ip = 0;
  off = 0;
  major = 0;
}

abbrev empty : Ftable
empty i = free_file

empty-Counted : Counted empty []
empty-Counted = record { counts = λ i h. refl; inside = λ i h. refl }

abbrev no_objects : ℕ → Object
no_objects i = no_object

abbrev start : Holders
start = record { files = empty; held = []; object = no_objects }

abbrev opened : Ftable
opened = update empty 0 (record free_file { ref = 1 })

-- The end of the pipe at 4096 that is written.
abbrev for_pipe : Ftable
for_pipe = update opened 0 (set_pipe 4096 true (opened 0))

abbrev one_pipe : ℕ → Object
one_pipe = update no_objects 0 (pipe_end 4096 true)

abbrev pipe_opened : Holders
pipe_opened = record { files = for_pipe; held = 0 ∷ []; object = one_pipe }

pipe_opened-Reach : Reach start pipe_opened
unfolding filealloc find_file
pipe_opened-Reach =
    next (next here (opens [] no_objects refl)) (sets_pipe 0 (0 ∷ []) no_objects 4096 true)

fileclose_last_example :
    (u : Ftable) × Counted u [] × (fileclose 0 for_pipe ≡ returns (u, closes_pipe 4096 true))
fileclose_last_example = fileclose_last 0 [] [] empty-Counted (λ i. refl) pipe_opened-Reach refl
