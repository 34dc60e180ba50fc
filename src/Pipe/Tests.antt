-- ===== src/Pipe/Tests.antt =====
-- kernel/pipe.c on small pipes.
use csse_332_final.Base.{
  ℕ, ◌-◌, ◌^◌, ◌≡◌, refl, Bool, true, false, Option, none, some, [], ◌∷◌, ◌==◌, if◌then◌else◌,
  update,
}
use csse_332_final.Pipe.{Pipe, pipeclose, read_from, piperead, read_wait}
use csse_332_final.Pipe.Window.{contents}

abbrev user : ℕ → Option ℕ
user a = if a == 7 then none else some a

abbrev never : ℕ → Bool
never i = false

-- The counters are about to wrap.
abbrev wrapping : Pipe
wrapping = record {
  bytes = λ _. 0;
  nread = 2 ^ 32 - 1;
  nwrite = 2 ^ 32 - 1;
  readopen = true;
  writeopen = true;
}

-- Address 7 is not mapped.
abbrev after_write : Pipe
after_write = record wrapping { bytes = update (update (λ _. 0) 511 5) 0 6; nwrite = 1 }

after_write-contents : contents after_write ≡ 5 ∷ 6 ∷ []
after_write-contents = refl

close_both : (pipeclose (pipeclose wrapping true).0 false).2 ≡ true
unfolding pipeclose
close_both = refl

-- A reader finds the pipe empty, sleeps, and then reads what was written.
read_waits :
    piperead (λ a. true) 0 5 ((wrapping, false) ∷ (after_write, false) ∷ [])
    ≡ some (5 ∷ 6 ∷ [], record after_write { nread = 1 }, some 2)
unfolding piperead read_wait read_from
read_waits = refl
