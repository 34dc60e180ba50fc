-- ===== src/Vm/Copy/Tests.antt =====
-- kernel/vm.c: a copy over the end of a page, into a process of two pages.
use csse_332_final.Base.{[], ℕ, ◌+◌, ◌*◌, ◌/◌, ◌≡◌, ap₂, true, arith}
use csse_332_final.Vm.Lookup.{walkaddr-beyond}
use csse_332_final.Vm.Space.Sizes.{first, pages_of}
use csse_332_final.Vm.Space.Tests.{grown, grown_pages, sized}
use csse_332_final.Vm.Copy.{put_bytes, get_bytes, copyout_from, copyout, copyin, copyinstr}
use csse_332_final.Vm.Copy.Pages.{IsApart}
use csse_332_final.Vm.Copy.Apart.{IsSpace-IsApart}
use csse_332_final.Vm.Copy.In.{copyin-copyout}
use csse_332_final.Vm.Copy.Strings.{Copies, copyinstr-Copies}
use csse_332_final.Vm.Tests.{kernel_end, root}

apart : IsApart root grown
apart =
    IsSpace-IsApart kernel_end root 0x4000000 sized.0 (first (pages_of 0x1234)) grown sized.1
      (omega arith) (λ x h. walkaddr-beyond root (x / 4096 * 4096) grown (omega (arith, h)))

-- Two bytes go to the end of the first page, and two to the start of the second.
abbrev stored : ℕ → ℕ
stored = put_bytes (put_bytes (λ a. 0) 0x80003ffe (λ i. i + 1) 0 2) 0x80007000 (λ i. i + 1) 2 2

stores : copyout root grown 0xffe (λ i. i + 1) 4 (λ a. 0) ≡ (true, stored)
unfolding copyout copyout_from
stores =
    rw (grown_pages.0, copyout_from, grown_pages.1, copyout_from)
      (ap₂
        (λ a b. (
          true,
          put_bytes (put_bytes (λ x. 0) (a + 0xffe) (λ i. i + 1) 0 2) (b + 0) (λ i. i + 1) 2 2,
        ))
        grown_pages.0 grown_pages.1)

copyin-copyout_example : copyin root grown 0xffe 4 stored ≡ (true, get_bytes (λ i. i + 1) 0 4)
copyin-copyout_example =
    copyin-copyout root grown (λ i. i + 1) 0xffe 4 (λ a. 0) apart (omega arith) stores

-- The string goes over the end of the page, and ends after four bytes.
copyinstr-Copies_example : Copies root grown stored 0xffe 8 [] (copyinstr root grown 0xffe 8 stored)
copyinstr-Copies_example = copyinstr-Copies root grown stored 0xffe 8 (omega arith)
