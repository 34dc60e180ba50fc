-- ===== src/Fs/Content/Overwrite.antt =====
-- kernel/fs.c: a change of a data block keeps the free map and the inodes.
use csse_332_final.Base.{
  ℕ, ◌%◌, ◌<◌, ◌≡◌, ◌∙◌, sym, ap, not, arith, ℕ_discrete, update, update_self, update-ne, subst,
}
use csse_332_final.Fs.{Superblock, Block, Blocks, bblock, iblock, bpb}
use csse_332_final.Fs.Bitmap.{is_free}
use csse_332_final.Fs.Bitmap.Marks.{used, IsBytes}
use csse_332_final.Fs.Content.Files.{IsData, IsDisk}

module _ (sb : Superblock) (d : Blocks) (c : ℕ) (new : Block) (v : IsData sb d c) where
  pub used-overwrite : (x : ℕ) → x < sb.size → used sb (update d c new) x ≡ used sb d x
  used-overwrite x h =
      ap (λ a. not (is_free a (x % bpb))) (update-ne d c new (λ e. v.no_map x h (sym e)))

  pub IsData-overwrite : (b : ℕ) → IsData sb d b → IsData sb (update d c new) b
  IsData-overwrite b w = record {
    in_range = w.in_range;
    in_use = used-overwrite b w.in_range ∙ w.in_use;
    no_map = w.no_map;
    no_inode = w.no_inode;
  }

  pub disk-overwrite : (IsBytes (d c) → IsBytes new) → IsDisk sb d → IsDisk sb (update d c new)
  disk-overwrite bytes k = record {
    small = k.small;
    map = record {
      bytes = λ x. elim (ℕ_discrete c (bblock x sb)) [
        | yes e ↦
            subst IsBytes (sym (update_self d c new e))
              (bytes (subst (λ b. IsBytes (d b)) (sym e) (k.map.bytes x)))
        | no other ↦ subst IsBytes (sym (update-ne d c new other)) (k.map.bytes x)
      ];
      own = λ x h. let o = k.map.own x h in (o.0, used-overwrite (bblock x sb) o.0 ∙ o.1);
      boot = used-overwrite 0 (omega (arith, v.in_range)) ∙ k.map.boot;
    };
    inodes = λ i h. let o = k.inodes i h in (o.0, used-overwrite (iblock i sb) o.0 ∙ o.1);
  }
