-- ===== src/Log/Absorb.antt =====
-- kernel/log.c: `log_write` keeps the names in the header distinct.
use csse_332_final.Base.{
  ℕ, ◌+◌, ◌^◌, ◌<◌, ◌≡◌, refl, ◌∙◌, ◌≢◌, ◌||◌, returns, arith, leb, ◌==◌, if◌then◌else◌, Bool-cases,
  ==_iff, ne_of_==, update, update_self, update-ne, ℕ_discrete, sym, ap, ==_eq, ==_ne, inl, inr,
  Run,
}
use mathlib.Core.Path.{subst₂}
use csse_332_final.Base.Words.{add32}
use csse_332_final.Log.{Log, Store, bpin, find_block, log_size, log_write}
use csse_332_final.Log.Loops.{find_block_lem}

-- No block is named twice.
pub record IsDistinct (lg : Log) : Type 0 where
  pub apply : (i j : ℕ) → i < j → j < lg.n → lg.block i ≢ lg.block j

-- The outcome of `log_write` for the block `b`: `b` is named, the names that were there keep their
-- places, no block is named twice, and `b` is pinned exactly when its name is new.
pub record Absorbed (lg : Log) (b : ℕ) (s : Store) (lg' : Log) (s' : Store) : Type 0 where
  pub distinct : IsDistinct lg'
  pub place : ℕ
  pub below : place < lg'.n
  pub named : lg'.block place ≡ b
  pub kept : (i : ℕ) → i < lg.n → lg'.block i ≡ lg.block i
  pub grows : lg'.n ≡ (if place == lg.n then lg.n + 1 else lg.n)
  pub pinned : s'.pins b ≡ (if place == lg.n then add32 (s.pins b) 1 else s.pins b)

module _ (lg : Log) (b : ℕ) (s : Store) (old : IsDistinct lg) where
  place : ℕ
  place = find_block lg.block b lg.n 0

  appended :
      place ≡ lg.n
      → Absorbed lg b s (record lg { n = lg.n + 1; block = update lg.block place b }) (bpin b s)
  unfolding bpin place
  appended e =
      let (_, _, _, fresh) = find_block_lem lg.block b lg.n 0 in
      record {
        distinct = record {
          apply = λ i j l h. elim (ℕ_discrete j lg.n) [
            | yes last ↦ λ q. fresh (omega (arith, e)) i (omega arith) (omega arith) (
                sym (update-ne lg.block place b (omega (arith, e)))
                ∙ q
                ∙ update_self lg.block place b (omega (arith, e)))
            | no before ↦ λ q. old.apply i j l (omega arith) (
                sym (update-ne lg.block place b (omega (arith, e)))
                ∙ q
                ∙ update-ne lg.block place b (omega (arith, e)))
          ];
        };
        place = place;
        below = omega (arith, e);
        named = update_self lg.block place b refl;
        kept = λ i h. update-ne lg.block place b (omega (arith, e));
        grows = rw (==_eq place lg.n e);
        pinned = rw (==_eq place lg.n e) (update_self s.pins b _ refl);
      }

  absorbed : place ≢ lg.n → Absorbed lg b s (record lg { block = update lg.block place b }) s
  unfolding place
  absorbed ne = record {
    distinct = record { apply = λ i j l h q. old.apply i j l h (sym (same i) ∙ q ∙ same j) };
    place = place;
    below = below;
    named = update_self lg.block place b refl;
    kept = λ i h. same i;
    grows = rw (==_ne place lg.n ne);
    pinned = rw (==_ne place lg.n ne);
  }
    where
      below : place < lg.n
      below = omega (arith, (find_block_lem lg.block b lg.n 0).1, ne)

      same : (i : ℕ) → update lg.block place b i ≡ lg.block i
      same i = elim (ℕ_discrete place i) [
        | yes e ↦
            update_self lg.block place b e
            ∙ sym ((find_block_lem lg.block b lg.n 0).2 (omega (arith, below)))
            ∙ ap lg.block e
        | no other ↦ update-ne lg.block place b other
      ]

out_log :
    {lg lg' : Log} {s s' : Store}
    → ◌≡◌ {A = Run (Log × Store)} (returns (lg, s)) (returns (lg', s'))
    → lg ≡ lg'
out_log e = cc

out_store :
    {lg lg' : Log} {s s' : Store}
    → ◌≡◌ {A = Run (Log × Store)} (returns (lg, s)) (returns (lg', s'))
    → s ≡ s'
out_store e = cc

-- Wherever `log_write` returns, the block is in the header once and no other name is lost.
pub log_write-Absorbed :
    (lg : Log) (b : ℕ) (s : Store) {lg' : Log} {s' : Store}
    → IsDistinct lg
    → log_write lg b s ≡ returns (lg', s')
    → Absorbed lg b s lg' s'
unfolding log_write place
log_write-Absorbed lg b s {lg'} {s'} old e =
    elim (Bool-cases (leb log_size lg.n || leb lg.size (lg.n + 1))) [
      | inl big ↦ cc (rw big at e)
      | inr fits ↦ elim (Bool-cases (lg.outstanding == 0 || leb (2 ^ 31) lg.outstanding)) [
        | inl outside ↦ cc (rw (fits, outside) at e)
        | inr inside ↦ elim (Bool-cases (find_block lg.block b lg.n 0 == lg.n)) [
          | inl new ↦
              subst₂ (Absorbed lg b s) (out_log (rw (fits, inside, new) at e))
                (out_store (rw (fits, inside, new) at e))
                (appended lg b s old ((==_iff _ lg.n).0 new))
          | inr there ↦
              subst₂ (Absorbed lg b s) (out_log (rw (fits, inside, there) at e))
                (out_store (rw (fits, inside, there) at e))
                (absorbed lg b s old (ne_of_== _ lg.n there))
        ]
      ]
    ]
