-- ===== src/Nvm/Flush.antt =====
-- Which bytes `_nvm_perisist` writes back.
use epli.Prelude.{
  ℕ, zero, suc, ◌+◌, ◌*◌, ◌/◌, ◌%◌, ◌≤◌, ◌<◌, ◌≡◌, arith, Bool, true, false, List, [], ◌∷◌, ◌==◌,
  ◌||◌,
}
use epli.Nvm.{cache_line, persist_loop, nvm_persist}

abbrev pub member : ℕ → List ℕ → Bool
member x [] = false
member x (y ∷ ys) = (x == y) || member x ys

persist_loop_covers :
    (fuel ptr stop x : ℕ)
    → ptr % 64 ≡ 0
    → stop ≤ ptr + fuel * 64
    → ptr ≤ x
    → x < stop
    → member (cache_line x) (persist_loop fuel ptr stop) ≡ true
unfolding persist_loop cache_line
persist_loop_covers zero ptr stop x al f lo hi = absurd (omega arith)
persist_loop_covers (suc fuel) ptr stop x al f lo hi =
    ground (arith, persist_loop_covers fuel (ptr + 64) stop x)

-- For every byte of `[p, p + len)`, `_nvm_perisist` writes back the cache line of the byte.
pub nvm_persist_covers :
    (p len x : ℕ) → p ≤ x → x < p + len → member (cache_line x) (nvm_persist p len) ≡ true
unfolding nvm_persist cache_line
nvm_persist_covers p len x lo hi =
    persist_loop_covers (len + 64) (p / 64 * 64) (p + len) x (omega arith) (omega arith)
      (omega arith) hi
