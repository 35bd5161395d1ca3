-- ===== src/Gencgc/Collection/Rounds.antt =====
-- The loop of `collect_garbage` ends, and the generations that it raised are empty.
use cl.Common.{ℕ, ◌+◌, ◌≤◌, ◌<◌, ◌≡◌, ◌⊎◌, Bool, true, false}
use cl.Gencgc.Balance.{IsBalanced}
use cl.Gencgc.Collection.Ends.{Ends}
use cl.Gencgc.Collection.Round.{IsRenewed}
use cl.Gencgc.Collection.{Policy, Collected, bytes_of, gen_to_wp}

-- The generations 0 to `gen` - 1 were collected: up to the last one asked for, or to the oldest.
pub record IsCollected (p : Policy) (last_gen : ℕ) (r : Collected) : Type 0 where
  pub some_collected : 0 < r.gen
  pub high : r.gen ≤ p.oldest_gen_to_gc + 1
  pub reached : (last_gen ≤ r.gen) ⊎ (r.gen ≡ p.oldest_gen_to_gc + 1)
  pub kept : p.oldest_gen_to_gc < r.gen → r.raise ≡ false
  pub empty : (i : ℕ) → i < gen_to_wp r → bytes_of r.collector i ≡ 0
  pub accounts : IsBalanced p.space r.collector.heap
  pub renewed : (i : ℕ) → i < r.gen → IsRenewed p r.collector i
  pub counts : (i : ℕ) → i < gen_to_wp r → (r.collector.generation i).num_gc ≡ 0
  pub scratch_empty : bytes_of r.collector p.scratch_generation ≡ 0

-- What the choice of `raise` and `more` guarantees to the loop.
record IsChoice (p : Policy) (last_gen gen : ℕ) (choice : Bool × Bool) : Type 0 where
  more : choice.1 ≡ true → (choice.0 ≡ true) × (last_gen ≡ gen)
  younger : gen < last_gen → gen < p.oldest_gen_to_gc → choice.0 ≡ true
  oldest : p.oldest_gen_to_gc ≤ gen → choice.0 ≡ false
