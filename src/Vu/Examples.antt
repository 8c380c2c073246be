-- ===== src/Vu/Examples.antt =====
-- The choice of operations at concrete inputs.
use mcpdrill.Prelude.{◌+◌, ◌<◌, ℕ, [], ◌∷◌, ◌≡◌, refl, some, arith}
use mcpdrill.Vu.Sampler.{
  OperationWeight, OperationSampler, new_operation_sampler, sample, sample-share,
}

abbrev op : ℕ → ℕ → OperationWeight ℕ
op weight name = record { weight = weight; operation = name }

abbrev sampler : OperationSampler ℕ
sampler = record { mix = op 3 1 ∷ op 0 2 ∷ op 2 3 ∷ []; total_weight = 5 }

sample-share_example : (5 ≡ 3 + (2 + 0)) × (3 + 1 < 5) × (sample sampler 4 ≡ some (op 2 3))
unfolding new_operation_sampler
sample-share_example = sample-share (op 3 1 ∷ op 0 2 ∷ []) (op 2 3) [] sampler 1 refl (omega arith)
