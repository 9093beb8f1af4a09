-- ===== src/Prelude/Update.antt =====
-- Functions as stores: pointers to objects, indices to array entries, keys to map entries.
use Prim.Native.Nat.{ℕ}
use hodu.Prelude.Tests.{◌==◌, if◌then◌else◌}

abbrev pub update {ℓ} : {A : Type ℓ} → (ℕ → A) → ℕ → A → ℕ → A
update f i v k = if k == i then v else f k
