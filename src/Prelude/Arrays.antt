-- ===== src/Prelude/Arrays.antt =====
-- C arrays as functions from the index: one store, and `memcpy`.
use Prim.Native.Nat.{ℕ, ◌+◌, ◌-◌}
use mathlib.Core.Bool.{◌&&◌}
use mathlib.Core.List.{List}
use timelock_drive.Prelude.Tests.{ltb, leb, ◌==◌, if◌then◌else◌}
use timelock_drive.Prelude.Lists.{get_or}

-- `a[i] = v`
abbrev pub update {ℓ} : {A : Type ℓ} → (ℕ → A) → ℕ → A → ℕ → A
update a i v j = if i == j then v else a j

-- `memcpy(a + off, src, n)`
abbrev pub memcpy : (ℕ → ℕ) → ℕ → List ℕ → ℕ → ℕ → ℕ
memcpy a off src n j = if leb off j && ltb j (off + n) then get_or src (j - off) 0 else a j
