-- ===== src/Checksum/Valid.antt =====
-- The checksums of src/prober.c and the XDP programs make a receiver's sum come out as all ones.
use flux_wan.Base.{ℕ, ◌+◌, ◌<◌, ◌^◌, ◌≡◌, arith}
use flux_wan.Checksum.{fold_carry, carry_all, not16, csum_fold_helper}

-- A sum, its checksum word included, that a receiver accepts.
abbrev pub Accepted : ℕ → Type 0
Accepted sum = fold_carry sum ≡ 0xffff

pub fold_carry-Accepted : (sum : ℕ) → sum < 2 ^ 31 → Accepted (sum + not16 (fold_carry sum))
unfolding fold_carry
fold_carry-Accepted sum h = omega arith

pub csum_fold_helper-Accepted : (sum : ℕ) → sum < 2 ^ 31 → Accepted (sum + csum_fold_helper sum)
unfolding fold_carry csum_fold_helper
csum_fold_helper-Accepted sum h = ground arith

pub carry_all-Accepted : (sum : ℕ) → sum < 2 ^ 31 → Accepted (sum + not16 (carry_all 3 sum))
unfolding fold_carry carry_all
carry_all-Accepted sum h = ground arith
