-- ===== src/Crypto/ProofOfWork.antt =====
-- src/crypto/hash.cpp: targets in compact form and the proof-of-work test. A uint256_t is a
-- number; the bytes of a hash are its digits, the least significant first.
use native.Mathlib.Nat.{mul-le-mul, pow-le-pow_right, div-le_self}
use dinari_blockchain_hub.Base.{
  ℕ, ◌-◌, ◌*◌, ◌/◌, ◌%◌, ◌^◌, ◌≤◌, ◌<◌, ◌≡◌, ◌↔◌, refl, Bool, true, false, ◌||◌, ltb, leb, ◌==◌,
  if◌then◌else◌, arith,
}
use dinari_blockchain_hub.Util.Serialize.{Bytes, le_bytes, le_value}
use dinari_blockchain_hub.Util.Serialize.Laws.{le_value-le_bytes}
use dinari_blockchain_hub.Crypto.Hash.{zero_hash}

-- The number that CompactToTarget has in `result`.
unfoldable pub target_number : ℕ → ℕ
target_number compact =
    let exponent = compact / 2 ^ 24 in
    let mantissa = compact % 2 ^ 24 in
    if ltb 3 exponent
    then mantissa * 2 ^ ((exponent - 3) * 8)
    else if ltb exponent 3
    then mantissa / 2 ^ ((3 - exponent) * 8)
    else mantissa

-- The sign bit is the highest of the mantissa's 24.
unfoldable pub compact_to_target : ℕ → Bytes
unfolding target_number
compact_to_target compact =
    let exponent = compact / 2 ^ 24 in
    let mantissa = compact % 2 ^ 24 in
    if leb (2 ^ 23) mantissa || mantissa == 0 || exponent == 0
    then zero_hash
    else if ltb 32 exponent
    then zero_hash
    else le_bytes 32 (target_number compact)

unfoldable pub check_proof_of_work : Bytes → ℕ → Bool
unfolding compact_to_target
check_proof_of_work hash target =
    let target_value = le_value (compact_to_target target) in
    if target_value == 0 then false else leb (le_value hash) target_value

target_number-fits :
    (compact : ℕ)
    → compact / 2 ^ 24 ≤ 32
    → compact % 2 ^ 24 < 2 ^ 23
    → target_number compact < 256 ^ 32
unfolding target_number
target_number-fits compact e m =
    let exponent = compact / 2 ^ 24 in
    let mantissa = compact % 2 ^ 24 in
    let shifted =
      mul-le-mul {n₁ = mantissa} {m₁ = 2 ^ ((exponent - 3) * 8)} {n₂ = 2 ^ 23} {m₂ = 2 ^ 232}
        (omega arith)
        (pow-le-pow_right {n = 2} (omega arith) {i = (exponent - 3) * 8} {j = 232} (omega arith)) in
    ground (arith, shifted, div-le_self mantissa (2 ^ ((3 - exponent) * 8)))

zero_target : le_value zero_hash ≡ 0
unfolding le_value
zero_target = refl

-- A hash passes the proof-of-work test exactly if the compact target has an exponent from 1 to 32
-- and a mantissa without sign bit, the number that it stands for is not 0, and the number of the
-- hash is at most that.
pub check_proof_of_work_iff :
    (hash : Bytes) (compact : ℕ)
    → (check_proof_of_work hash compact ≡ true) ↔ (
        (1 ≤ compact / 2 ^ 24)
        × (compact / 2 ^ 24 ≤ 32)
        × (compact % 2 ^ 24 < 2 ^ 23)
        × (1 ≤ target_number compact)
        × (le_value hash ≤ target_number compact))
unfolding check_proof_of_work
check_proof_of_work_iff hash compact =
    ground
      (arith, target_number-fits compact, le_value-le_bytes 32 (target_number compact), zero_target)
