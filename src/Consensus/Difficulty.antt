-- ===== src/Consensus/Difficulty.antt =====
-- src/consensus/difficulty.h and difficulty.cpp: the adjustment of the compact target. A double of
-- the source is a number of 2 ^ -200ths with at most 53 significant bits, rounded to the nearest and
-- to even where two are as near, which is what IEEE 754 says of the quotients and products here;
-- all are 0 or between 2 ^ -2 and 2 ^ 26. The two difficulties that GetNextWorkRequired computes as
-- doubles reach nothing that it returns, and are left out. A height is looked up in the index of the
-- main chain as Blockchain::GetBlockIndex does.
pub mod Limits
use dinari_blockchain_hub.Base.{
  ℕ, zero, suc, ◌+◌, ◌-◌, ◌*◌, ◌/◌, ◌%◌, ◌^◌, ◌≤◌, ◌<◌, ◌≡◌, refl, Bool, true, false, not, ◌&&◌,
  ◌||◌, Option, none, some, ltb, leb, ◌==◌, if◌then◌else◌, arith, Bool-cases, Option-cases, inl,
  inr,
}
use dinari_blockchain_hub.Base.Eq.{nat_eq, list_eq}
use dinari_blockchain_hub.Base.Map.{Map, lookup}
use dinari_blockchain_hub.Util.Serialize.{Bytes}
use dinari_blockchain_hub.Crypto.Hash.{Primitives}
use dinari_blockchain_hub.Crypto.ProofOfWork.{check_proof_of_work}
use dinari_blockchain_hub.Blockchain.Block.{Block, header_hash}
use dinari_blockchain_hub.Blockchain.Index.{BlockIndex, Indices}

abbrev pub difficulty_adjustment_interval : ℕ
difficulty_adjustment_interval = 2016

abbrev pub initial_difficulty : ℕ
initial_difficulty = 486604799

-- GetTargetTimespan
abbrev pub target_timespan : ℕ
target_timespan = difficulty_adjustment_interval * 600

unfoldable pub should_adjust_difficulty : ℕ → Bool
should_adjust_difficulty height = height % difficulty_adjustment_interval == 0

abbrev pub time_of : BlockIndex → ℕ
time_of index = index.block.header.timestamp

abbrev pub bits_of : BlockIndex → ℕ
bits_of index = index.block.header.bits

-- The difference is one of unsigned 64-bit integers.
unfoldable pub calculate_actual_timespan : BlockIndex → BlockIndex → ℕ
calculate_actual_timespan first last =
    let actual = (time_of last + 2 ^ 64 - time_of first % 2 ^ 64) % 2 ^ 64 in
    if leb actual 0 then target_timespan else actual

unfoldable pub limit_timespan : ℕ → ℕ → ℕ
limit_timespan actual target =
    if ltb actual (target / 4)
    then target / 4
    else if ltb (target * 4) actual
    then target * 4
    else actual

unfoldable pub is_valid_difficulty : ℕ → Bool
is_valid_difficulty bits =
    let exponent = bits / 2 ^ 24 in
    let mantissa = bits % 2 ^ 24 in
    if exponent == 0 || ltb 32 exponent
    then false
    else if mantissa == 0
    then false
    else if leb 8388608 mantissa
    then false
    else true

-- The digits of a number in base 2, at most `fuel`.
unfoldable pub bit_length : ℕ → ℕ → ℕ
bit_length zero n = 0
bit_length (suc fuel) n = let rest = bit_length fuel (n / 2) in if n == 0 then 0 else suc rest

unfoldable pub round_even : ℕ → ℕ → ℕ
round_even n d =
    let q = n / d in
    let r = n % d in if ltb (2 * r) d then q else if ltb d (2 * r) then q + 1 else q + q % 2

-- The double that is nearest to the quotient.
unfoldable pub to_double : ℕ → ℕ → ℕ
unfolding bit_length round_even
to_double n d =
    let e = bit_length 400 (n * 2 ^ 200 / d) - 53 in round_even (n * 2 ^ 200) (d * 2 ^ e) * 2 ^ e

-- `std::min(adjust, 4.0)` of the quotient of two timespans.
unfoldable pub adjustment : ℕ → ℕ → ℕ
unfolding to_double
adjustment a b =
    let adjust = to_double a b in if ltb (4 * 2 ^ 200) adjust then 4 * 2 ^ 200 else adjust

-- `while (mantissa > 0x7fffff && exponent < 0xff)`, at most four times: 32 bits are shifted out.
unfoldable pub handle_overflow : ℕ → ℕ → ℕ → ℕ × ℕ
handle_overflow zero mantissa exponent = (mantissa, exponent)
handle_overflow (suc fuel) mantissa exponent =
    let rest = handle_overflow fuel (mantissa / 256) (exponent + 1) in
    if ltb 8388607 mantissa && ltb exponent 255 then rest else (mantissa, exponent)

-- `while (mantissa < 0x008000 && exponent > 0)`
unfoldable pub handle_underflow : ℕ → ℕ → ℕ × ℕ
handle_underflow mantissa zero = (mantissa, 0)
handle_underflow mantissa (suc exponent) =
    let rest = handle_underflow (mantissa * 256 % 2 ^ 32) exponent in
    if ltb mantissa 32768 then rest else (mantissa, suc exponent)

abbrev pub compact : ℕ × ℕ → ℕ
compact (mantissa, exponent) = exponent * 2 ^ 24 % 2 ^ 32 + mantissa % 2 ^ 24

-- The new bits, from the old and the timespan within its limits.
unfoldable pub adjust_bits : ℕ → ℕ → ℕ
unfolding adjustment to_double handle_overflow handle_underflow
adjust_bits bits actual =
    let mantissa = bits % 2 ^ 24 in
    let exponent = bits / 2 ^ 24 in
    if ltb target_timespan actual
    then compact (
        handle_overflow 4
          (to_double (mantissa * adjustment actual target_timespan) (2 ^ 200) / 2 ^ 200) exponent)
    else compact (
        handle_underflow
          (to_double (mantissa * 2 ^ 200) (adjustment target_timespan actual) / 2 ^ 200) exponent)

-- Blockchain::GetBlockIndex of a height.
unfoldable pub get_block_at_height : Map ℕ Bytes → Indices → ℕ → Option BlockIndex
get_block_at_height heights m height = elim (lookup height heights) [
  | none ↦ none
  | some h ↦ lookup h m
]

unfoldable pub get_next_work_required : Map ℕ Bytes → Indices → Option BlockIndex → ℕ
unfolding should_adjust_difficulty get_block_at_height calculate_actual_timespan limit_timespan
    adjust_bits is_valid_difficulty
get_next_work_required heights m none = initial_difficulty
get_next_work_required heights m (some last) =
    if ltb last.height difficulty_adjustment_interval
    then initial_difficulty
    else if not (should_adjust_difficulty ((last.height + 1) % 2 ^ 32))
    then bits_of last
    else elim (get_block_at_height heights m (last.height - difficulty_adjustment_interval + 1)) [
      | none ↦ bits_of last
      | some first ↦
          let actual = limit_timespan (calculate_actual_timespan first last) target_timespan in
          let new_bits = adjust_bits (bits_of last) actual in
          if not (is_valid_difficulty new_bits) then bits_of last else new_bits
    ]

unfoldable pub get_expected_difficulty : Map ℕ Bytes → Indices → Option BlockIndex → ℕ
unfolding should_adjust_difficulty get_next_work_required
get_expected_difficulty heights m none = initial_difficulty
get_expected_difficulty heights m (some prev) =
    if should_adjust_difficulty ((prev.height + 1) % 2 ^ 32)
    then get_next_work_required heights m (some prev)
    else bits_of prev

unfoldable pub verify_block_difficulty :
    Primitives → Block → Option BlockIndex → Map ℕ Bytes → Indices → Bool
unfolding get_expected_difficulty
verify_block_difficulty p b prev heights m =
    if not (b.header.bits == get_expected_difficulty heights m prev)
    then false
    else check_proof_of_work (header_hash p b.header) b.header.bits
