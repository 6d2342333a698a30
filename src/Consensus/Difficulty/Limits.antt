-- ===== src/Consensus/Difficulty/Limits.antt =====
-- The limits that the adjustment of the compact target keeps to (src/consensus/difficulty.cpp).
use dinari_blockchain_hub.Base.{
  ℕ, ◌+◌, ◌-◌, ◌*◌, ◌/◌, ◌%◌, ◌^◌, ◌≤◌, ◌<◌, ◌≡◌, refl, Bool, true, false, not, some, ltb,
  if◌then◌else◌, arith, Bool-cases, Option-cases, inl, inr,
}
use dinari_blockchain_hub.Base.Eq.{nat_eq, list_eq}
use dinari_blockchain_hub.Base.Map.{Map}
use dinari_blockchain_hub.Util.Serialize.{Bytes}
use dinari_blockchain_hub.Blockchain.Index.{BlockIndex, Indices}
use dinari_blockchain_hub.Consensus.Difficulty.{
  difficulty_adjustment_interval, initial_difficulty, target_timespan, should_adjust_difficulty,
  time_of, bits_of, calculate_actual_timespan, limit_timespan, is_valid_difficulty, adjust_bits,
  get_block_at_height, get_next_work_required, get_expected_difficulty,
}

-- The timespan stays within a quarter of the target and four times the target.
pub limit_timespan_bounds :
    (actual target : ℕ)
    → (target / 4 ≤ limit_timespan actual target) × (limit_timespan actual target ≤ target * 4)
unfolding limit_timespan
limit_timespan_bounds actual target = ground arith

-- Where the last block of a period is earlier than its first, whose time is below 2^63, the
-- difference wraps and the limited timespan is the greatest one, four times the target.
pub clock_backwards :
    (first last : BlockIndex)
    → time_of first < 2 ^ 63
    → time_of last < time_of first
    → limit_timespan (calculate_actual_timespan first last) target_timespan ≡ 4 * target_timespan
unfolding limit_timespan calculate_actual_timespan
clock_backwards first last small back = ground (arith, small, back)

initial_valid : is_valid_difficulty initial_difficulty ≡ true
unfolding is_valid_difficulty
initial_valid = refl

valid_else :
    (old new : ℕ)
    → is_valid_difficulty old ≡ true
    → is_valid_difficulty (if not (is_valid_difficulty new) then old else new) ≡ true
valid_else old new v = elim (Bool-cases (is_valid_difficulty new)) [
  | inl t ↦ rw (t, t) refl
  | inr t ↦ rw t v
]

if_valid :
    (c : Bool) (a b : ℕ)
    → is_valid_difficulty a ≡ true
    → is_valid_difficulty b ≡ true
    → is_valid_difficulty (if c then a else b) ≡ true
if_valid true a b v w = v
if_valid false a b v w = w

next_work_valid :
    (heights : Map ℕ Bytes) (m : Indices) (last : BlockIndex)
    → is_valid_difficulty (bits_of last) ≡ true
    → is_valid_difficulty (get_next_work_required heights m (some last)) ≡ true
unfolding get_next_work_required
next_work_valid heights m last v =
    elim (Bool-cases (ltb last.height difficulty_adjustment_interval)) [
      | inl t ↦ rw t initial_valid
      | inr t ↦ elim (Bool-cases (should_adjust_difficulty ((last.height + 1) % 2 ^ 32))) [
        | inr n ↦ rw (t, n) v
        | inl y ↦
            elim (Option-cases
              (get_block_at_height heights m (last.height - difficulty_adjustment_interval + 1))) [
                | inl none_found ↦ rw (t, y, none_found) v
                | inr (first, found) ↦
                    rw (t, y, found)
                      (valid_else (bits_of last)
                        (adjust_bits (bits_of last)
                          (limit_timespan (calculate_actual_timespan first last) target_timespan))
                        v)
              ]
      ]
    ]

-- Where the bits of the previous block are valid, the bits that GetExpectedDifficulty asks of the
-- next are valid too, on every branch of the adjustment.
pub expected_difficulty_valid :
    (heights : Map ℕ Bytes) (m : Indices) (prev : BlockIndex)
    → is_valid_difficulty (bits_of prev) ≡ true
    → is_valid_difficulty (get_expected_difficulty heights m (some prev)) ≡ true
unfolding get_expected_difficulty
expected_difficulty_valid heights m prev v =
    if_valid (should_adjust_difficulty ((prev.height + 1) % 2 ^ 32))
      (get_next_work_required heights m (some prev)) (bits_of prev)
      (next_work_valid heights m prev v) v
