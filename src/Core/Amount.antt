-- ===== src/Core/Amount.antt =====
-- include/dinari/types.h: amounts of money, uint64_t counts of the smallest unit, and the checked
-- arithmetic on them.
use dinari_blockchain_hub.Base.{
  ℕ, ◌+◌, ◌-◌, ◌*◌, ◌/◌, ◌%◌, ◌^◌, Bool, Option, none, some, ltb, leb, ◌==◌, if◌then◌else◌, ◌||◌,
}

abbrev pub amount_mod : ℕ
amount_mod = 2 ^ 64

abbrev pub coin : ℕ
coin = 100_000_000

abbrev pub max_money : ℕ
max_money = 10_000_000_000 * coin

abbrev pub max_block_size : ℕ
max_block_size = 2 * 1024 * 1024

abbrev pub max_block_sigops : ℕ
max_block_sigops = 20000

abbrev pub coinbase_maturity : ℕ
coinbase_maturity = 100

abbrev pub subsidy_halving_interval : ℕ
subsidy_halving_interval = 210000

abbrev pub min_relay_tx_fee : ℕ
min_relay_tx_fee = 1000

-- `a += b` on an Amount.
abbrev pub add_amount : ℕ → ℕ → ℕ
add_amount a b = (a + b) % amount_mod

unfoldable pub money_range : ℕ → Bool
money_range amount = leb amount max_money

-- The result parameter is set where the answer is true.
unfoldable pub safe_add : ℕ → ℕ → Option ℕ
unfolding money_range
safe_add a b =
    if ltb max_money a || ltb max_money b
    then none
    else if ltb (max_money - b) a
    then none
    else if money_range (add_amount a b)
    then some (add_amount a b)
    else none

unfoldable pub safe_sub : ℕ → ℕ → Option ℕ
safe_sub a b = if ltb a b then none else some (a - b)

-- The multiplier is an int64_t that is not negative.
unfoldable pub safe_mul : ℕ → ℕ → Option ℕ
unfolding money_range
safe_mul a multiplier =
    if (a == 0) || (multiplier == 0)
    then some 0
    else if ltb (max_money / multiplier) a
    then none
    else let result = (a * multiplier) % amount_mod in
      if money_range result then some result else none
