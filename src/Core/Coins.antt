-- ===== src/Core/Coins.antt =====
-- src/core/utxo.h and utxo.cpp: UTXOCache, the counters and the cached entries over a base set, and
-- CoinSelector, the choice of outputs for a payment. std::sort and std::shuffle are parameters. A
-- failed selection leaves its amounts unset, so it has none here.
pub mod Payment
use dinari_blockchain_hub.Base.{
  ℕ, ◌+◌, ◌*◌, ◌/◌, ◌%◌, ◌-◌, ◌^◌, Bool, true, false, Option, none, some, List, [], ◌∷◌, ◌++◌, ltb,
  leb, if◌then◌else◌, length,
}
use dinari_blockchain_hub.Base.Map.{Map, lookup, insert}
use dinari_blockchain_hub.Core.Amount.{add_amount, amount_mod}
use dinari_blockchain_hub.Core.OutPoint.{OutPoint, out_point_eq}
use dinari_blockchain_hub.Core.TxOut.{TxOut}
use dinari_blockchain_hub.Core.Utxo.{UtxoEntry, UtxoSet, get_utxo, get_utxo_entry}

pub record UtxoCache : Type 0 where
  pub base_set : UtxoSet
  pub cache : Map OutPoint UtxoEntry
  pub max_cache_size : ℕ
  pub hits : ℕ
  pub misses : ℕ

abbrev pub new_utxo_cache : UtxoSet → ℕ → UtxoCache
new_utxo_cache base_set max_cache_size = record {
  base_set = base_set;
  cache = [];
  max_cache_size = max_cache_size;
  hits = 0;
  misses = 0;
}

-- The answer of GetUTXO, and the cache that it leaves.
unfoldable pub cached_utxo : OutPoint → UtxoCache → Option TxOut × UtxoCache
cached_utxo o c = elim (lookup o c.cache) [
  | some e ↦ (some e.output, record c { hits = c.hits + 1 })
  | none ↦
      let missed : UtxoCache = record c { misses = c.misses + 1 } in
      elim (get_utxo_entry o c.base_set) [
        | none ↦ (none, missed)
        | some e ↦ (
          some e.output,
          if ltb (length c.cache) c.max_cache_size
              then record missed { cache = insert o e c.cache }
              else missed,
        )
      ]
]

unfoldable pub cached_has_utxo : OutPoint → UtxoCache → Bool × UtxoCache
unfolding cached_utxo
cached_has_utxo o c =
    let (found, c) = cached_utxo o c in (elim found [ none ↦ false | some _ ↦ true ], c)

abbrev pub flush : UtxoCache → UtxoCache
flush c = record c { cache = [] }

abbrev pub clear : UtxoCache → UtxoCache
clear c = record c { cache = []; hits = 0; misses = 0 }

-- What the strategies call of <algorithm>.
pub record Algorithms : Type 0 where
  pub sort : (OutPoint → OutPoint → Bool) → List OutPoint → List OutPoint
  pub shuffle : List OutPoint → List OutPoint

pub data Strategy : Type 0 where
  largest_first smallest_first random branch_and_bound : Strategy

pub record Selection : Type 0 where
  pub selected : List OutPoint
  pub total_value : ℕ
  pub fee : ℕ
  pub change : ℕ

pub data SelectionResult : Type 0 where
  success : Selection → SelectionResult
  insufficient_funds : List OutPoint → SelectionResult

unfoldable pub calculate_fee : ℕ → ℕ → ℕ
calculate_fee tx_size fee_rate = ((tx_size * fee_rate) % amount_mod) / 1000

unfoldable pub estimate_transaction_size : ℕ → ℕ → ℕ
estimate_transaction_size num_inputs num_outputs =
    (10 + num_inputs * 148 + num_outputs * 34) % 2 ^ 64

-- The loop of SelectLargestFirst over the sorted coins; each subtraction wraps.
unfoldable pub take_coins : UtxoSet → ℕ → ℕ → List OutPoint → List OutPoint → ℕ → SelectionResult
take_coins u target fee_rate [] selected total = insufficient_funds selected
take_coins u target fee_rate (coin ∷ coins) selected total =
    let skipped = take_coins u target fee_rate coins selected total in
    elim (get_utxo coin u) [
      | none ↦ skipped
      | some o ↦
          let selected = selected ++ coin ∷ [] in
          let total = add_amount total o.value in
          let fee = calculate_fee (estimate_transaction_size (length selected) 2) fee_rate in
          let rest = take_coins u target fee_rate coins selected total in
          if leb (add_amount target fee) total
          then success (record {
            selected = selected;
            total_value = total;
            fee = fee;
            change = (total + 2 * amount_mod - target - fee) % amount_mod;
          })
          else rest
    ]

-- The comparisons of the strategies.
unfoldable pub larger : UtxoSet → OutPoint → OutPoint → Bool
larger u a b = elim (get_utxo a u) [
  | none ↦ false
  | some x ↦ elim (get_utxo b u) [ none ↦ false | some y ↦ ltb y.value x.value ]
]

unfoldable pub smaller : UtxoSet → OutPoint → OutPoint → Bool
smaller u a b = elim (get_utxo a u) [
  | none ↦ false
  | some x ↦ elim (get_utxo b u) [ none ↦ false | some y ↦ ltb x.value y.value ]
]

unfoldable pub select_largest_first : Algorithms → UtxoSet → ℕ → ℕ → List OutPoint → SelectionResult
unfolding take_coins larger
select_largest_first alg u target fee_rate coins =
    take_coins u target fee_rate (alg.sort (larger u) coins) [] 0

unfoldable pub select_coins :
    Algorithms → UtxoSet → ℕ → ℕ → List OutPoint → Strategy → SelectionResult
unfolding select_largest_first smaller
select_coins alg u target fee_rate coins largest_first =
    select_largest_first alg u target fee_rate coins
select_coins alg u target fee_rate coins smallest_first =
    select_largest_first alg u target fee_rate (alg.sort (smaller u) coins)
select_coins alg u target fee_rate coins random =
    select_largest_first alg u target fee_rate (alg.shuffle coins)
select_coins alg u target fee_rate coins branch_and_bound =
    select_largest_first alg u target fee_rate coins
