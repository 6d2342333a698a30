-- ===== src/Core/Utxo.antt =====
-- src/core/utxo.h and utxo.cpp: UTXOEntry and UTXOSet, the unspent outputs of the chain with an
-- index by address. The mutex is left out: each method runs under it from start to end and calls
-- no other that takes it, so calls happen one after the other. Flush, Load and Prune only log.
pub mod Apply
pub mod Revert
pub mod Value
pub mod Maturity
pub mod Address
use dinari_blockchain_hub.Base.{
  ℕ, suc, ◌+◌, ◌-◌, ◌%◌, ◌^◌, Bool, true, false, not, ◌&&◌, ◌||◌, Option, none, some, List, [], ◌∷◌,
  ◌++◌, ltb, leb, ◌==◌, if◌then◌else◌, length, take, drop, get_elem?,
}
use dinari_blockchain_hub.Base.Eq.{◌=?◌, nat_eq, list_eq}
use dinari_blockchain_hub.Base.Map.{Map, lookup, insert, erase}
use dinari_blockchain_hub.Util.Serialize.{
  Bytes, Serializer, Reader, pure, ◌>>=◌, write_uint32, write_bool, read_uint32, read_bool,
}
use dinari_blockchain_hub.Crypto.Hash.{Primitives}
use dinari_blockchain_hub.Core.Amount.{add_amount, coinbase_maturity}
use dinari_blockchain_hub.Core.OutPoint.{OutPoint, out_point_eq}
use dinari_blockchain_hub.Core.TxOut
use dinari_blockchain_hub.Core.TxOut.{TxOut}
use dinari_blockchain_hub.Core.TxIn.{TxIn}
use dinari_blockchain_hub.Core.Transaction
use dinari_blockchain_hub.Core.Transaction.{
  Transaction, is_coinbase, get_hash, is_valid, get_output_value,
}

pub record UtxoEntry : Type 0 where
  pub output : TxOut
  pub height : ℕ
  pub from_coinbase : Bool

-- A height is a uint32_t, so the difference wraps.
unfoldable pub is_mature : ℕ → UtxoEntry → Bool
is_mature current_height e =
    if not e.from_coinbase
    then true
    else leb coinbase_maturity ((current_height + 2 ^ 32 - e.height) % 2 ^ 32)

unfoldable pub is_spendable : ℕ → UtxoEntry → Bool
unfolding is_mature
is_spendable = is_mature

unfoldable pub serialize_entry : UtxoEntry → Serializer → Serializer
serialize_entry e s =
    write_bool e.from_coinbase (write_uint32 e.height (TxOut.serialize e.output s))

unfoldable pub deserialize_entry : Reader UtxoEntry
deserialize_entry = do
  output ← TxOut.deserialize
  height ← read_uint32
  from_coinbase ← read_bool
  pure (record { output = output; height = height; from_coinbase = from_coinbase })

pub record UtxoSet : Type 0 where
  pub utxos : Map OutPoint UtxoEntry
  pub address_index : Map Bytes (List OutPoint)

abbrev pub new_utxo_set : UtxoSet
new_utxo_set = record { utxos = []; address_index = [] }

-- script[i]; the calls are in range.
abbrev pub byte_at : ℕ → Bytes → ℕ
byte_at i script = elim (get_elem? script i) [ none ↦ 0 | some b ↦ b ]

abbrev pub slice : ℕ → ℕ → Bytes → Bytes
slice from to script = take (to - from) (drop from script)

unfoldable pub extract_address_from_script : Bytes → Option Bytes
extract_address_from_script script =
    if length script == 25
      && byte_at 0 script == 0x76
      && byte_at 1 script == 0xa9
      && byte_at 2 script == 20
      && byte_at 23 script == 0x88
      && byte_at 24 script == 0xac
    then some (slice 3 23 script)
    else if length script == 23
        && byte_at 0 script == 0xa9
        && byte_at 1 script == 20
        && byte_at 22 script == 0x87
    then some (slice 2 22 script)
    else if length script == 22 && byte_at 0 script == 0x00 && byte_at 1 script == 20
    then some (slice 2 22 script)
    else if length script == 34 && byte_at 0 script == 0x00 && byte_at 1 script == 32
    then some (slice 2 22 script)
    else none

-- `addressIndex[addr]`
abbrev pub indexed : Bytes → Map Bytes (List OutPoint) → List OutPoint
indexed addr index = elim (lookup addr index) [ none ↦ [] | some v ↦ v ]

-- `if (auto addr = …) addressIndex[*addr].push_back(outpoint);`
unfoldable pub index_out_point :
    Bytes → OutPoint → Map Bytes (List OutPoint) → Map Bytes (List OutPoint)
index_out_point script o index = elim (extract_address_from_script script) [
  | none ↦ index
  | some addr ↦ insert addr (indexed addr index ++ o ∷ []) index
]

unfoldable pub add_utxo : OutPoint → UtxoEntry → UtxoSet → UtxoSet
unfolding index_out_point
add_utxo o entry u = record {
  utxos = insert o entry u.utxos;
  address_index = index_out_point entry.output.script_pub_key o u.address_index;
}

-- vec.erase(std::remove(…), …)
unfoldable pub remove_all : OutPoint → List OutPoint → List OutPoint
remove_all o [] = []
remove_all o (x ∷ xs) = if x =? o then remove_all o xs else x ∷ remove_all o xs

unfoldable pub unindex_out_point :
    Bytes → OutPoint → Map Bytes (List OutPoint) → Map Bytes (List OutPoint)
unfolding remove_all
unindex_out_point script o index = elim (extract_address_from_script script) [
  | none ↦ index
  | some addr ↦
      let vec = remove_all o (indexed addr index) in
      if Transaction.empty vec then erase addr index else insert addr vec index
]

unfoldable pub remove_utxo : OutPoint → UtxoSet → Bool × UtxoSet
unfolding unindex_out_point
remove_utxo o u = elim (lookup o u.utxos) [
  | none ↦ (false, u)
  | some entry ↦ (
    true,
    record {
      utxos = erase o u.utxos;
      address_index = unindex_out_point entry.output.script_pub_key o u.address_index;
    },
  )
]

unfoldable pub has_utxo : OutPoint → UtxoSet → Bool
has_utxo o u = elim (lookup o u.utxos) [ none ↦ false | some _ ↦ true ]

unfoldable pub get_utxo_entry : OutPoint → UtxoSet → Option UtxoEntry
get_utxo_entry o u = lookup o u.utxos

unfoldable pub get_utxo : OutPoint → UtxoSet → Option TxOut
get_utxo o u = elim (lookup o u.utxos) [ none ↦ none | some e ↦ some e.output ]

unfoldable pub get_utxo_height : OutPoint → UtxoSet → ℕ
get_utxo_height o u = elim (lookup o u.utxos) [ none ↦ 0 | some e ↦ e.height ]

-- The loop over the inputs in ApplyTransaction: the answer, and the set as the loop leaves it.
unfoldable pub spend_inputs : List TxIn → UtxoSet → Bool × UtxoSet
spend_inputs [] u = (true, u)
spend_inputs (i ∷ is) u =
    let rest = spend_inputs is (record u { utxos = erase i.prev_out u.utxos }) in
    elim (lookup i.prev_out u.utxos) [ none ↦ (false, u) | some _ ↦ rest ]

-- One round of the loop over the outputs; the cast to TxOutIndex wraps.
unfoldable pub add_output : Bytes → ℕ → Bool → ℕ → TxOut → UtxoSet → UtxoSet
unfolding index_out_point
add_output tx_hash height coinbase n o u =
    let out_point : OutPoint = record { tx_hash = tx_hash; index = n % 2 ^ 32 } in
    record {
      utxos =
          insert out_point (record { output = o; height = height; from_coinbase = coinbase })
            u.utxos;
      address_index = index_out_point o.script_pub_key out_point u.address_index;
    }

-- The loop, from index `n` on.
unfoldable pub add_outputs : Bytes → ℕ → Bool → ℕ → List TxOut → UtxoSet → UtxoSet
add_outputs tx_hash height coinbase n [] u = u
add_outputs tx_hash height coinbase n (o ∷ os) u =
    add_outputs tx_hash height coinbase (n + 1) os (add_output tx_hash height coinbase n o u)

-- The outputs of a transaction that passes its checks, once its inputs are spent.
abbrev pub add_if : Primitives → Transaction → ℕ → Bool × UtxoSet → Bool × UtxoSet
add_if p tx height (false, u) = (false, u)
add_if p tx height (true, u) =
    (true, add_outputs (get_hash p tx) height (is_coinbase tx) 0 tx.outputs u)

unfoldable pub apply_transaction : Primitives → Transaction → ℕ → UtxoSet → Bool × UtxoSet
unfolding spend_inputs add_outputs add_output
apply_transaction p tx height u =
    add_if p tx height (if not (is_coinbase tx) then spend_inputs tx.inputs u else (true, u))

unfoldable pub erase_outputs :
    Bytes → ℕ → List TxOut → Map OutPoint UtxoEntry → Map OutPoint UtxoEntry
erase_outputs tx_hash n [] m = m
erase_outputs tx_hash n (o ∷ os) m =
    erase_outputs tx_hash (n + 1) os (erase (record { tx_hash = tx_hash; index = n % 2 ^ 32 }) m)

unfoldable pub restore_inputs :
    Map OutPoint UtxoEntry → List TxIn → Map OutPoint UtxoEntry → Map OutPoint UtxoEntry
restore_inputs previous [] m = m
restore_inputs previous (i ∷ is) m =
    restore_inputs previous is
      (elim (lookup i.prev_out previous) [ none ↦ m | some e ↦ insert i.prev_out e m ])

unfoldable pub revert_transaction :
    Primitives → Transaction → Map OutPoint UtxoEntry → UtxoSet → Bool × UtxoSet
unfolding erase_outputs restore_inputs
revert_transaction p tx previous u =
    let m = erase_outputs (get_hash p tx) 0 tx.outputs u.utxos in
    (
      true,
      record u { utxos = if not (is_coinbase tx) then restore_inputs previous tx.inputs m else m },
    )

-- The loop over an address's outpoints in GetUTXOsForAddress.
unfoldable pub present : Map OutPoint UtxoEntry → List OutPoint → List (OutPoint × UtxoEntry)
present m [] = []
present m (o ∷ os) = elim (lookup o m) [ none ↦ present m os | some e ↦ (o, e) ∷ present m os ]

unfoldable pub get_utxos_for_address : Bytes → UtxoSet → List (OutPoint × UtxoEntry)
unfolding present
get_utxos_for_address addr u = present u.utxos (indexed addr u.address_index)

unfoldable pub get_size : UtxoSet → ℕ
get_size u = length u.utxos

unfoldable pub sum_entries : ℕ → Map OutPoint UtxoEntry → ℕ
sum_entries total [] = total
sum_entries total ((o, e) ∷ m) = sum_entries (add_amount total e.output.value) m

unfoldable pub get_total_value : UtxoSet → ℕ
unfolding sum_entries
get_total_value u = sum_entries 0 u.utxos

abbrev pub clear : UtxoSet → UtxoSet
clear u = new_utxo_set

pub record Stats : Type 0 where
  pub total_utxos : ℕ
  pub total_value : ℕ
  pub coinbase_utxos : ℕ
  pub regular_utxos : ℕ
  pub mature_utxos : ℕ
  pub immature_utxos : ℕ

unfoldable pub count_entry : ℕ → UtxoEntry → Stats → Stats
unfolding is_mature
count_entry current_height e s =
    let s = record s { total_value = add_amount s.total_value e.output.value } in
    let s =
      if e.from_coinbase
      then record s { coinbase_utxos = s.coinbase_utxos + 1 }
      else record s { regular_utxos = s.regular_utxos + 1 } in
    if is_mature current_height e
    then record s { mature_utxos = s.mature_utxos + 1 }
    else record s { immature_utxos = s.immature_utxos + 1 }

unfoldable pub count_entries : ℕ → Map OutPoint UtxoEntry → Stats → Stats
unfolding count_entry
count_entries current_height [] s = s
count_entries current_height ((o, e) ∷ m) s =
    count_entries current_height m (count_entry current_height e s)

unfoldable pub get_stats : ℕ → UtxoSet → Stats
unfolding count_entries
get_stats current_height u = count_entries current_height u.utxos (record {
  total_utxos = length u.utxos;
  total_value = 0;
  coinbase_utxos = 0;
  regular_utxos = 0;
  mature_utxos = 0;
  immature_utxos = 0;
})

-- The loop over the inputs in ValidateTransaction: none where it returns false.
unfoldable pub sum_inputs : ℕ → List TxIn → ℕ → UtxoSet → Option ℕ
unfolding is_spendable
sum_inputs current_height [] total u = some total
sum_inputs current_height (i ∷ is) total u = elim (lookup i.prev_out u.utxos) [
  | none ↦ none
  | some e ↦
      if not (is_spendable current_height e)
      then none
      else sum_inputs current_height is (add_amount total e.output.value) u
]

unfoldable pub validate_transaction : Transaction → ℕ → UtxoSet → Bool
unfolding sum_inputs
validate_transaction tx current_height u =
    if not (is_valid tx)
    then false
    else if is_coinbase tx
    then true
    else elim (sum_inputs current_height tx.inputs 0 u) [
      | none ↦ false
      | some total ↦ not (ltb total (get_output_value tx))
    ]

unfoldable pub reindex :
    Map OutPoint UtxoEntry → Map Bytes (List OutPoint) → Map Bytes (List OutPoint)
unfolding index_out_point
reindex [] index = index
reindex ((o, e) ∷ m) index = reindex m (index_out_point e.output.script_pub_key o index)

unfoldable pub build_address_index : UtxoSet → UtxoSet
unfolding reindex
build_address_index u = record u { address_index = reindex u.utxos [] }
