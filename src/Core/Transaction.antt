-- ===== src/Core/Transaction.antt =====
-- src/core/transaction.h and transaction.cpp: Transaction, its wire format, its hashes, its
-- validity, and the subsidy. The cached hash is a part of the state: `get_hash` is the value that
-- GetHash returns and `cache_hash` what it leaves behind. Sums of amounts wrap as uint64_t does.
pub mod Codec
pub mod Hashing
pub mod Validity
pub mod Reward
use dinari_blockchain_hub.Base.{
  ℕ, zero, suc, ◌+◌, ◌-◌, ◌*◌, ◌/◌, ◌%◌, ◌^◌, Bool, true, false, not, ◌&&◌, ◌||◌, List, [], ◌∷◌,
  ◌++◌, ltb, leb, ◌==◌, if◌then◌else◌, length, replicate,
}
use dinari_blockchain_hub.Util.Serialize.{
  Bytes, Serializer, Reader, pure, ◌>>=◌, write_uint8, write_uint32, write_compact_size,
  write_bytes, write_string, write_hash160, read_uint32, read_compact_size,
}
use dinari_blockchain_hub.Crypto.Hash.{Primitives, double_sha256, zero_hash}
use dinari_blockchain_hub.Core.Amount.{
  add_amount, coin, money_range, max_block_size, subsidy_halving_interval,
}
use dinari_blockchain_hub.Core.OutPoint
use dinari_blockchain_hub.Core.OutPoint.{OutPoint, default_out_point}
use dinari_blockchain_hub.Core.TxOut
use dinari_blockchain_hub.Core.TxOut.{TxOut}
use dinari_blockchain_hub.Core.TxIn
use dinari_blockchain_hub.Core.TxIn.{TxIn}

pub record Transaction : Type 0 where
  pub version : ℕ
  pub inputs : List TxIn
  pub outputs : List TxOut
  pub lock_time : ℕ
  pub cached_hash : Bytes
  pub hash_cached : Bool

-- Transaction()
abbrev pub new_transaction : Transaction
new_transaction = record {
  version = 1;
  inputs = [];
  outputs = [];
  lock_time = 0;
  cached_hash = zero_hash;
  hash_cached = false;
}

unfoldable pub write_inputs : List TxIn → Serializer → Serializer
write_inputs [] s = s
write_inputs (i ∷ is) s = write_inputs is (TxIn.serialize i s)

unfoldable pub write_outputs : List TxOut → Serializer → Serializer
write_outputs [] s = s
write_outputs (o ∷ os) s = write_outputs os (TxOut.serialize o s)

unfoldable pub serialize : Transaction → Serializer → Serializer
unfolding write_inputs write_outputs
serialize tx s =
    let s =
      write_inputs tx.inputs (write_compact_size (length tx.inputs) (write_uint32 tx.version s)) in
    let s = write_outputs tx.outputs (write_compact_size (length tx.outputs) s) in
    write_uint32 tx.lock_time s

-- The loops over the resized vectors.
unfoldable pub read_inputs : ℕ → Reader (List TxIn)
read_inputs zero = pure []
read_inputs (suc n) = do i ← TxIn.deserialize; is ← read_inputs n; pure (i ∷ is)

unfoldable pub read_outputs : ℕ → Reader (List TxOut)
read_outputs zero = pure []
read_outputs (suc n) = do o ← TxOut.deserialize; os ← read_outputs n; pure (o ∷ os)

-- Into the object `tx`, of which the cached hash stays and is marked stale.
unfoldable pub deserialize : Transaction → Reader Transaction
unfolding read_inputs read_outputs
deserialize tx = do
  version ← read_uint32
  input_count ← read_compact_size
  inputs ← read_inputs input_count
  output_count ← read_compact_size
  outputs ← read_outputs output_count
  lock_time ← read_uint32
  pure (record tx {
    version = version;
    inputs = inputs;
    outputs = outputs;
    lock_time = lock_time;
    hash_cached = false;
  })

unfoldable pub get_size : Transaction → ℕ
get_size tx = length (serialize tx [])

module _ (p : Primitives) where
  unfoldable pub get_hash : Transaction → Bytes
  get_hash tx = if tx.hash_cached then tx.cached_hash else double_sha256 p (serialize tx [])

  -- What GetHash leaves in the mutable fields.
  unfoldable pub cache_hash : Transaction → Transaction
  cache_hash tx =
      if tx.hash_cached
      then tx
      else record tx { cached_hash = double_sha256 p (serialize tx []); hash_cached = true }

-- The inputs as they are signed: `i` is the index of the first of them.
unfoldable pub write_signed_inputs : ℕ → Bytes → ℕ → List TxIn → Serializer → Serializer
write_signed_inputs input_index script_code i [] s = s
write_signed_inputs input_index script_code i (input ∷ is) s =
    write_signed_inputs input_index script_code (i + 1) is (
      write_uint32 input.sequence (
        if i == input_index
        then write_bytes script_code
            (write_compact_size (length script_code) (OutPoint.serialize input.prev_out s))
        else write_compact_size 0 (OutPoint.serialize input.prev_out s)))

-- The bytes that GetSignatureHash hashes.
unfoldable pub signature_preimage : ℕ → Bytes → ℕ → Transaction → Bytes
unfolding write_signed_inputs write_outputs
signature_preimage input_index script_code hash_type tx =
    let s = write_compact_size (length tx.inputs) (write_uint32 tx.version []) in
    let s = write_signed_inputs input_index script_code 0 tx.inputs s in
    let s = write_outputs tx.outputs (write_compact_size (length tx.outputs) s) in
    write_uint32 hash_type (write_uint32 tx.lock_time s)

unfoldable pub get_signature_hash : Primitives → ℕ → Bytes → ℕ → Transaction → Bytes
unfolding signature_preimage
get_signature_hash p input_index script_code hash_type tx =
    double_sha256 p (signature_preimage input_index script_code hash_type tx)

unfoldable pub is_coinbase : Transaction → Bool
is_coinbase tx = elim tx.inputs [ [] ↦ false | i ∷ is ↦ length is == 0 && TxIn.is_coinbase i ]

-- The loop over the outputs in IsValid, with `total` so far.
unfoldable pub outputs_valid : ℕ → List TxOut → Bool
outputs_valid total [] = true
outputs_valid total (o ∷ os) =
    let rest = outputs_valid (add_amount total o.value) os in
    if not (TxOut.is_valid o)
    then false
    else if not (money_range (add_amount total o.value))
    then false
    else rest

unfoldable pub no_null_prevouts : List TxIn → Bool
no_null_prevouts [] = true
no_null_prevouts (i ∷ is) = if OutPoint.is_null i.prev_out then false else no_null_prevouts is

-- The checks of IsValid on the inputs of a coinbase.
unfoldable pub coinbase_inputs_valid : List TxIn → Bool
coinbase_inputs_valid [] = false
coinbase_inputs_valid (i ∷ is) =
    if not (length (i ∷ is) == 1)
    then false
    else if ltb (length i.script_sig) 2 || ltb 100 (length i.script_sig)
    then false
    else true

abbrev pub empty {ℓ} : {A : Type ℓ} → List A → Bool
empty [] = true
empty (x ∷ xs) = false

unfoldable pub is_valid : Transaction → Bool
unfolding outputs_valid no_null_prevouts coinbase_inputs_valid
is_valid tx =
    if (tx.version == 0) || ltb 2 tx.version
    then false
    else if empty tx.inputs || empty tx.outputs
    then false
    else if not (outputs_valid 0 tx.outputs)
    then false
    else if not
        (if is_coinbase tx then coinbase_inputs_valid tx.inputs else no_null_prevouts tx.inputs)
    then false
    else if ltb max_block_size (get_size tx)
    then false
    else true

unfoldable pub all_sequences_final : List TxIn → Bool
all_sequences_final [] = true
all_sequences_final (i ∷ is) =
    if not (i.sequence == 0xffff_ffff) then false else all_sequences_final is

abbrev pub lock_time_threshold : ℕ
lock_time_threshold = 500_000_000

unfoldable pub is_final : ℕ → ℕ → Transaction → Bool
unfolding all_sequences_final
is_final height time tx =
    if tx.lock_time == 0
    then true
    else if (if ltb tx.lock_time lock_time_threshold
        then leb tx.lock_time height
        else leb tx.lock_time time)
    then true
    else all_sequences_final tx.inputs

unfoldable pub sum_outputs : ℕ → List TxOut → ℕ
sum_outputs total [] = total
sum_outputs total (o ∷ os) = sum_outputs (add_amount total o.value) os

unfoldable pub get_output_value : Transaction → ℕ
unfolding sum_outputs
get_output_value tx = sum_outputs 0 tx.outputs

unfoldable pub outputs_standard : List TxOut → Bool
outputs_standard [] = true
outputs_standard (o ∷ os) =
    if TxOut.is_dust o
    then false
    else if ltb 1650 (length o.script_pub_key)
    then false
    else outputs_standard os

unfoldable pub inputs_standard : List TxIn → Bool
inputs_standard [] = true
inputs_standard (i ∷ is) = if ltb 1650 (length i.script_sig) then false else inputs_standard is

unfoldable pub is_standard : Transaction → Bool
unfolding outputs_standard inputs_standard
is_standard tx =
    if ltb 2 tx.version
    then false
    else if ltb (max_block_size / 5) (get_size tx)
    then false
    else if not (outputs_standard tx.outputs)
    then false
    else inputs_standard tx.inputs

abbrev pub initial_reward : ℕ
initial_reward = 50 * coin

-- `INITIAL_REWARD >> halvings`
unfoldable pub get_block_reward : ℕ → ℕ
get_block_reward height =
    let halvings = height / subsidy_halving_interval in
    if leb 64 halvings then 0 else initial_reward / 2 ^ halvings

-- "Dinari Blockchain"
abbrev pub coinbase_tag : Bytes
coinbase_tag =
    68 ∷ 105 ∷ 110 ∷ 97 ∷ 114 ∷ 105 ∷ 32 ∷ 66 ∷ 108 ∷ 111 ∷ 99 ∷ 107 ∷ 99 ∷ 104 ∷ 97 ∷ 105 ∷ 110
    ∷ []

unfoldable pub coinbase_script_sig : ℕ → ℕ → Bytes
coinbase_script_sig height extra_nonce =
    write_string coinbase_tag (write_uint32 extra_nonce (write_compact_size height []))

unfoldable pub placeholder_script : Bytes
placeholder_script = write_uint8 0xac (
    write_uint8 0x88
      (write_hash160 (replicate 20 0) (write_uint8 20 (write_uint8 0xa9 (write_uint8 0x76 [])))))

-- `garbage` is what the constructor of the null outpoint leaves in its hash.
unfoldable pub create_coinbase_transaction : Bytes → ℕ → ℕ → ℕ → Transaction
unfolding coinbase_script_sig placeholder_script
create_coinbase_transaction garbage height extra_nonce block_reward = record new_transaction {
  version = 1;
  inputs =
      record {
        prev_out = default_out_point garbage;
        script_sig = coinbase_script_sig height extra_nonce;
        sequence = 0xffff_ffff;
      }
      ∷ [];
  outputs = record { value = block_reward; script_pub_key = placeholder_script } ∷ [];
  lock_time = 0;
}
