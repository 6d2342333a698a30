-- ===== src/Blockchain/Block.antt =====
-- src/blockchain/block.h and block.cpp: headers and blocks, their wire format, their validity and
-- their fees. `now` is the clock's answer; the cached hash of a header is a part of the state, and
-- the cached size of a block as well. Time::IsInFuture is in src/util/time.cpp.
pub mod Transactions
pub mod Codec
use dinari_blockchain_hub.Base.{
  ℕ, zero, suc, ◌+◌, ◌-◌, ◌*◌, ◌%◌, ◌^◌, Bool, true, false, not, ◌||◌, List, [], ◌∷◌, ◌++◌, map,
  ltb, leb, ◌==◌, if◌then◌else◌, length,
}
use dinari_blockchain_hub.Base.Eq.{◌=?◌, list_beq, list_eq, nat_eq}
use dinari_blockchain_hub.Util.Serialize.{
  Bytes, Serializer, Reader, pure, ◌>>=◌, write_uint32, write_uint64, write_hash256,
  write_compact_size, read_uint32, read_uint64, read_hash256, read_compact_size,
}
use dinari_blockchain_hub.Crypto.Hash.{Primitives, double_sha256, zero_hash}
use dinari_blockchain_hub.Crypto.ProofOfWork.{check_proof_of_work}
use dinari_blockchain_hub.Core.Amount.{add_amount, max_block_size}
use dinari_blockchain_hub.Core.Transaction
use dinari_blockchain_hub.Core.Transaction.{
  Transaction, empty, is_coinbase, get_hash, get_output_value, new_transaction,
}
use dinari_blockchain_hub.Core.Fees.{get_fee}
use dinari_blockchain_hub.Core.Utxo.{UtxoSet}
use dinari_blockchain_hub.Blockchain.Merkle.{compute_merkle_root}

pub record BlockHeader : Type 0 where
  pub version : ℕ
  pub prev_block_hash : Bytes
  pub merkle_root : Bytes
  pub timestamp : ℕ
  pub bits : ℕ
  pub nonce : ℕ
  pub cached_hash : Bytes
  pub hash_cached : Bool

unfoldable pub serialize_header : BlockHeader → Serializer → Serializer
serialize_header h s =
    let s =
      write_hash256 h.merkle_root (write_hash256 h.prev_block_hash (write_uint32 h.version s)) in
    write_uint64 h.nonce (write_uint32 h.bits (write_uint64 h.timestamp s))

unfoldable pub deserialize_header : BlockHeader → Reader BlockHeader
deserialize_header h = do
  version ← read_uint32
  prev_block_hash ← read_hash256
  merkle_root ← read_hash256
  timestamp ← read_uint64
  bits ← read_uint32
  nonce ← read_uint64
  pure (record h {
    version = version;
    prev_block_hash = prev_block_hash;
    merkle_root = merkle_root;
    timestamp = timestamp;
    bits = bits;
    nonce = nonce;
    hash_cached = false;
  })

unfoldable pub header_hash : Primitives → BlockHeader → Bytes
header_hash p h = if h.hash_cached then h.cached_hash else double_sha256 p (serialize_header h [])

-- Time::IsInFuture
unfoldable pub is_in_future : ℕ → ℕ → ℕ → Bool
is_in_future now timestamp tolerance = ltb ((now + tolerance) % 2 ^ 64) timestamp

unfoldable pub header_valid : Primitives → ℕ → BlockHeader → Bool
unfolding header_hash is_in_future
header_valid p now h =
    if h.version == 0
    then false
    else if is_in_future now h.timestamp (2 * 60 * 60)
    then false
    else if not (check_proof_of_work (header_hash p h) h.bits)
    then false
    else true

pub record Block : Type 0 where
  pub header : BlockHeader
  pub transactions : List Transaction
  pub cached_size : ℕ
  pub size_cached : Bool

unfoldable pub write_transactions : List Transaction → Serializer → Serializer
write_transactions [] s = s
write_transactions (tx ∷ txs) s = write_transactions txs (Transaction.serialize tx s)

unfoldable pub serialize : Block → Serializer → Serializer
unfolding write_transactions
serialize b s =
    write_transactions b.transactions
      (write_compact_size (length b.transactions) (serialize_header b.header s))

-- vector::resize: the first n elements stay, and new transactions fill it up.
unfoldable pub resize : ℕ → List Transaction → List Transaction
resize zero txs = []
resize (suc n) [] = new_transaction ∷ resize n []
resize (suc n) (tx ∷ txs) = tx ∷ resize n txs

-- The loop over the resized vector, into its transactions.
unfoldable pub read_transactions : List Transaction → Reader (List Transaction)
read_transactions [] = pure []
read_transactions (old ∷ olds) = do
  tx ← Transaction.deserialize old
  txs ← read_transactions olds
  pure (tx ∷ txs)

unfoldable pub deserialize : Block → Reader Block
unfolding resize read_transactions
deserialize b = do
  header ← deserialize_header b.header
  tx_count ← read_compact_size
  transactions ← read_transactions (resize tx_count b.transactions)
  pure (record b { header = header; transactions = transactions; size_cached = false })

unfoldable pub get_size : Block → ℕ
get_size b = if b.size_cached then b.cached_size else length (serialize b [])

-- What GetSize leaves in the mutable fields.
unfoldable pub cache_size : Block → Block
cache_size b =
    if b.size_cached
    then b
    else record b { cached_size = length (serialize b []); size_cached = true }

unfoldable pub no_coinbase : List Transaction → Bool
no_coinbase [] = true
no_coinbase (tx ∷ txs) = if is_coinbase tx then false else no_coinbase txs

unfoldable pub all_valid : List Transaction → Bool
all_valid [] = true
all_valid (tx ∷ txs) = if not (Transaction.is_valid tx) then false else all_valid txs

-- set.count
unfoldable pub count : Bytes → List Bytes → Bool
count h [] = false
count h (x ∷ xs) = (h =? x) || count h xs

-- The loop over the transactions with the set of the hashes seen.
unfoldable pub hashes_distinct : Primitives → List Bytes → List Transaction → Bool
unfolding count
hashes_distinct p seen [] = true
hashes_distinct p seen (tx ∷ txs) =
    let hash = get_hash p tx in
    if count hash seen then false else hashes_distinct p (hash ∷ seen) txs

-- The caller has seen that there is a first transaction.
unfoldable pub check_transactions : Primitives → List Transaction → Bool
unfolding no_coinbase all_valid hashes_distinct
check_transactions p [] = false
check_transactions p (first ∷ txs) =
    if not (is_coinbase first)
    then false
    else if not (no_coinbase txs)
    then false
    else if not (all_valid (first ∷ txs))
    then false
    else if not (hashes_distinct p [] (first ∷ txs))
    then false
    else true

unfoldable pub calculate_merkle_root : Primitives → List Transaction → Bytes
calculate_merkle_root p txs = compute_merkle_root p (map (get_hash p) txs)

unfoldable pub check_merkle_root : Primitives → Block → Bool
unfolding calculate_merkle_root
check_merkle_root p b = list_beq (calculate_merkle_root p b.transactions) b.header.merkle_root

unfoldable pub is_valid : Primitives → ℕ → Block → Bool
unfolding header_valid get_size check_transactions check_merkle_root
is_valid p now b =
    if not (header_valid p now b.header)
    then false
    else if empty b.transactions
    then false
    else if ltb max_block_size (get_size b)
    then false
    else if not (check_transactions p b.transactions)
    then false
    else if not (check_merkle_root p b)
    then false
    else true

unfoldable pub has_coinbase : Block → Bool
has_coinbase b = elim b.transactions [ [] ↦ false | tx ∷ txs ↦ is_coinbase tx ]

unfoldable pub add_fees : ℕ → List Transaction → UtxoSet → ℕ
add_fees total [] u = total
add_fees total (tx ∷ txs) u = add_fees (add_amount total (get_fee tx u)) txs u

-- The coinbase, the first of them, is skipped.
unfoldable pub get_total_fees : Block → UtxoSet → ℕ
unfolding add_fees
get_total_fees b u = elim b.transactions [ [] ↦ 0 | first ∷ txs ↦ add_fees 0 txs u ]

unfoldable pub get_block_reward : Block → ℕ
get_block_reward b = elim b.transactions [
  | [] ↦ 0
  | first ∷ txs ↦ if is_coinbase first then get_output_value first else 0
]

-- BlockBuilder::Build
unfoldable pub build : Primitives → Block → Block
build p b = record b {
  header = record b.header { merkle_root = calculate_merkle_root p b.transactions };
}
