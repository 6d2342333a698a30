-- ===== src/Blockchain/Block/Codec.antt =====
-- The wire format of blocks (src/blockchain/block.cpp): what SerializeImpl writes,
-- DeserializeImpl reads.
use dinari_blockchain_hub.Base.{
  ◌^◌, ◌<◌, ◌≡◌, refl, ◌∙◌, ap, List, [], ◌∷◌, ◌++◌, map, append_assoc, append-nil, length, All,
  false,
}
use dinari_blockchain_hub.Util.Serialize.{
  Bytes, Serializer, le_bytes, write_uint32, write_uint64, write_hash256, read_uint32, read_uint64,
  read_hash256, read_compact_size, Deserializer, advance, ok,
}
use dinari_blockchain_hub.Util.Serialize.Laws.{
  Reads, Holds, varint_bytes, wire_laws, >>=-Reads, map-Reads, pure-Reads, read_uint32-Reads,
  read_uint64-Reads, read_compact_size-Reads, read_hash256-Reads,
}
use dinari_blockchain_hub.Crypto.Hash.{zero_hash}
use dinari_blockchain_hub.Core.Transaction
use dinari_blockchain_hub.Core.Transaction.{Transaction, new_transaction}
use dinari_blockchain_hub.Core.Transaction.Codec.{
  TransactionFits, transaction_bytes, serialize-append, serialize-eq-bytes, bytes-Reads,
}
use dinari_blockchain_hub.Blockchain.Block.{
  Block, BlockHeader, serialize_header, deserialize_header, write_transactions, serialize, resize,
  read_transactions, deserialize,
}

-- The fields hold what their C++ types can.
pub record HeaderFits (h : BlockHeader) : Type 0 where
  pub version_range : h.version < 2 ^ 32
  pub prev_size : length h.prev_block_hash ≡ 32
  pub root_size : length h.merkle_root ≡ 32
  pub time_range : h.timestamp < 2 ^ 64
  pub bits_range : h.bits < 2 ^ 32
  pub nonce_range : h.nonce < 2 ^ 64

pub record BlockFits (b : Block) : Type 0 where
  pub header_fits : HeaderFits b.header
  pub tx_count : length b.transactions < 2 ^ 64
  pub transactions_fit : All TransactionFits b.transactions

pub header_bytes : BlockHeader → Bytes
header_bytes h =
    le_bytes 4 h.version
    ++ (h.prev_block_hash
        ++ (h.merkle_root ++ (le_bytes 8 h.timestamp ++ (le_bytes 4 h.bits ++ le_bytes 8 h.nonce))))

transactions_bytes : List Transaction → Bytes
transactions_bytes [] = []
transactions_bytes (tx ∷ txs) = transaction_bytes tx ++ transactions_bytes txs

pub block_bytes : Block → Bytes
block_bytes b =
    header_bytes b.header
    ++ (varint_bytes (length b.transactions) ++ transactions_bytes b.transactions)

pub header-append : (h : BlockHeader) (s : Serializer) → serialize_header h s ≡ s ++ header_bytes h
unfolding serialize_header write_uint32 write_uint64 write_hash256 header_bytes
header-append h s = simp wire_laws

pub transaction-append :
    (tx : Transaction) (s : Serializer) → Transaction.serialize tx s ≡ s ++ transaction_bytes tx
transaction-append tx s = serialize-append tx s ∙ ap (λ t. s ++ t) (serialize-eq-bytes tx)

transactions-append :
    (txs : List Transaction) (s : Serializer)
    → write_transactions txs s ≡ s ++ transactions_bytes txs
unfolding write_transactions transactions_bytes
transactions-append [] s = simp append-nil
transactions-append (tx ∷ txs) s = simp (transactions-append txs, transaction-append, append_assoc)

pub serialize-eq-bytes_of_block : (b : Block) → serialize b [] ≡ block_bytes b
unfolding serialize block_bytes
serialize-eq-bytes_of_block b = simp (transactions-append, header-append, wire_laws)

-- A header as it is read into the object `old`.
abbrev pub read_header : BlockHeader → BlockHeader → BlockHeader
read_header old h = record h { cached_hash = old.cached_hash; hash_cached = false }

-- A transaction as it is read into a new object: its cached hash is dropped.
abbrev pub fresh : Transaction → Transaction
fresh tx = record tx { cached_hash = zero_hash; hash_cached = false }

pub header-Reads :
    (old h : BlockHeader)
    → HeaderFits h
    → Reads (deserialize_header old) (header_bytes h) (read_header old h)
unfolding deserialize_header header_bytes
header-Reads old h f =
    let nonce = le_bytes 8 h.nonce in
    let bits = le_bytes 4 h.bits ++ nonce in
    let time = le_bytes 8 h.timestamp ++ bits in
    let root = h.merkle_root ++ time in
    let result = read_header old h in
    >>=-Reads read_uint32 _ (le_bytes 4 h.version) (h.prev_block_hash ++ root) h.version result
      (read_uint32-Reads h.version f.version_range)
      (>>=-Reads read_hash256 _ h.prev_block_hash root h.prev_block_hash result
        (read_hash256-Reads h.prev_block_hash f.prev_size)
        (>>=-Reads read_hash256 _ h.merkle_root time h.merkle_root result
          (read_hash256-Reads h.merkle_root f.root_size)
          (>>=-Reads read_uint64 _ (le_bytes 8 h.timestamp) bits h.timestamp result
            (read_uint64-Reads h.timestamp f.time_range)
            (>>=-Reads read_uint32 _ (le_bytes 4 h.bits) nonce h.bits result
              (read_uint32-Reads h.bits f.bits_range)
              (map-Reads read_uint64 _ nonce h.nonce (read_uint64-Reads h.nonce f.nonce_range))))))

-- Transactions as they are read over those of the vector `olds`, and into new ones past its end.
abbrev pub read_over : List Transaction → List Transaction → List Transaction
read_over olds [] = []
read_over [] (tx ∷ txs) = fresh tx ∷ read_over [] txs
read_over (old ∷ olds) (tx ∷ txs) =
    record tx { cached_hash = old.cached_hash; hash_cached = false } ∷ read_over olds txs

pub read_over-nil : (txs : List Transaction) → read_over [] txs ≡ map fresh txs
read_over-nil [] = refl
read_over-nil (tx ∷ txs) = ap (◌∷◌ (fresh tx)) (read_over-nil txs)

transactions-Reads :
    (olds txs : List Transaction)
    → All TransactionFits txs
    → Reads
        (read_transactions (resize (length txs) olds))
        (transactions_bytes txs)
        (read_over olds txs)
unfolding resize read_transactions transactions_bytes
transactions-Reads olds [] f = pure-Reads []
transactions-Reads [] (tx ∷ txs) f =
    >>=-Reads (Transaction.deserialize new_transaction) _ (transaction_bytes tx)
      (transactions_bytes txs) (fresh tx) (read_over [] (tx ∷ txs))
      (bytes-Reads new_transaction tx f.0)
      (map-Reads (read_transactions (resize (length txs) [])) _ (transactions_bytes txs)
        (read_over [] txs) (transactions-Reads [] txs f.1))
transactions-Reads (old ∷ olds) (tx ∷ txs) f =
    >>=-Reads (Transaction.deserialize old) _ (transaction_bytes tx) (transactions_bytes txs)
      (record tx { cached_hash = old.cached_hash; hash_cached = false })
      (read_over (old ∷ olds) (tx ∷ txs)) (bytes-Reads old tx f.0)
      (map-Reads (read_transactions (resize (length txs) olds)) _ (transactions_bytes txs)
        (read_over olds txs) (transactions-Reads olds txs f.1))

pub block-Reads :
    (old b : Block)
    → BlockFits b
    → Reads (deserialize old) (block_bytes b) (record old {
      header = read_header old.header b.header;
      transactions = read_over old.transactions b.transactions;
      size_cached = false;
    })
unfolding deserialize block_bytes
block-Reads old b f =
    let n = length b.transactions in
    let txs = transactions_bytes b.transactions in
    let result : Block = record old {
      header = read_header old.header b.header;
      transactions = read_over old.transactions b.transactions;
      size_cached = false;
    } in
    >>=-Reads (deserialize_header old.header) _ (header_bytes b.header) (varint_bytes n ++ txs)
      (read_header old.header b.header) result (header-Reads old.header b.header f.header_fits)
      (>>=-Reads read_compact_size _ (varint_bytes n) txs n result
        (read_compact_size-Reads n f.tx_count)
        (map-Reads (read_transactions (resize n old.transactions)) _ txs
          (read_over old.transactions b.transactions)
          (transactions-Reads old.transactions b.transactions f.transactions_fit)))

-- For a block whose fields hold what their C++ types can, reading back what SerializeImpl wrote, into
-- any block, from data of fewer than 2^64 bytes, gives every field of the header and of the
-- transactions again, at any place of the data and whatever follows, and moves the position behind
-- it. The cached hashes stay those of the block read into, the zero hash for a transaction past
-- its end, and are marked stale, as the cached size is.
pub block_deserialize-serialize :
    (old b : Block) (d : Deserializer) (rest : Bytes)
    → BlockFits b
    → Holds d (serialize b [] ++ rest)
    → deserialize old d
      ≡ ok (
        record old {
          header = read_header old.header b.header;
          transactions = read_over old.transactions b.transactions;
          size_cached = false;
        },
        advance (length (serialize b [])) d,
      )
block_deserialize-serialize old b d rest f h =
    rw (serialize-eq-bytes_of_block b)
      (block-Reads old b f d rest (rw (serialize-eq-bytes_of_block b) at h))
