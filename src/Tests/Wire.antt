-- ===== src/Tests/Wire.antt =====
-- The theorems on the wire formats and on the hashes, at the data.
use dinari_blockchain_hub.Base.{◌≡◌, ◌↔◌, refl, true, false, [], arith, length, append-nil, sym}
use dinari_blockchain_hub.Util.Serialize
use dinari_blockchain_hub.Util.Serialize.{Bytes, Deserializer, advance, ok}
use dinari_blockchain_hub.Core.OutPoint
use dinari_blockchain_hub.Core.TxIn
use dinari_blockchain_hub.Core.TxOut
use dinari_blockchain_hub.Core.Transaction
use dinari_blockchain_hub.Core.Transaction.{
  Transaction, serialize, deserialize, new_transaction, get_hash, cache_hash, get_signature_hash,
  get_block_reward, is_valid, get_output_value,
}
use dinari_blockchain_hub.Core.Transaction.Codec.{TransactionFits, deserialize-serialize}
use dinari_blockchain_hub.Core.Transaction.Validity.{
  ValidTransaction, is_valid-iff-ValidTransaction,
}
use dinari_blockchain_hub.Blockchain.Block
use dinari_blockchain_hub.Blockchain.Block.Codec.{
  BlockFits, read_header, read_over, block_deserialize-serialize,
}
use dinari_blockchain_hub.Tests.Data.{payment, coinbase, block}

payment_fits : TransactionFits payment
payment_fits = record {
  version_range = omega arith;
  lock_time_range = omega arith;
  input_count = omega arith;
  output_count = omega arith;
  inputs_fit = (
    record {
      prev_out_fits = record { hash_size = refl; index_range = omega arith };
      script_size = omega arith;
      sequence_range = omega arith;
    },
    tt,
  );
  outputs_fit = (record { value_range = omega arith; script_size = omega arith }, tt);
}

cached_fits : TransactionFits (record payment { hash_cached = true })
cached_fits = record {
  version_range = omega arith;
  lock_time_range = omega arith;
  input_count = omega arith;
  output_count = omega arith;
  inputs_fit = (
    record {
      prev_out_fits = record { hash_size = refl; index_range = omega arith };
      script_size = omega arith;
      sequence_range = omega arith;
    },
    tt,
  );
  outputs_fit = (record { value_range = omega arith; script_size = omega arith }, tt);
}

coinbase_fits : TransactionFits coinbase
coinbase_fits = record {
  version_range = omega arith;
  lock_time_range = omega arith;
  input_count = omega arith;
  output_count = omega arith;
  inputs_fit = (
    record {
      prev_out_fits = record { hash_size = refl; index_range = omega arith };
      script_size = omega arith;
      sequence_range = omega arith;
    },
    tt,
  );
  outputs_fit = (record { value_range = omega arith; script_size = omega arith }, tt);
}

block_fits : BlockFits block
block_fits = record {
  header_fits = record {
    version_range = omega arith;
    prev_size = refl;
    root_size = refl;
    time_range = omega arith;
    bits_range = omega arith;
    nonce_range = omega arith;
  };
  tx_count = omega arith;
  transactions_fit = (coinbase_fits, (payment_fits, tt));
}

payment_size : length (serialize payment []) ≡ 94
unfolding serialize Serialize.write_uint32 TxOut.serialize Serialize.write_bytes
    Serialize.write_compact_size Serialize.write_varint Serialize.write_uint8 Serialize.write_uint64
    TxIn.serialize OutPoint.serialize Serialize.write_hash256 Serialize.le_bytes
payment_size = refl

block_size : length (Block.serialize block []) ≡ 270
unfolding Block.serialize serialize Block.serialize_header Serialize.write_uint32 TxOut.serialize
    Serialize.write_bytes Serialize.write_compact_size Serialize.write_varint Serialize.write_uint8
    Serialize.write_uint64 TxIn.serialize OutPoint.serialize Serialize.write_hash256
    Serialize.le_bytes
block_size = refl

abbrev payment_data : Deserializer
payment_data = record { buffer = serialize payment []; pos = 0 }

abbrev block_data : Deserializer
block_data = record { buffer = Block.serialize block []; pos = 0 }

deserialize-serialize_example :
    deserialize new_transaction payment_data
    ≡ ok (
      record payment { cached_hash = new_transaction.cached_hash; hash_cached = false },
      advance (length (serialize payment [])) payment_data,
    )
deserialize-serialize_example =
    deserialize-serialize new_transaction payment payment_data [] payment_fits
      (omega (arith, payment_size), omega arith, sym (append-nil (serialize payment [])))

same_bytes : serialize payment [] ≡ serialize (record payment { hash_cached = true }) []
unfolding serialize
same_bytes = refl

block_deserialize-serialize_example :
    Block.deserialize block block_data
    ≡ ok (
      record block {
        header = read_header block.header block.header;
        transactions = read_over block.transactions block.transactions;
        size_cached = false;
      },
      advance (length (Block.serialize block [])) block_data,
    )
block_deserialize-serialize_example =
    block_deserialize-serialize block block block_data [] block_fits
      (omega (arith, block_size), omega arith, sym (append-nil (Block.serialize block [])))

payment_valid : is_valid payment ≡ true
unfolding is_valid Transaction.is_coinbase TxIn.is_coinbase TxOut.is_valid Transaction.get_size
    serialize Serialize.write_uint32 TxOut.serialize Serialize.write_bytes
    Serialize.write_compact_size Serialize.write_varint Serialize.write_uint8 Serialize.write_uint64
    TxIn.serialize OutPoint.serialize Serialize.write_hash256 Serialize.le_bytes
payment_valid = refl

is_valid-iff-ValidTransaction_example : (is_valid payment ≡ true) ↔ ValidTransaction payment
is_valid-iff-ValidTransaction_example = is_valid-iff-ValidTransaction payment
