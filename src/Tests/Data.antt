-- ===== src/Tests/Data.antt =====
-- The data of the tests. The hashes here cut their input or fill it up with zeros.
use dinari_blockchain_hub.Base.{◌+◌, ◌*◌, ◌^◌, false, [], ◌∷◌, ◌++◌, take, replicate}
use dinari_blockchain_hub.Base.Eq.{list_beq, nat_eq}
use dinari_blockchain_hub.Util.Serialize.{Bytes}
use dinari_blockchain_hub.Crypto.Hash.{Primitives, zero_hash}
use dinari_blockchain_hub.Core.OutPoint.{OutPoint}
use dinari_blockchain_hub.Core.TxIn.{TxIn}
use dinari_blockchain_hub.Core.Transaction.{Transaction, new_transaction}
use dinari_blockchain_hub.Core.Utxo.{UtxoEntry, UtxoSet}
use dinari_blockchain_hub.Core.Script.Templates.{push}
use dinari_blockchain_hub.Blockchain.Block.{Block, BlockHeader}
use dinari_blockchain_hub.Consensus.Validation.{BlockIndex}

abbrev pub toy : Primitives
toy = record {
  sha256 = λ b. take 32 (b ++ replicate 32 0);
  ripemd160 = λ b. take 20 (b ++ replicate 20 0);
  ecdsa_verify = λ hash signature pubkey. list_beq signature pubkey;
}

abbrev pub pubkey : Bytes
pubkey = 2 ∷ 3 ∷ 5 ∷ []

-- The key with the hash type behind it.
abbrev pub signature : Bytes
signature = 2 ∷ 3 ∷ 5 ∷ 1 ∷ []

abbrev pub key_hash : Bytes
key_hash = 2 ∷ 3 ∷ 5 ∷ replicate 17 0

abbrev pub key_script : Bytes
key_script = 0x76 ∷ 0xa9 ∷ 20 ∷ (key_hash ++ 0x88 ∷ 0xac ∷ [])

abbrev pub funding : OutPoint
funding = record { tx_hash = replicate 32 7; index = 0 }

abbrev pub funding_entry : UtxoEntry
funding_entry = record {
  output = record { value = 50; script_pub_key = key_script };
  height = 1;
  from_coinbase = false;
}

abbrev pub coins : UtxoSet
coins = record {
  utxos = (funding, funding_entry) ∷ [];
  address_index = (key_hash, funding ∷ []) ∷ [];
}

abbrev pub spending : TxIn
spending = record {
  prev_out = funding;
  script_sig = push signature ++ push pubkey;
  sequence = 0xffff_ffff;
}

abbrev pub payment : Transaction
payment = record new_transaction {
  inputs = spending ∷ [];
  outputs = record { value = 40; script_pub_key = key_script } ∷ [];
}

-- It spends the one output twice.
abbrev pub greedy : Transaction
greedy = record new_transaction {
  inputs = spending ∷ spending ∷ [];
  outputs = record { value = 90; script_pub_key = key_script } ∷ [];
}

abbrev pub coinbase : Transaction
coinbase = record new_transaction {
  inputs =
      record {
        prev_out = record { tx_hash = zero_hash; index = 0xffff_ffff };
        script_sig = 2 ∷ 0 ∷ [];
        sequence = 0xffff_ffff;
      }
      ∷ [];
  outputs = record { value = 60; script_pub_key = key_script } ∷ [];
}

-- The hash of the coinbase, and the root of the two transactions' hashes.
abbrev pub root : Bytes
root = 1 ∷ 0 ∷ 0 ∷ 0 ∷ 1 ∷ replicate 27 0

abbrev pub header : BlockHeader
header = record {
  version = 1;
  prev_block_hash = zero_hash;
  merkle_root = root;
  timestamp = 1000;
  bits = 3 * 2 ^ 24 + 1;
  nonce = 0;
  cached_hash = zero_hash;
  hash_cached = false;
}

abbrev pub block : Block
block = record {
  header = header;
  transactions = coinbase ∷ payment ∷ [];
  cached_size = 0;
  size_cached = false;
}

abbrev pub genesis_index : BlockIndex
genesis_index = record { block_hash = zero_hash; block_time = 900; money_supply = 50 }
