-- ===== src/Tests/Blocks.antt =====
-- The theorems on Merkle trees, proof of work and blocks, at the data.
use dinari_blockchain_hub.Base.{
  ◌+◌, ◌*◌, ◌/◌, ◌%◌, ◌^◌, ◌≤◌, ◌<◌, ◌≡◌, ◌↔◌, refl, true, false, some, [], ◌∷◌, ◌++◌, arith, All,
  get_elem?,
}
use dinari_blockchain_hub.Util.Serialize
use dinari_blockchain_hub.Util.Serialize.{le_value}
use dinari_blockchain_hub.Crypto.Hash.{double_sha256, merkle_hash}
use dinari_blockchain_hub.Crypto.ProofOfWork.{
  target_number, compact_to_target, check_proof_of_work, check_proof_of_work_iff,
}
use dinari_blockchain_hub.Core.Amount.{money_range}
use dinari_blockchain_hub.Core.OutPoint
use dinari_blockchain_hub.Core.OutPoint.{out_point_eq}
use dinari_blockchain_hub.Core.TxIn
use dinari_blockchain_hub.Core.TxOut
use dinari_blockchain_hub.Core.Transaction
use dinari_blockchain_hub.Core.Transaction.{
  Transaction, is_coinbase, get_output_value, get_hash, is_valid,
}
use dinari_blockchain_hub.Blockchain.Merkle.{
  compute_merkle_root, build_merkle_branch, verify, build, verify_inclusion, next_level, top_level,
}
use dinari_blockchain_hub.Blockchain.Merkle.Inclusion.{
  verify-build_merkle_branch, verify_inclusion_iff,
}
use dinari_blockchain_hub.Blockchain.Merkle.Malleability.{compute_merkle_root-duplicate}
use dinari_blockchain_hub.Blockchain.Block
use dinari_blockchain_hub.Blockchain.Block.{get_total_fees, check_transactions}
use dinari_blockchain_hub.Blockchain.Block.Transactions.{DistinctHashes, check_transactions_iff}
use dinari_blockchain_hub.Tests.Data.{toy, payment, coinbase, block, root, key_hash, pubkey}

verify-build_merkle_branch_example :
    verify toy
      (build_merkle_branch toy (root ∷ key_hash ∷ pubkey ∷ []) 2)
      pubkey
      (compute_merkle_root toy (root ∷ key_hash ∷ pubkey ∷ []))
    ≡ true
verify-build_merkle_branch_example =
    verify-build_merkle_branch toy (root ∷ key_hash ∷ pubkey ∷ []) 2 pubkey (omega arith) refl

verify_inclusion_iff_example :
    (verify_inclusion toy (build toy (root ∷ key_hash ∷ pubkey ∷ [])) pubkey 1 ≡ true)
    ↔ (get_elem? (root ∷ key_hash ∷ pubkey ∷ []) 1 ≡ some pubkey)
verify_inclusion_iff_example =
    verify_inclusion_iff toy (root ∷ key_hash ∷ pubkey ∷ []) 1 pubkey (omega arith)

compute_merkle_root-duplicate_example :
    compute_merkle_root toy ((root ∷ key_hash ∷ []) ++ pubkey ∷ pubkey ∷ [])
    ≡ compute_merkle_root toy ((root ∷ key_hash ∷ []) ++ pubkey ∷ [])
compute_merkle_root-duplicate_example =
    compute_merkle_root-duplicate toy (root ∷ key_hash ∷ []) pubkey (omega arith) refl

check_proof_of_work_iff_example : (check_proof_of_work root (3 * 2 ^ 24 + 1) ≡ true) ↔ (
    (1 ≤ (3 * 2 ^ 24 + 1) / 2 ^ 24)
    × ((3 * 2 ^ 24 + 1) / 2 ^ 24 ≤ 32)
    × ((3 * 2 ^ 24 + 1) % 2 ^ 24 < 2 ^ 23)
    × (1 ≤ target_number (3 * 2 ^ 24 + 1))
    × (le_value root ≤ target_number (3 * 2 ^ 24 + 1)))
check_proof_of_work_iff_example = check_proof_of_work_iff root (3 * 2 ^ 24 + 1)

check_transactions_iff_example : (check_transactions toy (coinbase ∷ payment ∷ []) ≡ true) ↔ (
    (is_coinbase coinbase ≡ true)
    × All (λ tx. is_coinbase tx ≡ false) (payment ∷ [])
    × All (λ tx. is_valid tx ≡ true) (coinbase ∷ payment ∷ [])
    × DistinctHashes toy (coinbase ∷ payment ∷ []))
check_transactions_iff_example = check_transactions_iff toy coinbase (payment ∷ [])

block_valid : Block.is_valid toy 1000 block ≡ true
unfolding Block.is_valid check_proof_of_work Transaction.serialize TxOut.is_valid Block.serialize
    Block.serialize_header Block.all_valid Block.calculate_merkle_root Block.check_merkle_root
    check_transactions Block.count Block.get_size Block.hashes_distinct Block.header_hash
    Block.header_valid Block.is_in_future Block.no_coinbase Block.write_transactions
    compute_merkle_root next_level top_level money_range OutPoint.is_null
    Transaction.coinbase_inputs_valid get_hash Transaction.get_size is_coinbase is_valid
    Transaction.no_null_prevouts Transaction.outputs_valid Transaction.write_inputs
    Transaction.write_outputs TxIn.is_coinbase merkle_hash double_sha256 compact_to_target
    target_number Serialize.write_uint32 TxOut.serialize Serialize.write_bytes
    Serialize.write_compact_size Serialize.write_varint Serialize.write_uint8 Serialize.write_uint64
    TxIn.serialize OutPoint.serialize Serialize.write_hash256 Serialize.le_bytes Serialize.le_value
    Serialize.write_uint16
block_valid = refl
