-- ===== src/Tests/Chain.antt =====
-- The theorems on the chain of blocks, at a root and two blocks on it.
use dinari_blockchain_hub.Base.{ℕ}
use dinari_blockchain_hub.Base.{
  ◌+◌, ◌^◌, ◌<◌, ◌≡◌, ◌↔◌, refl, Bool, true, false, Option, none, some, [], ◌∷◌, arith, replicate,
}
use dinari_blockchain_hub.Base.Eq.{nat_eq, list_eq}
use dinari_blockchain_hub.Base.Map.{lookup, insert, HasUniqueKeys, erase}
use dinari_blockchain_hub.Util.Serialize.{Bytes}
use dinari_blockchain_hub.Crypto.Hash.{zero_hash}
use dinari_blockchain_hub.Blockchain.Block.{Block, BlockHeader}
use dinari_blockchain_hub.Blockchain.Index.{
  BlockIndex, Indices, new_block_index, prev_of, height_of, find_fork, fork_at, find_path,
  update_main_chain,
}
use dinari_blockchain_hub.Blockchain.Index.Ancestry.{
  IsTree, Ancestor, self, above, Known, IsForkOf, find_fork_lem,
}
use dinari_blockchain_hub.Blockchain.Index.MainChain.{is_marked, update_main_chain_iff}
use dinari_blockchain_hub.Blockchain.Index.Path.{IsLinked, find_path-IsLinked}
use dinari_blockchain_hub.Blockchain.Chain.Tree.{single-IsTree, insert-IsTree, accept_one-IsTree}
use dinari_blockchain_hub.Consensus.Difficulty.{
  bits_of, limit_timespan, calculate_actual_timespan, target_timespan, is_valid_difficulty,
  get_expected_difficulty,
}
use dinari_blockchain_hub.Consensus.Difficulty.Limits.{expected_difficulty_valid}
use dinari_blockchain_hub.Consensus.Validation.{
  validate_block, validate_transactions, minted, validate_transaction,
}
use dinari_blockchain_hub.Blockchain.Block.{get_total_fees, check_transactions}
use dinari_blockchain_hub.Core.Fees.{get_fee}
use dinari_blockchain_hub.Core.Utxo.{
  apply_transaction, add_output, add_outputs, extract_address_from_script, index_out_point,
  spend_inputs, get_utxo, get_utxo_entry, is_mature, is_spendable,
}
use dinari_blockchain_hub.Crypto.ProofOfWork.{check_proof_of_work, compact_to_target, target_number}
use dinari_blockchain_hub.Blockchain.Merkle.{compute_merkle_root, next_level, top_level}
use dinari_blockchain_hub.Core.Amount.{money_range, safe_add}
use dinari_blockchain_hub.Core.Transaction.{get_hash, is_coinbase, is_valid, get_output_value}
use dinari_blockchain_hub.Crypto.Hash.{merkle_hash, double_sha256, compute_hash160}
use dinari_blockchain_hub.Base.Map.{lookup}
use dinari_blockchain_hub.Util.Serialize
use dinari_blockchain_hub.Core.OutPoint
use dinari_blockchain_hub.Core.OutPoint.{out_point_eq}
use dinari_blockchain_hub.Core.TxIn
use dinari_blockchain_hub.Core.TxOut
use dinari_blockchain_hub.Core.Transaction
use dinari_blockchain_hub.Core.Script
use dinari_blockchain_hub.Consensus.Validation
use dinari_blockchain_hub.Blockchain.Block
use dinari_blockchain_hub.Blockchain.Chain
use dinari_blockchain_hub.Blockchain.Chain.Acceptance
use dinari_blockchain_hub.Blockchain.Index
use dinari_blockchain_hub.Consensus.Difficulty
use dinari_blockchain_hub.Core.Mempool
use dinari_blockchain_hub.Blockchain.Chain.{
  Blockchain, new_blockchain, Outcome, ended, thrown, undefined,
}
use dinari_blockchain_hub.Blockchain.Chain.Acceptance.{accept_one}
use dinari_blockchain_hub.Blockchain.Chain.{update_utxos, apply_all, revert_utxos}
use dinari_blockchain_hub.Blockchain.Chain.Reverting.{spends_any, spent_lost}
use dinari_blockchain_hub.Core.Utxo.Apply.{spends}
use dinari_blockchain_hub.Tests.Data.{toy, coins, funding, block, header}

abbrev left_hash : Bytes
left_hash = replicate 32 1

abbrev right_hash : Bytes
right_hash = replicate 32 2

abbrev index_of : ℕ → Option Bytes → BlockIndex
index_of height prev = record {
  block = block;
  height = height;
  chain_work = 0;
  money_supply = 0;
  prev = prev;
  next = [];
  is_valid = true;
  is_main_chain = false;
}

-- The block with an earlier time.
abbrev late : BlockIndex
late = record (index_of 2015 none) {
  block = record block { header = record header { timestamp = 400 } };
}

abbrev fork_tree : Indices
fork_tree =
    insert right_hash (index_of 1 (some zero_hash))
      (insert left_hash (index_of 1 (some zero_hash)) ((zero_hash, index_of 0 none) ∷ []))

fork_tree-IsTree : IsTree fork_tree
unfolding lookup insert
fork_tree-IsTree =
    insert-IsTree
      (insert left_hash (index_of 1 (some zero_hash)) ((zero_hash, index_of 0 none) ∷ []))
      right_hash zero_hash (index_of 0 none) (index_of 1 (some zero_hash))
      (insert-IsTree ((zero_hash, index_of 0 none) ∷ []) left_hash zero_hash (index_of 0 none)
        (index_of 1 (some zero_hash)) (single-IsTree zero_hash (index_of 0 none) refl refl) refl
        refl refl refl)
      refl refl refl refl

left-Known : Known fork_tree left_hash
unfolding lookup insert
left-Known = (index_of 1 (some zero_hash), refl)

right-Known : Known fork_tree right_hash
unfolding lookup insert
right-Known = (index_of 1 (some zero_hash), refl)

left_prev : prev_of left_hash fork_tree ≡ some zero_hash
unfolding prev_of lookup insert
left_prev = refl

left_on_root : Ancestor fork_tree zero_hash left_hash
left_on_root = above left_prev self

find_fork_lem_example :
    (f : Bytes) × (find_fork fork_tree (some left_hash) (some right_hash) ≡ fork_at f)
    × IsForkOf fork_tree left_hash right_hash f
find_fork_lem_example =
    find_fork_lem fork_tree fork_tree-IsTree left_hash right_hash left-Known right-Known

find_path-IsLinked_example :
    IsLinked fork_tree zero_hash (find_path fork_tree zero_hash left_hash) left_hash
find_path-IsLinked_example =
    find_path-IsLinked fork_tree zero_hash left_hash fork_tree-IsTree left-Known left_on_root

update_main_chain_iff_example :
    ((is_marked (lookup zero_hash (update_main_chain left_hash fork_tree).0) ≡ true)
      ↔ Ancestor fork_tree zero_hash left_hash)
    × ((lookup 0 (update_main_chain left_hash fork_tree).1 ≡ some zero_hash)
        ↔ (Ancestor fork_tree zero_hash left_hash × (height_of zero_hash fork_tree ≡ 0)))
update_main_chain_iff_example =
    update_main_chain_iff fork_tree left_hash zero_hash 0 fork_tree-IsTree left-Known

bits_valid : is_valid_difficulty (bits_of (index_of 2015 none)) ≡ true
unfolding is_valid_difficulty
bits_valid = refl

expected_difficulty_valid_example :
    is_valid_difficulty (get_expected_difficulty [] fork_tree (some (index_of 2015 none))) ≡ true
expected_difficulty_valid_example =
    expected_difficulty_valid [] fork_tree (index_of 2015 none) bits_valid

-- A chain of one block.
abbrev chain : Blockchain
chain = record new_blockchain {
  blocks = (zero_hash, late.block) ∷ [];
  block_indices = (zero_hash, record late { height = 0; prev = none }) ∷ [];
  best_block = some zero_hash;
  genesis_block = some zero_hash;
  utxos = coins;
}

-- The chain that a call leaves.
abbrev chain_of : Outcome (Bool × Blockchain) → Blockchain
chain_of (ended (b, c)) = c
chain_of thrown = new_blockchain
chain_of undefined = new_blockchain

block_accepted :
    accept_one true toy 1000 block chain
    ≡ ended (true, chain_of (accept_one true toy 1000 block chain))
unfolding validate_block validate_transactions get_total_fees get_fee get_utxo
    Transaction.get_block_reward minted Validation.validate_money_supply
    Validation.validate_coinbase Validation.validate_block_sig_ops Validation.validate_block_size
    Validation.validate_block_header Validation.quick_block_check Transaction.is_final
    Block.is_valid check_proof_of_work Transaction.serialize TxOut.is_valid Block.serialize
    Block.serialize_header Block.all_valid Block.calculate_merkle_root Block.check_merkle_root
    check_transactions Block.count Block.get_size Block.hashes_distinct Block.header_hash
    Block.header_valid Block.is_in_future Block.no_coinbase Block.write_transactions
    compute_merkle_root next_level top_level money_range OutPoint.is_null
    Transaction.coinbase_inputs_valid get_hash Transaction.get_size is_coinbase is_valid
    Transaction.no_null_prevouts Transaction.outputs_valid Transaction.write_inputs
    Transaction.write_outputs TxIn.is_coinbase merkle_hash double_sha256 compact_to_target
    target_number validate_transaction lookup Validation.check_inputs Validation.check_outputs
    Validation.check_transaction_inputs Validation.inputs_distinct
    Validation.quick_transaction_check Validation.seen_before Script.delete_matches
    Script.execute_opcode Script.execute_script Script.find_and_delete Script.matches_at
    Script.op_check_sig Script.op_equal_case Script.run Script.signature_push Script.signature_valid
    Script.verify get_output_value Transaction.get_signature_hash Transaction.signature_preimage
    Transaction.sum_outputs Transaction.write_signed_inputs get_utxo_entry is_mature is_spendable
    compute_hash160 Serialize.write_uint32 TxOut.serialize Serialize.write_bytes
    Serialize.write_compact_size Serialize.write_varint Serialize.write_uint8 Serialize.write_uint64
    TxIn.serialize OutPoint.serialize Serialize.write_hash256 Serialize.le_bytes Serialize.le_value
    Serialize.write_uint16 accept_one Acceptance.accept_after Acceptance.connect_valid
    Acceptance.link_block Acceptance.verdict_on get_expected_difficulty
    Difficulty.should_adjust_difficulty Chain.connect_block Chain.update_utxos Chain.apply_some
    Chain.apply_all Chain.set_best_chain Chain.change_best Chain.set_tip Chain.connect_coins
    Chain.coinbase_value Chain.index_at Chain.remove_from_mempool Index.update_chain_work
    Index.get_work Index.new_block_index Index.is_better_chain Index.find_fork Index.lower
    Index.meet Index.height_of Index.prev_of Mempool.remove_transactions Mempool.remove_transaction
    insert update_main_chain Index.unmark Index.mark safe_add Block.has_coinbase apply_transaction
block_accepted = refl

chain_stored : (h : Bytes) → lookup h chain.blocks ≡ none → lookup h chain.block_indices ≡ none
unfolding lookup
chain_stored h n = ground (arith, n)

chain_low :
    (h : Bytes) (x : BlockIndex) → lookup h chain.block_indices ≡ some x → x.height + 1 < 2 ^ 32
unfolding lookup
chain_low h x f = ground (arith, f)

accept_one-IsTree_example : IsTree (chain_of (accept_one true toy 1000 block chain)).block_indices
accept_one-IsTree_example =
    accept_one-IsTree true toy 1000 block chain (chain_of (accept_one true toy 1000 block chain))
      true (single-IsTree zero_hash (record late { height = 0; prev = none }) refl refl)
      chain_stored chain_low block_accepted

block_applies :
    update_utxos toy block 2 coins ≡ ended (true, (apply_all toy 2 block.transactions coins).1)
unfolding update_utxos apply_all Chain.apply_some apply_transaction is_coinbase TxIn.is_coinbase
    lookup insert get_hash double_sha256 Transaction.serialize Serialize.write_uint32
    TxOut.serialize Serialize.write_bytes Serialize.write_compact_size Serialize.write_varint
    Serialize.write_uint8 Serialize.write_uint64 TxIn.serialize OutPoint.serialize erase
    OutPoint.is_null Transaction.write_inputs Transaction.write_outputs add_output add_outputs
    extract_address_from_script index_out_point spend_inputs Serialize.le_bytes
    Serialize.write_hash256 Serialize.write_uint16
block_applies = refl

funding_spent : spends_any block.transactions funding ≡ true
unfolding spends_any spends is_coinbase TxIn.is_coinbase
funding_spent = refl

coins_keys : HasUniqueKeys coins.utxos
unfolding lookup
coins_keys = (refl, tt)

spent_lost_example :
    lookup funding
      (revert_utxos toy block.transactions (apply_all toy 2 block.transactions coins).1).utxos
    ≡ none
spent_lost_example =
    spent_lost toy block 2 coins (apply_all toy 2 block.transactions coins).1 funding coins_keys
      (omega arith, (omega arith, tt)) block_applies funding_spent
