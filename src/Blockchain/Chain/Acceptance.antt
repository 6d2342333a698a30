-- ===== src/Blockchain/Chain/Acceptance.antt =====
-- Initialize, AcceptBlock and the orphans of src/blockchain/blockchain.cpp, without storage on disk.
-- AcceptBlock calls itself through ProcessOrphans, on fuel: the number of orphans is enough, since
-- each call has stored a block more.
use dinari_blockchain_hub.Base.{
  ℕ, zero, suc, ◌+◌, ◌%◌, ◌^◌, Bool, true, false, not, Option, none, some, List, [], ◌∷◌, ◌++◌,
  if◌then◌else◌,
}
use dinari_blockchain_hub.Base.Eq.{◌=?◌, nat_eq, list_eq}
use dinari_blockchain_hub.Base.Map.{Map, lookup, insert, erase}
use dinari_blockchain_hub.Util.Serialize.{Bytes}
use dinari_blockchain_hub.Crypto.Hash.{Primitives}
use dinari_blockchain_hub.Blockchain.Block
use dinari_blockchain_hub.Blockchain.Block.{Block, header_hash}
use dinari_blockchain_hub.Blockchain.Index.{BlockIndex, new_block_index, is_better_chain}
use dinari_blockchain_hub.Blockchain.Chain.{
  Blockchain, Outcome, ended, thrown, undefined, or_false, update_utxos, coinbase_value, put_index,
  connect_block, set_best_chain, index_at,
}
use dinari_blockchain_hub.Core.Utxo.{UtxoSet}
use dinari_blockchain_hub.Consensus.Validation
use dinari_blockchain_hub.Consensus.Validation.{quick_block_check, validate_block}
use dinari_blockchain_hub.Consensus.Difficulty.{get_expected_difficulty}

-- What the validator reads of the previous block's index.
abbrev pub read_index : Bytes → BlockIndex → Validation.BlockIndex
read_index h index = record {
  block_hash = h;
  block_time = index.block.header.timestamp;
  money_supply = index.money_supply;
}

unfoldable pub add_orphan : Primitives → Block → Blockchain → Blockchain
add_orphan p b c = record c { orphan_blocks = insert (header_hash p b.header) b c.orphan_blocks }

-- The part of Initialize behind the check of the block, where the UTXO set has been updated.
abbrev pub with_genesis :
    Bytes → BlockIndex → Blockchain → Outcome (Bool × UtxoSet) → Outcome (Bool × Blockchain)
with_genesis h index c (ended (true, u)) = ended (
  true,
  put_index h (record index { money_supply = coinbase_value index.block }) (record c { utxos = u }),
)
with_genesis h index c (ended (false, u)) = ended (false, record c { utxos = u })
with_genesis h index c thrown = thrown
with_genesis h index c undefined = undefined

unfoldable pub initialize : Primitives → ℕ → Block → Blockchain → Outcome (Bool × Blockchain)
unfolding update_utxos coinbase_value new_block_index
initialize p now genesis c =
    if not (Block.is_valid p now genesis)
    then ended (false, c)
    else let h = header_hash p genesis.header in
      let index = record (new_block_index genesis 0) { is_main_chain = true; is_valid = true } in
      with_genesis h index
        (put_index h index (record c {
          blocks = insert h genesis c.blocks;
          height_index = insert 0 h c.height_index;
          best_block = some h;
          genesis_block = some h;
        }))
        (update_utxos p genesis 0 c.utxos)

-- The index of a new block, and its previous block's pointer to it.
unfoldable pub link_block : Bytes → Block → BlockIndex → Blockchain → Blockchain
unfolding new_block_index
link_block h b prev c =
    let index = new_block_index b ((prev.height + 1) % 2 ^ 32) in
    put_index b.header.prev_block_hash (record prev { next = prev.next ++ h ∷ [] })
      (put_index h (record index { prev = some b.header.prev_block_hash })
        (record c { blocks = insert h b c.blocks }))

abbrev pub set_valid : Bytes → Bool → Blockchain → Blockchain
set_valid h valid c = elim (lookup h c.block_indices) [
  | none ↦ c
  | some index ↦ put_index h (record index { is_valid = valid }) c
]

-- From the verdict of the validator on.
unfoldable pub connect_valid :
    Bool → Primitives → ℕ → Bytes → Block → Bool → Blockchain → Outcome (Bool × Blockchain)
unfolding connect_block is_better_chain set_best_chain index_at
connect_valid reentrant p now h b valid c =
    if not valid
    then ended (false, set_valid h false c)
    else or_false (connect_block p b h (set_valid h true c)) (λ d.
      if is_better_chain (lookup h d.block_indices) (index_at d.best_block d.block_indices)
      then set_best_chain reentrant p now h d
      else ended (true, d))

abbrev pub is_none {ℓ} : {A : Type ℓ} → Option A → Bool
is_none none = true
is_none (some a) = false

-- The call of ValidateBlock, behind the linking of the block.
unfoldable pub verdict_on :
    Primitives → ℕ → Block → BlockIndex → Blockchain → Validation.ValidationResult
unfolding link_block get_expected_difficulty
verdict_on p now b prev c =
    let linked = link_block (header_hash p b.header) b prev c in
    let expected_bits =
      get_expected_difficulty linked.height_index linked.block_indices
        (lookup b.header.prev_block_hash linked.block_indices) in
    validate_block p now expected_bits b (some (read_index b.header.prev_block_hash prev))
      ((prev.height + 1) % 2 ^ 32) linked.utxos

-- AcceptBlock from the previous block's index on, up to the orphans.
unfoldable pub accept_after :
    Bool → Primitives → ℕ → Block → Blockchain → Option BlockIndex → Outcome (Bool × Blockchain)
unfolding link_block connect_valid add_orphan verdict_on
accept_after reentrant p now b c none = ended (false, add_orphan p b c)
accept_after reentrant p now b c (some prev) =
    let h = header_hash p b.header in
    let linked = link_block h b prev c in
    connect_valid reentrant p now h b (is_none (verdict_on p now b prev c)) linked

-- AcceptBlock up to the orphans.
unfoldable pub accept_one : Bool → Primitives → ℕ → Block → Blockchain → Outcome (Bool × Blockchain)
unfolding accept_after
accept_one reentrant p now b c =
    if not reentrant
    then undefined
    else if not (is_none (lookup (header_hash p b.header) c.blocks))
    then ended (false, c)
    else if not (is_none (quick_block_check p now b))
    then ended (false, c)
    else accept_after reentrant p now b c (lookup b.header.prev_block_hash c.block_indices)

-- The loop of ProcessOrphans, with the hashes to remove, and the loop of the removals.
unfoldable pub accept_children :
    (Block → Blockchain → Outcome (Bool × Blockchain))
    → Bytes
    → Map Bytes Block
    → List Bytes
    → Blockchain
    → Outcome (List Bytes × Blockchain)
accept_children accept parent_hash [] removed c = ended (removed, c)
accept_children accept parent_hash ((h, b) ∷ orphans) removed c =
    let skipped = accept_children accept parent_hash orphans removed c in
    let taken : Outcome (List Bytes × Blockchain) = elim (accept b c) [
      | ended r ↦
          accept_children accept parent_hash orphans (if r.0 then removed ++ h ∷ [] else removed)
            r.1
      | thrown ↦ thrown
      | undefined ↦ undefined
    ] in
    if b.header.prev_block_hash =? parent_hash then taken else skipped

unfoldable pub erase_all : List Bytes → Map Bytes Block → Map Bytes Block
erase_all [] m = m
erase_all (h ∷ hs) m = erase_all hs (erase h m)

unfoldable pub process_orphans :
    (Block → Blockchain → Outcome (Bool × Blockchain))
    → Bytes
    → Blockchain
    → Outcome (Bool × Blockchain)
unfolding accept_children erase_all
process_orphans accept parent_hash c =
    elim (accept_children accept parent_hash c.orphan_blocks [] c) [
      | ended r ↦ ended (true, record r.1 { orphan_blocks = erase_all r.0 r.1.orphan_blocks })
      | thrown ↦ thrown
      | undefined ↦ undefined
    ]

unfoldable pub accept_block :
    ℕ → Bool → Primitives → ℕ → Block → Blockchain → Outcome (Bool × Blockchain)
unfolding accept_one process_orphans
accept_block zero reentrant p now b c = accept_one reentrant p now b c
accept_block (suc fuel) reentrant p now b c =
    or_false (accept_one reentrant p now b c)
      (process_orphans (accept_block fuel reentrant p now) (header_hash p b.header))
