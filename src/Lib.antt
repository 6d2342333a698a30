-- ===== src/Lib.antt =====
-- A model of the core of the Dinari blockchain: from the bytes of its wire formats up to the
-- state of the chain, as far as src/util/serialize, src/crypto/hash, src/core, src/blockchain and
-- src/consensus go, and the messages of src/network.
--
-- The parts and how they meet. Serializer and Deserializer (Util/Serialize) write and read bytes.
-- Transactions (Core/OutPoint, TxOut, TxIn, Transaction) are written with them; a transaction's
-- hash, the name under which its outputs are kept, is the hash of those bytes. The unspent outputs
-- (Core/Utxo) are a map from outpoints, with an index by address; ApplyTransaction and
-- RevertTransaction move it from block to block. Scripts (Core/Script) say who may spend an output.
-- Merkle trees (Blockchain/Merkle) commit a header to the transactions of its block
-- (Blockchain/Block), and the validator (Consensus/Validation) puts all of this together, with the
-- bits that the adjustment of the difficulty asks for (Consensus/Difficulty). The memory pool
-- (Core/Mempool) holds transactions that no block has yet. The chain (Blockchain/Chain) keeps the
-- tree of blocks (Blockchain/Index), the unspent outputs of its best branch and the memory pool, and
-- moves them all with each block that it accepts. Nodes send each other blocks, transactions and
-- what they ask for in messages (Network/Message), whose frames carry a checksum.
--
-- Which file models what:
--   Base: tests, lists, equality and maps, for the standard containers.
--   Util/Serialize: src/util/serialize.h and serialize.cpp.
--   Crypto/Hash, Crypto/ProofOfWork: src/crypto/hash.cpp (DoubleSHA256, ComputeHash160,
--     CompactToTarget, CheckProofOfWork).
--   Core/Amount: include/dinari/types.h (amounts, SafeAdd, SafeSub, SafeMul).
--   Core/OutPoint, TxOut, TxIn, Transaction, Fees: src/core/transaction.h and transaction.cpp.
--   Core/Utxo: src/core/utxo.h and utxo.cpp (UTXOEntry, UTXOSet).
--   Core/Coins: src/core/utxo.h and utxo.cpp (UTXOCache, CoinSelector).
--   Core/Script: src/core/script.h and script.cpp.
--   Blockchain/Merkle: src/blockchain/merkle.cpp and Hash::ComputeMerkleRoot.
--   Blockchain/Block: src/blockchain/block.h and block.cpp.
--   Blockchain/Index: BlockIndex of src/blockchain/block.h, and the walks over the tree in
--     src/blockchain/blockchain.cpp (FindFork, FindPath, UpdateMainChain, GetBlockLocator).
--   Blockchain/Chain, Blockchain/Chain/Acceptance: src/blockchain/blockchain.cpp (ConnectBlock,
--     DisconnectBlock, Reorganize, SetBestChain; Initialize, AcceptBlock, ProcessOrphans).
--   Core/Mempool: src/core/mempool.h and mempool.cpp.
--   Consensus/Validation: src/consensus/validation.cpp.
--   Consensus/Difficulty: src/consensus/difficulty.h and difficulty.cpp.
--   Network/Message, with Kinds and Frame below it: src/network/message.h, message.cpp and
--     protocol.h.
-- A method becomes a function of its object, with the words of its name: UTXOSet::ApplyTransaction
-- is apply_transaction, and gives the answer and the set that it leaves. A loop is a function of
-- its own. The modules below each of these hold its theorems, and Tests their runs on a small chain.
--
-- Numbers. Every integer is a natural number. Amounts are added modulo 2^64, heights subtracted
-- modulo 2^32, sizes and positions added modulo 2^64, as the C++ types do. A byte is a number below
-- 256, a hash a list of bytes.
--
-- Parameters. SHA-256, RIPEMD-160 and ECDSA::Verify, wrappers of OpenSSL, are the fields of
-- Primitives, with nothing assumed of them. std::sort and std::shuffle are those of Algorithms,
-- and the theorem on the choice of coins takes it that they only reorder, std::sort where its
-- comparison is a strict weak ordering of the coins. The clock is an argument. Whether a mutex may
-- be locked again is one too: std::mutex may not, and calls that do it are undefined.
--
-- Fuel. The interpreter gets one unit for each byte of the script, and the levels of a Merkle tree
-- one for each leaf; both are shown to be enough. The walks over the tree of blocks get the height
-- at which they start, which is shown to be enough in a tree. TrimToSize gets the length of the
-- index by fee rate, and the orphans are taken up as deep as their number.
--
-- Not modelled: mutexes but for their being locked again, logging and texts for people; the stores
-- on disk and what the chain loads from them and writes to them; doubles that reach no result;
-- wallet, the sockets, peers and threads of the network, mining, RPC and the command line.
pub mod Base
pub mod Util
pub mod Crypto
pub mod Core
pub mod Blockchain
pub mod Consensus
pub mod Network
pub mod Tests
