-- ===== src/Network/Message/Kinds.antt =====
-- The messages of src/network/message.h, with their types and names in src/network/protocol.h.
use dinari_blockchain_hub.Base.{ℕ, false, List, [], ◌∷◌}
use dinari_blockchain_hub.Base.Eq.{nat_eq, list_eq}
use dinari_blockchain_hub.Base.Map.{Map}
use dinari_blockchain_hub.Util.Serialize.{Bytes, Reader, pure, ◌>>=◌}
use dinari_blockchain_hub.Core.Transaction
use dinari_blockchain_hub.Core.Transaction.{Transaction, new_transaction}
use dinari_blockchain_hub.Blockchain.Block
use dinari_blockchain_hub.Blockchain.Block.{Block, BlockHeader}
use dinari_blockchain_hub.Network.Message.{
  NetworkAddress, InvItem, VersionMessage, LocatorMessage, RejectMessage, serialize_version,
  deserialize_version, serialize_ping, deserialize_ping, serialize_addr, deserialize_addr,
  serialize_inv, deserialize_inv, deserialize_not_found, serialize_locator, deserialize_locator,
  new_header, serialize_headers, deserialize_headers, serialize_reject, deserialize_reject,
}

pub data NetworkMessage : Type 0 where
  version : VersionMessage → NetworkMessage
  verack : NetworkMessage
  ping : ℕ → NetworkMessage
  pong : ℕ → NetworkMessage
  addr : List NetworkAddress → NetworkMessage
  getaddr : NetworkMessage
  inv : List InvItem → NetworkMessage
  getdata : List InvItem → NetworkMessage
  notfound : List InvItem → NetworkMessage
  getblocks : LocatorMessage → NetworkMessage
  getheaders : LocatorMessage → NetworkMessage
  block : Block → NetworkMessage
  headers : List BlockHeader → NetworkMessage
  tx : Transaction → NetworkMessage
  mempool : NetworkMessage
  reject : RejectMessage → NetworkMessage

unfoldable pub serialize_payload : NetworkMessage → Bytes
unfolding serialize_version serialize_ping serialize_addr serialize_inv serialize_locator
    serialize_headers serialize_reject
serialize_payload (version v) = serialize_version v []
serialize_payload verack = []
serialize_payload (ping n) = serialize_ping n []
serialize_payload (pong n) = serialize_ping n []
serialize_payload (addr xs) = serialize_addr xs []
serialize_payload getaddr = []
serialize_payload (inv xs) = serialize_inv xs []
serialize_payload (getdata xs) = serialize_inv xs []
serialize_payload (notfound xs) = serialize_inv xs []
serialize_payload (getblocks l) = serialize_locator l []
serialize_payload (getheaders l) = serialize_locator l []
serialize_payload (block b) = Block.serialize b []
serialize_payload (headers hs) = serialize_headers hs []
serialize_payload (tx t) = Transaction.serialize t []
serialize_payload mempool = []
serialize_payload (reject r) = serialize_reject r []

-- GetMessageTypeName, and the chain of comparisons in DeserializeMessage.
pub data NetMsgType : Type 0 where
  type_version : NetMsgType
  type_verack : NetMsgType
  type_ping : NetMsgType
  type_pong : NetMsgType
  type_addr : NetMsgType
  type_getaddr : NetMsgType
  type_inv : NetMsgType
  type_getdata : NetMsgType
  type_notfound : NetMsgType
  type_getblocks : NetMsgType
  type_getheaders : NetMsgType
  type_block : NetMsgType
  type_headers : NetMsgType
  type_tx : NetMsgType
  type_mempool : NetMsgType
  type_reject : NetMsgType

unfoldable pub get_type : NetworkMessage → NetMsgType
get_type (version v) = type_version
get_type verack = type_verack
get_type (ping n) = type_ping
get_type (pong n) = type_pong
get_type (addr xs) = type_addr
get_type getaddr = type_getaddr
get_type (inv xs) = type_inv
get_type (getdata xs) = type_getdata
get_type (notfound xs) = type_notfound
get_type (getblocks l) = type_getblocks
get_type (getheaders l) = type_getheaders
get_type (block b) = type_block
get_type (headers hs) = type_headers
get_type (tx t) = type_tx
get_type mempool = type_mempool
get_type (reject r) = type_reject

unfoldable pub get_message_type_name : NetMsgType → Bytes
get_message_type_name type_version = 118 ∷ 101 ∷ 114 ∷ 115 ∷ 105 ∷ 111 ∷ 110 ∷ []
get_message_type_name type_verack = 118 ∷ 101 ∷ 114 ∷ 97 ∷ 99 ∷ 107 ∷ []
get_message_type_name type_ping = 112 ∷ 105 ∷ 110 ∷ 103 ∷ []
get_message_type_name type_pong = 112 ∷ 111 ∷ 110 ∷ 103 ∷ []
get_message_type_name type_addr = 97 ∷ 100 ∷ 100 ∷ 114 ∷ []
get_message_type_name type_getaddr = 103 ∷ 101 ∷ 116 ∷ 97 ∷ 100 ∷ 100 ∷ 114 ∷ []
get_message_type_name type_inv = 105 ∷ 110 ∷ 118 ∷ []
get_message_type_name type_getdata = 103 ∷ 101 ∷ 116 ∷ 100 ∷ 97 ∷ 116 ∷ 97 ∷ []
get_message_type_name type_notfound = 110 ∷ 111 ∷ 116 ∷ 102 ∷ 111 ∷ 117 ∷ 110 ∷ 100 ∷ []
get_message_type_name type_getblocks = 103 ∷ 101 ∷ 116 ∷ 98 ∷ 108 ∷ 111 ∷ 99 ∷ 107 ∷ 115 ∷ []
get_message_type_name type_getheaders =
    103 ∷ 101 ∷ 116 ∷ 104 ∷ 101 ∷ 97 ∷ 100 ∷ 101 ∷ 114 ∷ 115 ∷ []
get_message_type_name type_block = 98 ∷ 108 ∷ 111 ∷ 99 ∷ 107 ∷ []
get_message_type_name type_headers = 104 ∷ 101 ∷ 97 ∷ 100 ∷ 101 ∷ 114 ∷ 115 ∷ []
get_message_type_name type_tx = 116 ∷ 120 ∷ []
get_message_type_name type_mempool = 109 ∷ 101 ∷ 109 ∷ 112 ∷ 111 ∷ 111 ∷ 108 ∷ []
get_message_type_name type_reject = 114 ∷ 101 ∷ 106 ∷ 101 ∷ 99 ∷ 116 ∷ []

-- The names in the order in which DeserializeMessage compares them.
unfoldable pub commands : Map Bytes NetMsgType
unfolding get_message_type_name
commands =
    (get_message_type_name type_version, type_version)
    ∷ (get_message_type_name type_verack, type_verack)
    ∷ (get_message_type_name type_ping, type_ping)
    ∷ (get_message_type_name type_pong, type_pong)
    ∷ (get_message_type_name type_addr, type_addr)
    ∷ (get_message_type_name type_getaddr, type_getaddr)
    ∷ (get_message_type_name type_inv, type_inv)
    ∷ (get_message_type_name type_getdata, type_getdata)
    ∷ (get_message_type_name type_notfound, type_notfound)
    ∷ (get_message_type_name type_getblocks, type_getblocks)
    ∷ (get_message_type_name type_getheaders, type_getheaders)
    ∷ (get_message_type_name type_block, type_block)
    ∷ (get_message_type_name type_headers, type_headers)
    ∷ (get_message_type_name type_tx, type_tx)
    ∷ (get_message_type_name type_mempool, type_mempool)
    ∷ (get_message_type_name type_reject, type_reject)
    ∷ []

abbrev pub new_block : Block
new_block = record { header = new_header; transactions = []; cached_size = 0; size_cached = false }

-- The new message of the type, as its reader leaves it. The Deserialize of a message without members
-- reads nothing.
unfoldable pub deserialize_payload : NetMsgType → Reader NetworkMessage
unfolding deserialize_version deserialize_ping deserialize_addr deserialize_inv
    deserialize_not_found deserialize_locator deserialize_headers deserialize_reject
deserialize_payload type_version = deserialize_version >>= λ m. pure (version m)
deserialize_payload type_verack = pure verack
deserialize_payload type_ping = deserialize_ping >>= λ m. pure (ping m)
deserialize_payload type_pong = deserialize_ping >>= λ m. pure (pong m)
deserialize_payload type_addr = deserialize_addr >>= λ m. pure (addr m)
deserialize_payload type_getaddr = pure getaddr
deserialize_payload type_inv = deserialize_inv >>= λ m. pure (inv m)
deserialize_payload type_getdata = deserialize_inv >>= λ m. pure (getdata m)
deserialize_payload type_notfound = deserialize_not_found >>= λ m. pure (notfound m)
deserialize_payload type_getblocks = deserialize_locator >>= λ m. pure (getblocks m)
deserialize_payload type_getheaders = deserialize_locator >>= λ m. pure (getheaders m)
deserialize_payload type_block = (Block.deserialize new_block) >>= λ m. pure (block m)
deserialize_payload type_headers = deserialize_headers >>= λ m. pure (headers m)
deserialize_payload type_tx = (Transaction.deserialize new_transaction) >>= λ m. pure (tx m)
deserialize_payload type_mempool = pure mempool
deserialize_payload type_reject = deserialize_reject >>= λ m. pure (reject m)
