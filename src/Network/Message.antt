-- ===== src/Network/Message.antt =====
-- src/network/message.h and message.cpp with the types of src/network/protocol.h: the payloads of
-- the peer-to-peer messages. Deserialize of a fresh message is a reader; where it returns false
-- without an exception it throws here, which its callers do not tell apart. A string is its bytes,
-- an enumeration that is cast from an integer is that integer.
pub mod Payload
pub mod Version
pub mod Kinds
pub mod Frame
pub mod Header
pub mod Roundtrip
pub mod Failures
use dinari_blockchain_hub.Base.{
  ℕ, zero, suc, ◌+◌, ◌-◌, ◌*◌, Bool, true, false, not, List, [], ◌∷◌, ltb, ◌==◌, if◌then◌else◌,
  length, replicate,
}
use dinari_blockchain_hub.Util.Serialize.{
  Bytes, Serializer, Outcome, ok, throws, undefined, Deserializer, Reader, pure, ◌>>=◌, ◌>>◌,
  write_uint8, write_uint16, write_uint32, write_uint64, write_varint, write_bytes, write_string,
  write_hash256, read_uint8, read_uint16, read_uint32, read_uint64, read_varint, read_compact_size,
  read_bytes, read_string, read_hash256,
}
use dinari_blockchain_hub.Crypto.Hash.{zero_hash}
use dinari_blockchain_hub.Core.Transaction
use dinari_blockchain_hub.Core.Transaction.{Transaction}
use dinari_blockchain_hub.Blockchain.Block
use dinari_blockchain_hub.Blockchain.Block.{
  Block, BlockHeader, serialize_header, deserialize_header,
}

abbrev pub max_addrs_per_message : ℕ
max_addrs_per_message = 1000

abbrev pub max_inv_per_message : ℕ
max_inv_per_message = 50_000

abbrev pub max_headers_per_message : ℕ
max_headers_per_message = 2000

pub record NetworkAddress : Type 0 where
  pub services : ℕ
  pub ip : Bytes
  pub port : ℕ
  pub timestamp : ℕ

pub record InvItem : Type 0 where
  pub inv_type : ℕ
  pub hash : Bytes

pub record VersionMessage : Type 0 where
  pub version : ℕ
  pub services : ℕ
  pub timestamp : ℕ
  pub addr_recv : NetworkAddress
  pub addr_from : NetworkAddress
  pub nonce : ℕ
  pub user_agent : Bytes
  pub start_height : ℕ
  pub relay : Bool

-- GetBlocksMessage, and GetHeadersMessage with the same members.
pub record LocatorMessage : Type 0 where
  pub version : ℕ
  pub hashes : List Bytes
  pub hash_stop : Bytes

pub record RejectMessage : Type 0 where
  pub message : Bytes
  pub code : ℕ
  pub reason : Bytes
  pub extra : Bytes

-- An address within a version message: it has no timestamp there.
unfoldable pub write_peer : NetworkAddress → Serializer → Serializer
write_peer a s = write_uint16 a.port (write_bytes a.ip (write_uint64 a.services s))

-- Into the address of a new message, whose timestamp is 0.
unfoldable pub read_peer : Reader NetworkAddress
read_peer = do
  services ← read_uint64
  ip ← read_bytes 16
  port ← read_uint16
  pure (record { services = services; ip = ip; port = port; timestamp = 0 })

unfoldable pub serialize_version : VersionMessage → Serializer → Serializer
unfolding write_peer
serialize_version v s =
    let s = write_uint64 v.timestamp (write_uint64 v.services (write_uint32 v.version s)) in
    let s = write_peer v.addr_from (write_peer v.addr_recv s) in
    let s = write_uint32 v.start_height (write_string v.user_agent (write_uint64 v.nonce s)) in
    write_uint8 (if v.relay then 1 else 0) s

unfoldable pub available : Reader Bool
available d = ok (ltb d.pos (length d.buffer), d)

-- Older peers leave the flag out: it stays as the constructor sets it.
unfoldable pub read_relay : Bool → Reader Bool
read_relay left = if left then (read_uint8 >>= λ v. pure (not (v == 0))) else pure true

unfoldable pub deserialize_version : Reader VersionMessage
unfolding read_peer read_relay
deserialize_version = do
  version ← read_uint32
  services ← read_uint64
  timestamp ← read_uint64
  addr_recv ← read_peer
  addr_from ← read_peer
  nonce ← read_uint64
  ua_len ← read_compact_size
  user_agent ← read_string ua_len
  start_height ← read_uint32
  left ← available
  relay ← read_relay left
  pure (record {
    version = version;
    services = services;
    timestamp = timestamp;
    addr_recv = addr_recv;
    addr_from = addr_from;
    nonce = nonce;
    user_agent = user_agent;
    start_height = start_height;
    relay = relay;
  })

unfoldable pub serialize_ping : ℕ → Serializer → Serializer
serialize_ping nonce s = write_uint64 nonce s

unfoldable pub deserialize_ping : Reader ℕ
deserialize_ping = read_uint64

-- The loops over the elements of a message, and those that read them back.
unfoldable pub write_all {ℓ} :
    {A : Type ℓ} → (A → Serializer → Serializer) → List A → Serializer → Serializer
write_all write [] s = s
write_all write (a ∷ xs) s = write_all write xs (write a s)

unfoldable pub read_all : {A : Type 0} → Reader A → ℕ → Reader (List A)
read_all read zero = pure []
read_all read (suc n) = do a ← read; xs ← read_all read n; pure (a ∷ xs)

-- `if (count > MAX) return false`
unfoldable pub at_most : ℕ → ℕ → Reader (Unit {0})
at_most limit count = if ltb limit count then (λ d. throws) else pure tt

unfoldable pub write_address : NetworkAddress → Serializer → Serializer
write_address a s =
    write_uint16 a.port (write_bytes a.ip (write_uint64 a.services (write_uint32 a.timestamp s)))

unfoldable pub read_address : Reader NetworkAddress
read_address = do
  timestamp ← read_uint32
  services ← read_uint64
  ip ← read_bytes 16
  port ← read_uint16
  pure (record { services = services; ip = ip; port = port; timestamp = timestamp })

unfoldable pub serialize_addr : List NetworkAddress → Serializer → Serializer
unfolding write_all write_address
serialize_addr addresses s = write_all write_address addresses (write_varint (length addresses) s)

unfoldable pub deserialize_addr : Reader (List NetworkAddress)
unfolding read_all read_address at_most
deserialize_addr = do
  count ← read_varint
  at_most max_addrs_per_message count
  read_all read_address count

unfoldable pub write_item : InvItem → Serializer → Serializer
write_item i s = write_hash256 i.hash (write_uint32 i.inv_type s)

unfoldable pub read_item : Reader InvItem
read_item = do
  inv_type ← read_uint32
  hash ← read_hash256
  pure (record { inv_type = inv_type; hash = hash })

-- Of InvMessage, GetDataMessage and NotFoundMessage.
unfoldable pub serialize_inv : List InvItem → Serializer → Serializer
unfolding write_all write_item
serialize_inv inventory s = write_all write_item inventory (write_varint (length inventory) s)

unfoldable pub deserialize_inv : Reader (List InvItem)
unfolding read_all read_item at_most
deserialize_inv = do
  count ← read_varint
  at_most max_inv_per_message count
  read_all read_item count

unfoldable pub deserialize_not_found : Reader (List InvItem)
unfolding read_all read_item
deserialize_not_found = do count ← read_varint; read_all read_item count

unfoldable pub serialize_locator : LocatorMessage → Serializer → Serializer
unfolding write_all
serialize_locator l s =
    write_hash256 l.hash_stop
      (write_all write_hash256 l.hashes (write_varint (length l.hashes) (write_uint32 l.version s)))

unfoldable pub deserialize_locator : Reader LocatorMessage
unfolding read_all
deserialize_locator = do
  version ← read_uint32
  count ← read_varint
  hashes ← read_all read_hash256 count
  hash_stop ← read_hash256
  pure (record { version = version; hashes = hashes; hash_stop = hash_stop })

abbrev pub new_header : BlockHeader
new_header = record {
  version = 1;
  prev_block_hash = zero_hash;
  merkle_root = zero_hash;
  timestamp = 0;
  bits = 0;
  nonce = 0;
  cached_hash = zero_hash;
  hash_cached = false;
}

unfoldable pub write_header_item : BlockHeader → Serializer → Serializer
write_header_item h s = write_varint 0 (serialize_header h s)

-- A count of transactions other than 0 is only logged.
unfoldable pub read_header_item : Reader BlockHeader
read_header_item = do header ← deserialize_header new_header; tx_count ← read_varint; pure header

unfoldable pub serialize_headers : List BlockHeader → Serializer → Serializer
unfolding write_all write_header_item
serialize_headers headers s = write_all write_header_item headers (write_varint (length headers) s)

unfoldable pub deserialize_headers : Reader (List BlockHeader)
unfolding read_all read_header_item at_most
deserialize_headers = do
  count ← read_varint
  at_most max_headers_per_message count
  read_all read_header_item count

unfoldable pub serialize_reject : RejectMessage → Serializer → Serializer
serialize_reject r s =
    write_bytes r.extra (write_string r.reason (write_uint8 r.code (write_string r.message s)))

unfoldable pub read_extra : Bool → Reader Bytes
read_extra left = if left then read_bytes 1 else pure []

unfoldable pub deserialize_reject : Reader RejectMessage
unfolding read_extra
deserialize_reject = do
  msg_len ← read_compact_size
  message ← read_string msg_len
  code ← read_uint8
  reason_len ← read_compact_size
  reason ← read_string reason_len
  left ← available
  extra ← read_extra left
  pure (record { message = message; code = code; reason = reason; extra = extra })
