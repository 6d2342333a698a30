-- ===== src/Network/Message/Roundtrip.antt =====
-- A message of src/network/message.cpp, sent and received again.
use dinari_blockchain_hub.Base.{
  List, ℕ, ◌+◌, ◌%◌, ◌^◌, ◌<◌, ◌≤◌, ◌≡◌, refl, sym, ◌∙◌, ap, true, false, some, [], ◌++◌, map,
  append_assoc, arith, length, length-append, All, ltb, ◌==◌, take, drop, take-append, drop-append,
  le→ltb, le→leb,
}
use native.Mathlib.Nat.{mod-eq_of_lt}
use dinari_blockchain_hub.Base.Map.{lookup}
use dinari_blockchain_hub.Base.Eq.{nat_eq, list_eq}
use dinari_blockchain_hub.Util.Serialize.{
  Bytes, Reader, Deserializer, ok, pure, ◌>>=◌, advance, le_bytes, size_mod, write_uint64,
}
use dinari_blockchain_hub.Util.Serialize.Laws.{Reads, map-Reads, pure-Reads, read_uint64-Reads}
use dinari_blockchain_hub.Crypto.Hash.{Primitives}
use dinari_blockchain_hub.Core.Transaction
use dinari_blockchain_hub.Core.Transaction.{Transaction, new_transaction}
use dinari_blockchain_hub.Core.Transaction.Codec.{
  TransactionFits, transaction_bytes, serialize-eq-bytes, bytes-Reads,
}
use dinari_blockchain_hub.Blockchain.Block
use dinari_blockchain_hub.Blockchain.Block.{Block, BlockHeader}
use dinari_blockchain_hub.Blockchain.Block.Codec.{
  HeaderFits, BlockFits, read_header, fresh, read_over, read_over-nil, block_bytes,
  serialize-eq-bytes_of_block, block-Reads,
}
use dinari_blockchain_hub.Network.Message.{
  max_addrs_per_message, max_inv_per_message, max_headers_per_message, new_header, deserialize_ping,
  deserialize_version, deserialize_addr, deserialize_inv, deserialize_not_found,
  deserialize_locator, deserialize_headers, deserialize_reject, serialize_ping, serialize_version,
  serialize_addr, serialize_inv, serialize_locator, serialize_headers, serialize_reject,
}
use dinari_blockchain_hub.Network.Message.Payload.{
  same-Reads, AddressFits, ItemFits, LocatorFits, addr-Reads, inv-Reads, not_found-Reads,
  headers-Reads, locator-Reads,
}
use dinari_blockchain_hub.Network.Message.Version.{
  VersionFits, RejectFits, version-Reads, Ends, Reads-Ends, first_extra, reject-Ends,
}
use dinari_blockchain_hub.Network.Message.Kinds.{
  NetworkMessage, version, verack, ping, pong, addr, getaddr, inv, getdata, notfound, getblocks,
  getheaders, block, headers, tx, mempool, reject, new_block, serialize_payload, NetMsgType,
  get_type, get_message_type_name, commands, deserialize_payload,
}
use dinari_blockchain_hub.Network.Message.Frame.{
  max_message_size, MessageHeader, header_valid, calculate_checksum, deserialize_header,
  command_field, serialize_message, c_string, received, receive_payload, receive_body,
  deserialize_message,
}
use dinari_blockchain_hub.Network.Message.Header.{
  frame_bytes, frame-eq, FrameFits, frame-Reads, frame-length, command-length, command-c_string,
  command-lookup,
}

-- What a message must keep to: the limits of its lists, and the widths of its fields.
unfoldable pub MessageFits : NetworkMessage → Type 0
MessageFits (version v) = VersionFits v
MessageFits verack = Unit
MessageFits (ping n) = n < 2 ^ 64
MessageFits (pong n) = n < 2 ^ 64
MessageFits (addr xs) = (length xs ≤ max_addrs_per_message) × All AddressFits xs
MessageFits getaddr = Unit
MessageFits (inv xs) = (length xs ≤ max_inv_per_message) × All ItemFits xs
MessageFits (getdata xs) = (length xs ≤ max_inv_per_message) × All ItemFits xs
MessageFits (notfound xs) = (length xs < 2 ^ 64) × All ItemFits xs
MessageFits (getblocks l) = LocatorFits l
MessageFits (getheaders l) = LocatorFits l
MessageFits (block b) = BlockFits b
MessageFits (headers hs) = (length hs ≤ max_headers_per_message) × All HeaderFits hs
MessageFits (tx t) = TransactionFits t
MessageFits mempool = Unit
MessageFits (reject r) = RejectFits r

-- A block as it is read into the one of a new message.
abbrev read_new : List Transaction → Block → Block
read_new txs b = record new_block {
  header = read_header new_header b.header;
  transactions = txs;
  size_cached = false;
}

-- What comes back: a header and a transaction with their cached hashes dropped, and of the data of
-- a reject message the first byte.
unfoldable pub as_read : NetworkMessage → NetworkMessage
as_read (block b) = block (read_new (map fresh b.transactions) b)
as_read (headers hs) = headers (map (read_header new_header) hs)
as_read (tx t) = tx (fresh t)
as_read (reject r) = reject (first_extra r)
as_read m = m

ping-Reads : (n : ℕ) → n < 2 ^ 64 → Reads deserialize_ping (serialize_ping n []) n
unfolding deserialize_ping serialize_ping write_uint64 le_bytes
ping-Reads n lt = read_uint64-Reads n lt

through :
    {A : Type 0} (m : Reader A) (f : A → NetworkMessage) (xs : Bytes) (a : A)
    → Reads m xs a
    → Ends (m >>= λ x. pure (f x)) xs (f a)
through m f xs a r = Reads-Ends (m >>= λ x. pure (f x)) xs (f a) (map-Reads m f xs a r)

map-Ends :
    {A : Type 0} (m : Reader A) (f : A → NetworkMessage) (xs : Bytes) (a : A)
    → Ends m xs a
    → Ends (m >>= λ x. pure (f x)) xs (f a)
map-Ends m f xs a e d h = let (last, run) = e d h in (last, rw (run, ◌>>=◌) refl)

empty-Ends : (m : NetworkMessage) → Ends (pure m) [] m
empty-Ends m = Reads-Ends (pure m) [] m (pure-Reads m)

payload-Ends :
    (m : NetworkMessage)
    → MessageFits m
    → Ends (deserialize_payload (get_type m)) (serialize_payload m) (as_read m)
unfolding deserialize_payload get_type serialize_payload MessageFits as_read
payload-Ends (version v) f =
    through deserialize_version version (serialize_version v []) v (version-Reads v f)
payload-Ends verack f = empty-Ends verack
payload-Ends (ping n) f = through deserialize_ping ping (serialize_ping n []) n (ping-Reads n f)
payload-Ends (pong n) f = through deserialize_ping pong (serialize_ping n []) n (ping-Reads n f)
payload-Ends (addr xs) f =
    through deserialize_addr addr (serialize_addr xs []) xs (addr-Reads xs f.0 f.1)
payload-Ends getaddr f = empty-Ends getaddr
payload-Ends (inv xs) f =
    through deserialize_inv inv (serialize_inv xs []) xs (inv-Reads xs f.0 f.1)
payload-Ends (getdata xs) f =
    through deserialize_inv getdata (serialize_inv xs []) xs (inv-Reads xs f.0 f.1)
payload-Ends (notfound xs) f =
    through deserialize_not_found notfound (serialize_inv xs []) xs (not_found-Reads xs f.0 f.1)
payload-Ends (getblocks l) f =
    through deserialize_locator getblocks (serialize_locator l []) l (locator-Reads l f)
payload-Ends (getheaders l) f =
    through deserialize_locator getheaders (serialize_locator l []) l (locator-Reads l f)
payload-Ends (block b) f = rw (serialize-eq-bytes_of_block b) (
    through (Block.deserialize new_block) block (block_bytes b)
      (read_new (map fresh b.transactions) b)
      (same-Reads (Block.deserialize new_block) (block_bytes b)
        (read_new (read_over [] b.transactions) b) (read_new (map fresh b.transactions) b)
        (ap (λ txs. read_new txs b) (read_over-nil b.transactions)) (block-Reads new_block b f)))
payload-Ends (headers hs) f =
    through deserialize_headers headers (serialize_headers hs []) (map (read_header new_header) hs)
      (headers-Reads hs f.0 f.1)
payload-Ends (tx t) f = rw (serialize-eq-bytes t) (
    through (Transaction.deserialize new_transaction) tx (transaction_bytes t) (fresh t)
      (bytes-Reads new_transaction t f))
payload-Ends mempool f = empty-Ends mempool
payload-Ends (reject r) f =
    map-Ends deserialize_reject reject (serialize_reject r []) (first_extra r) (reject-Ends r f)

receive_payload-sent :
    (m : NetworkMessage)
    → MessageFits m
    → length (serialize_payload m) < size_mod
    → receive_payload (get_type m) (serialize_payload m)
      ≡ received (as_read m) (24 + length (serialize_payload m))
unfolding receive_payload
receive_payload-sent m f small =
    let (last, run) =
      payload-Ends m f (record { buffer = serialize_payload m; pos = 0 })
        (small, omega arith, refl) in
    rw (receive_payload, run) refl

abbrev pub sent_header : Primitives → ℕ → NetworkMessage → MessageHeader
sent_header p magic m = record {
  magic = magic;
  command = command_field (get_message_type_name (get_type m));
  payload_size = length (serialize_payload m) % 2 ^ 32;
  checksum = calculate_checksum p (serialize_payload m);
}

checksum_range_lem : (p : Primitives) (bs : Bytes) → calculate_checksum p bs < 2 ^ 32
unfolding calculate_checksum
checksum_range_lem p bs = omega arith

pub sent-Fits :
    (p : Primitives) (magic : ℕ) (m : NetworkMessage)
    → magic < 2 ^ 32
    → FrameFits (sent_header p magic m)
sent-Fits p magic m lt = record {
  magic_range = lt;
  command_size = command-length (get_type m);
  size_range = omega arith;
  checksum_range = checksum_range_lem p (serialize_payload m);
}

pub sent_bytes :
    (p : Primitives) (magic : ℕ) (m : NetworkMessage)
    → serialize_message p magic m ≡ frame_bytes (sent_header p magic m) ++ serialize_payload m
unfolding serialize_message
sent_bytes p magic m = rw (frame-eq (sent_header p magic m)) refl

receive_body-accepted :
    (p : Primitives) (magic : ℕ) (bytes : Bytes) (h : MessageHeader) (payload name : Bytes)
    (t : NetMsgType)
    → header_valid magic h ≡ true
    → ltb (length bytes) (24 + h.payload_size) ≡ false
    → take h.payload_size (drop 24 bytes) ≡ payload
    → (calculate_checksum p payload == h.checksum) ≡ true
    → c_string h.command ≡ some name
    → lookup name commands ≡ some t
    → receive_body p magic bytes h ≡ receive_payload t payload
unfolding receive_body
receive_body-accepted p magic bytes h payload name t valid whole taken sum_ok named known =
    let same : (calculate_checksum p (take h.payload_size (drop 24 bytes)) == h.checksum) ≡ true =
      rw taken sum_ok in
    rw (valid, whole, same, named, known) (ap (receive_payload t) taken)

pub equal_self : (n : ℕ) → (n == n) ≡ true
equal_self n = ground arith

pub valid_header :
    (p : Primitives) (magic : ℕ) (m : NetworkMessage)
    → length (serialize_payload m) ≤ max_message_size
    → header_valid magic (sent_header p magic m) ≡ true
unfolding header_valid
valid_header p magic m limit =
    let size : length (serialize_payload m) % 2 ^ 32 ≡ length (serialize_payload m) =
      mod-eq_of_lt (omega arith) in
    rw (equal_self magic, size) (le→leb (length (serialize_payload m)) max_message_size limit)

receive_body-sent :
    (p : Primitives) (magic : ℕ) (m : NetworkMessage) (bytes rest : Bytes)
    → MessageFits m
    → length (serialize_payload m) ≤ max_message_size
    → drop 24 bytes ≡ serialize_payload m ++ rest
    → 24 + length (serialize_payload m) ≤ length bytes
    → receive_body p magic bytes (sent_header p magic m)
      ≡ received (as_read m) (24 + length (serialize_payload m))
receive_body-sent p magic m bytes rest f limit left enough =
    let payload = serialize_payload m in
    let size : length payload % 2 ^ 32 ≡ length payload = mod-eq_of_lt (omega arith) in
    receive_body-accepted p magic bytes (sent_header p magic m) payload
      (get_message_type_name (get_type m)) (get_type m) (valid_header p magic m limit)
      (rw size (le→ltb (length bytes) (24 + length payload) enough))
      (rw (size, left) (take-append payload rest)) (equal_self (calculate_checksum p payload))
      (command-c_string (get_type m)) (command-lookup (get_type m))
    ∙ receive_payload-sent m f (omega arith)

pub deserialize_message-read :
    (p : Primitives) (magic : ℕ) (bytes : Bytes) (h : MessageHeader) (d : Deserializer)
    → 24 ≤ length bytes
    → deserialize_header (record { buffer = bytes; pos = 0 }) ≡ ok (h, d)
    → deserialize_message p magic bytes ≡ receive_body p magic bytes h
unfolding deserialize_message
deserialize_message-read p magic bytes h d enough e = rw (le→ltb (length bytes) 24 enough, e) refl

-- For a magic number of 32 bits, a message whose fields and lists keep to their limits and whose
-- payload keeps to the 32 MB (in a version message, the timestamps of both addresses are 0, as
-- they are not sent there), and a buffer of fewer than 2^64 bytes, DeserializeMessage gives back
-- from what SerializeMessage wrote, whatever bytes follow in the buffer, a message of the same
-- type with the same members, and the number of bytes of its frame. Two things are lost: the
-- cached hashes of blocks, headers and transactions, and the data of a reject message behind its
-- first byte.
pub deserialize_message-serialize_message :
    (p : Primitives) (magic : ℕ) (m : NetworkMessage) (rest : Bytes)
    → magic < 2 ^ 32
    → MessageFits m
    → length (serialize_payload m) ≤ max_message_size
    → length (serialize_message p magic m ++ rest) < size_mod
    → deserialize_message p magic (serialize_message p magic m ++ rest)
      ≡ received (as_read m) (24 + length (serialize_payload m))
deserialize_message-serialize_message p magic m rest range f limit small =
    let h = sent_header p magic m in
    let payload = serialize_payload m in
    let bytes = serialize_message p magic m ++ rest in
    let fits = sent-Fits p magic m range in
    let split : bytes ≡ frame_bytes h ++ (payload ++ rest) =
      rw (sent_bytes p magic m) (append_assoc (frame_bytes h) payload rest) in
    let size : length (frame_bytes h) ≡ 24 = frame-length h fits.command_size in
    let enough : 24 + length payload ≤ length bytes = omega (
      arith,
      size,
      ap length split,
      length-append (frame_bytes h) (payload ++ rest),
      length-append payload rest,
    ) in
    let left : drop 24 bytes ≡ payload ++ rest =
      ap (λ n. drop n bytes) (sym size)
      ∙ ap (drop (length (frame_bytes h))) split
      ∙ drop-append (frame_bytes h) (payload ++ rest) in
    let d : Deserializer = record { buffer = bytes; pos = 0 } in
    deserialize_message-read p magic bytes h (advance (length (frame_bytes h)) d) (omega arith)
      (frame-Reads h fits d (payload ++ rest) (small, omega arith, split))
    ∙ receive_body-sent p magic m bytes rest f limit left enough
