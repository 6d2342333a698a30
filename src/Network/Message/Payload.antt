-- ===== src/Network/Message/Payload.antt =====
-- The payloads of src/network/message.cpp: what Serialize writes, Deserialize reads.
use dinari_blockchain_hub.Base.{
  ℕ, ◌^◌, ◌<◌, ◌≤◌, ◌≡◌, refl, sym, ◌∙◌, ap, List, [], ◌∷◌, ◌++◌, map, append_assoc, append-nil,
  arith, length, All, le→ltb,
}
use mathlib.Core.Path.{subst}
use dinari_blockchain_hub.Util.Serialize.{
  Bytes, Serializer, Reader, ◌>>=◌, ◌>>◌, le_bytes, write_uint16, write_uint32, write_uint64,
  write_varint, write_bytes, write_hash256, read_uint16, read_uint32, read_uint64, read_varint,
  read_bytes, read_hash256,
}
use dinari_blockchain_hub.Util.Serialize.Laws.{
  Reads, varint_bytes, write_varint-append, wire_laws, >>=-Reads, >>-Reads, map-Reads, pure-Reads,
  read_uint16-Reads, read_uint32-Reads, read_uint64-Reads, read_varint-Reads, read_bytes-Reads,
  read_hash256-Reads,
}
use dinari_blockchain_hub.Blockchain.Block.{BlockHeader, deserialize_header}
use dinari_blockchain_hub.Blockchain.Block.Codec.{
  HeaderFits, header_bytes, header-append, header-Reads, read_header,
}
use dinari_blockchain_hub.Network.Message.{
  NetworkAddress, InvItem, LocatorMessage, write_all, read_all, at_most, write_address,
  read_address, serialize_addr, deserialize_addr, write_item, read_item, serialize_inv,
  deserialize_inv, deserialize_not_found, serialize_locator, deserialize_locator, new_header,
  write_header_item, read_header_item, serialize_headers, deserialize_headers,
  max_addrs_per_message, max_inv_per_message, max_headers_per_message,
}

-- The fields hold what their C++ types and the message can.
pub record AddressFits (a : NetworkAddress) : Type 0 where
  pub services_range : a.services < 2 ^ 64
  pub ip_size : length a.ip ≡ 16
  pub port_range : a.port < 2 ^ 16
  pub time_range : a.timestamp < 2 ^ 32

pub record ItemFits (i : InvItem) : Type 0 where
  pub type_range : i.inv_type < 2 ^ 32
  pub hash_size : length i.hash ≡ 32

pub record LocatorFits (l : LocatorMessage) : Type 0 where
  pub version_range : l.version < 2 ^ 32
  pub count_range : length l.hashes < 2 ^ 64
  pub hash_sizes : All (λ (h : Bytes). length h ≡ 32) l.hashes
  pub stop_size : length l.hash_stop ≡ 32

-- The elements of a list, one behind the other.
all_bytes : {A : Type 0} → (A → Bytes) → List A → Bytes
all_bytes f [] = []
all_bytes f (a ∷ xs) = f a ++ all_bytes f xs

write_all-append :
    {A : Type 0} (write : A → Serializer → Serializer) (f : A → Bytes) (xs : List A)
    (s : Serializer)
    → ((a : A) (s : Serializer) → write a s ≡ s ++ f a)
    → write_all write xs s ≡ s ++ all_bytes f xs
unfolding write_all all_bytes
write_all-append write f [] s h = sym (append-nil s)
write_all-append write f (a ∷ xs) s h =
    write_all-append write f xs (write a s) h
    ∙ ap (λ t. t ++ all_bytes f xs) (h a s)
    ∙ append_assoc s (f a) (all_bytes f xs)

-- A reader that reads each element reads the list.
read_all-Reads :
    {A : Type 0} (read : Reader A) (f : A → Bytes) (g : A → A) (P : A → Type 0) (xs : List A)
    → ((a : A) → P a → Reads read (f a) (g a))
    → All P xs
    → Reads (read_all read (length xs)) (all_bytes f xs) (map g xs)
unfolding read_all all_bytes
read_all-Reads read f g P [] h p = pure-Reads []
read_all-Reads read f g P (a ∷ xs) h p =
    >>=-Reads read _ (f a) (all_bytes f xs) (g a) (g a ∷ map g xs) (h a p.0) (
      map-Reads (read_all read (length xs)) _ (all_bytes f xs) (map g xs)
        (read_all-Reads read f g P xs h p.1))

map_same : {A : Type 0} (xs : List A) → map (λ a. a) xs ≡ xs
map_same [] = refl
map_same (a ∷ xs) = ap (λ bs. a ∷ bs) (map_same xs)

at_most-Reads : (limit n : ℕ) → n ≤ limit → Reads (at_most limit n) [] tt
unfolding at_most
at_most-Reads limit n le = rw (le→ltb limit n le) (pure-Reads tt)

-- A list behind its count, where the count is limited.
counted-Reads :
    {A : Type 0} (limit : ℕ) (read : Reader A) (f : A → Bytes) (g : A → A) (P : A → Type 0)
    (xs : List A)
    → limit < 2 ^ 64
    → length xs ≤ limit
    → ((a : A) → P a → Reads read (f a) (g a))
    → All P xs
    → Reads
        (read_varint >>= λ n. at_most limit n >> read_all read n)
        (varint_bytes (length xs) ++ all_bytes f xs)
        (map g xs)
counted-Reads limit read f g P xs small le h p =
    >>=-Reads read_varint _ (varint_bytes (length xs)) (all_bytes f xs) (length xs) (map g xs)
      (read_varint-Reads (length xs) (omega (arith, small, le)))
      (>>-Reads (at_most limit (length xs)) (read_all read (length xs)) [] (all_bytes f xs) tt
        (map g xs) (at_most-Reads limit (length xs) le) (read_all-Reads read f g P xs h p))

-- The bytes of a list behind its count.
counted-eq :
    {A : Type 0} (write : A → Serializer → Serializer) (f : A → Bytes) (xs : List A)
    → ((a : A) (s : Serializer) → write a s ≡ s ++ f a)
    → write_all write xs (write_varint (length xs) []) ≡ varint_bytes (length xs) ++ all_bytes f xs
unfolding varint_bytes
counted-eq write f xs h = write_all-append write f xs (write_varint (length xs) []) h

written-Reads :
    {A : Type 0} (limit : ℕ) (read : Reader A) (write : A → Serializer → Serializer) (f : A → Bytes)
    (g : A → A) (P : A → Type 0) (xs : List A)
    → limit < 2 ^ 64
    → length xs ≤ limit
    → ((a : A) (s : Serializer) → write a s ≡ s ++ f a)
    → ((a : A) → P a → Reads read (f a) (g a))
    → All P xs
    → Reads
        (read_varint >>= λ n. at_most limit n >> read_all read n)
        (write_all write xs (write_varint (length xs) []))
        (map g xs)
written-Reads limit read write f g P xs small le w h p =
    rw (counted-eq write f xs w) (counted-Reads limit read f g P xs small le h p)

pub same-Reads :
    {A : Type 0} (m : Reader A) (bs : Bytes) (a b : A) → a ≡ b → Reads m bs a → Reads m bs b
same-Reads m bs a b e r = subst (λ x. Reads m bs x) e r

address_bytes : NetworkAddress → Bytes
address_bytes a = le_bytes 4 a.timestamp ++ (le_bytes 8 a.services ++ (a.ip ++ le_bytes 2 a.port))

address-append : (a : NetworkAddress) (s : Serializer) → write_address a s ≡ s ++ address_bytes a
unfolding write_address address_bytes write_uint16 write_bytes write_uint64 write_uint32
address-append a s = simp wire_laws

address-Reads : (a : NetworkAddress) → AddressFits a → Reads read_address (address_bytes a) a
unfolding read_address address_bytes
address-Reads a f =
    let port = le_bytes 2 a.port in
    >>=-Reads read_uint32 _ (le_bytes 4 a.timestamp) (le_bytes 8 a.services ++ (a.ip ++ port))
      a.timestamp a (read_uint32-Reads a.timestamp f.time_range)
      (>>=-Reads read_uint64 _ (le_bytes 8 a.services) (a.ip ++ port) a.services a
        (read_uint64-Reads a.services f.services_range)
        (>>=-Reads (read_bytes 16) _ a.ip port a.ip a (read_bytes-Reads 16 a.ip f.ip_size)
          (map-Reads read_uint16 _ port a.port (read_uint16-Reads a.port f.port_range))))

item_bytes : InvItem → Bytes
item_bytes i = le_bytes 4 i.inv_type ++ i.hash

item-append : (i : InvItem) (s : Serializer) → write_item i s ≡ s ++ item_bytes i
unfolding write_item item_bytes write_uint32 write_hash256
item-append i s = simp wire_laws

item-Reads : (i : InvItem) → ItemFits i → Reads read_item (item_bytes i) i
unfolding read_item item_bytes
item-Reads i f =
    >>=-Reads read_uint32 _ (le_bytes 4 i.inv_type) i.hash i.inv_type i
      (read_uint32-Reads i.inv_type f.type_range)
      (map-Reads read_hash256 _ i.hash i.hash (read_hash256-Reads i.hash f.hash_size))

pub addr-Reads :
    (xs : List NetworkAddress)
    → length xs ≤ max_addrs_per_message
    → All AddressFits xs
    → Reads deserialize_addr (serialize_addr xs []) xs
unfolding deserialize_addr serialize_addr
addr-Reads xs le p = same-Reads deserialize_addr _ (map (λ a. a) xs) xs (map_same xs) (
    written-Reads max_addrs_per_message read_address write_address address_bytes (λ a. a)
      AddressFits xs (omega arith) le address-append address-Reads p)

pub inv-Reads :
    (xs : List InvItem)
    → length xs ≤ max_inv_per_message
    → All ItemFits xs
    → Reads deserialize_inv (serialize_inv xs []) xs
unfolding deserialize_inv serialize_inv
inv-Reads xs le p = same-Reads deserialize_inv _ (map (λ a. a) xs) xs (map_same xs) (
    written-Reads max_inv_per_message read_item write_item item_bytes (λ a. a) ItemFits xs
      (omega arith) le item-append item-Reads p)

pub not_found-Reads :
    (xs : List InvItem)
    → length xs < 2 ^ 64
    → All ItemFits xs
    → Reads deserialize_not_found (serialize_inv xs []) xs
unfolding deserialize_not_found serialize_inv
not_found-Reads xs le p = same-Reads deserialize_not_found _ (map (λ a. a) xs) xs (map_same xs) (
    rw (counted-eq write_item item_bytes xs item-append) (
      >>=-Reads read_varint _ (varint_bytes (length xs)) (all_bytes item_bytes xs) (length xs)
        (map (λ a. a) xs) (read_varint-Reads (length xs) le)
        (read_all-Reads read_item item_bytes (λ a. a) ItemFits xs item-Reads p)))

header_item_bytes : BlockHeader → Bytes
header_item_bytes h = header_bytes h ++ varint_bytes 0

header_item-append :
    (h : BlockHeader) (s : Serializer) → write_header_item h s ≡ s ++ header_item_bytes h
unfolding write_header_item header_item_bytes
header_item-append h s = simp (write_varint-append, header-append, append_assoc)

header_item-Reads :
    (h : BlockHeader)
    → HeaderFits h
    → Reads read_header_item (header_item_bytes h) (read_header new_header h)
unfolding read_header_item header_item_bytes
header_item-Reads h f =
    >>=-Reads (deserialize_header new_header) _ (header_bytes h) (varint_bytes 0)
      (read_header new_header h) (read_header new_header h) (header-Reads new_header h f)
      (map-Reads read_varint (λ n. read_header new_header h) (varint_bytes 0) 0
        (read_varint-Reads 0 (omega arith)))

pub headers-Reads :
    (xs : List BlockHeader)
    → length xs ≤ max_headers_per_message
    → All HeaderFits xs
    → Reads deserialize_headers (serialize_headers xs []) (map (read_header new_header) xs)
unfolding deserialize_headers serialize_headers
headers-Reads xs le p =
    written-Reads max_headers_per_message read_header_item write_header_item header_item_bytes
      (read_header new_header) HeaderFits xs (omega arith) le header_item-append header_item-Reads p

locator_bytes : LocatorMessage → Bytes
locator_bytes l =
    le_bytes 4 l.version
    ++ (varint_bytes (length l.hashes) ++ (all_bytes (λ h. h) l.hashes ++ l.hash_stop))

hash-append : (h : Bytes) (s : Serializer) → write_hash256 h s ≡ s ++ h
unfolding write_hash256
hash-append h s = refl

locator-eq : (l : LocatorMessage) → serialize_locator l [] ≡ locator_bytes l
unfolding serialize_locator locator_bytes write_uint32
locator-eq l =
    hash-append l.hash_stop
      (write_all write_hash256 l.hashes (write_varint (length l.hashes) (le_bytes 4 l.version)))
    ∙ simp (
      write_all-append write_hash256 (λ h. h) l.hashes _ hash-append,
      write_varint-append,
      append_assoc,
    )

pub locator-Reads :
    (l : LocatorMessage) → LocatorFits l → Reads deserialize_locator (serialize_locator l []) l
unfolding deserialize_locator locator_bytes
locator-Reads l f =
    let n = length l.hashes in
    let last = all_bytes (λ h. h) l.hashes ++ l.hash_stop in
    rw (locator-eq l) (
      >>=-Reads read_uint32 _ (le_bytes 4 l.version) (varint_bytes n ++ last) l.version l
        (read_uint32-Reads l.version f.version_range)
        (>>=-Reads read_varint _ (varint_bytes n) last n l (read_varint-Reads n f.count_range) (
          >>=-Reads (read_all read_hash256 n) _ (all_bytes (λ h. h) l.hashes) l.hash_stop l.hashes l
            (same-Reads (read_all read_hash256 n) _ (map (λ h. h) l.hashes) l.hashes
              (map_same l.hashes)
              (read_all-Reads read_hash256 (λ h. h) (λ h. h) (λ (h : Bytes). length h ≡ 32) l.hashes
                read_hash256-Reads f.hash_sizes))
            (map-Reads read_hash256 _ l.hash_stop l.hash_stop
              (read_hash256-Reads l.hash_stop f.stop_size)))))
