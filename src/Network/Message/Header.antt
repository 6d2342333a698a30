-- ===== src/Network/Message/Header.antt =====
-- The header of a message of src/network/message.cpp, and the names of the commands in it.
use dinari_blockchain_hub.Base.{◌^◌, ◌<◌, ◌≡◌, refl, some, [], ◌++◌, arith, length, length-append}
use dinari_blockchain_hub.Base.Map.{lookup}
use dinari_blockchain_hub.Base.Eq.{nat_eq, list_eq}
use dinari_blockchain_hub.Util.Serialize.{
  Bytes, le_bytes, write_uint32, write_bytes, read_uint32, read_bytes,
}
use dinari_blockchain_hub.Util.Serialize.Laws.{
  Reads, wire_laws, >>=-Reads, map-Reads, read_uint32-Reads, read_bytes-Reads,
}
use dinari_blockchain_hub.Network.Message.Kinds.{
  type_version, type_verack, type_ping, type_pong, type_addr, type_getaddr, type_inv, type_getdata,
  type_notfound, type_getblocks, type_getheaders, type_block, type_headers, type_tx, type_mempool,
  type_reject, NetMsgType, get_message_type_name, commands,
}
use dinari_blockchain_hub.Network.Message.Frame.{
  MessageHeader, serialize_header, deserialize_header, command_field, c_string,
}

pub frame_bytes : MessageHeader → Bytes
frame_bytes h =
    le_bytes 4 h.magic ++ (h.command ++ (le_bytes 4 h.payload_size ++ le_bytes 4 h.checksum))

pub frame-eq : (h : MessageHeader) → serialize_header h [] ≡ frame_bytes h
unfolding serialize_header frame_bytes write_uint32 write_bytes
frame-eq h = simp wire_laws

pub record FrameFits (h : MessageHeader) : Type 0 where
  pub magic_range : h.magic < 2 ^ 32
  pub command_size : length h.command ≡ 12
  pub size_range : h.payload_size < 2 ^ 32
  pub checksum_range : h.checksum < 2 ^ 32

pub frame-Reads : (h : MessageHeader) → FrameFits h → Reads deserialize_header (frame_bytes h) h
unfolding deserialize_header frame_bytes
frame-Reads h f =
    let size = le_bytes 4 h.payload_size in
    let sum = le_bytes 4 h.checksum in
    >>=-Reads read_uint32 _ (le_bytes 4 h.magic) (h.command ++ (size ++ sum)) h.magic h
      (read_uint32-Reads h.magic f.magic_range)
      (>>=-Reads (read_bytes 12) _ h.command (size ++ sum) h.command h
        (read_bytes-Reads 12 h.command f.command_size)
        (>>=-Reads read_uint32 _ size sum h.payload_size h
          (read_uint32-Reads h.payload_size f.size_range)
          (map-Reads read_uint32 (λ c. record h { checksum = c }) sum h.checksum
            (read_uint32-Reads h.checksum f.checksum_range))))

pub frame-length : (h : MessageHeader) → length h.command ≡ 12 → length (frame_bytes h) ≡ 24
unfolding frame_bytes le_bytes
frame-length h e =
    omega (arith, e, length-append h.command (le_bytes 4 h.payload_size ++ le_bytes 4 h.checksum))

pub command-length : (t : NetMsgType) → length (command_field (get_message_type_name t)) ≡ 12
unfolding get_message_type_name command_field
command-length type_version = refl
command-length type_verack = refl
command-length type_ping = refl
command-length type_pong = refl
command-length type_addr = refl
command-length type_getaddr = refl
command-length type_inv = refl
command-length type_getdata = refl
command-length type_notfound = refl
command-length type_getblocks = refl
command-length type_getheaders = refl
command-length type_block = refl
command-length type_headers = refl
command-length type_tx = refl
command-length type_mempool = refl
command-length type_reject = refl

pub command-c_string :
    (t : NetMsgType)
    → c_string (command_field (get_message_type_name t)) ≡ some (get_message_type_name t)
unfolding get_message_type_name command_field c_string
command-c_string type_version = refl
command-c_string type_verack = refl
command-c_string type_ping = refl
command-c_string type_pong = refl
command-c_string type_addr = refl
command-c_string type_getaddr = refl
command-c_string type_inv = refl
command-c_string type_getdata = refl
command-c_string type_notfound = refl
command-c_string type_getblocks = refl
command-c_string type_getheaders = refl
command-c_string type_block = refl
command-c_string type_headers = refl
command-c_string type_tx = refl
command-c_string type_mempool = refl
command-c_string type_reject = refl

pub command-lookup : (t : NetMsgType) → lookup (get_message_type_name t) commands ≡ some t
unfolding get_message_type_name commands lookup
command-lookup type_version = refl
command-lookup type_verack = refl
command-lookup type_ping = refl
command-lookup type_pong = refl
command-lookup type_addr = refl
command-lookup type_getaddr = refl
command-lookup type_inv = refl
command-lookup type_getdata = refl
command-lookup type_notfound = refl
command-lookup type_getblocks = refl
command-lookup type_getheaders = refl
command-lookup type_block = refl
command-lookup type_headers = refl
command-lookup type_tx = refl
command-lookup type_mempool = refl
command-lookup type_reject = refl
