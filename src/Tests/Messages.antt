-- ===== src/Tests/Messages.antt =====
-- A message with one item, sent and received.
use dinari_blockchain_hub.Base.{◌≡◌, refl, [], ◌∷◌, ◌++◌, arith, replicate, take}
use dinari_blockchain_hub.Util.Serialize.{
  write_uint8, write_uint32, write_bytes, write_compact_size, write_varint, write_hash256, le_bytes,
  le_value,
}
use dinari_blockchain_hub.Crypto.Hash.{double_sha256}
use dinari_blockchain_hub.Network.Message.{InvItem, serialize_inv, write_item, write_all}
use dinari_blockchain_hub.Network.Message.Kinds.{
  NetworkMessage, inv, serialize_payload, get_type, get_message_type_name,
}
use dinari_blockchain_hub.Network.Message.Frame.{
  serialize_message, serialize_header, command_field, deserialize_message, received, nothing,
  overrun, MessageHeader, c_string, header_valid, calculate_checksum,
}
use dinari_blockchain_hub.Network.Message.Roundtrip.{
  MessageFits, as_read, deserialize_message-serialize_message,
}
use dinari_blockchain_hub.Network.Message.Failures.{
  deserialize_message-partial, deserialize_message-overrun,
}
use dinari_blockchain_hub.Tests.Data.{toy}

abbrev item : InvItem
item = record { inv_type = 2; hash = replicate 32 7 }

abbrev announcement : NetworkMessage
announcement = inv (item ∷ [])

deserialize_message-serialize_message_example :
    deserialize_message toy 9 (serialize_message toy 9 announcement ++ 1 ∷ 2 ∷ [])
    ≡ received announcement 61
unfolding MessageFits as_read serialize_payload serialize_message serialize_inv write_item write_all
    write_compact_size write_varint write_hash256 write_uint8 write_uint32 write_bytes le_bytes
    serialize_header command_field get_type get_message_type_name
deserialize_message-serialize_message_example =
    deserialize_message-serialize_message toy 9 announcement (1 ∷ 2 ∷ []) (omega arith)
      (omega arith, (record { type_range = omega arith; hash_size = refl }, tt)) (omega arith)
      (omega arith)

deserialize_message-partial_example :
    deserialize_message toy 9 (take 60 (serialize_message toy 9 announcement)) ≡ nothing 0
unfolding MessageFits as_read serialize_payload serialize_message serialize_inv write_item write_all
    write_compact_size write_varint write_hash256 write_uint8 write_uint32 write_bytes le_bytes
    serialize_header command_field get_type get_message_type_name
deserialize_message-partial_example =
    deserialize_message-partial toy 9 announcement 60 (omega arith) (omega arith) (omega arith)

-- Twelve characters, and no payload.
abbrev full_header : MessageHeader
full_header = record { magic = 9; command = replicate 12 97; payload_size = 0; checksum = 0 }

deserialize_message-overrun_example :
    deserialize_message toy 9 (serialize_header full_header [] ++ [] ++ []) ≡ overrun
unfolding MessageFits as_read serialize_payload serialize_message serialize_inv write_item write_all
    write_compact_size write_varint write_hash256 write_uint8 write_uint32 write_bytes le_bytes
    serialize_header command_field get_type get_message_type_name c_string header_valid
    calculate_checksum double_sha256 le_value
deserialize_message-overrun_example =
    deserialize_message-overrun toy 9 full_header [] []
      (record {
        magic_range = omega arith;
        command_size = refl;
        size_range = omega arith;
        checksum_range = omega arith;
      })
      refl refl refl refl (omega arith)
