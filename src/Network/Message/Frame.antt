-- ===== src/Network/Message/Frame.antt =====
-- MessageSerializer of src/network/message.cpp: the frame around a payload.
use dinari_blockchain_hub.Base.{
  ℕ, ◌+◌, ◌-◌, ◌*◌, ◌%◌, ◌^◌, Bool, not, ◌&&◌, Option, none, some, [], ◌∷◌, ◌++◌, ltb, leb, ◌==◌,
  if◌then◌else◌, length, take, drop, replicate,
}
use dinari_blockchain_hub.Base.Eq.{nat_eq, list_eq}
use dinari_blockchain_hub.Base.Map.{lookup}
use dinari_blockchain_hub.Util.Serialize.{
  Bytes, Serializer, ok, throws, undefined, Reader, pure, ◌>>=◌, le_value, write_uint32,
  write_bytes, read_uint32, read_bytes,
}
use dinari_blockchain_hub.Crypto.Hash.{Primitives, double_sha256}
use dinari_blockchain_hub.Network.Message.Kinds.{
  NetMsgType, NetworkMessage, commands, deserialize_payload, get_message_type_name, get_type,
  serialize_payload,
}

abbrev pub max_message_size : ℕ
max_message_size = 32 * 1024 * 1024

pub record MessageHeader : Type 0 where
  pub magic : ℕ
  pub command : Bytes
  pub payload_size : ℕ
  pub checksum : ℕ

unfoldable pub header_valid : ℕ → MessageHeader → Bool
header_valid expected_magic h = h.magic == expected_magic && leb h.payload_size max_message_size

-- The first four bytes of the hash, as an integer of this machine.
unfoldable pub calculate_checksum : Primitives → Bytes → ℕ
calculate_checksum p payload = le_value (take 4 (double_sha256 p payload)) % 2 ^ 32

unfoldable pub serialize_header : MessageHeader → Serializer → Serializer
serialize_header h s =
    write_uint32 h.checksum
      (write_uint32 h.payload_size (write_bytes h.command (write_uint32 h.magic s)))

unfoldable pub deserialize_header : Reader MessageHeader
deserialize_header = do
  magic ← read_uint32
  command ← read_bytes 12
  payload_size ← read_uint32
  checksum ← read_uint32
  pure (record {
    magic = magic;
    command = command;
    payload_size = payload_size;
    checksum = checksum;
  })

-- strncpy of 11 characters into the 12, which fills up with zeros.
unfoldable pub command_field : Bytes → Bytes
command_field name = take 11 name ++ replicate (12 - length (take 11 name)) 0

unfoldable pub serialize_message : Primitives → ℕ → NetworkMessage → Bytes
unfolding serialize_payload get_type get_message_type_name calculate_checksum serialize_header
    command_field
serialize_message p magic m =
    let payload = serialize_payload m in
    serialize_header
      (record {
        magic = magic;
        command = command_field (get_message_type_name (get_type m));
        payload_size = length payload % 2 ^ 32;
        checksum = calculate_checksum p payload;
      })
      []
    ++ payload

-- The characters up to the first zero; none if there is no zero, where std::string reads on behind
-- the array.
unfoldable pub c_string : Bytes → Option Bytes
c_string [] = none
c_string (b ∷ bs) =
    let rest : Option Bytes = elim (c_string bs) [ none ↦ none | some s ↦ some (b ∷ s) ] in
    if b == 0 then some [] else rest

-- What DeserializeMessage gives: the message, or the null pointer, with the bytes consumed.
pub data Received : Type 0 where
  received : NetworkMessage → ℕ → Received
  nothing : ℕ → Received
  overrun : Received

unfoldable pub receive_payload : NetMsgType → Bytes → Received
unfolding deserialize_payload
receive_payload t payload = elim (deserialize_payload t (record { buffer = payload; pos = 0 })) [
  | ok (m, d) ↦ received m (24 + length payload)
  | throws ↦ nothing (24 + length payload)
  | undefined ↦ overrun
]

-- From the header on.
unfoldable pub receive_body : Primitives → ℕ → Bytes → MessageHeader → Received
unfolding header_valid calculate_checksum c_string commands receive_payload
receive_body p expected_magic bytes h =
    let payload = take h.payload_size (drop 24 bytes) in
    if not (header_valid expected_magic h)
    then nothing 0
    else if ltb (length bytes) (24 + h.payload_size)
    then nothing 0
    else if not (calculate_checksum p payload == h.checksum)
    then nothing 0
    else elim (c_string h.command) [
      | none ↦ overrun
      | some command ↦ elim (lookup command commands) [
        | none ↦ nothing (24 + h.payload_size)
        | some t ↦ receive_payload t payload
      ]
    ]

unfoldable pub deserialize_message : Primitives → ℕ → Bytes → Received
unfolding deserialize_header receive_body
deserialize_message p expected_magic bytes =
    let read : Received = elim (deserialize_header (record { buffer = bytes; pos = 0 })) [
      | ok (h, d) ↦ receive_body p expected_magic bytes h
      | throws ↦ nothing 0
      | undefined ↦ overrun
    ] in
    if ltb (length bytes) 24 then nothing 0 else read
