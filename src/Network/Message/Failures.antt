-- ===== src/Network/Message/Failures.antt =====
-- What DeserializeMessage of src/network/message.cpp does with a frame that is not complete, and
-- with a command that fills its 12 characters.
use dinari_blockchain_hub.Base.{
  ℕ, zero, suc, ◌+◌, ◌-◌, ◌%◌, ◌^◌, ◌<◌, ◌≤◌, ◌≡◌, refl, sym, ◌∙◌, ap, true, false, none, [], ◌∷◌,
  ◌++◌, arith, length, length-append, ltb, ◌==◌, take, drop, take-append, drop-append, lt→ltb,
  le→ltb,
}
use native.Mathlib.Nat.{mod-eq_of_lt}
use dinari_blockchain_hub.Base.Eq.{nat_eq, list_eq}
use dinari_blockchain_hub.Util.Serialize.{Bytes, Deserializer, advance, size_mod}
use dinari_blockchain_hub.Crypto.Hash.{Primitives}
use dinari_blockchain_hub.Network.Message.Kinds.{NetworkMessage, serialize_payload}
use dinari_blockchain_hub.Network.Message.Frame.{
  MessageHeader, header_valid, calculate_checksum, serialize_header, serialize_message, c_string,
  nothing, overrun, receive_body, deserialize_message,
}
use dinari_blockchain_hub.Network.Message.Header.{
  frame_bytes, frame-eq, FrameFits, frame-Reads, frame-length,
}
use dinari_blockchain_hub.Network.Message.Roundtrip.{
  sent_header, sent-Fits, sent_bytes, deserialize_message-read, equal_self,
}
use dinari_blockchain_hub.Base.{Bool-cases, inl, inr}

receive_body-short :
    (p : Primitives) (magic : ℕ) (bytes : Bytes) (h : MessageHeader)
    → length bytes < 24 + h.payload_size
    → receive_body p magic bytes h ≡ nothing 0
unfolding receive_body
receive_body-short p magic bytes h short = elim (Bool-cases (header_valid magic h)) [
  | inl valid ↦ rw (valid, lt→ltb (length bytes) (24 + h.payload_size) short) refl
  | inr invalid ↦ rw invalid refl
]

deserialize_message-short :
    (p : Primitives) (magic : ℕ) (bytes : Bytes)
    → length bytes < 24
    → deserialize_message p magic bytes ≡ nothing 0
unfolding deserialize_message
deserialize_message-short p magic bytes short = rw (lt→ltb (length bytes) 24 short) refl

take-past : (xs ys : Bytes) (n k : ℕ) → n ≡ length xs + k → take n (xs ++ ys) ≡ xs ++ take k ys
take-past [] ys n k e = ap (λ j. take j ys) (omega (arith, e))
take-past (x ∷ xs) ys zero k e = absurd (omega (arith, e))
take-past (x ∷ xs) ys (suc n) k e = ap (◌∷◌ x) (take-past xs ys n k (omega (arith, e)))

length-take : (n : ℕ) (xs : Bytes) → length (take n xs) ≤ n
length-take zero xs = omega arith
length-take (suc n) [] = omega arith
length-take (suc n) (x ∷ xs) = omega (arith, length-take n xs)

-- For a magic number of 32 bits and a payload of fewer than 2^32 bytes: on the first n bytes of
-- what SerializeMessage wrote, for every n below the length of the whole, DeserializeMessage gives
-- no message and consumes nothing.
pub deserialize_message-partial :
    (p : Primitives) (magic : ℕ) (m : NetworkMessage) (n : ℕ)
    → magic < 2 ^ 32
    → length (serialize_payload m) < 2 ^ 32
    → n < 24 + length (serialize_payload m)
    → deserialize_message p magic (take n (serialize_message p magic m)) ≡ nothing 0
deserialize_message-partial p magic m n range limit short =
    let h = sent_header p magic m in
    let payload = serialize_payload m in
    let fits = sent-Fits p magic m range in
    let bytes = take n (serialize_message p magic m) in
    let come : length bytes ≤ n = length-take n (serialize_message p magic m) in
    let d : Deserializer = record { buffer = bytes; pos = 0 } in
    let frame : length (frame_bytes h) ≡ 24 = frame-length h fits.command_size in
    elim (Bool-cases (ltb n 24)) [
      | inl few ↦ deserialize_message-short p magic bytes (ground (arith, few, come))
      | inr more ↦
          let past : 24 ≤ n = ground (arith, more) in
          let split : bytes ≡ frame_bytes h ++ take (n - 24) payload =
            ap (take n) (sent_bytes p magic m)
            ∙ take-past (frame_bytes h) payload n (n - 24) (omega (arith, frame, past)) in
          let size : length payload % 2 ^ 32 ≡ length payload =
            mod-eq_of_lt (omega (arith, limit)) in
          deserialize_message-read p magic bytes h (advance (length (frame_bytes h)) d)
            (omega (
              arith,
              ap length split,
              frame,
              length-append (frame_bytes h) (take (n - 24) payload),
            ))
            (frame-Reads h fits d (take (n - 24) payload)
              (omega (arith, come, short, limit), omega arith, split))
          ∙ receive_body-short p magic bytes h (omega (arith, size, come, short))
    ]

receive_body-overrun :
    (p : Primitives) (magic : ℕ) (bytes : Bytes) (h : MessageHeader)
    → header_valid magic h ≡ true
    → ltb (length bytes) (24 + h.payload_size) ≡ false
    → (calculate_checksum p (take h.payload_size (drop 24 bytes)) == h.checksum) ≡ true
    → c_string h.command ≡ none
    → receive_body p magic bytes h ≡ overrun
unfolding receive_body
receive_body-overrun p magic bytes h valid whole same unended =
    rw (valid, whole, same, unended) refl

-- A header that is valid, fits its fields and has the size and the checksum of the payload behind
-- it, but whose command holds no zero in its 12 characters, makes DeserializeMessage read on
-- behind the array of the command, in a buffer of fewer than 2^64 bytes.
pub deserialize_message-overrun :
    (p : Primitives) (magic : ℕ) (h : MessageHeader) (payload rest : Bytes)
    → FrameFits h
    → header_valid magic h ≡ true
    → h.payload_size ≡ length payload
    → h.checksum ≡ calculate_checksum p payload
    → c_string h.command ≡ none
    → length (serialize_header h [] ++ (payload ++ rest)) < size_mod
    → deserialize_message p magic (serialize_header h [] ++ (payload ++ rest)) ≡ overrun
deserialize_message-overrun p magic h payload rest fits valid size sum unended small =
    let bytes = serialize_header h [] ++ (payload ++ rest) in
    let split : bytes ≡ frame_bytes h ++ (payload ++ rest) =
      ap (λ b. b ++ (payload ++ rest)) (frame-eq h) in
    let frame : length (frame_bytes h) ≡ 24 = frame-length h fits.command_size in
    let d : Deserializer = record { buffer = bytes; pos = 0 } in
    let enough : 24 + length payload ≤ length bytes = omega (
      arith,
      frame,
      ap length split,
      length-append (frame_bytes h) (payload ++ rest),
      length-append payload rest,
    ) in
    let left : drop 24 bytes ≡ payload ++ rest =
      ap (λ n. drop n bytes) (sym frame)
      ∙ ap (drop (length (frame_bytes h))) split
      ∙ drop-append (frame_bytes h) (payload ++ rest) in
    deserialize_message-read p magic bytes h (advance (length (frame_bytes h)) d) (omega arith)
      (frame-Reads h fits d (payload ++ rest) (small, omega arith, split))
    ∙ receive_body-overrun p magic bytes h valid
        (le→ltb (length bytes) (24 + h.payload_size) (omega (arith, size, enough)))
        (rw (left, size, take-append payload rest, sum) (equal_self (calculate_checksum p payload)))
        unended
