-- ===== src/Util/Serialize.antt =====
-- src/util/serialize.h and serialize.cpp: the byte writer and the byte reader under every wire
-- format. A byte is a number below 256. A Serializer is its one field, the bytes written so far.
-- A read ends in a value, in the exception of CheckAvailable, or in undefined behaviour: positions
-- and sizes are size_t, so `pos + size` wraps before it is compared with the size of the data.
-- The host is little-endian, where htole32 and the like are the identity.
pub mod Laws
use dinari_blockchain_hub.Base.{
  ℕ, zero, suc, ◌+◌, ◌*◌, ◌/◌, ◌%◌, ◌^◌, Bool, true, false, List, [], ◌∷◌, ◌++◌, ltb, leb, ◌==◌,
  if◌then◌else◌, length, take, drop, not,
}

abbrev pub Bytes : Type 0
Bytes = List ℕ

abbrev pub size_mod : ℕ
size_mod = 2 ^ 64

-- The bytes of a w-byte integer in memory, and the integer that they stand for.
unfoldable pub le_bytes : ℕ → ℕ → Bytes
le_bytes zero v = []
le_bytes (suc w) v = (v % 256) ∷ le_bytes w (v / 256)

unfoldable pub le_value : Bytes → ℕ
le_value [] = 0
le_value (b ∷ bs) = b + 256 * le_value bs

abbrev pub Serializer : Type 0
Serializer = Bytes

unfoldable pub write_uint8 : ℕ → Serializer → Serializer
write_uint8 v s = s ++ (v % 256) ∷ []

unfoldable pub write_uint16 : ℕ → Serializer → Serializer
write_uint16 v s = s ++ le_bytes 2 v

unfoldable pub write_uint32 : ℕ → Serializer → Serializer
write_uint32 v s = s ++ le_bytes 4 v

unfoldable pub write_uint64 : ℕ → Serializer → Serializer
write_uint64 v s = s ++ le_bytes 8 v

unfoldable pub write_bool : Bool → Serializer → Serializer
write_bool v s = write_uint8 (if v then 1 else 0) s

unfoldable pub write_varint : ℕ → Serializer → Serializer
write_varint v s =
    if ltb v 0xfd
    then write_uint8 v s
    else if leb v 0xffff
    then write_uint16 v (write_uint8 0xfd s)
    else if leb v 0xffff_ffff
    then write_uint32 v (write_uint8 0xfe s)
    else write_uint64 v (write_uint8 0xff s)

unfoldable pub write_compact_size : ℕ → Serializer → Serializer
write_compact_size = write_varint

unfoldable pub write_bytes : Bytes → Serializer → Serializer
write_bytes v s = s ++ v

-- The text as its bytes.
unfoldable pub write_string : Bytes → Serializer → Serializer
write_string v s = write_compact_size (length v) s ++ v

unfoldable pub write_hash256 : Bytes → Serializer → Serializer
write_hash256 h s = s ++ h

unfoldable pub write_hash160 : Bytes → Serializer → Serializer
write_hash160 h s = s ++ h

-- How a read ends. `undefined` is a copy from beyond the end of the data.
pub data Outcome {ℓ} (A : Type ℓ) : Type ℓ where
  ok : A → Outcome A
  throws : Outcome A
  undefined : Outcome A

pub record Deserializer : Type 0 where
  pub buffer : Bytes
  pub pos : ℕ

abbrev pub Reader : Type 0 → Type 0
Reader A = Deserializer → Outcome (A × Deserializer)

abbrev pub pure : {A : Type 0} → A → Reader A
pure a d = ok (a, d)

infixl 5 ◌>>=◌ ◌>>◌
abbrev pub ◌>>=◌ : {A B : Type 0} → Reader A → (A → Reader B) → Reader B
◌>>=◌ m f d = elim (m d) [ ok (a, d') ↦ f a d' | throws ↦ throws | undefined ↦ undefined ]

abbrev pub ◌>>◌ : {A B : Type 0} → Reader A → Reader B → Reader B
m >> k = m >>= λ _. k

abbrev pub advance : ℕ → Deserializer → Deserializer
advance n d = record d { pos = d.pos + n }

unfoldable pub check_available : ℕ → Reader (Unit {0})
check_available size d =
    if ltb (length d.buffer) ((d.pos + size) % size_mod) then throws else ok (tt, d)

-- The copy out of [pos, pos + len) and the step of `pos`.
unfoldable pub copy_out : ℕ → Reader Bytes
copy_out len d =
    if leb (d.pos + len) (length d.buffer)
    then ok (take len (drop d.pos d.buffer), advance len d)
    else undefined

unfoldable pub skip : ℕ → Reader (Unit {0})
unfolding check_available
skip count = do check_available count; λ d. ok (tt, record d { pos = (d.pos + count) % size_mod })

unfoldable pub read_bytes : ℕ → Reader Bytes
read_bytes len = do check_available len; copy_out len

-- An integer of w bytes.
unfoldable pub read_int : ℕ → Reader ℕ
read_int w = do check_available w; bs ← copy_out w; pure (le_value bs)

unfoldable pub read_uint8 : Reader ℕ
unfolding read_int
read_uint8 = read_int 1

unfoldable pub read_uint16 : Reader ℕ
unfolding read_int
read_uint16 = read_int 2

unfoldable pub read_uint32 : Reader ℕ
unfolding read_int
read_uint32 = read_int 4

unfoldable pub read_uint64 : Reader ℕ
unfolding read_int
read_uint64 = read_int 8

unfoldable pub read_bool : Reader Bool
read_bool = do v ← read_uint8; pure (not (v == 0))

unfoldable pub read_varint : Reader ℕ
read_varint = do
  first ← read_uint8
  if ltb first 0xfd
      then pure first
      else if first == 0xfd
      then read_uint16
      else if first == 0xfe
      then read_uint32
      else read_uint64

unfoldable pub read_compact_size : Reader ℕ
read_compact_size = read_varint

unfoldable pub read_string : ℕ → Reader Bytes
read_string len = do check_available len; copy_out len

unfoldable pub read_hash256 : Reader Bytes
read_hash256 = do check_available 32; copy_out 32

unfoldable pub read_hash160 : Reader Bytes
read_hash160 = do check_available 20; copy_out 20

unfoldable pub read_remaining : Reader Bytes
read_remaining d = ok (drop d.pos d.buffer, record d { pos = length d.buffer })
