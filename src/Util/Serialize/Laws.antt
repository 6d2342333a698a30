-- ===== src/Util/Serialize/Laws.antt =====
-- What one write puts out, one read takes in again: the rules by which the round trips of the
-- wire formats are put together.
use native.Mathlib.Nat.{pow-suc, add-zero, mod-eq_of_lt}
use dinari_blockchain_hub.Base.{
  ℕ, zero, suc, ◌+◌, ◌*◌, ◌/◌, ◌%◌, ◌^◌, ◌≤◌, ◌<◌, ◌≡◌, refl, sym, ap, ◌∙◌, Bool, true, false, List,
  [], ◌∷◌, ◌++◌, append_assoc, append-nil, arith, ltb, leb, ◌==◌, if◌then◌else◌, inl, inr,
  Bool-cases, lt→ltb, length, take, drop, length-append, take-append, drop-append, drop-drop,
  length-drop,
}
use dinari_blockchain_hub.Util.Serialize.{
  Bytes, size_mod, le_bytes, le_value, Serializer, ok, Deserializer, Reader, pure, ◌>>=◌, ◌>>◌,
  advance, check_available, copy_out, read_bytes, read_int, read_uint8, read_uint16, read_uint32,
  read_uint64, read_varint, read_compact_size, read_hash256, write_varint, write_uint8,
  write_uint16, write_uint32, write_uint64, write_compact_size,
}

pub length-le_bytes : (w v : ℕ) → length (le_bytes w v) ≡ w
unfolding le_bytes
length-le_bytes zero v = refl
length-le_bytes (suc w) v = ap suc (length-le_bytes w (v / 256))

pub le_value-le_bytes : (w v : ℕ) → v < 256 ^ w → le_value (le_bytes w v) ≡ v
unfolding le_bytes le_value
le_value-le_bytes zero v h = omega arith
le_value-le_bytes (suc w) v h =
    omega (arith, le_value-le_bytes w (v / 256) (omega (arith, pow-suc 256 w)))

-- What is left to read. The data of a Deserializer fits its size_t positions.
abbrev pub Holds : Deserializer → Bytes → Type 0
Holds d xs = (length d.buffer < size_mod) × (d.pos ≤ length d.buffer) × (drop d.pos d.buffer ≡ xs)

-- `m` takes in exactly `xs` and yields `a`, whatever follows.
abbrev pub Reads : {A : Type 0} → Reader A → Bytes → A → Type 0
Reads m xs a =
    (d : Deserializer) (rest : Bytes) → Holds d (xs ++ rest) → m d ≡ ok (a, advance (length xs) d)

pub Holds-length :
    (d : Deserializer) (xs : Bytes) → Holds d xs → d.pos + length xs ≡ length d.buffer
Holds-length d xs h = omega (arith, ap length h.2, length-drop d.pos d.buffer)

pub Holds-advance :
    (d : Deserializer) (xs rest : Bytes) → Holds d (xs ++ rest) → Holds (advance (length xs) d) rest
Holds-advance d xs rest h = (
  h.0,
  omega (arith, Holds-length d (xs ++ rest) h, length-append xs rest),
  sym (drop-drop d.pos (length xs) d.buffer) ∙ ap (drop (length xs)) h.2 ∙ drop-append xs rest,
)

check_available-Holds :
    (n : ℕ) (d : Deserializer) (xs : Bytes)
    → Holds d xs
    → n ≤ length xs
    → check_available n d ≡ ok (tt, d)
unfolding check_available
check_available-Holds n d xs h le = ground (arith, Holds-length d xs h)

copy_out-Reads : (n : ℕ) (xs : Bytes) → length xs ≡ n → Reads (copy_out n) xs xs
unfolding copy_out
copy_out-Reads n xs e d rest h = rw (← e) (
    ground (
      arith,
      Holds-length d (xs ++ rest) h,
      length-append xs rest,
      ap (take (length xs)) h.2,
      take-append xs rest,
    ))

pub pure-Reads : {A : Type 0} (a : A) → Reads (pure a) [] a
pure-Reads a d rest h = ground (arith, add-zero d.pos)

pub >>=-Reads :
    {A B : Type 0} (m : Reader A) (f : A → Reader B) (xs ys : Bytes) (a : A) (b : B)
    → Reads m xs a
    → Reads (f a) ys b
    → Reads (m >>= f) (xs ++ ys) b
>>=-Reads m f xs ys a b rm rf d rest h =
    rw
      (
        rm d (ys ++ rest) whole,
        ◌>>=◌,
        rf (advance (length xs) d) rest (Holds-advance d xs (ys ++ rest) whole),
      )
      (ap (λ n. ok (b, record { buffer = d.buffer; pos = n })) (omega (arith, length-append xs ys)))
  where
    whole : Holds d (xs ++ (ys ++ rest))
    whole = (h.0, h.1, h.2 ∙ append_assoc xs ys rest)

pub >>-Reads :
    {A B : Type 0} (m : Reader A) (k : Reader B) (xs ys : Bytes) (a : A) (b : B)
    → Reads m xs a
    → Reads k ys b
    → Reads (m >> k) (xs ++ ys) b
>>-Reads m k xs ys a b rm rk = >>=-Reads m (λ _. k) xs ys a b rm rk

-- A last step that only turns the value over.
pub map-Reads :
    {A B : Type 0} (m : Reader A) (f : A → B) (xs : Bytes) (a : A)
    → Reads m xs a
    → Reads (m >>= λ x. pure (f x)) xs (f a)
map-Reads m f xs a rm d rest h = rw (rm d rest h, ◌>>=◌)

-- The two steps that most reads begin with.
guarded_copy-Reads :
    (n : ℕ) (xs : Bytes) → length xs ≡ n → Reads (check_available n >> copy_out n) xs xs
guarded_copy-Reads n xs e d rest h =
    rw (check_available-Holds n d (xs ++ rest) h (omega (arith, e, length-append xs rest)), ◌>>=◌)
      (copy_out-Reads n xs e d rest h)

pub read_bytes-Reads : (n : ℕ) (xs : Bytes) → length xs ≡ n → Reads (read_bytes n) xs xs
unfolding read_bytes
read_bytes-Reads = guarded_copy-Reads

pub read_hash256-Reads : (xs : Bytes) → length xs ≡ 32 → Reads read_hash256 xs xs
unfolding read_hash256
read_hash256-Reads = guarded_copy-Reads 32

read_int-Reads : (w v : ℕ) → v < 256 ^ w → Reads (read_int w) (le_bytes w v) v
unfolding read_int
read_int-Reads w v h d rest held = rw (
  guarded,
  ◌>>=◌,
  copy_out-Reads w bs (length-le_bytes w v) d rest held,
  ◌>>=◌,
  le_value-le_bytes w v h,
)
  where
    bs : Bytes
    bs = le_bytes w v

    guarded : check_available w d ≡ ok (tt, d)
    guarded =
        check_available-Holds w d (bs ++ rest) held
          (omega (arith, length-le_bytes w v, length-append bs rest))

pub read_uint8-Reads : (v : ℕ) → v < 256 → Reads read_uint8 (v ∷ []) v
unfolding read_uint8 le_bytes
read_uint8-Reads v h = rw (mod-eq_of_lt h) at (read_int-Reads 1 v h)

pub read_uint16-Reads : (v : ℕ) → v < 2 ^ 16 → Reads read_uint16 (le_bytes 2 v) v
unfolding read_uint16
read_uint16-Reads v h = read_int-Reads 2 v h

pub read_uint32-Reads : (v : ℕ) → v < 2 ^ 32 → Reads read_uint32 (le_bytes 4 v) v
unfolding read_uint32
read_uint32-Reads v h = read_int-Reads 4 v h

pub read_uint64-Reads : (v : ℕ) → v < 2 ^ 64 → Reads read_uint64 (le_bytes 8 v) v
unfolding read_uint64
read_uint64-Reads v h = read_int-Reads 8 v h

-- The encoding of a size on its own; a write only appends it.
unfoldable pub varint_bytes : ℕ → Bytes
varint_bytes v = write_varint v []

pub write_varint-append : (v : ℕ) (s : Serializer) → write_varint v s ≡ s ++ varint_bytes v
unfolding varint_bytes write_varint write_uint8 write_uint16 write_uint32 write_uint64
write_varint-append v s = ground (
  arith,
  append_assoc s (0xfd ∷ []) (le_bytes 2 v),
  append_assoc s (0xfe ∷ []) (le_bytes 4 v),
  append_assoc s (0xff ∷ []) (le_bytes 8 v),
)

pub write_compact_size-append :
    (v : ℕ) (s : Serializer) → write_compact_size v s ≡ s ++ varint_bytes v
unfolding write_compact_size
write_compact_size-append = write_varint-append

-- What read_varint does after its first byte.
abbrev varint_tail : ℕ → Reader ℕ
varint_tail first =
    if ltb first 0xfd
    then pure first
    else if first == 0xfd
    then read_uint16
    else if first == 0xfe
    then read_uint32
    else read_uint64

varint_tail-Reads : (v : ℕ) → v < 0xfd → Reads (varint_tail v) [] v
varint_tail-Reads v h = rw (lt→ltb v 0xfd h) (pure-Reads v)

below_byte : (v : ℕ) → ltb v 0xfd ≡ true → v < 256
below_byte v e = ground arith

-- Every 64-bit integer survives the variable-length encoding.
pub read_varint-Reads : (v : ℕ) → v < 2 ^ 64 → Reads read_varint (varint_bytes v) v
unfolding varint_bytes read_varint write_varint write_uint8 write_uint16 write_uint32 write_uint64
read_varint-Reads v h = elim (Bool-cases (ltb v 0xfd)) [
  | inl e ↦
      rw (e, mod-eq_of_lt (below_byte v e))
        (>>=-Reads read_uint8 varint_tail (v ∷ []) [] v v (read_uint8-Reads v (ground arith))
          (varint_tail-Reads v (ground arith)))
  | inr n ↦ elim (Bool-cases (leb v 0xffff)) [
    | inl e ↦
        rw (n, e)
          (>>=-Reads read_uint8 varint_tail (0xfd ∷ []) (le_bytes 2 v) 0xfd v
            (read_uint8-Reads 0xfd (omega arith)) (read_uint16-Reads v (ground arith)))
    | inr m ↦ elim (Bool-cases (leb v 0xffff_ffff)) [
      | inl e ↦
          rw (n, m, e)
            (>>=-Reads read_uint8 varint_tail (0xfe ∷ []) (le_bytes 4 v) 0xfe v
              (read_uint8-Reads 0xfe (omega arith)) (read_uint32-Reads v (ground arith)))
      | inr l ↦
          rw (n, m, l)
            (>>=-Reads read_uint8 varint_tail (0xff ∷ []) (le_bytes 8 v) 0xff v
              (read_uint8-Reads 0xff (omega arith)) (read_uint64-Reads v h))
    ]
  ]
]

pub read_compact_size-Reads : (v : ℕ) → v < 2 ^ 64 → Reads read_compact_size (varint_bytes v) v
unfolding read_compact_size
read_compact_size-Reads = read_varint-Reads

pub ruleset wire_laws = (write_compact_size-append, append_assoc, append-nil)
