-- ===== src/Network/Message/Version.antt =====
-- The version and the reject message of src/network/message.cpp, whose last member may be left out.
use dinari_blockchain_hub.Base.{
  ℕ, ◌%◌, ◌^◌, ◌<◌, ◌≡◌, refl, sym, ◌∙◌, ap, Bool, true, false, not, [], ◌∷◌, ◌++◌, append-nil,
  arith, length, ltb, ◌==◌, if◌then◌else◌, lt→ltb, le→ltb, take,
}
use native.Mathlib.Nat.{mod-eq_of_lt}
use dinari_blockchain_hub.Util.Serialize.{
  Bytes, Reader, Deserializer, ok, pure, ◌>>=◌, advance, le_bytes, write_uint8, write_uint16,
  write_uint32, write_uint64, write_bytes, write_string, read_uint8, read_uint16, read_uint32,
  read_uint64, read_compact_size, read_bytes, read_string,
}
use dinari_blockchain_hub.Util.Serialize.Laws.{
  Reads, Holds, Holds-length, Holds-advance, varint_bytes, wire_laws, >>=-Reads, map-Reads,
  read_uint8-Reads, read_uint16-Reads, read_uint32-Reads, read_uint64-Reads,
  read_compact_size-Reads, read_bytes-Reads,
}
use dinari_blockchain_hub.Network.Message.{
  NetworkAddress, VersionMessage, RejectMessage, read_peer, serialize_version, deserialize_version,
  available, read_relay, serialize_reject, read_extra, deserialize_reject,
}
use dinari_blockchain_hub.Network.Message.Payload.{AddressFits, same-Reads}

pub record VersionFits (v : VersionMessage) : Type 0 where
  pub version_range : v.version < 2 ^ 32
  pub services_range : v.services < 2 ^ 64
  pub time_range : v.timestamp < 2 ^ 64
  pub recv_fits : AddressFits v.addr_recv
  pub from_fits : AddressFits v.addr_from
  pub recv_time : v.addr_recv.timestamp ≡ 0
  pub from_time : v.addr_from.timestamp ≡ 0
  pub nonce_range : v.nonce < 2 ^ 64
  pub agent_size : length v.user_agent < 2 ^ 64
  pub height_range : v.start_height < 2 ^ 32

peer_bytes : NetworkAddress → Bytes
peer_bytes a = le_bytes 8 a.services ++ (a.ip ++ le_bytes 2 a.port)

peer-Reads :
    (a : NetworkAddress) → AddressFits a → a.timestamp ≡ 0 → Reads read_peer (peer_bytes a) a
unfolding read_peer peer_bytes
peer-Reads a f zero_time =
    let port = le_bytes 2 a.port in
    same-Reads read_peer _ (record a { timestamp = 0 }) a
      (ap (λ t. record a { timestamp = t }) (sym zero_time))
      (>>=-Reads read_uint64 _ (le_bytes 8 a.services) (a.ip ++ port) a.services
        (record a { timestamp = 0 }) (read_uint64-Reads a.services f.services_range)
        (>>=-Reads (read_bytes 16) _ a.ip port a.ip (record a { timestamp = 0 })
          (read_bytes-Reads 16 a.ip f.ip_size)
          (map-Reads read_uint16 _ port a.port (read_uint16-Reads a.port f.port_range))))

abbrev flag : Bool → ℕ
flag b = if b then 1 else 0

flag_small : (b : Bool) → flag b < 256
flag_small true = omega arith
flag_small false = omega arith

flag_mod : (b : Bool) → flag b % 256 ≡ flag b
flag_mod true = refl
flag_mod false = refl

flag_back : (b : Bool) → not (flag b == 0) ≡ b
flag_back true = refl
flag_back false = refl

flag-Reads : (b : Bool) → Reads (read_uint8 >>= λ v. pure (not (v == 0))) (flag b ∷ []) b
flag-Reads b =
    same-Reads (read_uint8 >>= λ v. pure (not (v == 0))) (flag b ∷ []) (not (flag b == 0)) b
      (flag_back b)
      (map-Reads read_uint8 (λ v. not (v == 0)) (flag b ∷ []) (flag b)
        (read_uint8-Reads (flag b) (flag_small b)))

-- The flag at the end is there, so it is read.
relay-Reads :
    {A : Type 0} (f : Bool → A) (b : Bool)
    → Reads (available >>= λ left. read_relay left >>= λ r. pure (f r)) (flag b ∷ []) (f b)
unfolding available read_relay
relay-Reads f b d rest h =
    let left : ltb d.pos (length d.buffer) ≡ true =
      lt→ltb d.pos (length d.buffer) (omega (arith, Holds-length d (flag b ∷ rest) h)) in
    rw left (
      map-Reads (read_uint8 >>= λ v. pure (not (v == 0))) f (flag b ∷ []) b (flag-Reads b) d rest h)

version_bytes : VersionMessage → Bytes
version_bytes v =
    le_bytes 4 v.version
    ++ (le_bytes 8 v.services
        ++ (le_bytes 8 v.timestamp
            ++ (peer_bytes v.addr_recv
                ++ (peer_bytes v.addr_from
                    ++ (le_bytes 8 v.nonce
                        ++ (varint_bytes (length v.user_agent)
                            ++ (v.user_agent
                                ++ (le_bytes 4 v.start_height ++ flag v.relay ∷ []))))))))

version-eq : (v : VersionMessage) → serialize_version v [] ≡ version_bytes v
unfolding serialize_version version_bytes write_uint64 write_uint32 write_uint8 write_string
    write_uint16 le_bytes write_bytes peer_bytes
version-eq v = simp (flag_mod, wire_laws)

pub read_string-Reads : (xs : Bytes) → Reads (read_string (length xs)) xs xs
unfolding read_string read_bytes
read_string-Reads xs = read_bytes-Reads (length xs) xs refl

pub version-Reads :
    (v : VersionMessage) → VersionFits v → Reads deserialize_version (serialize_version v []) v
unfolding deserialize_version version_bytes
version-Reads v f =
    let tail = le_bytes 4 v.start_height ++ flag v.relay ∷ [] in
    let agent = varint_bytes (length v.user_agent) ++ (v.user_agent ++ tail) in
    let nonce = le_bytes 8 v.nonce ++ agent in
    let from = peer_bytes v.addr_from ++ nonce in
    let recv = peer_bytes v.addr_recv ++ from in
    rw (version-eq v) (
      >>=-Reads read_uint32 _ (le_bytes 4 v.version)
        (le_bytes 8 v.services ++ (le_bytes 8 v.timestamp ++ recv)) v.version v
        (read_uint32-Reads v.version f.version_range)
        (>>=-Reads read_uint64 _ (le_bytes 8 v.services) (le_bytes 8 v.timestamp ++ recv) v.services
          v (read_uint64-Reads v.services f.services_range)
          (>>=-Reads read_uint64 _ (le_bytes 8 v.timestamp) recv v.timestamp v
            (read_uint64-Reads v.timestamp f.time_range)
            (>>=-Reads read_peer _ (peer_bytes v.addr_recv) from v.addr_recv v
              (peer-Reads v.addr_recv f.recv_fits f.recv_time)
              (>>=-Reads read_peer _ (peer_bytes v.addr_from) nonce v.addr_from v
                (peer-Reads v.addr_from f.from_fits f.from_time)
                (>>=-Reads read_uint64 _ (le_bytes 8 v.nonce) agent v.nonce v
                  (read_uint64-Reads v.nonce f.nonce_range)
                  (>>=-Reads read_compact_size _ (varint_bytes (length v.user_agent))
                    (v.user_agent ++ tail) (length v.user_agent) v
                    (read_compact_size-Reads (length v.user_agent) f.agent_size)
                    (>>=-Reads (read_string (length v.user_agent)) _ v.user_agent tail v.user_agent
                      v (read_string-Reads v.user_agent)
                      (>>=-Reads read_uint32 _ (le_bytes 4 v.start_height) (flag v.relay ∷ [])
                        v.start_height v (read_uint32-Reads v.start_height f.height_range)
                        (relay-Reads (λ r. record v { relay = r }) v.relay))))))))))

pub record RejectFits (r : RejectMessage) : Type 0 where
  pub message_size : length r.message < 2 ^ 64
  pub code_range : r.code < 256
  pub reason_size : length r.reason < 2 ^ 64

-- A reader that gives `a` where `xs` is all that is left, whatever of it it takes in.
abbrev pub Ends : {A : Type 0} → Reader A → Bytes → A → Type 0
Ends m xs a = (d : Deserializer) → Holds d xs → (e : Deserializer) × (m d ≡ ok (a, e))

pub Reads-Ends : {A : Type 0} (m : Reader A) (xs : Bytes) (a : A) → Reads m xs a → Ends m xs a
Reads-Ends m xs a r d h = (advance (length xs) d, r d [] (h.0, h.1, h.2 ∙ sym (append-nil xs)))

>>=-Ends :
    {A B : Type 0} (m : Reader A) (f : A → Reader B) (xs ys : Bytes) (a : A) (b : B)
    → Reads m xs a
    → Ends (f a) ys b
    → Ends (m >>= f) (xs ++ ys) b
>>=-Ends m f xs ys a b r e d h =
    let (last, run) = e (advance (length xs) d) (Holds-advance d xs ys h) in
    (last, rw (r d ys h, ◌>>=◌, run) refl)

-- Of the bytes at the end, the first one at most.
extra-Ends :
    {A : Type 0} (f : Bytes → A) (xs : Bytes)
    → Ends (available >>= λ left. read_extra left >>= λ e. pure (f e)) xs (f (take 1 xs))
unfolding available read_extra
extra-Ends f [] d h =
    (d, rw (le→ltb d.pos (length d.buffer) (omega (arith, Holds-length d [] h))) refl)
extra-Ends f (x ∷ xs) d h =
    let left : ltb d.pos (length d.buffer) ≡ true =
      lt→ltb d.pos (length d.buffer) (omega (arith, Holds-length d (x ∷ xs) h)) in
    let one : Reads (read_bytes 1 >>= λ e. pure (f e)) (x ∷ []) (f (x ∷ [])) =
      map-Reads (read_bytes 1) f (x ∷ []) (x ∷ []) (read_bytes-Reads 1 (x ∷ []) refl) in
    (advance 1 d, rw left (one d xs h))

reject_bytes : RejectMessage → Bytes
reject_bytes r =
    varint_bytes (length r.message)
    ++ (r.message ++ (r.code ∷ [] ++ (varint_bytes (length r.reason) ++ (r.reason ++ r.extra))))

reject-eq : (r : RejectMessage) → r.code < 256 → serialize_reject r [] ≡ reject_bytes r
unfolding serialize_reject reject_bytes write_uint8 write_string write_bytes
reject-eq r small = simp (mod-eq_of_lt small, wire_laws)

-- Available is a truth value, and so the length to read is 1.
abbrev pub first_extra : RejectMessage → RejectMessage
first_extra r = record r { extra = take 1 r.extra }

pub reject-Ends :
    (r : RejectMessage)
    → RejectFits r
    → Ends deserialize_reject (serialize_reject r []) (first_extra r)
unfolding deserialize_reject reject_bytes
reject-Ends r f =
    let n = length r.message in
    let m = length r.reason in
    let last = first_extra r in
    let reason = varint_bytes m ++ (r.reason ++ r.extra) in
    rw (reject-eq r f.code_range) (
      >>=-Ends read_compact_size _ (varint_bytes n) (r.message ++ (r.code ∷ [] ++ reason)) n last
        (read_compact_size-Reads n f.message_size)
        (>>=-Ends (read_string n) _ r.message (r.code ∷ [] ++ reason) r.message last
          (read_string-Reads r.message)
          (>>=-Ends read_uint8 _ (r.code ∷ []) reason r.code last
            (read_uint8-Reads r.code f.code_range)
            (>>=-Ends read_compact_size _ (varint_bytes m) (r.reason ++ r.extra) m last
              (read_compact_size-Reads m f.reason_size)
              (>>=-Ends (read_string m) _ r.reason r.extra r.reason last
                (read_string-Reads r.reason) (extra-Ends (λ e. record r { extra = e }) r.extra))))))
