-- ===== src/Core/Script.antt =====
-- src/core/script.h and script.cpp: the script templates and the interpreter. The stack is a list,
-- its top first; a failing step ends the run, with the error that the engine records. The loop
-- over the script runs on fuel, one unit for each byte; Script/Steps shows that this is enough.
-- OpAdd, OpSub, OpEqual and BytesToInt are called by nothing, and are left out.
pub mod Steps
pub mod Templates
pub mod Spending
use dinari_blockchain_hub.Base.{
  ℕ, zero, suc, ◌+◌, ◌-◌, ◌/◌, ◌%◌, Bool, true, false, not, ◌&&◌, ◌||◌, Option, none, some, List,
  [], ◌∷◌, ◌++◌, ltb, leb, ◌==◌, if◌then◌else◌, length, take, drop,
}
use dinari_blockchain_hub.Base.Eq.{list_beq, nat_eq}
use dinari_blockchain_hub.Util.Serialize.{Bytes}
use dinari_blockchain_hub.Crypto.Hash.{Primitives, compute_hash160}
use dinari_blockchain_hub.Core.OutPoint.{all_zero}
use dinari_blockchain_hub.Core.Transaction.{Transaction, get_signature_hash}
use dinari_blockchain_hub.Core.Utxo.{byte_at, slice}

-- OpCode
abbrev pub op_pushdata1 : ℕ
op_pushdata1 = 0x4c

abbrev pub op_1 : ℕ
op_1 = 0x51

abbrev pub op_nop : ℕ
op_nop = 0x61

abbrev pub op_verify : ℕ
op_verify = 0x69

abbrev pub op_return : ℕ
op_return = 0x6a

abbrev pub op_drop : ℕ
op_drop = 0x75

abbrev pub op_dup : ℕ
op_dup = 0x76

abbrev pub op_equal : ℕ
op_equal = 0x87

abbrev pub op_equalverify : ℕ
op_equalverify = 0x88

abbrev pub op_sha256 : ℕ
op_sha256 = 0xa8

abbrev pub op_hash160 : ℕ
op_hash160 = 0xa9

abbrev pub op_checksig : ℕ
op_checksig = 0xac

abbrev pub op_checksigverify : ℕ
op_checksigverify = 0xad

abbrev pub op_checkmultisig : ℕ
op_checkmultisig = 0xae

pub data ScriptType : Type 0 where
  unknown p2pkh p2sh p2pk multisig null_data : ScriptType
  witness_v0_keyhash witness_v0_scripthash : ScriptType

unfoldable pub get_type : Bytes → ScriptType
get_type code =
    if length code == 0
    then unknown
    else if length code == 25
        && byte_at 0 code == op_dup
        && byte_at 1 code == op_hash160
        && byte_at 2 code == 20
        && byte_at 23 code == op_equalverify
        && byte_at 24 code == op_checksig
    then p2pkh
    else if length code == 23
        && byte_at 0 code == op_hash160
        && byte_at 1 code == 20
        && byte_at 22 code == op_equal
    then p2sh
    else if (length code == 35 || length code == 67)
        && byte_at (length code - 1) code == op_checksig
    then p2pk
    else if ltb 1 (length code) && byte_at 0 code == op_return
    then null_data
    else unknown

unfoldable pub is_standard : Bytes → Bool
is_standard code = elim (get_type code) [
  | p2pkh ↦ true
  | p2sh ↦ true
  | p2pk ↦ true
  | multisig ↦ true
  | null_data ↦ true
  | _ ↦ false
]

unfoldable pub extract_destination : Bytes → Option Bytes
extract_destination code = elim (get_type code) [
  | p2pkh ↦ some (slice 3 23 code)
  | p2sh ↦ some (slice 2 22 code)
  | _ ↦ none
]

unfoldable pub create_p2pkh : Bytes → Bytes
create_p2pkh pubkey_hash =
    op_dup ∷ op_hash160 ∷ 20 ∷ (pubkey_hash ++ op_equalverify ∷ op_checksig ∷ [])

unfoldable pub create_p2sh : Bytes → Bytes
create_p2sh script_hash = op_hash160 ∷ 20 ∷ (script_hash ++ op_equal ∷ [])

unfoldable pub create_p2pk : Bytes → Bytes
create_p2pk pubkey = (length pubkey % 256) ∷ (pubkey ++ op_checksig ∷ [])

unfoldable pub push_keys : List Bytes → Bytes
push_keys [] = []
push_keys (key ∷ keys) = (length key % 256) ∷ (key ++ push_keys keys)

-- The required number is an int of at least 1.
unfoldable pub create_multisig : ℕ → List Bytes → Bytes
unfolding push_keys
create_multisig required keys =
    ((op_1 + required - 1) % 256)
    ∷ (push_keys keys ++ ((op_1 + length keys + 256 - 1) % 256) ∷ op_checkmultisig ∷ [])

unfoldable pub create_null_data : Bytes → Bytes
create_null_data payload =
    if ltb (length payload) 76
    then op_return ∷ (length payload % 256) ∷ payload
    else op_return ∷ op_pushdata1 ∷ (length payload % 256) ∷ payload

-- What lastError says.
pub data ScriptError : Type 0 where
  stack_underflow stack_empty stack_size empty_signature equalverify_failed verify_failed :
      ScriptError
  return_executed push_too_long empty_at_end false_at_end : ScriptError
  unknown_opcode : ℕ → ScriptError
  out_of_fuel : ScriptError

pub data Run {ℓ} (A : Type ℓ) : Type ℓ where
  ok : A → Run A
  fail : ScriptError → Run A

infixl 5 ◌>>=◌
abbrev pub ◌>>=◌ {ℓ κ} : {A : Type ℓ} {B : Type κ} → Run A → (A → Run B) → Run B
ok a >>= f = f a
fail e >>= f = fail e

abbrev pub Stack : Type 0
Stack = List Bytes

abbrev pub pop_stack : Stack → Run (Bytes × Stack)
pop_stack [] = fail stack_underflow
pop_stack (v ∷ s) = ok (v, s)

abbrev pub peek_stack : Stack → Run Bytes
peek_stack [] = fail stack_empty
peek_stack (v ∷ s) = ok v

-- Empty or all zeros is false.
abbrev pub stack_bool : Bytes → Bool
stack_bool [] = false
stack_bool (b ∷ bs) = not (all_zero (b ∷ bs))

-- IntToBytes at the answers of a test, 1 and 0.
abbrev pub bool_bytes : Bool → Bytes
bool_bytes true = 1 ∷ []
bool_bytes false = []

-- Whether `prefix` stands at the front.
unfoldable pub matches_at : Bytes → Bytes → Bool
matches_at [] s = true
matches_at (d ∷ ds) [] = false
matches_at (d ∷ ds) (b ∷ s) = d == b && matches_at ds s

-- The loop of FindAndDelete over the rest of the script.
unfoldable pub delete_matches : ℕ → Bytes → Bytes → Bytes
unfolding matches_at
delete_matches zero pattern s = []
delete_matches (suc fuel) pattern [] = []
delete_matches (suc fuel) pattern (b ∷ s) =
    let skipped = delete_matches fuel pattern (drop (length pattern) (b ∷ s)) in
    let kept = b ∷ delete_matches fuel pattern s in
    if matches_at pattern (b ∷ s) then skipped else kept

unfoldable pub find_and_delete : Bytes → Bytes → Bytes
unfolding delete_matches
find_and_delete script pattern =
    if length pattern == 0 || ltb (length script) (length pattern)
    then script
    else delete_matches (length script) pattern script

-- The signature as a push, as it would stand in a script.
unfoldable pub signature_push : Bytes → Bytes
signature_push signature =
    let n = length signature in
    if ltb n 76
    then n ∷ signature
    else if leb n 0xff
    then op_pushdata1 ∷ n ∷ signature
    else if leb n 0xffff
    then 0x4d ∷ (n % 256) ∷ (n / 256) ∷ signature
    else signature

-- signature.back(), and the signature without it.
abbrev pub last_byte : Bytes → ℕ
last_byte [] = 0
last_byte (b ∷ []) = b
last_byte (b ∷ c ∷ bs) = last_byte (c ∷ bs)

abbrev pub without_last : Bytes → Bytes
without_last [] = []
without_last (b ∷ []) = []
without_last (b ∷ c ∷ bs) = b ∷ without_last (c ∷ bs)

-- The answer of OpCheckSig on a signature that is not empty.
unfoldable pub signature_valid : Primitives → Bytes → Transaction → ℕ → Bytes → Bytes → Bool
signature_valid p script_code tx input_index signature pubkey =
    let script_for_hash = find_and_delete script_code (signature_push signature) in
    p.ecdsa_verify (get_signature_hash p input_index script_for_hash (last_byte signature) tx)
      (without_last signature) pubkey

unfoldable pub op_check_sig : Primitives → Bytes → Transaction → ℕ → Stack → Run Stack
unfolding signature_valid
op_check_sig p script_code tx input_index [] = fail stack_size
op_check_sig p script_code tx input_index (pubkey ∷ []) = fail stack_size
op_check_sig p script_code tx input_index (pubkey ∷ signature ∷ s) =
    if length signature == 0
    then fail empty_signature
    else ok (bool_bytes (signature_valid p script_code tx input_index signature pubkey) ∷ s)

unfoldable pub op_equal_case : ℕ → Stack → Run Stack
op_equal_case op s = do
  (b, s) ← pop_stack s
  (a, s) ← pop_stack s
  if op == op_equal
      then ok (bool_bytes (list_beq a b) ∷ s)
      else if list_beq a b
      then ok s
      else fail equalverify_failed

unfoldable pub execute_opcode : Primitives → Bytes → Transaction → ℕ → ℕ → Stack → Run Stack
unfolding op_check_sig op_equal_case compute_hash160
execute_opcode p script_code tx input_index op s =
    if op == 0
    then ok ([] ∷ s)
    else if op == op_1
    then ok (bool_bytes true ∷ s)
    else if op == op_dup
    then peek_stack s >>= (λ v. ok (v ∷ s))
    else if op == op_hash160
    then pop_stack s >>= (λ r. ok (compute_hash160 p r.0 ∷ r.1))
    else if op == op_sha256
    then pop_stack s >>= (λ r. ok (p.sha256 r.0 ∷ r.1))
    else if op == op_equal || op == op_equalverify
    then op_equal_case op s
    else if op == op_checksig || op == op_checksigverify
    then op_check_sig p script_code tx input_index s
    else if op == op_verify
    then pop_stack s >>= (λ r. if stack_bool r.0 then ok r.1 else fail verify_failed)
    else if op == op_return
    then fail return_executed
    else if op == op_drop
    then pop_stack s >>= (λ r. ok r.1)
    else if op == op_nop
    then ok s
    else fail (unknown_opcode op)

-- The loop of ExecuteScript on the bytes from `pc` on.
unfoldable pub run : Primitives → Bytes → Transaction → ℕ → ℕ → Bytes → Stack → Run Stack
run p code tx input_index fuel [] s = ok s
run p code tx input_index zero (op ∷ rest) s = fail out_of_fuel
run p code tx input_index (suc fuel) (op ∷ rest) s =
    let pushed = run p code tx input_index fuel (drop op rest) (take op rest ∷ s) in
    let executed =
      execute_opcode p code tx input_index op s >>= run p code tx input_index fuel rest in
    if leb 1 op && leb op 75
    then (if ltb (length rest) op then fail push_too_long else pushed)
    else executed

-- `code` is the script that OP_CHECKSIG hashes, empty where the source has a null pointer.
unfoldable pub execute_script : Primitives → Bytes → Transaction → ℕ → Bytes → Stack → Run Stack
unfolding run
execute_script p code tx input_index script s = run p code tx input_index (length script) script s

-- The end of Verify, on the stack that the scripts leave.
abbrev pub top_is_true : Stack → Run (Unit {0})
top_is_true [] = fail empty_at_end
top_is_true (top ∷ s) = if stack_bool top then ok tt else fail false_at_end

unfoldable pub verify : Primitives → Bytes → Bytes → Transaction → ℕ → Run (Unit {0})
unfolding execute_script
verify p script_sig script_pub_key tx input_index =
    execute_script p [] tx input_index script_sig []
    >>= execute_script p script_pub_key tx input_index script_pub_key
    >>= top_is_true
