-- ===== src/Consensus/Validation/Issuance.antt =====
-- How much money a block that ValidateBlock lets through may make (src/consensus/validation.cpp).
use native.Mathlib.Nat.{mod-eq_of_lt}
use dinari_blockchain_hub.Base.{
  ℕ, ◌+◌, ◌≤◌, ◌<◌, ◌≡◌, ◌↔◌, refl, sym, ap, ◌∙◌, true, false, not, Option, none, some, List, [],
  ◌∷◌, if◌then◌else◌, arith, All,
}
use dinari_blockchain_hub.Crypto.Hash.{Primitives}
use dinari_blockchain_hub.Core.Amount.{amount_mod, max_money, money_range}
use dinari_blockchain_hub.Core.Transaction
use dinari_blockchain_hub.Core.Transaction.{Transaction, is_coinbase, is_final, get_output_value}
use dinari_blockchain_hub.Core.Utxo.{UtxoSet}
use dinari_blockchain_hub.Blockchain.Block.{Block, get_total_fees, check_merkle_root}
use dinari_blockchain_hub.Consensus.Validation.{
  BlockIndex, ValidationResult, ◌then_check◌, validate_block, validate_coinbase,
  validate_transaction, validate_transactions, validate_money_supply, validate_contents,
  quick_block_check, validate_block_header, validate_block_size, validate_block_sig_ops,
  first_not_coinbase, bad_merkle_root, not_final, multiple_coinbase, previous_supply, minted,
}

-- What the loop asks of each transaction after the coinbase.
abbrev pub Admitted : Primitives → ℕ → ℕ → UtxoSet → Transaction → Type 0
Admitted p height time u tx =
    (is_coinbase tx ≡ false)
    × (validate_transaction p tx height u true ≡ none)
    × (is_final height time tx ≡ true)

then_check-none : (r s : ValidationResult) → ((r then_check s) ≡ none) ↔ ((r ≡ none) × (s ≡ none))
then_check-none none s = (λ e. (refl, e), λ h. h.1)
then_check-none (some x) s = (λ e. absurd (cc e), λ h. absurd (cc (h.0)))

-- A chain of checks passes only where the rest of it does.
rest_passes : (r s : ValidationResult) → (r then_check s) ≡ none → s ≡ none
rest_passes r s e = ((then_check-none r s).0 e).1

-- The last of five checks.
validate_block-contents :
    (quick header size sig_ops contents : ValidationResult)
    → (quick then_check header then_check size then_check sig_ops then_check contents) ≡ none
    → contents ≡ none
validate_block-contents quick header size sig_ops contents e = rest_passes sig_ops contents (
    rest_passes size (sig_ops then_check contents) (
      rest_passes header (size then_check sig_ops then_check contents)
        (rest_passes quick (header then_check size then_check sig_ops then_check contents) e)))

pub validate_transactions_iff :
    (p : Primitives) (height time : ℕ) (u : UtxoSet) (txs : List Transaction)
    → (validate_transactions p height time u txs ≡ none) ↔ All (Admitted p height time u) txs
unfolding validate_transactions
validate_transactions_iff p height time u [] = (λ _. tt, λ _. refl)
validate_transactions_iff p height time u (tx ∷ txs) =
    let later = validate_transactions p height time u txs in
    let final : ValidationResult = if not (is_final height time tx) then some not_final else none in
    let valid = validate_transaction p tx height u true in
    let first : ValidationResult = if is_coinbase tx then some multiple_coinbase else none in
    ground (
      arith,
      then_check-none first (valid then_check final then_check later),
      then_check-none valid (final then_check later),
      then_check-none final later,
      validate_transactions_iff p height time u txs,
    )

-- What the checks on the transactions ask of the money.
validate_coinbase_sound :
    (tx : Transaction) (reward fees : ℕ)
    → reward + fees < amount_mod
    → validate_coinbase tx reward fees ≡ none
    → get_output_value tx ≤ reward + fees
unfolding validate_coinbase
validate_coinbase_sound tx reward fees small e =
    ground (arith, mod-eq_of_lt {n = reward + fees} {m = amount_mod})

validate_money_supply_sound :
    (supply new : ℕ) → validate_money_supply supply new ≡ none → supply + new ≤ max_money
unfolding validate_money_supply money_range
validate_money_supply_sound supply new e = ground arith

-- The checks of validate_contents, each on its own.
validate_contents-parts :
    (p : Primitives) (b : Block) (prev : Option BlockIndex) (height : ℕ) (u : UtxoSet) (fees : ℕ)
    (coinbase : Transaction) (txs : List Transaction)
    → validate_contents p b prev height u fees (coinbase ∷ txs) ≡ none
    → (validate_coinbase coinbase (Transaction.get_block_reward height) fees ≡ none)
      × (validate_transactions p height b.header.timestamp u txs ≡ none)
      × (validate_money_supply (previous_supply prev) (minted coinbase fees) ≡ none)
unfolding validate_contents
validate_contents-parts p b prev height u fees coinbase txs e =
    let supply = validate_money_supply (previous_supply prev) (minted coinbase fees) in
    let root : ValidationResult =
      if not (check_merkle_root p b) then some bad_merkle_root else none in
    let later = validate_transactions p height b.header.timestamp u txs in
    let pays = validate_coinbase coinbase (Transaction.get_block_reward height) fees in
    let first : ValidationResult =
      if not (is_coinbase coinbase) then some first_not_coinbase else none in
    let c =
      (then_check-none pays (later then_check root then_check supply)).0
        (rest_passes first (pays then_check later then_check root then_check supply) e) in
    let t = (then_check-none later (root then_check supply)).0 c.1 in
    (c.0, t.0, rest_passes root supply t.1)

-- A block of a coinbase and further transactions that ValidateBlock lets through, where the fees
-- and the subsidy together stay below 2^64: its coinbase pays no more than the subsidy of its
-- height and the fees, the money it makes is no more than that subsidy, and all the money up to
-- and with it stays within the limit; each further transaction is no coinbase, valid on the
-- unspent outputs before the block, and final.
pub validate_block_sound :
    (p : Primitives) (now expected_bits : ℕ) (b : Block) (prev : Option BlockIndex) (height : ℕ)
    (u : UtxoSet) (coinbase : Transaction) (txs : List Transaction)
    → b.transactions ≡ coinbase ∷ txs
    → Transaction.get_block_reward height + get_total_fees b u < amount_mod
    → validate_block p now expected_bits b prev height u ≡ none
    → (get_output_value coinbase ≤ Transaction.get_block_reward height + get_total_fees b u)
      × (minted coinbase (get_total_fees b u) ≤ Transaction.get_block_reward height)
      × (previous_supply prev + minted coinbase (get_total_fees b u) ≤ max_money)
      × All (Admitted p height b.header.timestamp u) txs
unfolding validate_block minted
validate_block_sound p now expected_bits b prev height u coinbase txs shape small e =
    let fees = get_total_fees b u in
    let contents =
      validate_block-contents (quick_block_check p now b)
        (validate_block_header p now expected_bits b.header prev) (validate_block_size b)
        (validate_block_sig_ops b) (validate_contents p b prev height u fees b.transactions) e in
    let parts =
      validate_contents-parts p b prev height u fees coinbase txs
        (ap (validate_contents p b prev height u fees) (sym shape) ∙ contents) in
    let pays =
      validate_coinbase_sound coinbase (Transaction.get_block_reward height) fees small parts.0 in
    (
      pays,
      ground (arith, pays),
      validate_money_supply_sound (previous_supply prev) (minted coinbase fees) parts.2,
      (validate_transactions_iff p height b.header.timestamp u txs).0 parts.1,
    )
