-- ===== src/Frontier/Ops.antt =====
-- runtime/src/migrations/frontier.rs: the steps of the migration.
use numen.Prelude.{
  ℕ, zero, suc, ◌+◌, ◌-◌, ◌*◌, ◌%◌, ◌^◌, min, Bool, false, not, ◌&&◌, Option, none, some, List, [],
  ◌∷◌, ◌==◌, if◌then◌else◌, length, u32_mod,
}
use numen.Host.Ops.{Host, Dispatched, ok, failed, ◌>>=◌}
use numen.Claims.Defs.{Config, move_legacy, claimable}
use numen.Claims.Defs as Claims
use numen.Erc20.Literals.{token_address}
use numen.Frontier.State.{State, Slot, CodeInfo, Revive, Tally, read, write, ◌>>-◌}

abbrev pub find_hash : List (ℕ × ℕ) → ℕ → Option ℕ
find_hash [] number = none
find_hash ((n, hash) ∷ rest) number = if n == number then some hash else find_hash rest number

-- The numbers from the first on, so many.
abbrev pub range : ℕ → ℕ → List ℕ
range first zero = []
range first (suc count) = first ∷ range (first + 1) count

unfoldable pub recent_blocks : ℕ → List ℕ
recent_blocks now = range (now - 256) (min now 256 + 1)

abbrev starts_with_marker : List ℕ → Bool
starts_with_marker (a ∷ b ∷ c ∷ rest) = a == 0xef && b == 0x01 && c == 0x00
starts_with_marker _ = false

unfoldable pub is_delegation : List ℕ → Bool
is_delegation code = length code == 23 && starts_with_marker code

-- The slots of an address that are not zero.
abbrev pub live_slots : List Slot → ℕ → List Slot
live_slots [] address = []
live_slots (slot ∷ rest) address =
    let others = live_slots rest address in
    if slot.address == address && not (slot.value == 0) then slot ∷ others else others

abbrev pub slots_of : List Slot → ℕ → List Slot
slots_of [] address = []
slots_of (slot ∷ rest) address =
    let others = slots_of rest address in if slot.address == address then slot ∷ others else others

abbrev pub without_slots : List Slot → ℕ → List Slot
without_slots [] address = []
without_slots (slot ∷ rest) address =
    let others = without_slots rest address in
    if slot.address == address then others else slot ∷ others

abbrev pub without_code : List (ℕ × List ℕ) → ℕ → List (ℕ × List ℕ)
without_code [] address = []
without_code ((at, code) ∷ rest) address =
    let others = without_code rest address in if at == address then others else (at, code) ∷ others

abbrev without_metadata : List ℕ → ℕ → List ℕ
without_metadata [] address = []
without_metadata (at ∷ rest) address =
    let others = without_metadata rest address in if at == address then others else at ∷ others

module _ {Ledger Info : Type 0} (host : Host Ledger) (revive : Revive Ledger Info)
    (cfg : Config Ledger) where
  abbrev pub copy_hash : ℕ → State Ledger → Tally → Option ℕ → State Ledger × Tally
  copy_hash number s tally none = (s, tally)
  copy_hash number s tally (some hash) =
      (record s { revive_hashes = (number, hash) ∷ s.revive_hashes }, write tally 1)

  unfoldable pub copy_hashes : List ℕ → State Ledger → Tally → State Ledger × Tally
  copy_hashes [] s tally = (s, tally)
  copy_hashes (number ∷ rest) s tally =
      let copied = copy_hash number s (read tally 1) (find_hash s.block_hashes number) in
      copy_hashes rest copied.0 copied.1

  unfoldable pub copy_block_hashes : State Ledger → Tally → State Ledger × Tally
  unfolding recent_blocks copy_hashes
  copy_block_hashes s tally =
      copy_hashes (recent_blocks (revive.block_number s.claims.ledger)) s tally

  abbrev pub with_ledger : State Ledger → Ledger → State Ledger
  with_ledger s l = record s { claims = record s.claims { ledger = l } }

  unfoldable pub signers : Ledger → List ℕ → List ℕ
  signers l [] = []
  signers l (who ∷ rest) =
      let others = signers l rest in if host.nonce l who == 0 then others else who ∷ others

  unfoldable pub pin_all : Ledger → List ℕ → Ledger
  pin_all l [] = l
  pin_all l (who ∷ rest) = pin_all (host.inc_providers l who) rest

  unfoldable pub pin_signers : State Ledger → Tally → State Ledger × Tally
  unfolding signers pin_all
  pin_signers s tally =
      let l = s.claims.ledger in
      let scanned = revive.accounts l in
      let found = signers l scanned in
      (with_ledger s (pin_all l found), write (read tally (length scanned)) (length found))

  abbrev opened : Ledger → Dispatched Ledger → Ledger
  opened l (failed reason) = l
  opened l (ok minted) = host.deactivate minted host.minimum_balance

  unfoldable pub open_pallet_account : State Ledger → Tally → State Ledger × Tally
  open_pallet_account s tally =
      let l = s.claims.ledger in
      let tally = read tally 1 in
      if host.account_exists l revive.account_id then (s, tally) else (
        with_ledger s (opened l (host.mint_into l revive.account_id host.minimum_balance)),
        write tally 3,
      )

  -- One reference more to a stored code.
  abbrev referred : Ledger → ℕ → Option CodeInfo → Dispatched Ledger
  referred l hash none = failed revive.code_info_missing
  referred l hash (some info) =
      ok (revive.set_code_info l hash (record { refcount = min (info.refcount + 1) (2 ^ 64 - 1) }))

  unfoldable pub write_slots : Ledger → Info → List Slot → Dispatched (Ledger × Info)
  write_slots l info [] = ok (l, info)
  write_slots l info (slot ∷ rest) = do
    written ← revive.write l info slot.key slot.value
    write_slots written.0 written.1 rest

  unfoldable pub install_code : Ledger → ℕ → List ℕ → List Slot → Dispatched Ledger
  unfolding write_slots
  install_code l address code storage = do
    hash ← revive.code_hash code
    l ← revive.store_code l code
    l ← referred l hash (revive.code_info l hash)
    info ← revive.new_contract l address hash
    written ← write_slots l info storage
    let items = length storage % u32_mod
    let l =
        revive.insert_contract written.0 address
          (revive.sized written.1 items (64 * items % u32_mod))
    let account = revive.to_fallback_account_id address
    l ← if host.account_exists l account then ok l else revive.init_contract l account
    l ← revive.inc_consumers l account
    ok (if host.nonce l account == 0 then host.set_nonce l account 1 else l)

  unfoldable pub install : Ledger → ℕ → List ℕ → List Slot → Tally → Tally × Dispatched Ledger
  unfolding install_code
  install l address code storage tally = (tally, install_code l address code storage) >>- λ l tally.
      (write (read tally 8) (10 + length storage), ok l)

  -- Drops what Frontier kept of a contract.
  abbrev pub forget : State Ledger → Claims.State Ledger → ℕ → State Ledger
  forget s claims address = record s {
    codes = without_code s.codes address;
    metadata = without_metadata s.metadata address;
    slots = without_slots s.slots address;
    claims = claims;
  }

  -- The code and slots of a contract as pallet-revive holds them, and its account; a delegation moves as
  -- an account.
  unfoldable pub hand_over :
      State Ledger → ℕ → List ℕ → Tally → Tally × Dispatched (Claims.State Ledger)
  unfolding is_delegation install
  hand_over s address code tally =
      let l = s.claims.ledger in
      let storage = live_slots s.slots address in
      (if is_delegation code
        then (tally, ok l)
        else install l address code storage (read tally (length storage)))
      >>- λ l tally. (tally, move_legacy host cfg (record s.claims { ledger = l }) address)

  abbrev pub dropped :
      State Ledger → ℕ → Claims.State Ledger → Tally → Tally × Dispatched (State Ledger)
  dropped s address claims tally = (
    write (write (read tally 10) 10) (2 + length (slots_of s.slots address)),
    ok (forget s claims address),
  )

  unfoldable pub move_contract :
      State Ledger → ℕ → List ℕ → Tally → Tally × Dispatched (State Ledger)
  unfolding hand_over
  move_contract s address code tally =
      hand_over s address code tally >>- λ claims tally. dropped s address claims tally

  unfoldable pub deploy_token_proxy :
      List ℕ → State Ledger → Tally → Tally × Dispatched (State Ledger)
  unfolding install
  deploy_token_proxy proxy_code s tally =
      let tally = read tally 1 in
      if revive.is_contract s.claims.ledger token_address
      then (tally, ok s)
      else (install s.claims.ledger token_address proxy_code [] tally >>- λ l tally.
          (tally, ok (with_ledger s l)))

  unfoldable pub move_account : State Ledger → ℕ → Tally → Tally × Dispatched (State Ledger)
  move_account s address tally =
      let tally = read tally 4 in
      if not (claimable host cfg s.claims.ledger address)
      then (tally, ok s)
      else ((write (read tally 10) 10, move_legacy host cfg s.claims address) >>- λ claims tally.
          (tally, ok (record s { claims = claims })))
