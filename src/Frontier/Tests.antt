-- ===== src/Frontier/Tests.antt =====
-- runtime/src/migrations/frontier.rs on a small state: one contract at the address 5, whose old account 7
-- reached the nonce 4 and holds 100.
use numen.Prelude.{
  ℕ, ◌+◌, ◌-◌, ◌≤◌, ◌≡◌, refl, true, false, none, some, [], ◌∷◌, arith, ◌==◌, leb, ◌&&◌,
  if◌then◌else◌,
}
use numen.Host.Ops.{ok, failed}
use numen.Host.Simple.{Book, simple, simple-NonceLaws}
use numen.Claims.Accounts.{revive_account, legacy_account}
use numen.Claims.Defs.{Config, claimable, move_legacy}
use numen.Claims.Steps.{IsKept}
use numen.Frontier.State.{State, Revive}
use numen.Frontier.Ops.{find_hash, slots_of, copy_block_hashes, pin_signers}
use numen.Frontier.Upgrade.{
  on_runtime_upgrade, move_state, move_accounts, map_accounts, clear_frontier,
}
use numen.Frontier.Blocks.{or_else, copy_block_hashes-effect}
use numen.Frontier.Left.{find_code}
use numen.Frontier.Contracts.{upgrade_keeps_failed}
use numen.Frontier.Once.{upgrade_once}
use numen.Frontier.Signers.{pin_signers-IsKept, count}

abbrev cfg : Config Book
cfg = record {
  claim_fee = 2;
  max_vesting_schedules = 28;
  blake2_256 = λ bytes. 7;
  on_claim_fee = λ l credit. l;
}

abbrev revive : Revive Book ℕ
revive = record {
  block_number = λ l. 300;
  accounts = λ l. 7 ∷ 8 ∷ [];
  account_id = 9;
  is_contract = λ l a. false;
  code_hash = λ code. ok 1;
  store_code = λ l code. ok l;
  code_info = λ l hash. some (record { refcount = 0 });
  set_code_info = λ l hash info. l;
  new_contract = λ l a hash. ok 0;
  write = λ l info key value. ok (l, info + 1);
  sized = λ info items bytes. info;
  insert_contract = λ l a info. l;
  to_fallback_account_id = λ a. revive_account a;
  init_contract = λ l a. ok l;
  inc_consumers = λ l a. ok l;
  is_eth_derived = λ l a. false;
  is_mapped = λ l a. true;
  map_no_deposit_unchecked = λ l a. ok l;
  code_info_missing = 3;
}

abbrev old : State Book
old = record {
  schema = true;
  codes = (5, 0x60 ∷ 0x00 ∷ []) ∷ [];
  metadata = 5 ∷ [];
  slots = record { address = 5; key = 1; value = 2 } ∷ [];
  block_hashes = (299, 77) ∷ (20, 66) ∷ [];
  ethereum_keys = 3;
  base_fee_keys = 1;
  evm_keys = 2;
  revive_hashes = [];
  claims = record {
    ledger = record {
      nonces = λ a. if a == 7 then 4 else 0;
      given = λ a. if a == 7 then 1 else 0;
      funds = λ a. if a == 7 then 100 else 0;
      vesting = λ a. [];
      issued = 100;
      inactive = 0;
    };
    events = [];
  };
}

-- A pallet-revive that refuses every code.
abbrev refusing : Revive Book ℕ
refusing = record revive { code_hash = λ code. failed 4 }

abbrev stuck : State Book
stuck = (on_runtime_upgrade simple refusing cfg [] old).0

stuck-codes : find_code stuck.codes 5 ≡ some (0x60 ∷ 0x00 ∷ [])
unfolding on_runtime_upgrade move_state move_accounts map_accounts clear_frontier claimable
    legacy_account move_legacy revive_account
stuck-codes = refl

upgrade_keeps_failed_example :
    (find_code old.codes 5 ≡ some (0x60 ∷ 0x00 ∷ []))
    × (slots_of stuck.slots 5 ≡ record { address = 5; key = 1; value = 2 } ∷ [])
upgrade_keeps_failed_example =
    upgrade_keeps_failed simple refusing cfg [] old 5 (0x60 ∷ 0x00 ∷ []) stuck-codes

abbrev upgraded : State Book
upgraded = (on_runtime_upgrade simple revive cfg [] old).0

upgrade_once_example :
    on_runtime_upgrade simple revive cfg [] upgraded ≡ (upgraded, record { reads = 1; writes = 0 })
upgrade_once_example = upgrade_once simple revive cfg [] old

abbrev copied : State Book
copied = (copy_block_hashes simple revive cfg old (record { reads = 0; writes = 0 })).0

copy_block_hashes-effect_example :
    find_hash copied.revive_hashes 299
    ≡ (if leb 299 300 && leb 300 555 then or_else (some 77) none else none)
copy_block_hashes-effect_example =
    copy_block_hashes-effect simple revive cfg 299 old (record { reads = 0; writes = 0 })

abbrev pinned : Book
pinned = (pin_signers simple revive cfg old (record { reads = 0; writes = 0 })).0.claims.ledger

once_each : (a : ℕ) → 1 ≤ old.claims.ledger.nonces a → count (7 ∷ 8 ∷ []) a ≡ 1
once_each a n = ground (arith, n)

pin_signers-IsKept_example :
    ((a : ℕ)
      → (simple.nonce pinned a ≡ simple.nonce old.claims.ledger a)
        × (simple.providers pinned a ≡ (
            if simple.nonce old.claims.ledger a == 0
            then simple.providers old.claims.ledger a
            else simple.providers old.claims.ledger a + 1)))
    × IsKept simple (record {
      ledger = pinned;
      given = λ a. simple.providers pinned a - simple.providers old.claims.ledger a;
      executed = [];
    })
pin_signers-IsKept_example =
    pin_signers-IsKept simple revive cfg simple-NonceLaws old (record { reads = 0; writes = 0 })
      once_each
