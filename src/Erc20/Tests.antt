-- ===== src/Erc20/Tests.antt =====
-- runtime/src/balances_erc20.rs on a small ledger: the account 1 holds 100, and the spender 2 has an allowance
-- of 30. An account's address is its own number.
use numen.Prelude.{
  ℕ, ◌+◌, ◌≤◌, ◌≡◌, refl, Bool, true, false, some, List, [], ◌∷◌, ◌==◌, ◌&&◌, if◌then◌else◌,
}
use numen.Host.Simple.{Book, simple, simple-IssuanceLaws}
use numen.Erc20.Interface.{
  Ext, State, PermitCall, transfer_from_call, balance_of_call, Outcome, done, error,
}
use numen.Erc20.Literals.{token_address}
use numen.Erc20.Ops.{transfer_from, balance_of}
use numen.Erc20.Permit.{permit, recovery_id}
use numen.Erc20.Dispatch.{call}
use numen.Erc20.Steps.{stored}
use numen.Erc20.Digest.{digest, signed_by}
use numen.Erc20.Permits.{granted, permit-effect}
use numen.Erc20.Calls.{call_static, call-active_issuance}

-- A frame with enough gas, whose caller is an account.
abbrev frame : ℕ → Bool → Ext Book ℕ
frame account static = record {
  address = token_address;
  read_only = static;
  value_transferred = 0;
  account_id = 2050;
  caller_account = some account;
  now = 1000;
  chain_id = 5;
  balance_of = λ l a. l.funds a;
  to_address = λ a. a;
  to_account_id = λ l a. a;
  keccak256 = λ bytes. 7 ∷ [];
  ecdsa_recover = λ sig hash. some hash;
  ecdsa_to_eth_address = λ public. some 1;
  log_data = λ e. (3, 32);
  Weight = ℕ;
  saturating_add = λ a b. a + b;
  transfer_keep_alive = 50;
  reads = λ n. n;
  writes = λ n. n;
  charge = λ m w. some (m + w);
  charge_weight_token = λ m t. some (m + 1);
  encode_string = λ bytes. bytes;
  encode_word = λ n. n ∷ [];
  encode_bool = λ b. 1 ∷ [];
  encode_bytes = λ bytes. bytes;
}

abbrev before : State Book ℕ
before = record {
  ledger = record {
    nonces = λ a. 0;
    given = λ a. if a == 1 then 1 else 0;
    funds = λ a. if a == 1 then 100 else 0;
    vesting = λ a. [];
    issued = 100;
    inactive = 0;
  };
  meter = 0;
  allowances = λ o p. if o == 1 && p == 2 then 30 else 0;
  nonces = λ a. 0;
  events = [];
}

abbrev value_of : Outcome (List ℕ × State Book ℕ) → List ℕ × State Book ℕ
value_of (error e) = ([], before)
value_of (done result) = result

-- The spender 2 sends 20 of the account 1 to the account 3, which is opened.
abbrev after_spending : List ℕ × State Book ℕ
unfolding call transfer_from
after_spending = value_of (call simple (frame 2 false) (transfer_from_call 1 3 20) before)

spending-runs :
    call simple (frame 2 false) (transfer_from_call 1 3 20) before
    ≡ done (after_spending.0, after_spending.1)
unfolding call transfer_from
spending-runs = refl

call-active_issuance_example :
    simple.active_issuance after_spending.1.ledger ≡ simple.active_issuance before.ledger
call-active_issuance_example =
    call-active_issuance simple (frame 2 false) simple-IssuanceLaws (transfer_from_call 1 3 20)
      before after_spending.1 after_spending.0 spending-runs

abbrev looked_up : List ℕ × State Book ℕ
unfolding call balance_of
looked_up = value_of (call simple (frame 2 true) (balance_of_call 1) before)

lookup-runs :
    call simple (frame 2 true) (balance_of_call 1) before ≡ done (looked_up.0, looked_up.1)
unfolding call balance_of
lookup-runs = refl

call_static_example : (token_address ≡ token_address) × (stored looked_up.1 ≡ stored before)
call_static_example =
    call_static simple (frame 2 true) (balance_of_call 1) before looked_up.1 looked_up.0 refl
      lookup-runs

abbrev allowed : PermitCall
allowed = record {
  owner = 1;
  spender = 3;
  value = 40;
  deadline = 1000;
  v = 27;
  r = 1 ∷ [];
  s = 2 ∷ [];
}

abbrev permitted : List ℕ × State Book ℕ
unfolding permit
permitted = value_of (permit simple (frame 3 false) allowed before)

permit-runs : permit simple (frame 3 false) allowed before ≡ done (permitted.0, permitted.1)
unfolding permit
permit-runs = refl

permit-effect_example :
    (1000 ≤ 1000)
    × (signed_by
          (frame 3 false)
          (digest (frame 3 false) allowed 0)
          (recovery_id 27)
          (1 ∷ [])
          (2 ∷ [])
        ≡ some 1)
    × (stored permitted.1 ≡ granted allowed (stored before))
permit-effect_example =
    permit-effect simple (frame 3 false) allowed before permitted.1 permitted.0 permit-runs
