-- ===== src/Mining/Waiter.antt =====
-- consensus/sc-consensus-pow/src/worker.rs: `UntilImportedOrTimeout`, the stream that wakes the loop
-- that builds tasks. Times are numbers of milliseconds; a `Delay` is done once its deadline is reached.
use numen.Prelude.{
  ℕ, zero, suc, ◌+◌, ◌≤◌, ◌≡◌, Bool, true, false, ◌||◌, Option, none, some, arith, leb,
  if◌then◌else◌,
}

-- The notifications that wait in the channel, whether the channel is closed behind them, and the
-- deadline of the inner delay.
pub record Waiter : Type 0 where
  pub queued : ℕ
  pub is_closed : Bool
  pub inner_delay : Option ℕ

pub data Polled : Type 0 where
  tick ended pending : Polled

-- The loop over the notifications: any of them fires.
unfoldable pub drain : ℕ → Bool → Bool
drain zero fire = fire
drain (suc queued) fire = drain queued true

-- `get_or_insert_with`.
abbrev pub deadline_of : Option ℕ → ℕ → ℕ
deadline_of none fresh = fresh
deadline_of (some deadline) fresh = deadline

unfoldable pub poll_next : ℕ → Waiter → ℕ → Waiter × Polled
unfolding drain
poll_next timeout w now =
    let deadline = deadline_of w.inner_delay (now + timeout) in
    if w.is_closed
    then (record w { queued = 0 }, ended)
    else if drain w.queued false || leb deadline now
    then (record w { queued = 0; inner_delay = none }, tick)
    else (record w { queued = 0; inner_delay = some deadline }, pending)

-- Where the channel stays open and a poll is pending, with a delay that is due within the timeout if
-- one is running, a poll that comes once the timeout has passed ticks, however many blocks have arrived.
pub poll_next_wakes :
    (timeout : ℕ) (w : Waiter) (now later arrived : ℕ)
    → w.is_closed ≡ false
    → deadline_of w.inner_delay (now + timeout) ≤ now + timeout
    → now + timeout ≤ later
    → (poll_next timeout w now).1 ≡ pending
    → (poll_next timeout (record (poll_next timeout w now).0 { queued = arrived }) later).1 ≡ tick
unfolding poll_next
poll_next_wakes timeout w now later arrived open_still due late h = ground arith
