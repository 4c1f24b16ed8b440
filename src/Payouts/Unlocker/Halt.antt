-- ===== src/Payouts/Unlocker/Halt.antt =====
-- An unlocker that has met an error does nothing more.
use btcpool.Common.{ℕ, zero, suc, ◌≡◌, refl, ap, ◌∙◌, true, false, some}
use btcpool.Payouts.Rewards.{Config}
use btcpool.Common.Bytes.{Bytes}
use btcpool.Payouts.Unlocker.{
  Action, Failure, err, Services, pending_session, credit_session, BlockUnlocker, settle, guarded,
  next, unlock_pending_blocks, unlock_and_credit_miners, tick, ticks,
}

module _ {St : Type 0} (session : Action St (Unit {0})) (u : BlockUnlocker) (s : St) where
  guarded_halted : u.halt ≡ true → guarded session u s ≡ (some u, s)
  unfolding guarded
  guarded_halted h = simp h

  guarded_failed :
      (e : Failure) (s' : St)
      → u.halt ≡ false
      → session s ≡ (err e, s')
      → guarded session u s ≡ (some (record { halt = true; last_fail = some e }), s')
  unfolding guarded settle
  guarded_failed e s' h failed = simp (h, failed)

module _ (c : Config) (prefix : Bytes) (sv : Services) where
  tick_pending :
      (u v : BlockUnlocker) (s s' : sv.St)
      → unlock_pending_blocks c prefix sv u s ≡ (some v, s')
      → tick c prefix sv u s ≡ unlock_and_credit_miners c prefix sv v s'
  unfolding tick
  tick_pending u v s s' e = ap (λ o. next o (unlock_and_credit_miners c prefix sv)) e

  ticks_next :
      (n : ℕ) (u v : BlockUnlocker) (s s' : sv.St)
      → tick c prefix sv u s ≡ (some v, s')
      → ticks c prefix sv (suc n) u s ≡ ticks c prefix sv n v s'
  unfolding ticks
  ticks_next n u v s s' e = ap (λ o. next o (ticks c prefix sv n)) e

  tick_halted : (u : BlockUnlocker) (s : sv.St) → u.halt ≡ true → tick c prefix sv u s ≡ (some u, s)
  unfolding unlock_pending_blocks unlock_and_credit_miners
  tick_halted u s h =
      tick_pending u u s s (guarded_halted (pending_session c prefix sv) u s h)
      ∙ guarded_halted (credit_session c prefix sv) u s h

  ticks_halted :
      (n : ℕ) (u : BlockUnlocker) (s : sv.St)
      → u.halt ≡ true
      → ticks c prefix sv n u s ≡ (some u, s)
  ticks_halted zero u s h = unfold ticks in refl
  ticks_halted (suc n) u s h = ticks_next n u u s s (tick_halted u s h) ∙ ticks_halted n u s h

  -- Once the session on new candidates has failed, no later tick changes anything, neither Redis nor
  -- the error that is kept.
  pub ticks_failed :
      (n : ℕ) (u : BlockUnlocker) (s s' : sv.St) (e : Failure)
      → u.halt ≡ false
      → pending_session c prefix sv s ≡ (err e, s')
      → ticks c prefix sv (suc n) u s ≡ (some (record { halt = true; last_fail = some e }), s')
  unfolding unlock_pending_blocks unlock_and_credit_miners
  ticks_failed n u s s' e h failed =
      let v : BlockUnlocker = record { halt = true; last_fail = some e } in
      ticks_next n u v s s' (
        tick_pending u v s s' (guarded_failed (pending_session c prefix sv) u s e s' h failed)
        ∙ guarded_halted (credit_session c prefix sv) v s' refl)
      ∙ ticks_halted n v s' refl
