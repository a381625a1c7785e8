-- ===== src/Signals.antt =====
-- src/signals.c: one pending signal for each task.
use arduino_osh.Base.{ℕ, not, ◌==◌, ltb, if◌then◌else◌, update}
use arduino_osh.Types.{Ptr, oss_success, oss_error_invalid}
use arduino_osh.Machine.{M, pure, get, os_assert, load, store, ◌>>=◌, ◌>>◌}

unfoldable pub osi_signal : Ptr → ℕ → M ℕ
osi_signal task signal = do
  os_assert (ltb 0 signal)
  pending ← load task (λ t. t.signal)
  if pending == signal
      then pure oss_success
      else if not (pending == 0)
      then pure oss_error_invalid
      else (do
        store task (λ t. record t { signal = update t.signal task signal })
        pure oss_success)

-- The second result is what is written through `signal`.
unfoldable pub osi_signal_check : M (ℕ × ℕ)
osi_signal_check = do
  self ← get (λ s. s.running)
  signal ← load self (λ t. t.signal)
  pure (oss_success, signal)
