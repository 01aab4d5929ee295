-- ===== src/Receiver/Invariant/Exit.antt =====
-- How Receiver::run ends (tools/receiver/receiver.cpp).
use ipc_data_relay.Common.{
  ℕ, ◌≡◌, ◌⊎◌, inl, inr, refl, Bool, true, false, List, [], ◌∷◌, Option, none, some, Bool-cases,
  Option-cases,
}
use ipc_data_relay.Capture.Writer.{CaptureWriter, CallResult, SyncResult, is_open, close}
use ipc_data_relay.Receiver.State.{Receiver}
use ipc_data_relay.Receiver.Poll.{World, poll_once, sweep_reassembly}
use ipc_data_relay.Receiver.Run.{Closing, keep_polling, poll_all, after_close, shut_down, run}
use ipc_data_relay.Receiver.Invariant.Running.{IsRunning}
use ipc_data_relay.Receiver.Invariant.Loop.{poll_once-IsRunning}

keep_polling-some :
    (next : Receiver → Option Receiver) (x : Option Receiver × Bool) (q : Receiver)
    → x.0 ≡ some q
    → ((z : Receiver) × (next q ≡ some z))
    → (z : Receiver) × (keep_polling next x ≡ some z)
keep_polling-some next (none, going) q e h = cc e
keep_polling-some next (some r, true) q e (z, f) = (z, cc (e, f))
keep_polling-some next (some r, false) q e h = (r, refl)

poll_all-some :
    (r : Receiver) (ws : List World) → IsRunning r → (q : Receiver) × (poll_all r ws ≡ some q)
unfolding poll_all
poll_all-some r [] h = (r, refl)
poll_all-some r (w ∷ ws) h =
    let (q, e, k) = poll_once-IsRunning r w h in
    keep_polling-some (λ q. poll_all q ws) (poll_once r w) q e (poll_all-some q ws k)

close-shut :
    (w : CaptureWriter) (a : CallResult) (b : SyncResult) (c : CallResult)
    → is_open (close w a b c).0 ≡ false
unfolding close
close-shut w a b c = elim (Option-cases w.file) [ inl e ↦ rw e refl | inr (f, e) ↦ rw e refl ]

-- The exit code, and what it says of the file.
abbrev pub Exits : Receiver × ℕ → Type 0
Exits (q, code) = (is_open q.writer ≡ false) × ((code ≡ 0) ⊎ (code ≡ 1))

after_close-Exits :
    (r : Receiver) (w : CaptureWriter × Bool) → is_open w.0 ≡ false → Exits (after_close r w)
unfolding after_close
after_close-Exits r (w, true) shut = (shut, inl refl)
after_close-Exits r (w, false) shut = (shut, inr refl)

shut_down-Exits : (r : Receiver) (now_ns : ℕ) (c : Closing) → Exits (shut_down r now_ns c)
unfolding shut_down sweep_reassembly
shut_down-Exits r now_ns c = elim (Bool-cases (is_open r.writer)) [
  | inl o ↦ rw o (
      after_close-Exits (sweep_reassembly r now_ns) (close r.writer c.flushed c.synced c.closed)
        (close-shut r.writer c.flushed c.synced c.closed))
  | inr o ↦ rw o (o, inl refl)
]

-- A running receiver that is polled any number of times, whatever happens outside, comes to its end:
-- the capture file is closed, and the exit code is 0 or 1.
pub run-Exits :
    (r : Receiver) (ws : List World) (now_ns : ℕ) (c : Closing)
    → IsRunning r
    → (x : Receiver × ℕ) × (run r ws now_ns c ≡ some x) × Exits x
unfolding run
run-Exits r ws now_ns c h =
    let (q, e) = poll_all-some r ws h in
    rw e (shut_down q now_ns c, refl, shut_down-Exits q now_ns c)
