-- ===== src/Fault/Persistence.antt =====
-- The debouncing of a fault: it trips on enough signals in a row.
use flight_software.Base.{ℕ, zero, suc, ◌+◌, ◌≤◌, ◌<◌, ◌≡◌, refl, ◌≢◌, false, arith, ltb, u32_mod}
use flight_software.Fault.{Fault, signal, unsignal, is_faulted}

-- `n` signals, one in each of the `n` control cycles after `start`.
unfoldable pub signals : ℕ → ℕ → Fault → Fault
signals start zero f = f
signals start (suc n) f = signals (start + 1) n (signal (start + 1) f)

-- The ground has given no command, and there is none that the fault has yet to see.
pub record IsUncommanded (f : Fault) : Type 0 where
  pub no_override : f.override ≡ false
  pub no_suppress : f.suppress ≡ false
  pub no_unsignal : f.unsignal_cmd ≡ false

record IsCounted (n : ℕ) (f g : Fault) : Type 0 where
  counted : g.num_consecutive_signals ≡ f.num_consecutive_signals + n
  same_persistence : g.persistence ≡ f.persistence
  uncommanded : IsUncommanded g

signals-IsCounted :
    (n start : ℕ) (f : Fault)
    → f.last_fault_time ≤ start
    → f.num_consecutive_signals + n < u32_mod
    → IsUncommanded f
    → IsCounted n f (signals start n f)
unfolding signals signal
signals-IsCounted zero start f h k u = record {
  counted = omega arith;
  same_persistence = refl;
  uncommanded = u;
}
signals-IsCounted (suc n) start f h k u =
    let f' = signal (start + 1) f in ground (arith, signals-IsCounted n (start + 1) f')

-- Counted from an `unsignal`, the fault has tripped after `n` signals in successive control cycles
-- exactly if `n` exceeds its persistence, while the ground gives no command. The last signal before
-- lies in the past, and the count fits 32 bits.
pub is_faulted-signals :
    (n start : ℕ) (f : Fault)
    → f.last_fault_time ≤ start
    → n < u32_mod
    → IsUncommanded f
    → (is_faulted (signals start n (unsignal f))).0 ≡ ltb f.persistence n
unfolding is_faulted unsignal
is_faulted-signals n start f h k u = ground (arith, signals-IsCounted n start (unsignal f))

-- A second signal in the same control cycle changes nothing, from cycle 1 on.
pub signal-signal : (cc : ℕ) (f : Fault) → cc ≢ 0 → signal cc (signal cc f) ≡ signal cc f
unfolding signal
signal-signal cc f h = ground arith
