-- ===== src/Tunnel/RuntimeMetrics.antt =====
-- tunnel/runtime_metrics.go: the sums over all peers, and the file that holds them.
use wireroute_windows.Base.{
  ℕ, ◌+◌, ◌-◌, ◌%◌, ◌^◌, ◌≤◌, ◌≡◌, refl, ◌∙◌, List, [], ◌∷◌, ltb, length, min, if◌then◌else◌,
  Option, none, some, arith,
}
use wireroute_windows.Base.Action.{Action, ret, fail, ◌>>=◌, ◌>>◌}
use wireroute_windows.Base.Result.{Result, ok, err}
use wireroute_windows.Base.Text.{Text}
use wireroute_windows.Tunnel.RuntimeLog.{Files}

-- What is read of a peer of the driver: words of 64 bits.
pub record PeerStatistics : Type 0 where
  pub rx_bytes : ℕ
  pub tx_bytes : ℕ
  pub last_handshake : ℕ

pub record RuntimeMetricsSnapshot : Type 0 where
  pub version : ℕ
  pub received_bytes : ℕ
  pub sent_bytes : ℕ
  pub last_handshake_file_time : ℕ

abbrev pub max_uint64 : ℕ
max_uint64 = 2 ^ 64 - 1

-- One counter and what a peer adds to it; the sum wraps around as the source's does.
unfoldable pub add_counter : (total more : ℕ) → ℕ
add_counter total more =
    if ltb (max_uint64 - total) more then max_uint64 else (total + more) % 2 ^ 64

unfoldable pub later : (kept found : ℕ) → ℕ
later kept found = if ltb kept found then found else kept

unfoldable pub add_peer : RuntimeMetricsSnapshot → PeerStatistics → RuntimeMetricsSnapshot
add_peer s p = record s {
  received_bytes = add_counter s.received_bytes p.rx_bytes;
  sent_bytes = add_counter s.sent_bytes p.tx_bytes;
  last_handshake_file_time = later s.last_handshake_file_time p.last_handshake;
}

-- The loop over the peers of the driver's configuration.
unfoldable pub add_statistics :
    RuntimeMetricsSnapshot → List PeerStatistics → RuntimeMetricsSnapshot
add_statistics s [] = s
add_statistics s (p ∷ peers) = add_statistics (add_peer s p) peers

abbrev pub first_snapshot : RuntimeMetricsSnapshot
first_snapshot = record {
  version = 1;
  received_bytes = 0;
  sent_bytes = 0;
  last_handshake_file_time = 0;
}

-- A as_metrics of the system that fails with a number, or a payload of more than 4096 bytes.
pub data MetricsError : Type 0 where
  failed : (code : ℕ) → MetricsError
  exceeded : MetricsError

module _ {F : Type 0} where
  unfoldable pub as_metrics : {A : Type 0} → Result ℕ A × F → Result MetricsError A × F
  as_metrics (ok a, f) = (ok a, f)
  as_metrics (err e, f) = (err (failed e), f)

  -- The error of a write; what it took of the bytes is not looked at.
  unfoldable pub write_error : (ℕ × Option ℕ) × F → Result MetricsError (Unit {0}) × F
  write_error ((count, none), f) = (ok tt, f)
  write_error ((count, some e), f) = (err (failed e), f)

  -- `write`, with what the driver and package json return.
  unfoldable pub write_metrics :
      Files F
      → (configuration : Result ℕ (List PeerStatistics))
      → (marshal : RuntimeMetricsSnapshot → Result ℕ Text) → Action F MetricsError (Unit {0})
  write_metrics files configuration marshal = do
    peers ← λ f. as_metrics (configuration, f)
    payload ← λ f. as_metrics (marshal (add_statistics first_snapshot peers), f)
    (λ f. as_metrics (files.seek 0 f))
    (λ f. write_error (files.write payload f))
    (λ f. as_metrics (files.truncate (length payload) f))
    if ltb 4096 (length payload) then fail exceeded else ret tt

-- The sum of a counter over the peers, of any size.
abbrev pub sum : (PeerStatistics → ℕ) → List PeerStatistics → ℕ
sum counter [] = 0
sum counter (p ∷ peers) = counter p + sum counter peers

-- The latest handshake of the peers, 0 if there is none.
abbrev pub latest : List PeerStatistics → ℕ
latest [] = 0
latest (p ∷ peers) = later p.last_handshake (latest peers)

add_counter_lem :
    (total more : ℕ) → total ≤ max_uint64 → add_counter total more ≡ min max_uint64 (total + more)
unfolding add_counter
add_counter_lem total more h = ground arith

later_assoc : (a b c : ℕ) → later (later a b) c ≡ later a (later b c)
unfolding later
later_assoc a b c = ground arith

abbrev snapshot : (version received sent handshake : ℕ) → RuntimeMetricsSnapshot
snapshot v a b c = record {
  version = v;
  received_bytes = a;
  sent_bytes = b;
  last_handshake_file_time = c;
}

snapshot_ext : {v a b c d e f : ℕ} → a ≡ d → b ≡ e → c ≡ f → snapshot v a b c ≡ snapshot v d e f
snapshot_ext p q r = rw p (rw q (rw r refl))

min_add :
    (total more rest : ℕ)
    → total ≤ max_uint64
    → min max_uint64 (add_counter total more + rest) ≡ min max_uint64 (total + (more + rest))
min_add total more rest h = omega (arith, add_counter_lem total more h)

add_counter_le : (total more : ℕ) → total ≤ max_uint64 → add_counter total more ≤ max_uint64
add_counter_le total more h = omega (arith, add_counter_lem total more h)

add_statistics_lem :
    (peers : List PeerStatistics) (s : RuntimeMetricsSnapshot)
    → s.received_bytes ≤ max_uint64
    → s.sent_bytes ≤ max_uint64
    → add_statistics s peers
      ≡ snapshot s.version
          (min max_uint64 (s.received_bytes + sum (λ p. p.rx_bytes) peers))
          (min max_uint64 (s.sent_bytes + sum (λ p. p.tx_bytes) peers))
          (later s.last_handshake_file_time (latest peers))
unfolding add_statistics add_peer later
add_statistics_lem [] s h k = snapshot_ext (omega arith) (omega arith) (ground arith)
add_statistics_lem (p ∷ peers) s h k =
    add_statistics_lem peers (add_peer s p) (add_counter_le s.received_bytes p.rx_bytes h)
      (add_counter_le s.sent_bytes p.tx_bytes k)
    ∙ snapshot_ext (min_add s.received_bytes p.rx_bytes (sum (λ q. q.rx_bytes) peers) h)
        (min_add s.sent_bytes p.tx_bytes (sum (λ q. q.tx_bytes) peers) k)
        (later_assoc s.last_handshake_file_time p.last_handshake (latest peers))

-- For counters of any size: the snapshot has the sums over all peers, or the greatest word of 64
-- bits if a sum is beyond it, and the latest handshake of all.
pub add_statistics_saturates :
    (peers : List PeerStatistics)
    → add_statistics first_snapshot peers ≡ record {
      version = 1;
      received_bytes = min max_uint64 (sum (λ p. p.rx_bytes) peers);
      sent_bytes = min max_uint64 (sum (λ p. p.tx_bytes) peers);
      last_handshake_file_time = latest peers;
    }
unfolding later
add_statistics_saturates peers =
    add_statistics_lem peers first_snapshot (omega arith) (omega arith)
    ∙ snapshot_ext (omega arith) (omega arith) (ground arith)
