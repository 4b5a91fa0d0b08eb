-- ===== src/Sequencer/Config.antt =====
-- sequencer/src/config.rs: the sizes a reactor is given, and the combinations it refuses.
use my_ledger.Common.{ℕ, ◌+◌, ◌*◌, ◌%◌, ◌^◌, Bool, ◌&&◌, ltb, leb, if◌then◌else◌}
use my_ledger.Base.Error.{Result, ok, err, config_invalid}
use my_ledger.Sequencer.State.Batcher.{BatchPolicy}

pub record Capacity : Type 0 where
  pub slots : ℕ
  pub intake_per_tick : ℕ
  pub expiry_per_tick : ℕ
  pub expiry_backlog : ℕ
  pub ack_backlog : ℕ
  pub pending_write_backlog : ℕ
  pub log_events : ℕ

-- `LinkedPolicy` and `SafetyPolicy` have one field each.
pub record ReactorConfig : Type 0 where
  pub capacity : Capacity
  pub batching : BatchPolicy
  pub max_legs : ℕ
  pub quarantine_fail_stop : ℕ

-- `ReactorConfig::default`; the linger is 200 microseconds.
abbrev pub default_config : ReactorConfig
default_config = record {
  capacity = record {
    slots = 65536;
    intake_per_tick = 4096;
    expiry_per_tick = 64;
    expiry_backlog = 4096;
    ack_backlog = 16384;
    pending_write_backlog = 16384;
    log_events = 4096;
  };
  batching = record {
    size = 1000;
    max_batch = 10000;
    queued = 10000;
    linger = 200000;
    in_flight_limit = 8;
  };
  max_legs = 64;
  quarantine_fail_stop = 3;
}

pub sane : ReactorConfig → Bool
sane c =
    ltb 0 c.capacity.slots
    && ltb 0 c.capacity.intake_per_tick
    && ltb 0 c.capacity.expiry_per_tick
    && ltb 0 c.capacity.expiry_backlog
    && ltb 0 c.capacity.log_events
    && ltb 0 c.batching.size
    && ltb 0 c.batching.in_flight_limit
    && leb c.batching.size c.batching.max_batch
    && leb c.batching.max_batch c.batching.queued
    && ltb 0 c.max_legs
    && leb c.max_legs c.batching.max_batch
    && ltb 0 c.capacity.ack_backlog
    && ltb 0 c.capacity.pending_write_backlog
    && ltb 0 c.quarantine_fail_stop

unfoldable pub validate : ReactorConfig → Result (Unit {0})
unfolding sane
validate c = if sane c then ok tt else err config_invalid

unfoldable pub batch_headroom : ReactorConfig → ℕ
batch_headroom c = (c.batching.queued * 2 + c.max_legs) % 2 ^ 64
