-- ===== src/Streaming/Producer.antt =====
-- src/watlowlib/streaming/recorder.py: `_run_producer`. The source, the clocks and the sleeps act on the
-- world. The loop runs on fuel, one unit for a tick.
pub mod Counters
pub mod Termination
use watlowlib.Base.{
  ℕ, zero, suc, ◌+◌, min, Bool, true, false, ◌&&◌, List, [], ◌∷◌, ◌++◌, Option, none, some, ltb,
  get_or, if◌then◌else◌,
}
use watlowlib.Errors.{Error, connection_error, is_a}
use watlowlib.Result.{Result, ok, err, stuck}
use watlowlib.Exec.{Exec, continue}
use watlowlib.Streaming.Summary.{Timing, OverflowPolicy}
use watlowlib.Streaming.Channel.{Channel}
use watlowlib.Streaming.Publish.{Run, set_world, count_late, publish}

-- `current_time`, `time.monotonic`, the sleeps, the poll of a source, the factory, and the `aclose` of
-- both ends of the stream.
pub record Surroundings (F B Source W : Type 0) : Type 0 where
  pub channel : Channel B W
  pub current_time : W → F × W
  pub monotonic : W → F × W
  pub sleep_until : F → W → W
  pub sleep : F → W → W
  pub poll_many : Source → Exec W B
  pub reconnect_factory : Option (Exec W Source)
  pub aclose : W → W

-- The arguments of the producer that do not change.
pub record Settings (F : Type 0) : Type 0 where
  pub period : F
  pub total_ticks : Option ℕ
  pub overflow : OverflowPolicy
  pub auto_reconnect : Bool

-- The local variables of the loop.
pub record Position (Source : Type 0) : Type 0 where
  pub tick : ℕ
  pub backoff_idx : ℕ
  pub active_source : Source

-- `_RECONNECT_BACKOFF_S`, in half seconds
abbrev pub reconnect_backoff : List ℕ
reconnect_backoff = 1 ∷ 2 ∷ 4 ∷ 10 ∷ 20 ∷ 60 ∷ []

-- `total_ticks is None or tick < total_ticks`
abbrev pub more_ticks : Option ℕ → ℕ → Bool
more_ticks none tick = true
more_ticks (some n) tick = ltb tick n

module _ {F : Type 0} (timing : Timing F) where
  -- `start + tick * period`
  abbrev pub slot : F → ℕ → F → F
  slot start tick period = timing.add start (timing.times tick period)

  -- The slots that were overrun by more than one period.
  unfoldable pub missed_slots : F → F → F → ℕ
  missed_slots target now period =
      if timing.lt (timing.add target period) now
      then timing.whole_ratio (timing.sub now target) period
      else 0

  -- `summary.max_drift_ms = max(summary.max_drift_ms, drift)`, and the duration of the poll.
  unfoldable pub measured : {W : Type 0} → F → F → Run F W → Run F W
  measured duration_ms drift_ms r = record r {
    summary = record r.summary {
      max_drift_ms =
          if timing.lt r.summary.max_drift_ms drift_ms then drift_ms else r.summary.max_drift_ms;
    };
    tick_durations_ms = r.tick_durations_ms ++ (duration_ms ∷ []);
  }

unfoldable pub count_disconnect : {F W : Type 0} → Run F W → Run F W
count_disconnect r = record r {
  summary = record r.summary {
    samples_late = r.summary.samples_late + 1;
    disconnects = r.summary.disconnects + 1;
  };
}

module _ {F B Source W : Type 0} (timing : Timing F) (env : Surroundings F B Source W)
    (settings : Settings F) where
  -- The head of a round: the tick after the overrun slots, which count as late, and the sleep until the
  -- target of that tick.
  unfoldable pub missed_at : F → ℕ → Run F W → ℕ
  missed_at start tick r =
      missed_slots timing (slot timing start tick settings.period) (env.current_time r.world).0
        settings.period

  unfoldable pub wait_for_slot : F → ℕ → Run F W → Run F W
  wait_for_slot start tick r =
      let (now, w) = env.current_time (env.current_time r.world).1 in
      let target = slot timing start tick settings.period in
      set_world (if timing.lt now target then env.sleep_until target w else w) r

  -- The tick at the end of a round, and the source after an attempt to build one.
  unfoldable pub rebuilt : Position Source → Result Source × W → Result (Position Source) × W
  rebuilt at (ok source, w) =
      (ok (record { tick = at.tick + 1; backoff_idx = 0; active_source = source }), w)
  rebuilt at (err e, w) =
      if is_a e connection_error
      then (ok (record at { tick = at.tick + 1; backoff_idx = at.backoff_idx + 1 }), w)
      else (err e, w)
  rebuilt at (stuck, w) = (stuck, w)

  unfoldable pub rebuild : Position Source → Option (Exec W Source) → Exec W (Position Source)
  rebuild at none w = (ok (record at { tick = at.tick + 1; backoff_idx = at.backoff_idx + 1 }), w)
  rebuild at (some factory) w = rebuilt at (factory w)

  -- `wait_s = …` and `await anyio.sleep(wait_s)`
  abbrev pub backed_off : Position Source → W → W
  backed_off at w = env.sleep (timing.halves (get_or reconnect_backoff (min at.backoff_idx 5) 0)) w

  unfoldable pub reconnect : Position Source → Exec (Run F W) (Position Source)
  reconnect at r =
      let counted = count_disconnect r in
      let (next, w) = rebuild at env.reconnect_factory (backed_off at counted.world) in
      (next, set_world w counted)

  -- What follows the poll, which began at `tick_start`.
  unfoldable pub after_poll :
      ℕ → F → F → Position Source → Result B → Exec (Run F W) (Position Source)
  after_poll fuel target tick_start at (ok batch) r =
      let (ended, w) = env.monotonic r.world in
      let (now, w') = env.current_time w in
      let duration_ms = timing.to_ms (timing.sub ended tick_start) in
      let drift_ms = timing.to_ms (timing.sub now target) in
      let (sent, r') =
        publish env.channel fuel settings.overflow batch
          (measured timing duration_ms drift_ms (set_world w' r)) in
      continue sent (λ done s. (ok (record at { tick = at.tick + 1; backoff_idx = 0 }), s)) r'
  after_poll fuel target tick_start at (err e) r =
      if is_a e connection_error && settings.auto_reconnect then reconnect at r else (err e, r)
  after_poll fuel target tick_start at stuck r = (stuck, r)

  unfoldable pub poll_slot : ℕ → F → Position Source → Exec (Run F W) (Position Source)
  poll_slot fuel target at r =
      let (tick_start, w) = env.monotonic r.world in
      let (polled, w') = env.poll_many at.active_source w in
      after_poll fuel target tick_start at polled (set_world w' r)

  -- One round of the loop. `fuel` is for the loop of `_publish`.
  unfoldable pub round : ℕ → F → Position Source → Exec (Run F W) (Position Source)
  round fuel start at r =
      let missed = missed_at start at.tick r in
      let tick = at.tick + missed in
      poll_slot fuel (slot timing start tick settings.period) (record at { tick = tick })
        (wait_for_slot start tick (count_late missed r))

  unfoldable pub run_from : ℕ → ℕ → F → Position Source → Exec (Run F W) (Position Source)
  run_from fuel zero start at r =
      if more_ticks settings.total_ticks at.tick then (stuck, r) else (ok at, r)
  run_from fuel (suc rounds) start at r = elim (more_ticks settings.total_ticks at.tick) [
    | false ↦ (ok at, r)
    | true ↦
        let (next, r') = round fuel start at r in
        continue next (λ at'. run_from fuel rounds start at') r'
  ]

  -- The position at the end is kept for the statements; the code drops it. Both ends of the stream are
  -- closed however the loop ends.
  unfoldable pub run_producer : ℕ → ℕ → Source → Exec (Run F W) (Position Source)
  run_producer fuel rounds source r =
      let (start, w) = env.current_time r.world in
      let (ended, r') =
        run_from fuel rounds start (record { tick = 0; backoff_idx = 0; active_source = source })
          (set_world w r) in
      (ended, set_world (env.aclose r'.world) r')
