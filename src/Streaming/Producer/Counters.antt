-- ===== src/Streaming/Producer/Counters.antt =====
-- The counters of a run against its ticks.
use watlowlib.Base.{
  ℕ, zero, suc, ◌+◌, ◌≤◌, ◌<◌, ◌≡◌, inl, inr, refl, sym, subst, false, ◌&&◌, Option, none, some,
  arith, Bool-cases,
}
use watlowlib.Errors.{connection_error, is_a}
use watlowlib.Result.{Result, ok, err, stuck}
use watlowlib.Exec.{Exec, continue}
use watlowlib.Streaming.Summary.{
  Timing, OverflowPolicy, block, drop_newest, drop_oldest, AcquisitionSummary, fresh_summary,
}
use watlowlib.Streaming.Channel.{
  Buffer, Published, waited, newest_added, newest_dropped, oldest_added, oldest_dropped, IsBounded,
}
use watlowlib.Streaming.Publish.{Run, set_world, count_late, publish}
use watlowlib.Streaming.Publish.Refine.{Counted, returned-Refines}
use watlowlib.Streaming.Producer.{
  Surroundings, Settings, Position, slot, backed_off, more_ticks, measured, count_disconnect,
  missed_at, wait_for_slot, rebuilt, rebuild, reconnect, after_poll, poll_slot, round, run_from,
  run_producer,
}

-- `counted` batches were emitted or late in `ticks` ticks. Under DROP_OLDEST a tick may count twice: for
-- the batch that is added and for the one that is evicted.
abbrev pub Balance : OverflowPolicy → ℕ → ℕ → Type 0
Balance block ticks counted = ticks ≡ counted
Balance drop_newest ticks counted = ticks ≡ counted
Balance drop_oldest ticks counted = ticks ≤ counted

abbrev pub Tallied : {F : Type 0} → OverflowPolicy → ℕ → AcquisitionSummary F → Type 0
Tallied policy tick s =
    Balance policy tick (s.samples_emitted + s.samples_late) × (s.disconnects ≤ s.samples_late)

late_Tallied :
    {F : Type 0} (policy : OverflowPolicy) (tick n d : ℕ) (s s' : AcquisitionSummary F)
    → d ≤ n
    → s'.samples_emitted ≡ s.samples_emitted
    → s'.samples_late ≡ s.samples_late + n
    → s'.disconnects ≡ s.disconnects + d
    → Tallied policy tick s
    → Tallied policy (tick + n) s'
late_Tallied block tick n d s s' small e l k h = omega (arith, small, e, l, k, h.0, h.1)
late_Tallied drop_newest tick n d s s' small e l k h = omega (arith, small, e, l, k, h.0, h.1)
late_Tallied drop_oldest tick n d s s' small e l k h = omega (arith, small, e, l, k, h.0, h.1)

Published-Balance :
    {B : Type 0} {capacity : ℕ} {b : B} {policy : OverflowPolicy} {late emitted : ℕ}
    {x y : Buffer B}
    → Published capacity b policy late emitted x y
    → Balance policy 1 (emitted + late)
Published-Balance (waited x y z received added) = omega arith
Published-Balance (newest_added x y added) = omega arith
Published-Balance (newest_dropped x full) = omega arith
Published-Balance (oldest_added x y added) = omega arith
Published-Balance (oldest_dropped x y z oldest full e added) = omega arith

published_Tallied :
    {F W : Type 0} (policy : OverflowPolicy) (tick late emitted : ℕ) (r r' : Run F W)
    → Balance policy 1 (emitted + late)
    → Counted late emitted r r'
    → Tallied policy tick r.summary
    → Tallied policy (tick + 1) r'.summary
published_Tallied block tick late emitted r r' one c h =
    omega (arith, one, c.late_counted, c.emitted_counted, c.disconnects_kept, h.0, h.1)
published_Tallied drop_newest tick late emitted r r' one c h =
    omega (arith, one, c.late_counted, c.emitted_counted, c.disconnects_kept, h.0, h.1)
published_Tallied drop_oldest tick late emitted r r' one c h =
    omega (arith, one, c.late_counted, c.emitted_counted, c.disconnects_kept, h.0, h.1)

-- Where a part of the loop returns a position, the counters tally with its tick.
abbrev pub Kept :
    {F Source W : Type 0} → OverflowPolicy → Result (Position Source) × Run F W → Type 0
Kept policy (ok at, r) = Tallied policy at.tick r.summary
Kept policy (err e, r) = Unit {0}
Kept policy (stuck, r) = Unit {0}

published_Kept :
    {F Source W : Type 0} (policy : OverflowPolicy) (at : Position Source)
    (x : Result (Unit {0}) × Run F W)
    → (x.0 ≡ ok tt → Tallied policy (at.tick + 1) x.1.summary)
    → Kept policy
        (continue x.0 (λ done s. (ok (record at { tick = at.tick + 1; backoff_idx = 0 }), s)) x.1)
published_Kept policy at (ok done, r) h = h refl
published_Kept policy at (err e, r) h = tt
published_Kept policy at (stuck, r) h = tt

-- Where the loop returns, it does so at the end.
abbrev pub Complete :
    {F Source W : Type 0} → Settings F → Result (Position Source) × Run F W → Type 0
Complete settings (ok at, r) =
    Tallied settings.overflow at.tick r.summary × (more_ticks settings.total_ticks at.tick ≡ false)
Complete settings (err e, r) = Unit {0}
Complete settings (stuck, r) = Unit {0}

goes_on :
    {F Source W : Type 0} (settings : Settings F) (x : Result (Position Source) × Run F W)
    (next : Position Source → Exec (Run F W) (Position Source))
    → Kept settings.overflow x
    → ((at : Position Source) (r : Run F W)
        → Tallied settings.overflow at.tick r.summary
        → Complete settings (next at r))
    → Complete settings (continue x.0 next x.1)
goes_on settings (ok at, r) next h k = k at r h
goes_on settings (err e, r) next h k = tt
goes_on settings (stuck, r) next h k = tt

-- Closing the stream changes no counter.
closed :
    {F B Source W : Type 0} (env : Surroundings F B Source W) (settings : Settings F)
    (x : Result (Position Source) × Run F W)
    → Complete settings x
    → Complete settings (x.0, set_world (env.aclose x.1.world) x.1)
closed env settings (ok at, r) h = h
closed env settings (err e, r) h = tt
closed env settings (stuck, r) h = tt

abbrev TickIs : {Source W : Type 0} → ℕ → Result (Position Source) × W → Type 0
TickIs n (ok at, w) = at.tick ≡ n
TickIs n (err e, w) = Unit {0}
TickIs n (stuck, w) = Unit {0}

TickIs→Kept :
    {F Source W : Type 0} (policy : OverflowPolicy) (n : ℕ) (r : Run F W)
    (x : Result (Position Source) × W)
    → TickIs n x
    → Tallied policy n r.summary
    → Kept policy (x.0, set_world x.1 r)
TickIs→Kept policy n r (ok at, w) e h = subst (λ k. Tallied policy k r.summary) (sym e) h
TickIs→Kept policy n r (err e, w) t h = tt
TickIs→Kept policy n r (stuck, w) t h = tt

module _ {F B Source W : Type 0} (timing : Timing F) (env : Surroundings F B Source W)
    (settings : Settings F) where
  rebuilt_tick :
      (at : Position Source) (x : Result Source × W)
      → TickIs (at.tick + 1) (rebuilt timing env settings at x)
  unfolding rebuilt
  rebuilt_tick at (ok source, w) = refl
  rebuilt_tick at (err e, w) = elim (Bool-cases (is_a e connection_error)) [
    | inl gone ↦ rw gone refl
    | inr other ↦ rw other tt
  ]
  rebuilt_tick at (stuck, w) = tt

  rebuild_tick :
      (at : Position Source) (factory : Option (Exec W Source)) (w : W)
      → TickIs (at.tick + 1) (rebuild timing env settings at factory w)
  unfolding rebuild
  rebuild_tick at none w = refl
  rebuild_tick at (some factory) w = rebuilt_tick at (factory w)

  reconnect-Kept :
      (policy : OverflowPolicy) (at : Position Source) (r : Run F W)
      → Tallied policy at.tick r.summary
      → Kept policy (reconnect timing env settings at r)
  unfolding reconnect count_disconnect
  reconnect-Kept policy at r h =
      let w = backed_off timing env settings at r.world in
      TickIs→Kept policy (at.tick + 1) (count_disconnect r)
        (rebuild timing env settings at env.reconnect_factory w)
        (rebuild_tick at env.reconnect_factory w)
        (late_Tallied policy at.tick 1 1 r.summary (count_disconnect r).summary (omega arith) refl
          refl refl h)

module _ {F B Source W : Type 0} (timing : Timing F) (env : Surroundings F B Source W)
    (settings : Settings F) (capacity fuel : ℕ) (view : W → Buffer B)
    (law : IsBounded env.channel capacity view) (room : 0 < capacity) where
  after_poll-Kept :
      (target tick_start : F) (at : Position Source) (polled : Result B) (r : Run F W)
      → Tallied settings.overflow at.tick r.summary
      → Kept settings.overflow
          (after_poll timing env settings (suc fuel) target tick_start at polled r)
  unfolding after_poll measured
  after_poll-Kept target tick_start at (ok batch) r h =
      let t = env.monotonic r.world in
      let c = env.current_time t.1 in
      let duration_ms = timing.to_ms (timing.sub t.0 tick_start) in
      let drift_ms = timing.to_ms (timing.sub c.0 target) in
      let before = measured timing duration_ms drift_ms (set_world c.1 r) in
      published_Kept settings.overflow at
        (publish env.channel (suc fuel) settings.overflow batch before)
        (λ done.
          let (same, late, emitted, promised, counted) =
            returned-Refines env.channel capacity view law fuel batch before settings.overflow room
              done in
          published_Tallied settings.overflow at.tick late emitted before
            (publish env.channel (suc fuel) settings.overflow batch before).1
            (Published-Balance promised) counted h)
  after_poll-Kept target tick_start at (err e) r h =
      elim (Bool-cases (is_a e connection_error && settings.auto_reconnect)) [
        | inl gone ↦ rw gone (reconnect-Kept timing env settings settings.overflow at r h)
        | inr other ↦ rw other tt
      ]
  after_poll-Kept target tick_start at stuck r h = tt

  poll_slot-Kept :
      (target : F) (at : Position Source) (r : Run F W)
      → Tallied settings.overflow at.tick r.summary
      → Kept settings.overflow (poll_slot timing env settings (suc fuel) target at r)
  unfolding poll_slot
  poll_slot-Kept target at r h =
      let begun = env.monotonic r.world in
      let polled = env.poll_many at.active_source begun.1 in
      after_poll-Kept target begun.0 at polled.0 (set_world polled.1 r) h

  round-Kept :
      (start : F) (at : Position Source) (r : Run F W)
      → Tallied settings.overflow at.tick r.summary
      → Kept settings.overflow (round timing env settings (suc fuel) start at r)
  unfolding round wait_for_slot
  round-Kept start at r h =
      let missed = missed_at timing env settings start at.tick r in
      let at' = record at { tick = at.tick + missed } in
      poll_slot-Kept (slot timing start (at.tick + missed) settings.period) at'
        (wait_for_slot timing env settings start (at.tick + missed) (count_late missed r))
        (late_Tallied settings.overflow at.tick missed 0 r.summary (count_late missed r).summary
          (omega arith) refl refl (omega arith) h)

  run_from-Complete :
      (rounds : ℕ) (start : F) (at : Position Source) (r : Run F W)
      → Tallied settings.overflow at.tick r.summary
      → Complete settings (run_from timing env settings (suc fuel) rounds start at r)
  unfolding run_from
  run_from-Complete zero start at r h =
      elim (Bool-cases (more_ticks settings.total_ticks at.tick)) [
        | inl more ↦ rw more tt
        | inr enough ↦ rw enough (h, enough)
      ]
  run_from-Complete (suc rounds) start at r h =
      elim (Bool-cases (more_ticks settings.total_ticks at.tick)) [
        | inl more ↦
            rw (more, run_from)
              (goes_on settings (round timing env settings (suc fuel) start at r)
                (λ p. run_from timing env settings (suc fuel) rounds start p)
                (round-Kept start at r h) (run_from-Complete rounds start))
        | inr enough ↦ rw (enough, run_from) (h, enough)
      ]

  -- On a stream that holds at least one batch: where the producer returns, it stands at a tick that is
  -- not below `total_ticks`, and the batches that were emitted and those that were late make up the
  -- ticks: exactly under BLOCK and DROP_NEWEST, and at least under DROP_OLDEST. No more disconnects than
  -- late batches were counted.
  pub run_producer-Complete :
      (rounds : ℕ) (source : Source) (r : Run F W)
      → r.summary ≡ fresh_summary timing
      → Complete settings (run_producer timing env settings (suc fuel) rounds source r)
  unfolding run_producer fresh_summary
  run_producer-Complete rounds source r fresh =
      let start = env.current_time r.world in
      closed env settings
        (run_from timing env settings (suc fuel) rounds start.0
          (record { tick = 0; backoff_idx = 0; active_source = source }) (set_world start.1 r))
        (run_from-Complete rounds start.0
          (record { tick = 0; backoff_idx = 0; active_source = source }) (set_world start.1 r)
          (subst (λ s. Tallied settings.overflow 0 s) (sym fresh) (none_yet settings.overflow)))
    where
      none_yet : (policy : OverflowPolicy) → Tallied policy 0 (fresh_summary timing)
      none_yet block = omega arith
      none_yet drop_newest = omega arith
      none_yet drop_oldest = omega arith
