-- ===== src/Streaming/Producer/Termination.antt =====
-- The loop of the producer ends.
use watlowlib.Base.{
  ℕ, zero, suc, ◌+◌, ◌≤◌, ◌<◌, ◌≡◌, inl, inr, ◌&&◌, Option, none, some, ltb-false, arith,
  Bool-cases,
}
use watlowlib.Errors.{connection_error, is_a}
use watlowlib.Result.{Result, ok, err, stuck}
use watlowlib.Exec.{Exec, continue}
use watlowlib.Streaming.Summary.{Timing, block}
use watlowlib.Streaming.Channel.{Buffer, IsBounded, MakesRoom}
use watlowlib.Streaming.Publish.{Run, set_world, count_late}
use watlowlib.Streaming.Publish.Refine.{publish-Refines}
use watlowlib.Streaming.Producer.{
  Surroundings, Settings, Position, slot, backed_off, more_ticks, measured, count_disconnect,
  missed_at, wait_for_slot, rebuilt, rebuild, reconnect, after_poll, poll_slot, round, run_from,
  run_producer,
}

-- A part of the loop ends, and where it returns, behind tick `n`.
abbrev Passes : {Source S : Type 0} → ℕ → Result (Position Source) × S → Type 0
Passes n (ok at, s) = n < at.tick
Passes n (err e, s) = Unit {0}
Passes n (stuck, s) = ⊥

abbrev pub Ends : {A : Type 0} → Result A → Type 0
Ends (ok a) = Unit {0}
Ends (err e) = Unit {0}
Ends stuck = ⊥

abbrev pub FactoryEnds : {Source W : Type 0} → Option (Exec W Source) → Type 0
FactoryEnds none = Unit {0}
FactoryEnds {W = W} (some factory) = (w : W) → Ends (factory w).0

goes_on :
    {F Source W : Type 0} (n : ℕ) (x : Result (Position Source) × Run F W)
    (next : Position Source → Exec (Run F W) (Position Source))
    → Passes n x
    → ((at : Position Source) (r : Run F W) → n < at.tick → Ends (next at r).0)
    → Ends (continue x.0 next x.1).0
goes_on n (ok at, r) next h k = k at r h
goes_on n (err e, r) next h k = tt
goes_on n (stuck, r) next h k = elim h [ ]

module _ {F B Source W : Type 0} (timing : Timing F) (env : Surroundings F B Source W)
    (settings : Settings F) where
  rebuilt-Passes :
      (at : Position Source) (x : Result Source × W)
      → Ends x.0
      → Passes at.tick (rebuilt timing env settings at x)
  unfolding rebuilt
  rebuilt-Passes at (ok source, w) h = omega arith
  rebuilt-Passes at (err e, w) h = elim (Bool-cases (is_a e connection_error)) [
    | inl gone ↦ rw gone (omega arith)
    | inr other ↦ rw other tt
  ]
  rebuilt-Passes at (stuck, w) h = elim h [ ]

  rebuild-Passes :
      (at : Position Source) (factory : Option (Exec W Source)) (w : W)
      → FactoryEnds factory
      → Passes at.tick (rebuild timing env settings at factory w)
  unfolding rebuild
  rebuild-Passes at none w h = omega arith
  rebuild-Passes at (some factory) w h = rebuilt-Passes at (factory w) (h w)

  reconnect-Passes :
      (at : Position Source) (r : Run F W)
      → FactoryEnds env.reconnect_factory
      → Passes at.tick (reconnect timing env settings at r)
  unfolding reconnect
  reconnect-Passes at r h =
      go
        (rebuild timing env settings at env.reconnect_factory
          (backed_off timing env settings at (count_disconnect r).world))
        (rebuild-Passes at env.reconnect_factory
          (backed_off timing env settings at (count_disconnect r).world) h)
    where
      go :
          (x : Result (Position Source) × W)
          → Passes at.tick x
          → Passes at.tick (x.0, set_world x.1 (count_disconnect r))
      go (ok at', w) h = h
      go (err e, w) h = tt
      go (stuck, w) h = elim h [ ]

module _ {F B Source W : Type 0} (timing : Timing F) (env : Surroundings F B Source W)
    (settings : Settings F) (capacity fuel : ℕ) (view : W → Buffer B)
    (law : IsBounded env.channel capacity view)
    (drains : settings.overflow ≡ block → MakesRoom env.channel) (room : 0 < capacity)
    (polls : (source : Source) (w : W) → Ends (env.poll_many source w).0)
    (factories : FactoryEnds env.reconnect_factory) where
  after_poll-Passes :
      (target tick_start : F) (at : Position Source) (polled : Result B) (r : Run F W)
      → Ends polled
      → Passes at.tick (after_poll timing env settings (suc fuel) target tick_start at polled r)
  unfolding after_poll
  after_poll-Passes target tick_start at (ok batch) r h =
      let t = env.monotonic r.world in
      let c = env.current_time t.1 in
      let duration_ms = timing.to_ms (timing.sub t.0 tick_start) in
      let drift_ms = timing.to_ms (timing.sub c.0 target) in
      let before = measured timing duration_ms drift_ms (set_world c.1 r) in
      let (done, late, emitted, promised, counted) =
        publish-Refines env.channel capacity view law fuel batch before settings.overflow drains
          room in
      rw done (omega arith)
  after_poll-Passes target tick_start at (err e) r h =
      elim (Bool-cases (is_a e connection_error && settings.auto_reconnect)) [
        | inl gone ↦ rw gone (reconnect-Passes timing env settings at r factories)
        | inr other ↦ rw other tt
      ]
  after_poll-Passes target tick_start at stuck r h = elim h [ ]

  poll_slot-Passes :
      (target : F) (at : Position Source) (r : Run F W)
      → Passes at.tick (poll_slot timing env settings (suc fuel) target at r)
  unfolding poll_slot
  poll_slot-Passes target at r =
      let begun = env.monotonic r.world in
      let polled = env.poll_many at.active_source begun.1 in
      after_poll-Passes target begun.0 at polled.0 (set_world polled.1 r)
        (polls at.active_source begun.1)

  round-Passes :
      (start : F) (at : Position Source) (r : Run F W)
      → Passes at.tick (round timing env settings (suc fuel) start at r)
  unfolding round
  round-Passes start at r =
      let missed = missed_at timing env settings start at.tick r in
      let target = slot timing start (at.tick + missed) settings.period in
      let at' = record at { tick = at.tick + missed } in
      let r' = wait_for_slot timing env settings start (at.tick + missed) (count_late missed r) in
      weaker missed (poll_slot timing env settings (suc fuel) target at' r')
        (poll_slot-Passes target at' r')
    where
      weaker :
          (m : ℕ) (x : Result (Position Source) × Run F W)
          → Passes (at.tick + m) x
          → Passes at.tick x
      weaker m (ok p, s) h = omega (arith, h)
      weaker m (err e, s) h = tt
      weaker m (stuck, s) h = elim h [ ]

  run_from-Ends :
      (rounds n : ℕ) (start : F) (at : Position Source) (r : Run F W)
      → settings.total_ticks ≡ some n
      → n ≤ at.tick + rounds
      → Ends (run_from timing env settings (suc fuel) rounds start at r).0
  unfolding run_from
  run_from-Ends zero n start at r e h = rw (e, ltb-false at.tick n (omega (arith, h))) tt
  run_from-Ends (suc rounds) n start at r e h =
      elim (Bool-cases (more_ticks settings.total_ticks at.tick)) [
        | inl more ↦
            rw (more, run_from)
              (goes_on at.tick (round timing env settings (suc fuel) start at r)
                (λ p. run_from timing env settings (suc fuel) rounds start p)
                (round-Passes start at r)
                (λ p s past. run_from-Ends rounds n start p s e (omega (arith, h, past))))
        | inr enough ↦ rw (enough, run_from) tt
      ]

  -- With a stream that holds at least one batch, polls and a factory that end, whether they return or
  -- raise, and a duration, and under BLOCK with a consumer that makes room whenever the producer waits
  -- (with one that stalls, the producer waits for ever), the producer ends within `total_ticks` rounds of its loop, each with one round
  -- of the loop of `_publish`: it returns, or it raises.
  pub run_producer-Ends :
      (n : ℕ) (source : Source) (r : Run F W)
      → settings.total_ticks ≡ some n
      → Ends (run_producer timing env settings (suc fuel) n source r).0
  unfolding run_producer
  run_producer-Ends n source r e =
      let start = env.current_time r.world in
      run_from-Ends n n start.0 (record { tick = 0; backoff_idx = 0; active_source = source })
        (set_world start.1 r) e (omega arith)
