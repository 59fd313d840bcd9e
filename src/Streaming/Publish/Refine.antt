-- ===== src/Streaming/Publish/Refine.antt =====
-- `_publish` against the promises of the overflow policies.
use watlowlib.Base.{ℕ, suc, ◌+◌, ◌<◌, ◌≡◌, inl, inr, refl, ap, some, length, arith, Option-cases}
use watlowlib.Result.{Result, ok, err, stuck}
use watlowlib.Streaming.Summary.{OverflowPolicy, block, drop_newest, drop_oldest}
use watlowlib.Streaming.Channel.{
  Channel, Buffer, Published, waited, newest_added, newest_dropped, oldest_added, oldest_dropped,
  IsBounded, MakesRoom,
}
use watlowlib.Streaming.Publish.{
  Run, waited_for, set_world, count_late, count_emitted, evict, evict_until_sent, publish,
}

-- What a publication changes of a run: the two counters by what is counted, and the world.
pub record Counted {F W : Type 0} (late emitted : ℕ) (r r' : Run F W) : Type 0 where
  pub late_counted : r'.summary.samples_late ≡ r.summary.samples_late + late
  pub emitted_counted : r'.summary.samples_emitted ≡ r.summary.samples_emitted + emitted
  pub drift_kept : r'.summary.max_drift_ms ≡ r.summary.max_drift_ms
  pub disconnects_kept : r'.summary.disconnects ≡ r.summary.disconnects
  pub durations_kept : r'.tick_durations_ms ≡ r.tick_durations_ms

abbrev pub Refines :
    {F B W : Type 0}
    → ℕ
    → (W → Buffer B)
    → OverflowPolicy
    → B
    → Run F W
    → Result (Unit {0}) × Run F W
    → Type 0
Refines capacity view policy b r x =
    (x.0 ≡ ok tt)
    × (late : ℕ) × (emitted : ℕ) × Published capacity b policy late emitted (view r.world)
        (view x.1.world)
    × Counted late emitted r x.1

emitted_Counted :
    {F W : Type 0} (w : W) (r : Run F W) → Counted 0 1 r (count_emitted (set_world w r))
emitted_Counted w r = record {
  late_counted = omega arith;
  emitted_counted = omega arith;
  drift_kept = refl;
  disconnects_kept = refl;
  durations_kept = refl;
}

late_Counted : {F W : Type 0} (r : Run F W) → Counted 1 0 r (count_late 1 r)
late_Counted r = record {
  late_counted = omega arith;
  emitted_counted = omega arith;
  drift_kept = refl;
  disconnects_kept = refl;
  durations_kept = refl;
}

replaced_Counted :
    {F W : Type 0} (w w' : W) (r : Run F W)
    → Counted 1 1 r (count_emitted (set_world w' (count_late 1 (set_world w r))))
replaced_Counted w w' r = record {
  late_counted = omega arith;
  emitted_counted = omega arith;
  drift_kept = refl;
  disconnects_kept = refl;
  durations_kept = refl;
}

evict-some :
    {F B W : Type 0} (ch : Channel B W) (r : Run F W) (x : B × W)
    → ch.receive_nowait r.world ≡ some x
    → evict ch r ≡ count_late 1 (set_world x.1 r)
unfolding evict
evict-some ch r x e = rw e refl

module _ {F B W : Type 0} (ch : Channel B W) (capacity : ℕ) (view : W → Buffer B)
    (law : IsBounded ch capacity view) (fuel : ℕ) (b : B) (r : Run F W) where
  -- On a full stream one eviction makes room.
  evict_until_sent-Refines :
      0 < capacity
      → length (view r.world).waiting ≡ capacity
      → Refines capacity view drop_oldest b r (evict_until_sent ch (suc fuel) b r)
  unfolding evict_until_sent
  evict_until_sent-Refines room full = elim (Option-cases (ch.receive_nowait r.world)) [
    | inl dry ↦ absurd (omega (arith, full, room, ap length (law.dry r.world dry)))
    | inr (x, taken) ↦ rw (evict-some ch r x taken) (elim (Option-cases (ch.send_nowait b x.1)) [
      | inl blocked ↦ absurd (
          omega (
            arith,
            full,
            law.blocks b x.1 blocked,
            ap (λ y. length (Buffer.waiting y)) (law.receives r.world x.1 x.0 taken),
          ))
      | inr (w, sent) ↦ rw sent (
        refl,
        1,
        1,
        oldest_dropped (view r.world) (view x.1) (view w) x.0 full
            (law.receives r.world x.1 x.0 taken) (law.sends_now b x.1 w sent),
        replaced_Counted x.1 w r,
      )
    ])
  ]

module _ {F B W : Type 0} (ch : Channel B W) (capacity : ℕ) (view : W → Buffer B)
    (law : IsBounded ch capacity view) (fuel : ℕ) (b : B) (r : Run F W) where
  waited-Refines :
      (x : Result (Unit {0}) × W)
      → (waited_for x r).0 ≡ ok tt
      → ((w : W) → x ≡ (ok tt, w) → ch.send b r.world ≡ (ok tt, w))
      → Refines capacity view block b r (waited_for x r)
  waited-Refines (ok done, w) e same =
      let (y, received, added) = law.sends b r.world w (same w refl) in
      (refl, 0, 1, waited (view r.world) y (view w) received added, emitted_Counted w r)
  waited-Refines (err x, w) e same = absurd (cc e)
  waited-Refines (stuck, w) e same = absurd (cc e)

  waited_returns : (x : Result (Unit {0}) × W) → x.0 ≡ ok tt → (waited_for x r).0 ≡ ok tt
  waited_returns (ok done, w) e = refl
  waited_returns (err x, w) e = absurd (cc e)
  waited_returns (stuck, w) e = absurd (cc e)

  -- On a stream that holds at least one batch, `_publish` returns, within one round of its loop, under
  -- BLOCK provided that the consumer makes room, and does to the stream what the policy promises: BLOCK
  -- waits and adds the batch, DROP_NEWEST adds it or, on a full stream, drops it, DROP_OLDEST adds it,
  -- on a full stream in the place of the oldest. The counters grow by one for each batch added and one
  -- for each batch dropped.
  pub publish-Refines :
      (policy : OverflowPolicy)
      → (policy ≡ block → MakesRoom ch)
      → 0 < capacity
      → Refines capacity view policy b r (publish ch (suc fuel) policy b r)
  unfolding publish
  publish-Refines block drains room =
      waited-Refines (ch.send b r.world)
        (waited_returns (ch.send b r.world) ((drains refl).returns b r.world)) (λ w e. e)
  publish-Refines drop_newest drains room = elim (Option-cases (ch.send_nowait b r.world)) [
    | inl blocked ↦
        rw blocked
          (refl, 1, 0, newest_dropped (view r.world) (law.blocks b r.world blocked), late_Counted r)
    | inr (w, sent) ↦ rw sent (
      refl,
      0,
      1,
      newest_added (view r.world) (view w) (law.sends_now b r.world w sent),
      emitted_Counted w r,
    )
  ]
  publish-Refines drop_oldest drains room = elim (Option-cases (ch.send_nowait b r.world)) [
    | inl blocked ↦
        rw blocked (
          evict_until_sent-Refines ch capacity view law fuel b r room
            (law.blocks b r.world blocked))
    | inr (w, sent) ↦ rw sent (
      refl,
      0,
      1,
      oldest_added (view r.world) (view w) (law.sends_now b r.world w sent),
      emitted_Counted w r,
    )
  ]

  -- The same of a publication that returns, whatever the consumer does.
  pub returned-Refines :
      (policy : OverflowPolicy)
      → 0 < capacity
      → (publish ch (suc fuel) policy b r).0 ≡ ok tt
      → Refines capacity view policy b r (publish ch (suc fuel) policy b r)
  unfolding publish
  returned-Refines block room e = waited-Refines (ch.send b r.world) e (λ w same. same)
  returned-Refines drop_newest room e = publish-Refines drop_newest (λ same. absurd (cc same)) room
  returned-Refines drop_oldest room e = publish-Refines drop_oldest (λ same. absurd (cc same)) room
