-- ===== src/Streaming/Publish.antt =====
-- src/watlowlib/streaming/recorder.py: `_publish`. Its `while True` runs on fuel.
use watlowlib.Base.{ℕ, zero, suc, ◌+◌, List, Option, none, some}
use watlowlib.Result.{Result, ok, err, stuck}
use watlowlib.Exec.{Exec}
use watlowlib.Streaming.Summary.{
  OverflowPolicy, block, drop_newest, drop_oldest, AcquisitionSummary,
}
use watlowlib.Streaming.Channel.{Channel}
pub mod Refine

-- What the producer changes: the summary, the durations of the polls, and the world.
pub record Run (F W : Type 0) : Type 0 where
  pub summary : AcquisitionSummary F
  pub tick_durations_ms : List F
  pub world : W

module _ {F W : Type 0} where
  abbrev pub set_world : W → Run F W → Run F W
  set_world w r = record r { world = w }

  abbrev pub count_emitted : Run F W → Run F W
  count_emitted r = record r {
    summary = record r.summary { samples_emitted = r.summary.samples_emitted + 1 };
  }

  abbrev pub count_late : ℕ → Run F W → Run F W
  count_late n r = record r {
    summary = record r.summary { samples_late = r.summary.samples_late + n };
  }

  -- The batch was sent, or `anyio.WouldBlock` was raised, and what follows.
  abbrev pub sent_or :
      Option W → Run F W → Result (Unit {0}) × Run F W → Result (Unit {0}) × Run F W
  sent_or none r otherwise = otherwise
  sent_or (some w) r otherwise = (ok tt, count_emitted (set_world w r))

  -- `send` returned, raised or waits, and what follows.
  abbrev pub waited_for : Result (Unit {0}) × W → Run F W → Result (Unit {0}) × Run F W
  waited_for (ok done, w) r = (ok tt, count_emitted (set_world w r))
  waited_for (err e, w) r = (err e, set_world w r)
  waited_for (stuck, w) r = (stuck, set_world w r)

  abbrev evicted : {B : Type 0} → Option (B × W) → Run F W → Run F W
  evicted none r = r
  evicted (some x) r = count_late 1 (set_world x.1 r)

module _ {F B W : Type 0} (ch : Channel B W) where
  -- `drop_rx.receive_nowait()`
  unfoldable pub evict : Run F W → Run F W
  evict r = evicted (ch.receive_nowait r.world) r

  unfoldable pub evict_until_sent : ℕ → B → Exec (Run F W) (Unit {0})
  evict_until_sent zero batch r = (stuck, r)
  evict_until_sent (suc fuel) batch r =
      let freed = evict r in
      sent_or (ch.send_nowait batch freed.world) freed (evict_until_sent fuel batch freed)

  unfoldable pub publish : ℕ → OverflowPolicy → B → Exec (Run F W) (Unit {0})
  publish fuel block batch r = waited_for (ch.send batch r.world) r
  publish fuel drop_newest batch r =
      sent_or (ch.send_nowait batch r.world) r (ok tt, count_late 1 r)
  publish fuel drop_oldest batch r =
      sent_or (ch.send_nowait batch r.world) r (evict_until_sent fuel batch r)
