-- ===== src/Streaming/Channel.antt =====
-- What the recorder uses of anyio's memory object stream, with the documented behaviour as laws, and
-- what each overflow policy promises of a bounded buffer.
use watlowlib.Base.{ℕ, ◌<◌, ◌≡◌, List, [], ◌∷◌, ◌++◌, Option, none, some, length}
use watlowlib.Result.{ok}
use watlowlib.Exec.{Exec}
use watlowlib.Streaming.Summary.{OverflowPolicy, block, drop_newest, drop_oldest}

-- The two ends that the producer holds: `send_stream` and `drop_rx`. `W` is everything outside of the
-- recorder, the consumer included; `none` is `anyio.WouldBlock`, and a `send` that waits for ever is
-- `stuck`.
pub record Channel (B W : Type 0) : Type 0 where
  pub send : B → Exec W (Unit {0})
  pub send_nowait : B → W → Option W
  pub receive_nowait : W → Option (B × W)

-- The batches that the consumer has taken, and those in the stream, oldest first.
pub record Buffer (B : Type 0) : Type 0 where
  pub taken : List B
  pub waiting : List B

-- The consumer takes the oldest batches.
pub data Received {B : Type 0} : Buffer B → Buffer B → Type 0 where
  rest : (x : Buffer B) → Received x x
  take_one :
      {y : Buffer B} (t : List B) (b : B) (q : List B)
      → Received (record { taken = t ++ (b ∷ []); waiting = q }) y
      → Received (record { taken = t; waiting = b ∷ q }) y

-- One batch is added: to a consumer that waits, or to the end of a stream with room.
pub data Added {B : Type 0} (capacity : ℕ) (b : B) : Buffer B → Buffer B → Type 0 where
  handed :
      (t : List B)
      → Added capacity b
          (record { taken = t; waiting = [] })
          (record { taken = t ++ (b ∷ []); waiting = [] })
  queued :
      (t q : List B)
      → length q < capacity
      → Added capacity b
          (record { taken = t; waiting = q })
          (record { taken = t; waiting = q ++ (b ∷ []) })

-- What a policy may do with a batch: how many batches it counts as late, and as emitted.
pub data Published {B : Type 0} (capacity : ℕ) (b : B)
    : OverflowPolicy → ℕ → ℕ → Buffer B → Buffer B → Type 0 where
  waited :
      (x y z : Buffer B) → Received x y → Added capacity b y z → Published capacity b block 0 1 x z
  newest_added : (x y : Buffer B) → Added capacity b x y → Published capacity b drop_newest 0 1 x y
  newest_dropped :
      (x : Buffer B) → length x.waiting ≡ capacity → Published capacity b drop_newest 1 0 x x
  oldest_added : (x y : Buffer B) → Added capacity b x y → Published capacity b drop_oldest 0 1 x y
  oldest_dropped :
      (x y z : Buffer B) (oldest : B)
      → length x.waiting ≡ capacity
      → x ≡ record { taken = y.taken; waiting = oldest ∷ y.waiting }
      → Added capacity b y z
      → Published capacity b drop_oldest 1 1 x z

-- The stream holds at most `capacity` batches: `send` returns when the consumer has made room,
-- `send_nowait` fails on a full stream only, and `receive_nowait` takes the oldest batch.
pub record IsBounded {B W : Type 0} (ch : Channel B W) (capacity : ℕ) (view : W → Buffer B)
    : Type 0 where
  pub sends :
      (b : B) (w w' : W)
      → ch.send b w ≡ (ok tt, w')
      → (y : Buffer B) × Received (view w) y × Added capacity b y (view w')
  pub sends_now :
      (b : B) (w w' : W) → ch.send_nowait b w ≡ some w' → Added capacity b (view w) (view w')
  pub blocks : (b : B) (w : W) → ch.send_nowait b w ≡ none → length (view w).waiting ≡ capacity
  pub receives :
      (w w' : W) (b : B)
      → ch.receive_nowait w ≡ some (b, w')
      → view w ≡ record { taken = (view w').taken; waiting = b ∷ (view w').waiting }
  pub dry : (w : W) → ch.receive_nowait w ≡ none → (view w).waiting ≡ []

-- The consumer does not stall: whenever the producer waits in `send`, it makes room. Nothing in the
-- recorder sees to that.
pub record MakesRoom {B W : Type 0} (ch : Channel B W) : Type 0 where
  pub returns : (b : B) (w : W) → (ch.send b w).0 ≡ ok tt
