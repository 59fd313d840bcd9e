-- ===== src/Tests/Streaming.antt =====
-- The recorder on a stream that holds two batches, with a clock that counts.
use watlowlib.Base.{
  ℕ, ◌+◌, ◌-◌, ◌*◌, ◌/◌, ◌≡◌, inl, inr, refl, arith, List, [], ◌∷◌, ◌++◌, true, Option, none, some,
  ltb, length, ap, subst, if◌then◌else◌, Bool-cases,
}
use watlowlib.Errors.{connection_error}
use watlowlib.Result.{Result, ok, err}
use watlowlib.Streaming.Summary.{Timing, block, drop_oldest, fresh_summary}
use watlowlib.Streaming.Channel.{
  Channel, Buffer, Received, rest, take_one, Added, queued, IsBounded,
}
use watlowlib.Streaming.Publish.{Run, publish}
use watlowlib.Streaming.Publish.Refine.{Refines, publish-Refines}
use watlowlib.Streaming.Producer.{Surroundings, Settings, run_producer}
use watlowlib.Streaming.Producer.Counters.{Complete, run_producer-Complete}
use watlowlib.Streaming.Producer.Termination.{Ends, run_producer-Ends}

data Slots : Type 0 where
  empty : Slots
  one_batch : ℕ → Slots
  two_batches : ℕ → ℕ → Slots

-- What the consumer has taken, what it has not, and the clock.
data World : Type 0 where
  world : List ℕ → Slots → ℕ → World

abbrev batches : Slots → List ℕ
batches empty = []
batches (one_batch a) = a ∷ []
batches (two_batches a b) = a ∷ b ∷ []

abbrev view : World → Buffer ℕ
view (world t s n) = record { taken = t; waiting = batches s }

-- `send` waits until the consumer has emptied the stream.
abbrev put_last : ℕ → World → World
put_last x (world t empty n) = world t (one_batch x) n
put_last x (world t (one_batch a) n) = world (t ++ (a ∷ [])) (one_batch x) n
put_last x (world t (two_batches a b) n) = world ((t ++ (a ∷ [])) ++ (b ∷ [])) (one_batch x) n

abbrev put : ℕ → World → Option World
put x (world t empty n) = some (world t (one_batch x) n)
put x (world t (one_batch a) n) = some (world t (two_batches a x) n)
put x (world t (two_batches a b) n) = none

abbrev take_first : World → Option (ℕ × World)
take_first (world t empty n) = none
take_first (world t (one_batch a) n) = some (a, world t empty n)
take_first (world t (two_batches a b) n) = some (a, world t (one_batch b) n)

abbrev channel : Channel ℕ World
channel = record {
  send = λ x w. (ok tt, put_last x w);
  send_nowait = put;
  receive_nowait = take_first;
}

put_last-Added :
    (x : ℕ) (w : World) → (y : Buffer ℕ) × Received (view w) y × Added 2 x y (view (put_last x w))
put_last-Added x (world t empty n) = (_, rest _, queued t [] (omega arith))
put_last-Added x (world t (one_batch a) n) =
    (_, take_one t a [] (rest _), queued (t ++ (a ∷ [])) [] (omega arith))
put_last-Added x (world t (two_batches a b) n) = (
  _,
  take_one t a (b ∷ []) (take_one (t ++ (a ∷ [])) b [] (rest _)),
  queued ((t ++ (a ∷ [])) ++ (b ∷ [])) [] (omega arith),
)

from_some : {x y : World} → some x ≡ some y → x ≡ y
from_some e = cc e

put-Added : (x : ℕ) (w w' : World) → put x w ≡ some w' → Added 2 x (view w) (view w')
put-Added x (world t empty n) w' e =
    subst (λ v. Added 2 x (view (world t empty n)) (view v)) (from_some e)
      (queued t [] (omega arith))
put-Added x (world t (one_batch a) n) w' e =
    subst (λ v. Added 2 x (view (world t (one_batch a) n)) (view v)) (from_some e)
      (queued t (a ∷ []) (omega arith))
put-Added x (world t (two_batches a b) n) w' e = absurd (cc e)

full : (x : ℕ) (w : World) → put x w ≡ none → length (view w).waiting ≡ 2
full x (world t empty n) e = absurd (cc e)
full x (world t (one_batch a) n) e = absurd (cc e)
full x (world t (two_batches a b) n) e = refl

-- The buffer before a batch was taken.
abbrev restored : Option (ℕ × World) → Buffer ℕ
restored none = record { taken = []; waiting = [] }
restored (some x) = record { taken = (view x.1).taken; waiting = x.0 ∷ (view x.1).waiting }

taken_first :
    (w w' : World) (b : ℕ)
    → take_first w ≡ some (b, w')
    → view w ≡ record { taken = (view w').taken; waiting = b ∷ (view w').waiting }
taken_first (world t empty n) w' b e = absurd (cc e)
taken_first (world t (one_batch a) n) w' b e = ap restored e
taken_first (world t (two_batches a c) n) w' b e = ap restored e

dried : (w : World) → take_first w ≡ none → (view w).waiting ≡ []
dried (world t empty n) e = refl
dried (world t (one_batch a) n) e = absurd (cc e)
dried (world t (two_batches a c) n) e = absurd (cc e)

channel-IsBounded : IsBounded channel 2 view
channel-IsBounded = record {
  sends = λ x w w' e.
      subst (λ v. (y : Buffer ℕ) × Received (view w) y × Added 2 x y (view v)) (ap (λ p. p.1) e)
        (put_last-Added x w);
  sends_now = put-Added;
  blocks = full;
  receives = taken_first;
  dry = dried;
}

abbrev counting : Timing ℕ
counting = record {
  lt = ltb;
  positive = λ a. ltb 0 a;
  add = λ a b. a + b;
  sub = λ a b. a - b;
  times = λ n a. n * a;
  inverse = λ a. a;
  to_ms = λ a. a * 1000;
  whole_ratio = λ a b. a / b;
  round_mul = λ a b. a * b;
  halves = λ n. n;
}

abbrev read_clock : World → ℕ × World
read_clock (world t s n) = (n, world t s (n + 1))

abbrev wait_until : ℕ → World → World
wait_until n (world t s m) = world t s n

-- The second poll finds the device gone.
abbrev poll_clock : World → Result ℕ × World
poll_clock (world t s n) =
    ((if ltb n 8 then ok n else if ltb n 20 then err connection_error else ok n), world t s (n + 2))

poll-Ends : (w : World) → Ends (poll_clock w).0
poll-Ends (world t s n) = elim (Bool-cases (ltb n 8)) [
  | inl early ↦ rw early tt
  | inr late ↦
      rw late (elim (Bool-cases (ltb n 20)) [ inl gone ↦ rw gone tt | inr back ↦ rw back tt ])
]

abbrev surroundings : Surroundings ℕ ℕ ℕ World
surroundings = record {
  channel = channel;
  current_time = read_clock;
  monotonic = read_clock;
  sleep_until = wait_until;
  sleep = λ d w. elim w [ world t s n ↦ world t s (n + d) ];
  poll_many = λ source w. poll_clock w;
  reconnect_factory = none;
  aclose = λ w. w;
}

abbrev settings : Settings ℕ
settings = record {
  period = 10;
  total_ticks = some 4;
  overflow = drop_oldest;
  auto_reconnect = true;
}

abbrev fresh_run : World → Run ℕ World
fresh_run w = record { summary = fresh_summary counting; tick_durations_ms = []; world = w }

publish-Refines_example :
    Refines 2 view drop_oldest 7
      (fresh_run (world [] (two_batches 5 6) 0))
      (publish channel 1 drop_oldest 7 (fresh_run (world [] (two_batches 5 6) 0)))
publish-Refines_example =
    publish-Refines channel 2 view channel-IsBounded 0 7 (fresh_run (world [] (two_batches 5 6) 0))
      drop_oldest (λ b. record { returns = λ x w. refl }) (omega arith)

run_producer-Complete_example :
    Complete settings
      (run_producer counting surroundings settings 1 4 0 (fresh_run (world [] empty 0)))
run_producer-Complete_example =
    run_producer-Complete counting surroundings settings 2 0 view channel-IsBounded (omega arith) 4
      0 (fresh_run (world [] empty 0)) refl

-- Under BLOCK, with a consumer that empties the stream.
abbrev blocking : Settings ℕ
blocking = record settings { overflow = block }

run_producer-Ends_example :
    Ends (run_producer counting surroundings blocking 1 4 0 (fresh_run (world [] empty 0))).0
run_producer-Ends_example =
    run_producer-Ends counting surroundings blocking 2 0 view channel-IsBounded
      (λ b. record { returns = λ x w. refl }) (omega arith) (λ source w. poll-Ends w) tt 4 0
      (fresh_run (world [] empty 0)) refl
