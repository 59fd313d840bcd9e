-- ===== src/Transport/Fake.antt =====
-- src/watlowlib/transport/fake.py, `FakeTransport`: scripted replies in memory. The label and the
-- latency are not modelled.
use watlowlib.Base.{
  ℕ, ◌≡◌, arith, Bool, true, false, Option, none, some, List, [], ◌∷◌, ◌++◌, Bytes, length, take,
  drop, length-take, take-append, drop-append, length-append, ◌<◌, bytes_eq, ltb, leb,
  if◌then◌else◌,
}
use watlowlib.Errors.{watlow_timeout_error, connection_error}
use watlowlib.Result.{ok, err}
use watlowlib.Exec.{Exec}
use watlowlib.Transport.{Transport, ReadsExactly}

-- `bytes | Sequence[bytes]`, and `ScriptedReply`, which adds a callable.
pub data Reply : Type 0 where
  verbatim : Bytes → Reply
  chunks : List Bytes → Reply

pub data ScriptedReply : Type 0 where
  fixed : Reply → ScriptedReply
  computed : (Bytes → Reply) → ScriptedReply

abbrev join : List Bytes → Bytes
join [] = []
join (b ∷ bs) = b ++ join bs

unfoldable pub normalize_reply : Reply → Bytes
normalize_reply (verbatim b) = b
normalize_reply (chunks bs) = join bs

unfoldable pub produce : ScriptedReply → Bytes → Bytes
unfolding normalize_reply
produce (fixed r) payload = normalize_reply r
produce (computed f) payload = normalize_reply (f payload)

pub record Fake : Type 0 where
  pub script : List (Bytes × ScriptedReply)
  pub queue : List (Bytes × ScriptedReply)
  pub writes : List Bytes
  pub unmatched : List Bytes
  pub read_buffer : Bytes
  pub is_open : Bool
  pub read_timeout : Bool
  pub write_timeout : Bool

-- `self._script.get(payload)`; `add_script` puts the newest entry first.
unfoldable pub scripted : Bytes → List (Bytes × ScriptedReply) → Option ScriptedReply
scripted payload [] = none
scripted payload ((k, r) ∷ rest) = if bytes_eq k payload then some r else scripted payload rest

unfoldable pub from_queue :
    Bytes → List (Bytes × ScriptedReply) → Option ScriptedReply × List (Bytes × ScriptedReply)
from_queue payload [] = (none, [])
from_queue payload ((k, r) ∷ rest) =
    if bytes_eq k payload then (some r, rest) else (none, (k, r) ∷ rest)

-- The reply, and the queue that is left.
unfoldable pub resolve_reply : Bytes → Fake → Option ScriptedReply × List (Bytes × ScriptedReply)
unfolding scripted from_queue
resolve_reply payload s = elim (scripted payload s.script) [
  | some r ↦ (some r, s.queue)
  | none ↦ from_queue payload s.queue
]

-- `write` from the recorded payload on.
unfoldable pub answer : Bytes → Option ScriptedReply × List (Bytes × ScriptedReply) → Fake → Fake
unfolding produce
answer payload (none, q) s = record s {
  queue = q;
  writes = s.writes ++ (payload ∷ []);
  unmatched = s.unmatched ++ (payload ∷ []);
}
answer payload (some r, q) s = record s {
  queue = q;
  writes = s.writes ++ (payload ∷ []);
  read_buffer = s.read_buffer ++ produce r payload;
}

unfoldable pub write : Bytes → Exec Fake (Unit {0})
write payload s =
    if s.is_open
    then (if s.write_timeout
        then (err watlow_timeout_error, s)
        else (ok tt, answer payload (resolve_reply payload s) s))
    else (err connection_error, s)

unfoldable pub read_exact : ℕ → Exec Fake Bytes
read_exact n s =
    if s.is_open
    then (if s.read_timeout
        then (err watlow_timeout_error, s)
        else if ltb (length s.read_buffer) n
        then (err watlow_timeout_error, s)
        else (ok (take n s.read_buffer), record s { read_buffer = drop n s.read_buffer }))
    else (err connection_error, s)

unfoldable pub read_available : Option ℕ → Exec Fake Bytes
read_available limit s =
    if s.is_open
    then (elim limit [
      | none ↦ (ok s.read_buffer, record s { read_buffer = [] })
      | some n ↦
          if leb (length s.read_buffer) n
          then (ok s.read_buffer, record s { read_buffer = [] })
          else (ok (take n s.read_buffer), record s { read_buffer = drop n s.read_buffer })
    ])
    else (err connection_error, s)

unfoldable pub open_port : Exec Fake (Unit {0})
open_port s = if s.is_open then (err connection_error, s) else (ok tt, record s { is_open = true })

unfoldable pub close_port : Fake → Fake
close_port s = record s { is_open = false }

unfoldable pub drain_input : Fake → Fake
drain_input s = record s { read_buffer = [] }

unfoldable pub feed : Bytes → Fake → Fake
feed bs s = record s { read_buffer = s.read_buffer ++ bs }

unfoldable pub add_script : Bytes → ScriptedReply → Fake → Fake
add_script k r s = record s { script = (k, r) ∷ s.script }

unfoldable pub extend_queue : List (Bytes × ScriptedReply) → Fake → Fake
extend_queue rounds s = record s { queue = s.queue ++ rounds }

-- `FakeTransport` as a `Transport`.
abbrev pub fake_transport : Transport Fake
fake_transport = record { write = write; read_exact = read_exact }

abbrev pub with_buffer : Fake → Bytes → Fake
with_buffer s buf = record s { read_buffer = buf }

-- The port is open and reads are not forced to time out.
pub record IsReady (s : Fake) : Type 0 where
  pub opened : s.is_open ≡ true
  pub reading : s.read_timeout ≡ false

-- Enough bytes are waiting: `read_exact` takes them from the front.
pub read_exact-append :
    (s : Fake) (front rest : Bytes)
    → IsReady s
    → read_exact (length front) (with_buffer s (front ++ rest)) ≡ (ok front, with_buffer s rest)
unfolding read_exact
read_exact-append s front rest h =
    rw (take-append front rest, drop-append front rest) (ground (arith, length-append front rest))

-- Too few bytes are waiting: it times out, and leaves them for the next call.
pub read_exact_short :
    (s : Fake) (n : ℕ)
    → IsReady s
    → length s.read_buffer < n
    → read_exact n s ≡ (err watlow_timeout_error, s)
unfolding read_exact
read_exact_short s n h short = ground arith

-- `FakeTransport` keeps the contract of `read_exact`.
pub fake_transport-ReadsExactly : ReadsExactly fake_transport
unfolding read_exact write
fake_transport-ReadsExactly = record {
  exact = λ n s bs e. ground (arith, e, length-take n s.read_buffer);
  returns = λ n s e. ground (arith, e);
  write_returns = λ bs s e. ground (arith, e);
}
