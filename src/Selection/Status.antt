-- ===== src/Selection/Status.antt =====
-- The status cache and the event log of selection.py's client.
use mathlib.Core.List.{foldl}
use physical_ai_runtime.Common.{
  List, [], arith, if◌then◌else◌, leb_ℤ, length, length-push_bounded, pos, ℕ, ◌+ℤ◌, ◌∷◌, ◌≡◌, ◌≤◌,
}
use physical_ai_runtime.Authority.{AuthorityStatus}
use physical_ai_runtime.World.{
  Environment, Message, World, event, index_status, max_events, on_event, on_message, on_status,
  pause, status,
}
use physical_ai_runtime.Selection.{get_allocations, is_stale}

-- A status that arrived at `t` is what the client shows while it is at most `status_timeout` old;
-- after that the client shows nothing.
pub get_allocations-on_status :
    (w : World) (t : ℕ) (s : AuthorityStatus)
    → get_allocations (record w { client = on_status t s w.client })
      ≡ (if leb_ℤ (pos w.now) (pos t +ℤ w.client.status_timeout) then index_status s [] else [])
unfolding get_allocations is_stale on_status ◌+ℤ◌
get_allocations-on_status w t s = ground arith

-- The event log never holds more than its bound.
abbrev pub IsBounded : World → Type 0
IsBounded w = length w.client.events ≤ max_events

on_message-IsBounded : (w : World) (m : Message) → IsBounded w → IsBounded (on_message w m)
unfolding on_message on_status on_event
on_message-IsBounded w (status s) h = h
on_message-IsBounded w (event e) h = length-push_bounded max_events w.client.events e h

foldl-on_message-IsBounded :
    (ms : List Message) (w : World) → IsBounded w → IsBounded (foldl on_message w ms)
foldl-on_message-IsBounded [] w h = h
foldl-on_message-IsBounded (m ∷ ms) w h =
    foldl-on_message-IsBounded ms (on_message w m) (on_message-IsBounded w m h)

-- An event log within 2048 events is within them after a sleep, however many events arrive in it.
pub pause-IsBounded : (env : Environment) (w : World) → IsBounded w → IsBounded (pause env w)
unfolding pause
pause-IsBounded env w h =
    foldl-on_message-IsBounded (env.arrivals w.now) (record w { now = env.tick w.now }) h
