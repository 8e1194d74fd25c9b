-- ===== src/World/Clock.antt =====
-- Waiting on the clock of the process: the polling loops of the RMI in its environment.
use mathlib.Core.List.{foldl}
use physical_ai_runtime.Common.{
  Bool, List, Result, [], arith, false, is_past, pos_part, refl, true, ℕ, ℤ, ◌+◌, ◌<◌, ◌∙◌, ◌∷◌,
  ◌≡◌, ◌≤◌,
}
use physical_ai_runtime.Waiting.{Future, Wait, expired, ready, stuck, wait_loop, wait_state}
use physical_ai_runtime.Waiting.Bounds.{Ends, wait_loop-Ends, wait_loop-keeps}
use physical_ai_runtime.World.{
  Environment, Message, World, event, finish_wait, on_event, on_message, on_status, pause, rounds,
  status, wait_future,
}

-- A sleep takes time.
abbrev pub Advances : Environment → Type 0
Advances env = (t : ℕ) → t < env.tick t

-- What messages leave alone: everything but the cache of the client.
pub record SameButCache (v w : World) : Type 0 where
  pub requests : w.requests ≡ v.requests
  pub outbox : w.outbox ≡ v.outbox
  pub stack : w.stack ≡ v.stack
  pub timeout : w.client.timeout ≡ v.client.timeout
  pub status_timeout : w.client.status_timeout ≡ v.client.status_timeout

pub SameButCache-refl : (w : World) → SameButCache w w
SameButCache-refl w = record {
  requests = refl;
  outbox = refl;
  stack = refl;
  timeout = refl;
  status_timeout = refl;
}

pub SameButCache-trans : {u v w : World} → SameButCache u v → SameButCache v w → SameButCache u w
SameButCache-trans p q = record {
  requests = q.requests ∙ p.requests;
  outbox = q.outbox ∙ p.outbox;
  stack = q.stack ∙ p.stack;
  timeout = q.timeout ∙ p.timeout;
  status_timeout = q.status_timeout ∙ p.status_timeout;
}

now-foldl-on_message : (ms : List Message) (w : World) → (foldl on_message w ms).now ≡ w.now
now-foldl-on_message [] w = refl
now-foldl-on_message (m ∷ ms) w = now-foldl-on_message ms (on_message w m) ∙ now_one m w
  where
    now_one : (m : Message) (w : World) → (on_message w m).now ≡ w.now
    now_one (status s) w = unfold on_message in refl
    now_one (event e) w = unfold on_message in refl

on_message-SameButCache : (w : World) (m : Message) → SameButCache w (on_message w m)
unfolding on_message on_status on_event
on_message-SameButCache w (status s) = record {
  requests = refl;
  outbox = refl;
  stack = refl;
  timeout = refl;
  status_timeout = refl;
}
on_message-SameButCache w (event e) = record {
  requests = refl;
  outbox = refl;
  stack = refl;
  timeout = refl;
  status_timeout = refl;
}

foldl-on_message-SameButCache :
    (ms : List Message) (w : World) → SameButCache w (foldl on_message w ms)
foldl-on_message-SameButCache [] w = SameButCache-refl w
foldl-on_message-SameButCache (m ∷ ms) w =
    SameButCache-trans (on_message-SameButCache w m)
      (foldl-on_message-SameButCache ms (on_message w m))

pub now-pause : (env : Environment) (w : World) → (pause env w).now ≡ env.tick w.now
unfolding pause
now-pause env w = now-foldl-on_message (env.arrivals w.now) (record w { now = env.tick w.now })

pub pause-SameButCache : (env : Environment) (w : World) → SameButCache w (pause env w)
unfolding pause
pause-SameButCache env w =
    SameButCache-trans
      (record {
        requests = refl;
        outbox = refl;
        stack = refl;
        timeout = refl;
        status_timeout = refl;
      })
      (foldl-on_message-SameButCache (env.arrivals w.now) (record w { now = env.tick w.now }))

-- What holds of every later state of a wait that began at `w`.
pub record Since (w t : World) : Type 0 where
  pub same : SameButCache w t
  pub later : w.now ≤ t.now

pub pause-Since :
    (env : Environment) → Advances env → (w t : World) → Since w t → Since w (pause env t)
pause-Since env advances w t h = record {
  same = SameButCache-trans h.same (pause-SameButCache env t);
  later = rw now-pause (omega (arith, advances t.now, h.later));
}

module _ (env : Environment) (advances : Advances env) (done : World → Bool) (w : World)
    (timeout : ℤ) where
  -- A wait on the clock of the process never runs out of rounds: it ends by its test, or by its
  -- deadline. Nothing but the cache of the client has changed.
  pub wait-Ends :
      Ends
        (λ t. Since w t × (done t ≡ true))
        (λ t. Since w t × (done t ≡ false) × (is_past w.now timeout t.now ≡ true))
        (wait_loop (rounds timeout) done (λ v. is_past w.now timeout v.now) (pause env) w)
  wait-Ends =
      wait_loop-Ends (λ t. t.now) done (λ v. is_past w.now timeout v.now) (pause env) (Since w)
        (λ t h. pause-Since env advances w t h) (λ t h. rw now-pause (advances t.now))
        (w.now + pos_part timeout) (rounds timeout) w (λ t h late. ground arith) (omega arith)
        (record { same = SameButCache-refl w; later = omega arith })

finish_wait-state :
    {A : Type 0} (outcome : Result A) (r : Wait World) → (finish_wait outcome r).1 ≡ wait_state r
finish_wait-state outcome (ready w) = refl
finish_wait-state outcome (expired w) = refl
finish_wait-state outcome (stuck w) = refl

-- Waiting for a future changes the clock and the cache of the client only.
pub wait_future-SameButCache :
    {A : Type 0} (env : Environment) (timeout : ℤ) (future : Future A) (w : World)
    → SameButCache w (wait_future env timeout future w).1
unfolding wait_future
wait_future-SameButCache env timeout future w = rw finish_wait-state (
    wait_loop-keeps (SameButCache w) _ _ (pause env)
      (λ t h. SameButCache-trans h (pause-SameButCache env t)) (rounds timeout) w
      (SameButCache-refl w))
