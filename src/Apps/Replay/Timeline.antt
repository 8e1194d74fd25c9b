-- ===== src/Apps/Replay/Timeline.antt =====
-- `load_trajectory` of apps/replay.py: the frames that it makes of the recorded messages.
use physical_ai_runtime.Common.Sorting.{
  IsSortedFrom, at_key, at_key-sort_by, is_empty-sort_by, sort_by-IsSortedFrom,
}
use physical_ai_runtime.Common.{
  -ℤ_parts, Bool, Dict, List, Option, String, [], ap, arith, eq_iff, false, get_elem?,
  if◌then◌else◌, insert, is_empty, length, lookup, lookup-insert, none, ok, pos, refl, some,
  some-injective, suc, sym, take, true, true_ne_false, zero, ℕ, ℤ, ◌-ℤ◌, ◌==◌, ◌∙◌, ◌∷◌, ◌≡◌, ◌≤ℤ◌,
}
use physical_ai_runtime.Config.{PartConfig}
use physical_ai_runtime.Apps.Replay.{
  ActionEvent, Episode, Frame, Recorded, StateEvent, action_topics, episode_of, first_poses,
  from_actions, insert_new, load_trajectory, merge_actions, parts_by_topic, read_messages,
}

abbrev or_else {ℓ} : {A : Type ℓ} → Option A → Option A → Option A
or_else (some a) d = some a
or_else none d = d

-- The last pose that some events give a part, and the first one.
abbrev pub newest_pose : String → List ActionEvent → Option (List ℤ)
newest_pose p [] = none
newest_pose p (e ∷ es) = or_else (newest_pose p es) (if e.part == p then some e.positions else none)

abbrev pub first_pose : String → List ActionEvent → Option (List ℤ)
first_pose p [] = none
first_pose p (e ∷ es) = if e.part == p then some e.positions else first_pose p es

-- The frame of one event: its time after the first event, and the newest pose of every part.
pub record Shows (start i : ℕ) (es : List ActionEvent) (e : ActionEvent) (f : Frame) : Type 0 where
  pub time : f.time ≡ pos e.time -ℤ pos start
  pub poses : (p : String) → lookup p f.poses ≡ newest_pose p (take (suc i) es)

newest-insert :
    (p : String) (e : ActionEvent) (d : Dict (List ℤ)) (later : Option (List ℤ))
    → or_else later (lookup p (insert e.part e.positions d))
      ≡ or_else (or_else later (if e.part == p then some e.positions else none)) (lookup p d)
newest-insert p e d none = ground (arith, lookup-insert e.part p e.positions d)
newest-insert p e d (some x) = refl

merge_actions-frame :
    (start i : ℕ) (es : List ActionEvent) (d : Dict (List ℤ)) {e : ActionEvent}
    → get_elem? es i ≡ some e
    → (f : Frame) × (get_elem? (merge_actions start d es) i ≡ some f)
      × (f.time ≡ pos e.time -ℤ pos start)
      × ((p : String) → lookup p f.poses ≡ or_else (newest_pose p (take (suc i) es)) (lookup p d))
unfolding merge_actions
merge_actions-frame start i [] d h = cc
merge_actions-frame start zero (x ∷ es) d h = (
  record { time = pos x.time -ℤ pos start; poses = insert x.part x.positions d },
  refl,
  ap (λ (y : ActionEvent). pos y.time -ℤ pos start) (some-injective h),
  λ p. newest-insert p x d none,
)
merge_actions-frame start (suc i) (x ∷ es) d h =
    let (f, at, time, poses) = merge_actions-frame start i es (insert x.part x.positions d) h in
    (f, at, time, λ p. poses p ∙ newest-insert p x d (newest_pose p (take (suc i) es)))

length-merge_actions :
    (start : ℕ) (d : Dict (List ℤ)) (es : List ActionEvent)
    → length (merge_actions start d es) ≡ length es
unfolding merge_actions
length-merge_actions start d [] = refl
length-merge_actions start d (e ∷ es) =
    ap suc (length-merge_actions start (insert e.part e.positions d) es)

lookup-insert_new :
    (p q : String) (x : List ℤ) (d : Dict (List ℤ))
    → lookup p (insert_new q x d) ≡ or_else (lookup p d) (if q == p then some x else none)
lookup-insert_new p q x d = ground (arith, lookup-insert q p x d, eq_iff q p)

or_else-none {ℓ} : {A : Type ℓ} (o : Option A) → or_else o none ≡ o
or_else-none none = refl
or_else-none (some x) = refl

or_else-if {ℓ} :
    {A : Type ℓ} (o : Option A) (b : Bool) (x : A) (later : Option A)
    → or_else (or_else o (if b then some x else none)) later
      ≡ or_else o (if b then some x else later)
or_else-if none true x later = refl
or_else-if none false x later = refl
or_else-if (some y) b x later = refl

lookup-first_poses :
    (p : String) (d : Dict (List ℤ)) (es : List ActionEvent)
    → lookup p (first_poses d es) ≡ or_else (lookup p d) (first_pose p es)
unfolding first_poses
lookup-first_poses p d [] = sym (or_else-none (lookup p d))
lookup-first_poses p d (e ∷ es) =
    lookup-first_poses p (insert_new e.part e.positions d) es
    ∙ ap (λ (o : Option (List ℤ)). or_else o (first_pose p es))
        (lookup-insert_new p e.part e.positions d)
    ∙ or_else-if (lookup p d) (e.part == p) e.positions (first_pose p es)

-- The frames are not before a time, and none is before the one ahead of it.
abbrev pub IsTimed : ℤ → List Frame → Type 0
IsTimed t [] = Unit
IsTimed t (f ∷ fs) = (t ≤ℤ f.time) × IsTimed f.time fs

merge_actions-IsTimed :
    (start k : ℕ) (d : Dict (List ℤ)) (es : List ActionEvent)
    → IsSortedFrom (λ (e : ActionEvent). e.time) k es
    → IsTimed (pos k -ℤ pos start) (merge_actions start d es)
unfolding merge_actions
merge_actions-IsTimed start k d [] s = tt
merge_actions-IsTimed start k d (e ∷ es) s = (
  omega (arith, s.0, -ℤ_parts (pos k) (pos start), -ℤ_parts (pos e.time) (pos start)),
  merge_actions-IsTimed start e.time (insert e.part e.positions d) es s.1,
)

merge_actions-Shows :
    (start i : ℕ) (es : List ActionEvent) {e : ActionEvent}
    → get_elem? es i ≡ some e
    → (f : Frame) × (get_elem? (merge_actions start [] es) i ≡ some f) × Shows start i es e f
merge_actions-Shows start i es h =
    let (f, at, time, poses) = merge_actions-frame start i es [] h in
    (
      f,
      at,
      record { time = time; poses = λ p. poses p ∙ or_else-none (newest_pose p (take (suc i) es)) },
    )

-- The episode of some actions: the timeline has one frame for each, in the order of time and of the
-- file where times are equal.
pub record Loaded (actions : List ActionEvent) (e : Episode) : Type 0 where
  pub first : ActionEvent
  pub others : List ActionEvent
  pub sorted : IsSortedFrom (λ (a : ActionEvent). a.time) first.time others
  pub same :
      (t : ℕ)
      → at_key (λ (a : ActionEvent). a.time) t (first ∷ others)
        ≡ at_key (λ (a : ActionEvent). a.time) t actions
  pub counted : length e.timeline ≡ length (first ∷ others)
  pub frame :
      (i : ℕ) {a : ActionEvent}
      → get_elem? (first ∷ others) i ≡ some a
      → (f : Frame) × (get_elem? e.timeline i ≡ some f) × Shows first.time i (first ∷ others) a f
  pub timed : IsTimed (pos 0) e.timeline
  pub starts : (p : String) → lookup p e.start_poses ≡ first_pose p (first ∷ others)

from_actions-Loaded :
    (actions es : List ActionEvent)
    → is_empty es ≡ false
    → IsSortedFrom (λ (a : ActionEvent). a.time) 0 es
    → ((t : ℕ)
        → at_key (λ (a : ActionEvent). a.time) t es
          ≡ at_key (λ (a : ActionEvent). a.time) t actions)
    → (e : Episode) × (from_actions es ≡ ok e) × Loaded actions e
unfolding from_actions merge_actions
from_actions-Loaded actions [] h s same = absurd (true_ne_false h)
from_actions-Loaded actions (x ∷ es) h s same = (
  episode_of x es,
  refl,
  record {
    first = x;
    others = es;
    sorted = s.1;
    same = same;
    counted = length-merge_actions x.time [] (x ∷ es);
    frame = λ i at. merge_actions-Shows x.time i (x ∷ es) at;
    timed = (
      omega (arith, -ℤ_parts (pos x.time) (pos x.time)),
      merge_actions-IsTimed x.time x.time (insert x.part x.positions []) es s.1,
    );
    starts = λ p. lookup-first_poses p [] (x ∷ es);
  },
)

-- A file with an action is loaded.
pub load_trajectory-Loaded :
    (parts : Dict PartConfig) (messages : List Recorded) {actions : List ActionEvent}
    {states : List StateEvent}
    → read_messages (parts_by_topic (action_topics parts) []) messages ≡ (actions, states)
    → is_empty actions ≡ false
    → (e : Episode) × (load_trajectory parts messages ≡ ok e) × Loaded actions e
unfolding load_trajectory
load_trajectory-Loaded parts messages {actions} {states} read some_action = rw read (
    rw some_action (
      from_actions-Loaded actions _ (is_empty-sort_by _ actions some_action)
        (sort_by-IsSortedFrom _ actions) (λ t. at_key-sort_by _ t actions)))
