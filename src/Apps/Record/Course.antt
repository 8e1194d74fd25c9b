-- ===== src/Apps/Record/Course.antt =====
-- The attempts of apps/record.py and the course of the session: the episodes, and the directories
-- on the disk.
use physical_ai_runtime.Common.{
  List, Option, Result-cases, String, ap, inl, inr, none, pos, refl, some, ◌∷◌, ◌≡◌,
}
use physical_ai_runtime.Recording.{EpisodeScope, enter_episode, new_episode}
use physical_ai_runtime.Apps.Teleop.{Leader}
use physical_ai_runtime.Apps.Record.{
  Attempt, Attempted, EpisodeStatus, Station, Stop, Surroundings, attempt, finished, halted,
  in_episode, record_episode, unless, with_folder,
}

-- An attempt saves nothing and moves on to no other episode.
pub record SameCourse (s t : Station) : Type 0 where
  pub saved : t.saved ≡ s.saved
  pub current : t.current ≡ s.current
  pub folders : t.folders ≡ s.folders

module _ (w : Surroundings) (a : Attempt) (leaders : List Leader) (task : String)
    (s : Station) where
  in_episode-SameCourse :
      (scope : EpisodeScope EpisodeStatus) → SameCourse s (in_episode w a leaders scope s).1
  in_episode-SameCourse scope = elim (Result-cases (enter_episode w.reply scope).0) [
    | inl (u, h) ↦ rw (h, in_episode) (record { saved = refl; current = refl; folders = refl })
    | inr (e, h) ↦ rw (h, in_episode) (record { saved = refl; current = refl; folders = refl })
  ]

  record_episode-SameCourse : SameCourse s (record_episode w a leaders task s).1
  unfolding record_episode
  record_episode-SameCourse =
      elim (Result-cases (new_episode w.reply s.recorder task (pos 300000000000))) [
        | inl (scope, h) ↦ rw (h, record_episode) (in_episode-SameCourse scope)
        | inr (e, h) ↦
            rw (h, record_episode) (record { saved = refl; current = refl; folders = refl })
      ]

-- How an attempt changes the course: a finished one has a new directory on the disk.
pub data Course (s : Station) : Attempted × Station → Type 0 where
  ended : (x : Stop) (t : Station) → SameCourse s t → Course s (halted x, t)
  recorded :
      (dir : String) (t : Station)
      → t.saved ≡ s.saved
      → t.current ≡ s.current
      → t.folders ≡ dir ∷ s.folders
      → Course s (finished dir, t)

with_folder-Course :
    (s : Station) (x : Attempted × Station) → SameCourse s x.1 → Course s (with_folder x)
with_folder-Course s (finished dir, t) h =
    recorded dir (record t { folders = dir ∷ t.folders }) h.saved h.current
      (ap (λ fs. dir ∷ fs) h.folders)
with_folder-Course s (halted x, t) h = ended x t h

unless-Course :
    (o : Option Stop) (s : Station) (x : Attempted × Station) → Course s x → Course s (unless o s x)
unless-Course none s x h = h
unless-Course (some e) s x h = ended e s (record { saved = refl; current = refl; folders = refl })

pub attempt-Course :
    (w : Surroundings) (a : Attempt) (leaders : List Leader) (task : String) (s : Station)
    → Course s (attempt w a leaders task s)
unfolding attempt
attempt-Course w a leaders task s = unless-Course a.staging s _ (
    unless-Course a.gate s _ (
      with_folder-Course s (record_episode w a leaders task s)
        (record_episode-SameCourse w a leaders task s)))
