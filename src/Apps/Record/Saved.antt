-- ===== src/Apps/Record/Saved.antt =====
-- The loop of `main` in apps/record.py over the attempts, and the directories on the disk.
use physical_ai_runtime.Common.{
  Bool-cases, List, Option, Option-cases, String, [], ap, arith, eq_iff, eq_refl, false, has_name,
  inl, inr, is_some, keep, leb, leb→le, length, not, refl, sym, true, ℕ, ◌&&◌, ◌+◌, ◌==◌, ◌∷◌, ◌≡◌,
  ◌≤◌,
}
use mathlib.Core.Path.{subst}
use text.Mathlib.Text.{find?}
use physical_ai_runtime.Apps.Teleop.{Leader, Press}
use physical_ai_runtime.Apps.Record.{
  Attempt, Attempted, Choice, Closed, Station, Surroundings, again, apply_choice, ask_choice,
  attempt, close_session, discard, finished, next_round, quit, record_session, remove_folder, save,
}
use physical_ai_runtime.Apps.Record.Course.{Course, SameCourse, attempt-Course, ended, recorded}

-- Every saved directory is on the disk, and the current episode is the one after the saved ones, or
-- beyond the target.
abbrev pub AllOnDisk : List String → List String → Type 0
AllOnDisk folders [] = Unit
AllOnDisk folders (d ∷ ds) = (has_name d folders ≡ true) × AllOnDisk folders ds

pub record IsKept (target : ℕ) (s : Station) : Type 0 where
  pub on_disk : AllOnDisk s.folders s.saved
  pub counted : length s.saved + 1 ≤ s.current
  pub bounded : s.current ≤ target + 1

AllOnDisk-cons :
    (dir : String) (folders ds : List String) → AllOnDisk folders ds → AllOnDisk (dir ∷ folders) ds
AllOnDisk-cons dir folders [] h = tt
AllOnDisk-cons dir folders (d ∷ ds) h = (ground arith, AllOnDisk-cons dir folders ds h.1)

has_name-without :
    (d dir : String) (folders : List String)
    → (d == dir) ≡ false
    → has_name d folders ≡ true
    → has_name d (keep (λ f. not (f == dir)) folders) ≡ true
has_name-without d dir [] n h = h
has_name-without d dir (f ∷ fs) n h =
    ground (arith, eq_iff d f, eq_iff f dir, eq_iff d dir, has_name-without d dir fs n)

-- Directories that are not the removed one stay.
AllOnDisk-without :
    (dir : String) (folders ds : List String)
    → has_name dir ds ≡ false
    → AllOnDisk folders ds
    → AllOnDisk (keep (λ f. not (f == dir)) folders) ds
AllOnDisk-without dir folders [] n h = tt
AllOnDisk-without dir folders (d ∷ ds) n h = (
  has_name-without d dir folders (ground (arith, eq_iff d dir, eq_iff dir d)) h.0,
  AllOnDisk-without dir folders ds (ground arith) h.1,
)

AllOnDisk-remove :
    (w : Surroundings) (dir : String) (folders ds : List String)
    → has_name dir ds ≡ false
    → AllOnDisk folders ds
    → AllOnDisk (remove_folder w dir folders) ds
unfolding remove_folder
AllOnDisk-remove w dir folders ds n h =
    elim (Bool-cases
      (not (dir == "") && (w.is_dir dir && is_some (find? (w.name dir) "episode_")))) [
        | inl gone ↦ rw (gone, remove_folder) (AllOnDisk-without dir folders ds n h)
        | inr left ↦ rw (left, remove_folder) h
      ]

-- After an attempt, the saved directories and the new one are on the disk.
module _ (dir : String) (s t : Station) (saved : t.saved ≡ s.saved)
    (folders : t.folders ≡ dir ∷ s.folders) where
  still_on_disk : AllOnDisk s.folders s.saved → AllOnDisk t.folders t.saved
  still_on_disk h =
      subst (λ fs. AllOnDisk fs t.saved) (sym folders)
        (subst (AllOnDisk (dir ∷ s.folders)) (sym saved) (AllOnDisk-cons dir s.folders s.saved h))

  new_on_disk : has_name dir t.folders ≡ true
  new_on_disk = subst (λ fs. has_name dir fs ≡ true) (sym folders) (ground (arith, eq_refl dir))

apply_choice-IsKept :
    (w : Surroundings) (target : ℕ) (c : Choice) (dir : String) (s t : Station)
    → IsKept target s
    → s.current ≤ target
    → has_name dir s.saved ≡ false
    → t.saved ≡ s.saved
    → t.current ≡ s.current
    → t.folders ≡ dir ∷ s.folders
    → IsKept target (apply_choice w target c dir t)
unfolding apply_choice
apply_choice-IsKept w target save dir s t k le new e1 e2 e3 = record {
  on_disk = (new_on_disk dir s t e1 e3, still_on_disk dir s t e1 e3 k.on_disk);
  counted = omega (arith, k.counted, e2, ap length e1);
  bounded = omega (arith, e2);
}
apply_choice-IsKept w target discard dir s t k le new e1 e2 e3 = record {
  on_disk =
      AllOnDisk-remove w dir t.folders t.saved (subst (λ ds. has_name dir ds ≡ false) (sym e1) new)
        (still_on_disk dir s t e1 e3 k.on_disk);
  counted = omega (arith, k.counted, e2, ap length e1);
  bounded = omega (arith, e2);
}
apply_choice-IsKept w target again dir s t k le new e1 e2 e3 = record {
  on_disk = still_on_disk dir s t e1 e3 k.on_disk;
  counted = omega (arith, k.counted, e2, ap length e1);
  bounded = omega (arith, e2);
}
apply_choice-IsKept w target quit dir s t k le new e1 e2 e3 = record {
  on_disk = still_on_disk dir s t e1 e3 k.on_disk;
  counted = omega (arith, k.counted, k.bounded, e2, ap length e1);
  bounded = omega arith;
}

-- What an attempt leaves is kept, where it ends the program.
SameCourse-IsKept :
    {target : ℕ} {s t : Station} → SameCourse s t → IsKept target s → IsKept target t
SameCourse-IsKept {target} {s} {t} h k = record {
  on_disk =
      subst (λ fs. AllOnDisk fs t.saved) (sym h.folders)
        (subst (AllOnDisk s.folders) (sym h.saved) k.on_disk);
  counted = omega (arith, k.counted, h.current, ap length h.saved);
  bounded = omega (arith, k.bounded, h.current);
}

close_session-IsKept :
    {target : ℕ} (p : Press) (leaders : List Leader) (s : Station)
    → IsKept target s
    → IsKept target (close_session p leaders s)
unfolding close_session
close_session-IsKept p leaders s k = record {
  on_disk = k.on_disk;
  counted = k.counted;
  bounded = k.bounded;
}

next_round-IsKept :
    {target : ℕ} (w : Surroundings) (lines : List String) (last : Press) (leaders : List Leader)
    (go_on : Choice → String → Station → Option Closed × Station) (s : Station)
    (x : Attempted × Station)
    → IsKept target s
    → Course s x
    → ((c : Choice) (dir : String)
        → x.0 ≡ finished dir
        → x.1.saved ≡ s.saved
        → x.1.current ≡ s.current
        → x.1.folders ≡ dir ∷ s.folders
        → IsKept target (go_on c dir x.1).1)
    → IsKept target (next_round w lines last leaders go_on x).1
next_round-IsKept w lines last leaders go_on s x k (ended e t same) keeps =
    close_session-IsKept last leaders t (SameCourse-IsKept same k)
next_round-IsKept w lines last leaders go_on s x k (recorded dir t e1 e2 e3) keeps =
    elim (Option-cases (ask_choice w lines)) [
      | inr (c, h) ↦ rw (h, next_round) (keeps c dir refl e1 e2 e3)
      | inl h ↦
          rw (h, next_round)
            (close_session-IsKept last leaders t (record {
              on_disk = still_on_disk dir s t e1 e3 k.on_disk;
              counted = omega (arith, k.counted, e2, ap length e1);
              bounded = omega (arith, k.bounded, e2);
            }))
    ]

module _ (w : Surroundings) (leaders : List Leader) (task : String) (target : ℕ) where
  -- The recorder never gives an episode a directory that was saved before.
  abbrev pub AllNew : List Attempt → Station → Type 0
  AllNew [] s = Unit
  AllNew (a ∷ as') s =
      (dir : String)
      → (attempt w a leaders task s).0 ≡ finished dir
      → (has_name dir s.saved ≡ false)
        × ((c : Choice) → AllNew as' (apply_choice w target c dir (attempt w a leaders task s).1))

  -- Whatever the operator does, every saved directory is on the disk, and no more episodes are
  -- saved than the target.
  pub record_session-IsKept :
      (last : Press) (attempts : List Attempt) (s : Station)
      → AllNew attempts s
      → IsKept target s
      → IsKept target (record_session w leaders task target last attempts s).1
  unfolding record_session
  record_session-IsKept last [] s new k = elim (Bool-cases (leb s.current target)) [
    | inl more ↦ rw more k
    | inr over ↦ rw over (close_session-IsKept last leaders s k)
  ]
  record_session-IsKept last (a ∷ as') s new k = elim (Bool-cases (leb s.current target)) [
    | inr over ↦ rw over (close_session-IsKept last leaders s k)
    | inl more ↦ rw more (
        next_round-IsKept w a.lines last leaders
          (λ c dir t. record_session w leaders task target last as' (apply_choice w target c dir t))
          s (attempt w a leaders task s) k (attempt-Course w a leaders task s)
          (λ c dir done e1 e2 e3.
            record_session-IsKept last as'
              (apply_choice w target c dir (attempt w a leaders task s).1) ((new dir done).1 c)
              (apply_choice-IsKept w target c dir s (attempt w a leaders task s).1 k
                (leb→le s.current target more) (new dir done).0 e1 e2 e3)))
  ]
