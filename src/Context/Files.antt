-- ===== src/Context/Files.antt =====
-- The files that context.py looks for: the profile of an application, and the stream profile of the
-- recorder. The directories of the ROS packages and of the workspace are arguments; a path is a
-- text.
use physical_ai_runtime.Common.{
  Bool, List, Option, Result, String, [], eqb, err, false, file_not_found_error, if◌then◌else◌, inl,
  inr, keep, none, ok, refl, runtime_error, some, true, value_error, ℕ, ◌++◌, ◌∷◌, ◌≡◌, ◌⊎◌,
}

-- The first path that is a file.
unfoldable pub first_file : (String → Bool) → List String → Option String
first_file is_file [] = none
first_file is_file (p ∷ ps) = let rest = first_file is_file ps in if is_file p then some p else rest

-- Where a profile may stand: the given path, the folders of the applications, the share of the
-- installed package, if there is one, and the folders of the source tree.
pub record Places : Type 0 where
  pub apps : List String
  pub share : Option (List String)
  pub source : List String

abbrev pub candidates : String → Places → List String
candidates path places =
    path ∷ (places.apps ++ (elim places.share [ none ↦ [] | some ps ↦ ps ] ++ places.source))

-- `_resolve_profile_path`: a path that is found nowhere is given back.
unfoldable pub resolve_profile_path : (String → Bool) → Places → String → String
resolve_profile_path is_file places path = elim (first_file is_file (candidates path places)) [
  | none ↦ path
  | some p ↦ p
]

-- `_resolve_recording_profile`: `installed` are the places in the package shares, or `none` where
-- these cannot be listed.
unfoldable pub the_only_file : List String → Result String
the_only_file [] = err file_not_found_error
the_only_file (p ∷ []) = ok p
the_only_file (p ∷ q ∷ ps) = err runtime_error

unfoldable pub resolve_recording_profile :
    (String → Bool) → Option (List String) → List String → Result String
resolve_recording_profile is_file installed source =
    let shared = keep is_file (elim installed [ none ↦ [] | some ps ↦ ps ]) in
    elim shared [ [] ↦ the_only_file (keep is_file source) | p ∷ ps ↦ the_only_file (p ∷ ps) ]

-- The recorder of a context. `make` is its client, or what its construction raises.
pub record RecorderSlot : Type 0 where
  pub recorder : Option ℕ
  pub config : Option ℕ

abbrev same_config : Option ℕ → Option ℕ → Bool
same_config none d = true
same_config (some a) none = false
same_config (some a) (some b) = eqb a b

-- `Context.make_recorder`
unfoldable pub make_recorder : Option ℕ → Result ℕ → RecorderSlot → Result ℕ × RecorderSlot
make_recorder config make s = elim s.recorder [
  | some r ↦ (if same_config config s.config then ok r else err value_error, s)
  | none ↦ elim make [
    | err e ↦ (err e, s)
    | ok r ↦ (ok r, record { recorder = some r; config = config })
  ]
]

-- The files among some paths are exactly one.
abbrev pub IsOnly : (String → Bool) → String → List String → Type 0
IsOnly is_file p ps = keep is_file ps ≡ p ∷ []

abbrev listed : Option (List String) → List String
listed none = []
listed (some ps) = ps

-- A stream profile that is found is the only one in the package shares, or, where these have none,
-- the only one in the source tree.
the_only_file-ok : (ps : List String) {p : String} → the_only_file ps ≡ ok p → ps ≡ p ∷ []
unfolding the_only_file
the_only_file-ok [] h = cc
the_only_file-ok (q ∷ []) h = cc
the_only_file-ok (q ∷ r ∷ ps) h = cc

pub resolve_recording_profile-IsOnly :
    (is_file : String → Bool) (installed : Option (List String)) (source : List String) {p : String}
    → resolve_recording_profile is_file installed source ≡ ok p
    → IsOnly is_file p (listed installed)
      ⊎ ((keep is_file (listed installed) ≡ []) × IsOnly is_file p source)
unfolding resolve_recording_profile
resolve_recording_profile-IsOnly is_file none source h = inr (refl, the_only_file-ok _ h)
resolve_recording_profile-IsOnly is_file (some ps) source h = by_shared (keep is_file ps) h
  where
    by_shared :
        {p : String} (shared : List String)
        → (elim shared [
          | [] ↦ the_only_file (keep is_file source)
          | q ∷ qs ↦ the_only_file (q ∷ qs)
        ])
          ≡ ok p
        → (shared ≡ p ∷ []) ⊎ ((shared ≡ []) × (keep is_file source ≡ p ∷ []))
    by_shared [] e = inr (refl, the_only_file-ok _ e)
    by_shared (q ∷ qs) e = inl (the_only_file-ok (q ∷ qs) e)
