-- ===== src/Config/Joints.antt =====
-- `get_part_joints` of config.py, on a profile that was read.
use physical_ai_runtime.Common.{
  Bool-cases, Dict, List, Option, Option-cases, String, [], ap, has_key, if◌then◌else◌, inl, inr,
  is_some, lookup, none, none_ne_some, ok, refl, some, some-injective, suc, sym, true,
  true_ne_false, ℕ, ◌++◌, ◌==◌, ◌∙◌, ◌∷◌, ◌≡◌,
}
use physical_ai_runtime.Config.{Json, PartConfig}
use physical_ai_runtime.Config.Loops.{All}
use physical_ai_runtime.Config.Parts.{IsName, IsPart}
use physical_ai_runtime.Config.Profile.{
  EmbodimentConfig, Loader, from_dict, get_part_joints, joints_of_members,
}
use physical_ai_runtime.Config.Valid.{HasMembers, IsProfile, from_dict-IsProfile}
use mathlib.Core.Path.{subst}

lookup-All :
    {V : Type 0} (P : String × V → Type 0) (k : String) (d : Dict V) {v : V}
    → All P d
    → lookup k d ≡ some v
    → (j : String) × P (j, v)
lookup-All P k [] h e = absurd (none_ne_some e)
lookup-All P k ((j, w) ∷ d) {v = v} h e = elim (Bool-cases (j == k)) [
  | inl b ↦ (
    j,
    subst (λ x. P (j, x)) (some-injective (sym (ap (λ c. if c then some w else lookup k d) b) ∙ e))
        h.0,
  )
  | inr b ↦ lookup-All P k d h.1 (sym (ap (λ c. if c then some w else lookup k d) b) ∙ e)
]

-- A list of joints with names.
abbrev Named : Option (List String) → Type 0
Named none = ⊥
Named (some js) = All IsName js

All-append : (xs ys : List String) → All IsName xs → All IsName ys → All IsName (xs ++ ys)
All-append [] ys h k = k
All-append (x ∷ xs) ys h k = (h.0, All-append xs ys h.1 k)

module _ (c : EmbodimentConfig) (valid : IsProfile c) where
  part-joints :
      (name : String) {p : PartConfig} → lookup name c.parts ≡ some p → All IsName p.joint_names
  part-joints name h = (lookup-All IsPart name c.parts valid.parts h).1.joints

  member-Named :
      (depth : ℕ) (m : String) → has_key m c.parts ≡ true → Named (get_part_joints (suc depth) c m)
  unfolding get_part_joints
  member-Named depth m h = elim (Option-cases (lookup m c.parts)) [
    | inl e ↦ absurd (true_ne_false (sym h ∙ ap is_some e))
    | inr (p, e) ↦ rw (e, get_part_joints) (part-joints m e)
  ]

  members-Named :
      (depth : ℕ) (ms : List String)
      → All (λ m. has_key m c.parts ≡ true) ms
      → Named (joints_of_members (get_part_joints (suc depth) c) ms)
  members-Named depth [] h = tt
  members-Named depth (m ∷ ms) h =
      joined (get_part_joints (suc depth) c m)
        (joints_of_members (get_part_joints (suc depth) c) ms) (member-Named depth m h.0)
        (members-Named depth ms h.1)
    where
      joined :
          (a b : Option (List String))
          → Named a
          → Named b
          → Named (elim a [
            | none ↦ none
            | some xs ↦ elim b [ none ↦ none | some ys ↦ some (xs ++ ys) ]
          ])
      joined (some xs) (some ys) h k = All-append xs ys h k
      joined none b h k = h
      joined (some xs) none h k = k

  depth-Named : (depth : ℕ) (name : String) → Named (get_part_joints (suc (suc depth)) c name)
  unfolding get_part_joints
  depth-Named depth name = elim (Option-cases (lookup name c.parts)) [
    | inr (p, e) ↦ rw (e, get_part_joints) (part-joints name e)
    | inl e ↦ elim (Option-cases (lookup name c.groups)) [
      | inl g ↦ rw (e, g, get_part_joints) tt
      | inr (ms, g) ↦
          rw (e, g, get_part_joints)
            (members-Named depth ms
              (lookup-All (HasMembers c.parts) name c.groups valid.groups g).1)
    ]
  ]

some_of_Named :
    (o : Option (List String)) → Named o → (js : List String) × (o ≡ some js) × All IsName js
some_of_Named none h = absurd h
some_of_Named (some js) h = (js, refl, h)

-- In a profile that was read, the joints of every part, group or other name are found within two
-- calls, and every joint has a name.
pub get_part_joints-ends :
    (loader : Loader) (v : Json) {c : EmbodimentConfig}
    → from_dict loader v ≡ ok c
    → (name : String) → (js : List String) × (get_part_joints 2 c name ≡ some js) × All IsName js
get_part_joints-ends loader v {c = c} h name =
    some_of_Named (get_part_joints 2 c name) (depth-Named c (from_dict-IsProfile loader v h) 0 name)
