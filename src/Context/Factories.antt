-- ===== src/Context/Factories.antt =====
-- The factories of a context in context.py: agents, sensors and recorders that are there already.
use physical_ai_runtime.Common.{
  Dict, List, Option, Option-cases, Result-cases, String, [], ap, arith, eq_iff, eq_refl, eqb,
  false, has_key, inl, inr, insert, lookup, lookup-insert, none, ok, refl, some, true, ℕ, ℤ, ◌∙◌,
  ◌∷◌, ◌≡◌,
}
use physical_ai_runtime.Config.Agents.{AgentConfig}
use physical_ai_runtime.Context.{
  AgentRequest, Context, MadeAgent, holds_all, is_same_agent, make_agent, new_agent, or_given,
  or_name, robot_of, same_dict, same_ids, same_time,
}

-- The keys of a dictionary are different.
abbrev pub IsDict : Dict String → Type 0
IsDict [] = Unit
IsDict ((k, v) ∷ d) = (has_key k d ≡ false) × IsDict d

abbrev Entries : Dict String → Dict String → Type 0
Entries a [] = Unit
Entries a ((k, v) ∷ b) = (lookup k a ≡ some v) × Entries a b

Entries-holds_all : (a b : Dict String) → Entries a b → holds_all a b ≡ true
Entries-holds_all a [] h = refl
Entries-holds_all a ((k, v) ∷ b) h = rw (h.0, eq_refl v) (Entries-holds_all a b h.1)

Entries-cons :
    (k v : String) (a b : Dict String) → has_key k b ≡ false → Entries a b → Entries ((k, v) ∷ a) b
Entries-cons k v a [] n h = tt
Entries-cons k v a ((j, w) ∷ b) n h =
    (ground (arith, h.0, n, eq_iff k j, eq_iff j k), Entries-cons k v a b (ground (arith, n)) h.1)

Entries-refl : (d : Dict String) → IsDict d → Entries d d
Entries-refl [] h = tt
Entries-refl ((k, v) ∷ d) h = (rw (eq_refl k) refl, Entries-cons k v d d h.0 (Entries-refl d h.1))

same_dict_refl : (d : Dict String) → IsDict d → same_dict d d ≡ true
same_dict_refl d h = rw (Entries-holds_all d d (Entries-refl d h)) refl

eqb_refl : (n : ℕ) → eqb n n ≡ true
eqb_refl n = ground arith

same_ids_refl : (xs : List ℕ) → same_ids xs xs ≡ true
same_ids_refl [] = refl
same_ids_refl (x ∷ xs) = ground (arith, same_ids_refl xs)

same_time_refl : (t : Option ℤ) → same_time t t ≡ true
same_time_refl none = refl
same_time_refl (some t) = ground arith

-- An entry that is there stays when another key is stored.
lookup-insert_new :
    {A : Type 0} (k j : String) (v w : A) (d : Dict A)
    → lookup k d ≡ none
    → lookup j d ≡ some w
    → lookup j (insert k v d) ≡ some w
lookup-insert_new k j v w d h i =
    ground (arith, lookup-insert k j v d, eq_iff k j, ap (λ l. lookup l d))

lookup-insert_same :
    {A : Type 0} (k : String) (v : A) (d : Dict A) → lookup k (insert k v d) ≡ some v
lookup-insert_same k v d = ground (arith, lookup-insert k k v d, eq_refl k)

module _ {V : Type 0} where
  new_agent-fields :
      (r : AgentRequest) (a : AgentConfig) (c : Context V) {m : MadeAgent}
      → new_agent r a c ≡ ok m
      → (m.robot ≡ robot_of r c)
        × (m.sensors ≡ r.sensors)
        × (m.agent.frequency ≡ or_given r.frequency a.frequency)
        × (m.agent.source_instance ≡ or_name r.source_instance r.name)
        × (m.agent.metadata ≡ r.metadata)
  unfolding new_agent
  new_agent-fields r a c e = ground arith

  new_agent-is_same :
      (r : AgentRequest) (a : AgentConfig) (c : Context V) {m : MadeAgent}
      → IsDict r.metadata
      → new_agent r a c ≡ ok m
      → is_same_agent r a (record c { agents = insert r.name m c.agents }) m ≡ true
  unfolding is_same_agent
  new_agent-is_same r a c h e =
      let (robot, sensors, frequency, instance_name, metadata) = new_agent-fields r a c e in
      rw
        (
          robot,
          sensors,
          frequency,
          instance_name,
          metadata,
          eqb_refl (robot_of r c),
          same_ids_refl r.sensors,
          same_time_refl (or_given r.frequency a.frequency),
          eq_refl (or_name r.source_instance r.name),
          Entries-holds_all r.metadata r.metadata (Entries-refl r.metadata h),
        )
        refl

  make_agent-made :
      (r : AgentRequest) (a : AgentConfig) (c : Context V) {m : MadeAgent} {c' : Context V}
      → lookup r.name c.config.agents ≡ some a
      → lookup r.name c.agents ≡ none
      → make_agent r c ≡ (ok m, c')
      → (new_agent r a c ≡ ok m) × (c' ≡ record c { agents = insert r.name m c.agents })
  unfolding make_agent
  make_agent-made r a c h i e = ground arith

  make_agent-undeclared :
      (r : AgentRequest) (c : Context V) {m : MadeAgent} {c' : Context V}
      → lookup r.name c.config.agents ≡ none
      → ¬ (make_agent r c ≡ (ok m, c'))
  unfolding make_agent
  make_agent-undeclared r c h e = ground arith

  make_agent-unchanged :
      (r : AgentRequest) (a : AgentConfig) (x : MadeAgent) (c : Context V) {m : MadeAgent}
      {c' : Context V}
      → lookup r.name c.config.agents ≡ some a
      → lookup r.name c.agents ≡ some x
      → make_agent r c ≡ (ok m, c')
      → c' ≡ c
  unfolding make_agent
  make_agent-unchanged r a x c h i e = ground arith

  make_agent-again :
      (r : AgentRequest) (a : AgentConfig) (c : Context V) {m : MadeAgent}
      → lookup r.name c.config.agents ≡ some a
      → is_same_agent r a (record c { agents = insert r.name m c.agents }) m ≡ true
      → let c' : Context V = record c { agents = insert r.name m c.agents } in
        make_agent r c' ≡ (ok m, c')
  unfolding make_agent
  make_agent-again r a c {m = m} h s = ground (arith, lookup-insert_same r.name m c.agents)

  -- An agent is made once: asked for again in the same way, with metadata whose keys are different,
  -- the context gives it again and does not change.
  pub make_agent-once :
      (r : AgentRequest) (c : Context V) {m : MadeAgent} {c' : Context V}
      → IsDict r.metadata
      → make_agent r c ≡ (ok m, c')
      → make_agent r c' ≡ (ok m, c')
  make_agent-once r c d e = elim (Option-cases (lookup r.name c.config.agents)) [
    | inl h ↦ absurd (make_agent-undeclared r c h e)
    | inr (a, h) ↦ elim (Option-cases (lookup r.name c.agents)) [
      | inr (x, i) ↦ ap (make_agent r) (make_agent-unchanged r a x c h i e) ∙ e
      | inl i ↦
          let (made, state) = make_agent-made r a c h i e in
          rw state (make_agent-again r a c h (new_agent-is_same r a c d made))
    ]
  ]

  -- Agents that were made before stay, whether a request is granted or refused.
  pub make_agent-keeps :
      (r : AgentRequest) (c : Context V) (k : String) (x : MadeAgent)
      → lookup k c.agents ≡ some x
      → lookup k (make_agent r c).1.agents ≡ some x
  unfolding make_agent
  make_agent-keeps r c k x h = elim (Option-cases (lookup r.name c.config.agents)) [
    | inl e ↦ rw (e, make_agent) h
    | inr (a, e) ↦ elim (Option-cases (lookup r.name c.agents)) [
      | inr (y, i) ↦ rw (e, i, make_agent) h
      | inl i ↦ elim (Result-cases (new_agent r a c)) [
        | inl (m, g) ↦ rw (e, i, g, make_agent) (lookup-insert_new r.name k m x c.agents i h)
        | inr (z, g) ↦ rw (e, i, g, make_agent) h
      ]
    ]
  ]
