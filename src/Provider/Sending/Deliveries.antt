-- ===== src/Provider/Sending/Deliveries.antt =====
-- `ActionProviderClient.send` of provider.py.
use mathlib.Core.Path.{subst₂}
use physical_ai_runtime.Common.{
  Error, Option-cases, Result-cases, String, ap, arith, err, false, inl, inr, ok, refl, some, sym,
  true, ◌==◌, ◌∙◌, ◌∷◌, ◌≡◌, ◌⊎◌,
}
use physical_ai_runtime.Messages.{Payload, Value}
use physical_ai_runtime.Authority.{EndpointBinding, find_binding, has_binding_key}
use physical_ai_runtime.Commands.{is_invalid}
use physical_ai_runtime.Provider.{
  Link, checked_payload, envelope, payload_of, publish, publisher, require_binding, send,
}
use physical_ai_runtime.Provider.Sending.{
  IsLinked, checked_payload-parts, find_binding-append_one, find_binding-key,
  has_binding_key_unique, require_binding-found, require_binding-leased,
}

-- What a delivered command has done.
pub record Delivered (part command : String) (v : Value) (s s' : Link) : Type 0 where
  pub binding : EndpointBinding
  pub payload : Payload
  pub bound : require_binding s.commands part command ≡ ok binding
  pub valid : is_invalid v ≡ false
  pub accepted : payload_of s.commands part command v s.world.now ≡ ok payload
  pub outbox : s'.world ≡ record s.world {
    outbox = envelope binding.endpoint s.world.now s.commands.lease_id payload ∷ s.world.outbox;
  }
  pub lease : s'.commands.lease_id ≡ s.commands.lease_id
  pub bindings : s'.commands.bindings ≡ s.commands.bindings
  pub goals : s'.commands.goal_handles ≡ s.commands.goal_handles

module _ (part command : String) (v : Value) (s : Link) where
  send_steps :
      (send part command v s).0 ≡ ok tt
      → (b : EndpointBinding) × (p : Payload) × (checked_payload s.commands part command v
            s.world.now
          ≡ ok (b, p))
        × (send part command v s ≡ publish b part command p s)
  unfolding send
  send_steps h = elim (Result-cases (checked_payload s.commands part command v s.world.now)) [
    | inl ((b, p), e) ↦ (b, p, e, rw (e, send))
    | inr (x, e) ↦ absurd (ground arith)
  ]

  publisher-endpoint :
      IsLinked s.commands
      → (b : EndpointBinding) → find_binding part command s.commands.bindings ≡ some b
      → (publisher b part command s.commands.publishers).0 ≡ b
  unfolding publisher
  publisher-endpoint linked b found =
      elim (Option-cases (find_binding part command s.commands.publishers)) [
        | inl fresh ↦ rw (fresh, publisher)
        | inr (p, old) ↦ rw (old, publisher) (cc (linked.bound part command p old, found))
      ]

  publish_world :
      (b : EndpointBinding) (p : Payload)
      → (publisher b part command s.commands.publishers).0 ≡ b
      → (publish b part command p s).1.world ≡ record s.world {
        outbox = envelope b.endpoint s.world.now s.commands.lease_id p ∷ s.world.outbox;
      }
  unfolding publish
  publish_world b p e =
      ap
        (λ (q : EndpointBinding). record s.world {
          outbox = envelope q.endpoint s.world.now s.commands.lease_id p ∷ s.world.outbox;
        })
        e

  -- A command that is sent under a client whose publishers are linked leaves as one envelope, with
  -- the lease of the client and the time of sending, for the endpoint that the Execution Manager
  -- bound for this part and command; the payload is the one that the value converts to.
  pub send-Delivered :
      IsLinked s.commands
      → (send part command v s).0 ≡ ok tt
      → Delivered part command v s (send part command v s).1
  send-Delivered linked h =
      let (b, p, checked, published) = send_steps h in
      let (bound, valid, _, accepted) =
        checked_payload-parts s.commands part command v s.world.now checked in
      rw published (record {
        binding = b;
        payload = p;
        bound = bound;
        valid = valid;
        accepted = accepted;
        outbox =
            publish_world b p
              (publisher-endpoint linked b (require_binding-found s.commands part command bound));
        lease = unfold publish in refl;
        bindings = unfold publish in refl;
        goals = unfold publish in refl;
      })

  -- A command that is refused changes nothing.
  pub send_refused : {e : Error} → (send part command v s).0 ≡ err e → (send part command v s).1 ≡ s
  unfolding send publish
  send_refused h = ground arith

  publisher-found :
      (b : EndpointBinding) (part' command' : String) {q : EndpointBinding}
      → find_binding part' command' (publisher b part command s.commands.publishers).1 ≡ some q
      → (find_binding part' command' s.commands.publishers ≡ some q)
        ⊎ ((has_binding_key part' command' b ≡ true) × (q ≡ b))
  unfolding publisher
  publisher-found b part' command' {q} h =
      elim (Option-cases (find_binding part command s.commands.publishers)) [
        | inl fresh ↦
            find_binding-append_one part' command' s.commands.publishers b (ground (arith, fresh))
        | inr (p, old) ↦ inl (ground (arith, old))
      ]

  publish-IsLinked :
      IsLinked s.commands
      → (b : EndpointBinding) (p : Payload) → find_binding part command s.commands.bindings ≡ some b
      → ((s.commands.lease_id == "") ≡ true → ⊥)
      → IsLinked (publish b part command p s).1.commands
  unfolding publish
  publish-IsLinked linked b p found not_idle = record {
    bound = λ part' command' q h. elim (publisher-found b part' command' h) [
      | inl old ↦ linked.bound part' command' q old
      | inr (key, same) ↦
          let (e, e') =
            has_binding_key_unique part command part' command' b
              (find_binding-key part command s.commands.bindings found) key in
          subst₂ (λ x y. find_binding x y s.commands.bindings ≡ some q) e e'
            (found ∙ ap some (sym same))
    ];
    idle = λ h. absurd (not_idle h);
  }

  -- Sending keeps every publisher at the endpoint that the lease binds.
  pub send-IsLinked : IsLinked s.commands → IsLinked (send part command v s).1.commands
  send-IsLinked linked = elim (Result-cases (send part command v s).0) [
    | inl (u, h) ↦
        let (b, p, checked, published) = send_steps h in
        let (bound, valid, kind, accepted) =
          checked_payload-parts s.commands part command v s.world.now checked in
        rw published (
          publish-IsLinked linked b p (require_binding-found s.commands part command bound)
            (require_binding-leased s.commands part command bound))
    | inr (e, h) ↦ rw (send_refused h) linked
  ]
