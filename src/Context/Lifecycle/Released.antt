-- ===== src/Context/Lifecycle/Released.antt =====
-- `Context.close` of context.py, where no call of it is cancelled.
use physical_ai_runtime.Common.{
  Bool, Bool-cases, Exec, List, Result, [], ap, arith, bind-ok, cancelled_error, catch, err, false,
  if◌then◌else◌, inl, inr, lift, ok, refl, sym, true, ◌++◌, ◌>>◌, ◌∙◌, ◌∷◌, ◌≡◌,
}
use physical_ai_runtime.Context.Lifecycle.{
  Lifetime, Release, camera_closes, close, close_all, close_executor, close_node, close_recorder,
  close_streams, close_thread, executor_shutdown, node_destroy, rclpy_shutdown, recorder_close,
  selector_close, sensor_closes, subscription_destroy, swallow, swallow_all, thread_join,
  unless_cancelled,
}
use mathlib.Core.List.{append_assoc, append-nil}

abbrev pub given : Bool → Release → List Release
given true c = c ∷ []
given false c = []

-- A call that returns, and the state that it leaves.
abbrev Leads : Exec Lifetime (Unit {0}) → Lifetime → Lifetime → Type 0
Leads m s t = m s ≡ (ok tt, t)

Leads-then :
    (m k : Exec Lifetime (Unit {0})) (s t u : Lifetime)
    → Leads m s t
    → Leads k t u
    → Leads (m >> k) s u
Leads-then m k s t u h i =
    bind-ok m (λ _. k) s (ap (λ (r : Result (Unit {0}) × Lifetime). r.0) h)
    ∙ ap (λ (r : Result (Unit {0}) × Lifetime). k r.1) h
    ∙ i

-- A state with more calls in its log.
abbrev more : List Release → Lifetime → Lifetime
more cs s = record s { log = s.log ++ cs }

module _ (rclpy_ok : Bool) where
  abbrev node_calls : Bool → List Release
  node_calls true = node_destroy ∷ given rclpy_ok rclpy_shutdown
  node_calls false = []

  -- What there is to let go of, in the order of the code.
  abbrev pub owed : Lifetime → List Release
  owed s =
      given s.recorder recorder_close
      ++ (given s.executor executor_shutdown
          ++ (given s.spin_thread thread_join
              ++ ((camera_closes s.cameras ++ sensor_closes s.sensors)
                  ++ (selector_close ∷ (subscription_destroy ∷ node_calls s.owns_node)))))

abbrev pub released : List Release → Lifetime → Lifetime
released l s = record s {
  closed = true;
  recorder = false;
  executor = false;
  spin_thread = false;
  log = l;
}

module _ (outcome : Release → Result (Unit {0})) (rclpy_ok : Bool)
    (quiet : (c : Release) → ¬ (outcome c ≡ err cancelled_error)) where
  swallow-more :
      (c : Release) (s : Lifetime) → Leads (swallow outcome rclpy_ok c) s (more (c ∷ []) s)
  unfolding swallow
  swallow-more c s = go (outcome c) refl
    where
      go :
          (r : Result (Unit {0}))
          → outcome c ≡ r
          → catch {S = Lifetime}
              (λ t. (r, record t { log = t.log ++ (c ∷ []) }))
              (λ e. lift (unless_cancelled e))
              s
            ≡ (ok tt, more (c ∷ []) s)
      go (ok u) h = refl
      go (err cancelled_error) h = absurd (quiet c h)
      go (err e) h = refl

  swallow_all-more :
      (cs : List Release) (s : Lifetime) → Leads (swallow_all outcome rclpy_ok cs) s (more cs s)
  unfolding swallow_all
  swallow_all-more [] s = ap (λ l. (ok tt, record s { log = l })) (sym (append-nil s.log))
  swallow_all-more (c ∷ cs) s =
      Leads-then (swallow outcome rclpy_ok c) (swallow_all outcome rclpy_ok cs) s (more (c ∷ []) s)
        (more cs (more (c ∷ []) s)) (swallow-more c s) (swallow_all-more cs (more (c ∷ []) s))
      ∙ ap (λ l. (ok tt, record s { log = l })) (append_assoc s.log (c ∷ []) cs)

  close_recorder-Leads :
      (s : Lifetime)
      → Leads
          (close_recorder outcome rclpy_ok)
          s
          (record s { recorder = false; log = s.log ++ given s.recorder recorder_close })
  close_recorder-Leads s = elim (Bool-cases s.recorder) [
    | inl h ↦ ground (arith, swallow-more recorder_close s)
    | inr h ↦ ground (arith, append-nil s.log)
  ]

  close_executor-Leads :
      (s : Lifetime)
      → Leads
          (close_executor outcome rclpy_ok)
          s
          (record s { executor = false; log = s.log ++ given s.executor executor_shutdown })
  close_executor-Leads s = elim (Bool-cases s.executor) [
    | inl h ↦ ground (arith, swallow-more executor_shutdown s)
    | inr h ↦ ground (arith, append-nil s.log)
  ]

  close_thread-Leads :
      (s : Lifetime)
      → Leads
          (close_thread outcome rclpy_ok)
          s
          (record s { spin_thread = false; log = s.log ++ given s.spin_thread thread_join })
  close_thread-Leads s = elim (Bool-cases s.spin_thread) [
    | inl h ↦ ground (arith, swallow-more thread_join s)
    | inr h ↦ ground (arith, append-nil s.log)
  ]

  close_streams-Leads :
      (s : Lifetime)
      → Leads
          (close_streams outcome rclpy_ok)
          s
          (more (sensor_closes s.sensors) (more (camera_closes s.cameras) s))
  close_streams-Leads s =
      Leads-then (swallow_all outcome rclpy_ok (camera_closes s.cameras))
        (swallow_all outcome rclpy_ok (sensor_closes s.sensors)) s
        (more (camera_closes s.cameras) s)
        (more (sensor_closes s.sensors) (more (camera_closes s.cameras) s))
        (swallow_all-more (camera_closes s.cameras) s)
        (swallow_all-more (sensor_closes s.sensors) (more (camera_closes s.cameras) s))

  owned_node-Leads :
      (s : Lifetime) (b : Bool)
      → Leads
          (λ t.
            (if b
                then swallow outcome rclpy_ok node_destroy
                  >> swallow outcome rclpy_ok rclpy_shutdown
                else swallow outcome rclpy_ok node_destroy)
              t)
          s
          (more (node_destroy ∷ given b rclpy_shutdown) s)
  owned_node-Leads s true =
      Leads-then (swallow outcome rclpy_ok node_destroy) (swallow outcome rclpy_ok rclpy_shutdown) s
        (more (node_destroy ∷ []) s) (more (rclpy_shutdown ∷ []) (more (node_destroy ∷ []) s))
        (swallow-more node_destroy s) (swallow-more rclpy_shutdown (more (node_destroy ∷ []) s))
      ∙ ap (λ l. (ok tt, record s { log = l }))
          (append_assoc s.log (node_destroy ∷ []) (rclpy_shutdown ∷ []))
  owned_node-Leads s false = swallow-more node_destroy s

  close_node-Leads :
      (s : Lifetime)
      → Leads (close_node outcome rclpy_ok) s (more (node_calls rclpy_ok s.owns_node) s)
  close_node-Leads s = elim (Bool-cases s.owns_node) [
    | inl h ↦ ground (arith, owned_node-Leads s rclpy_ok)
    | inr h ↦ ground (arith, append-nil s.log)
  ]

  close_all-Leads :
      (s : Lifetime)
      → Leads
          (close_all outcome rclpy_ok)
          (record s { closed = true })
          (released (s.log ++ owed rclpy_ok s) s)
  close_all-Leads s =
      let l1 = s.log ++ given s.recorder recorder_close in
      let l2 = l1 ++ given s.executor executor_shutdown in
      let l3 = l2 ++ given s.spin_thread thread_join in
      let s0 : Lifetime = record s { closed = true } in
      let s1 : Lifetime = record s0 { recorder = false; log = l1 } in
      let s2 : Lifetime = record s1 { executor = false; log = l2 } in
      let s3 : Lifetime = record s2 { spin_thread = false; log = l3 } in
      let s4 = more (sensor_closes s.sensors) (more (camera_closes s.cameras) s3) in
      let s5 = more (selector_close ∷ []) s4 in
      let s6 = more (subscription_destroy ∷ []) s5 in
      let s7 = more (node_calls rclpy_ok s.owns_node) s6 in
      let m1 = close_recorder outcome rclpy_ok in
      let m2 = m1 >> close_executor outcome rclpy_ok in
      let m3 = m2 >> close_thread outcome rclpy_ok in
      let m4 = m3 >> close_streams outcome rclpy_ok in
      let m5 = m4 >> swallow outcome rclpy_ok selector_close in
      let m6 = m5 >> swallow outcome rclpy_ok subscription_destroy in
      let h2 =
        Leads-then m1 (close_executor outcome rclpy_ok) s0 s1 s2 (close_recorder-Leads s0)
          (close_executor-Leads s1) in
      let h3 = Leads-then m2 (close_thread outcome rclpy_ok) s0 s2 s3 h2 (close_thread-Leads s2) in
      let h4 =
        Leads-then m3 (close_streams outcome rclpy_ok) s0 s3 s4 h3 (close_streams-Leads s3) in
      let h5 =
        Leads-then m4 (swallow outcome rclpy_ok selector_close) s0 s4 s5 h4
          (swallow-more selector_close s4) in
      let h6 =
        Leads-then m5 (swallow outcome rclpy_ok subscription_destroy) s0 s5 s6 h5
          (swallow-more subscription_destroy s5) in
      Leads-then m6 (close_node outcome rclpy_ok) s0 s6 s7 h6 (close_node-Leads s6)
      ∙ ap (λ l. (ok tt, released l s)) (simp append_assoc)

  -- Where no call is cancelled, closing an open context returns, and has let go of everything that
  -- it holds exactly once, in the order of the code and whatever other exceptions the calls raise.
  -- Closing it again does nothing.
  pub close-released :
      (s : Lifetime)
      → s.closed ≡ false
      → let t = released (s.log ++ owed rclpy_ok s) s in
        (close outcome rclpy_ok s ≡ (ok tt, t)) × (close outcome rclpy_ok t ≡ (ok tt, t))
  unfolding close
  close-released s h = (rw h (close_all-Leads s), refl)
