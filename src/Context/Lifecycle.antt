-- ===== src/Context/Lifecycle.antt =====
-- `Context.close` of context.py. What the closed objects raise is an argument; a cancellation
-- stands for all that is no `Exception`.
pub mod Released
use physical_ai_runtime.Common.{
  Bool, Error, Exec, List, Result, String, [], cancelled_error, catch, err, false, if◌then◌else◌,
  lift, modify, ok, pure, true, ◌++◌, ◌>>◌, ◌∷◌,
}

-- What a context lets go of.
pub data Release : Type 0 where
  recorder_close executor_shutdown thread_join selector_close : Release
  camera_close sensor_close : String → Release
  subscription_destroy node_destroy rclpy_shutdown : Release

-- The fields of Context that `close` reads, and the calls that it made.
pub record Lifetime : Type 0 where
  pub closed : Bool
  pub recorder : Bool
  pub executor : Bool
  pub spin_thread : Bool
  pub cameras : List String
  pub sensors : List String
  pub owns_node : Bool
  pub log : List Release

abbrev pub unless_cancelled : Error → Result (Unit {0})
unless_cancelled cancelled_error = err cancelled_error
unless_cancelled _ = ok tt

abbrev pub camera_closes : List String → List Release
camera_closes [] = []
camera_closes (n ∷ ns) = camera_close n ∷ camera_closes ns

abbrev pub sensor_closes : List String → List Release
sensor_closes [] = []
sensor_closes (n ∷ ns) = sensor_close n ∷ sensor_closes ns

module _ (outcome : Release → Result (Unit {0})) (rclpy_ok : Bool) where
  abbrev call : Release → Exec Lifetime (Unit {0})
  call c s = (outcome c, record s { log = s.log ++ (c ∷ []) })

  -- `try: ... except Exception: pass`
  unfoldable pub swallow : Release → Exec Lifetime (Unit {0})
  swallow c = catch (call c) (λ e. lift (unless_cancelled e))

  unfoldable pub swallow_all : List Release → Exec Lifetime (Unit {0})
  swallow_all [] = pure tt
  swallow_all (c ∷ cs) = swallow c >> swallow_all cs

  abbrev pub close_recorder : Exec Lifetime (Unit {0})
  close_recorder s =
      if s.recorder
      then (swallow recorder_close >> modify (λ t. record t { recorder = false })) s
      else (ok tt, s)

  abbrev pub close_executor : Exec Lifetime (Unit {0})
  close_executor s =
      if s.executor
      then (swallow executor_shutdown >> modify (λ t. record t { executor = false })) s
      else (ok tt, s)

  abbrev pub close_thread : Exec Lifetime (Unit {0})
  close_thread s =
      if s.spin_thread
      then (swallow thread_join >> modify (λ t. record t { spin_thread = false })) s
      else (ok tt, s)

  abbrev pub close_streams : Exec Lifetime (Unit {0})
  close_streams s =
      (swallow_all (camera_closes s.cameras) >> swallow_all (sensor_closes s.sensors)) s

  abbrev pub close_node : Exec Lifetime (Unit {0})
  close_node s =
      if s.owns_node
      then (if rclpy_ok
            then swallow node_destroy >> swallow rclpy_shutdown
            else swallow node_destroy)
          s
      else (ok tt, s)

  abbrev pub close_all : Exec Lifetime (Unit {0})
  close_all =
      close_recorder
      >> close_executor
      >> close_thread
      >> close_streams
      >> swallow selector_close
      >> swallow subscription_destroy
      >> close_node

  unfoldable pub close : Exec Lifetime (Unit {0})
  close s =
      let rest = close_all (record s { closed = true }) in if s.closed then (ok tt, s) else rest
