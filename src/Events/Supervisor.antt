-- ===== src/Events/Supervisor.antt =====
-- src/tr_shared/events/supervisor.py: a consumer run as a process. The event loop keeps one handler for
-- each signal; the consumer and the two hooks are parameters.
use tr_shared_lib.Base.{
  Option, none, some, Bool, true, false, List, [], ◌∷◌, if◌then◌else◌, ◌≡◌, arith,
}
use tr_shared_lib.Base.Effect.{Result, ok, raised, Effect, pure, raise, ◌>>=◌, ◌>>◌}

pub data Signal : Type 0 where
  sigterm sigint : Signal

-- The two methods that are driven, and the hooks, none where they are not given. `installs` says whether
-- the loop takes a handler for a signal.
pub record Supervised (S : Type 0) : Type 0 where
  pub setup : Option (Effect S (Unit {0}))
  pub get_consumer : Effect S (Unit {0})
  pub start : Effect S (Unit {0})
  pub stop : Effect S (Unit {0})
  pub teardown : Option (Effect S (Unit {0}))
  pub installs : Signal → Bool

-- the state of the parameters, and the signals that the loop handles
pub record Process (S : Type 0) : Type 0 where
  pub app : S
  pub handled : List Signal

unfoldable pub same_signal : Signal → Signal → Bool
same_signal sigterm sigterm = true
same_signal sigterm sigint = false
same_signal sigint sigterm = false
same_signal sigint sigint = true

unfoldable pub without : Signal → List Signal → List Signal
without signal [] = []
without signal (other_signal ∷ signals) =
    let rest = without signal signals in
    if same_signal signal other_signal then rest else other_signal ∷ rest

abbrev pub shutdown_signals : List Signal
shutdown_signals = sigterm ∷ sigint ∷ []

module _ {S : Type 0} (c : Supervised S) where
  unfoldable pub in_app : {A : Type 0} → Effect S A → Effect (Process S) A
  in_app m p = let (r, s) = m p.app in (r, record p { app = s })

  unfoldable pub hook : Option (Effect S (Unit {0})) → Effect (Process S) (Unit {0})
  hook none = pure tt
  hook (some m) = in_app m

  -- `_install_shutdown_handlers`, and the signals that it installed
  unfoldable pub install : List Signal → List Signal → List Signal × List Signal
  install [] handled = ([], handled)
  install (signal ∷ signals) handled =
      let (installed, handled') = install signals handled in
      if c.installs signal
      then (signal ∷ installed, signal ∷ without signal handled')
      else (installed, handled')

  unfoldable pub install_shutdown_handlers : Effect (Process S) (List Signal)
  install_shutdown_handlers p =
      let (installed, handled) = install shutdown_signals p.handled in
      (ok installed, record p { handled = handled })

  unfoldable pub remove_all : List Signal → List Signal → List Signal
  remove_all [] handled = handled
  remove_all (signal ∷ signals) handled = remove_all signals (without signal handled)

  -- `_remove_shutdown_handlers`
  unfoldable pub remove_shutdown_handlers : List Signal → Effect (Process S) (Unit {0})
  remove_shutdown_handlers installed p =
      (ok tt, record p { handled = remove_all installed p.handled })

  -- the `finally` block
  unfoldable pub wind_down : List Signal → Effect (Process S) (Unit {0})
  wind_down installed = in_app c.stop >> remove_shutdown_handlers installed >> hook c.teardown

  -- what `start` ended with is raised again, unless the block raises
  unfoldable pub then_again : Result (Unit {0}) → Effect (Process S) (Unit {0})
  then_again (ok x) = pure tt
  then_again (raised e) = raise e

  unfoldable pub supervise : List Signal → Effect (Process S) (Unit {0})
  supervise installed p =
      let (outcome, p') = in_app c.start p in (wind_down installed >> then_again outcome) p'

  unfoldable pub run_supervised_consumer : Effect (Process S) (Unit {0})
  run_supervised_consumer =
      hook c.setup >> in_app c.get_consumer >> install_shutdown_handlers >>= supervise

  -- However `start` ends, where `stop` and `teardown` return: both have run after it, in this order, the
  -- loop handles none of the signals that were installed, and the run ends as `start` did.
  supervise_lem :
      (installed : List Signal) (p : Process S) (teardown : Effect S (Unit {0}))
      → c.teardown ≡ some teardown
      → (c.stop (c.start p.app).1).0 ≡ ok tt
      → (teardown (c.stop (c.start p.app).1).1).0 ≡ ok tt
      → supervise installed p ≡ (
        (c.start p.app).0,
        record {
          app = (teardown (c.stop (c.start p.app).1).1).1;
          handled = remove_all installed p.handled;
        },
      )
  unfolding supervise in_app wind_down remove_shutdown_handlers hook
  supervise_lem installed p teardown given stopped torn = go (c.start p.app).0 given stopped torn
    where
      go :
          (outcome : Result (Unit {0}))
          → c.teardown ≡ some teardown
          → (c.stop (c.start p.app).1).0 ≡ ok tt
          → (teardown (c.stop (c.start p.app).1).1).0 ≡ ok tt
          → (wind_down installed >> then_again outcome) (record p { app = (c.start p.app).1 }) ≡ (
            outcome,
            record {
              app = (teardown (c.stop (c.start p.app).1).1).1;
              handled = remove_all installed p.handled;
            },
          )
      go (ok x) given' stopped' torn' = unfold then_again in ground (arith, given', stopped', torn')
      go (raised e) given' stopped' torn' =
          unfold then_again in ground (arith, given', stopped', torn')
