-- ===== src/Module/Start/Endings.antt =====
-- `moduleMain` of src/app/module/module.c from beginning to end, with the functions of a program that
-- keep invariants.
use Prim.Native.String.{String}
use xsocks.Base.{Bool, true, false, List, Option, none, some}
use xsocks.Config.{Config}
use xsocks.Config.Parse.{Opt, Outcome, ends, configured, config_parse}
use xsocks.Module.Start.{
  Machine, Hook, Ended, parsing, usage, failed, returned, module_exit, after_loop, after_run,
  run_and_exit, with_acl, with_crypto, with_pid_file, start, after_parse, module_main,
}

module _ {State World : Type 0} (Q : Ended → World → Type 0) where
  -- the program goes on with a good state, or has failed in a good world
  abbrev pub Good : (State → World → Type 0) → Option State × World → Type 0
  Good I (none, w) = Q failed w
  Good I (some s, w) = I s w

  -- Of a program that starts in `w`: `I0` holds behind Init, `I` behind Run, `J` behind the loop.
  pub record Keeping (hook : Hook State World) (I0 I J : State → World → Type 0) (w : World)
      : Type 0 where
    pub idle : Q parsing w × Q usage w × Q failed w
    pub inits : (c : Config) → Good I0 (hook.init c w)
    pub runs : (c : Config) (s : State) (w' : World) → I0 s w' → Good I (hook.run c s w')
    pub loops : (s : State) (w' : World) → I s w' → J (hook.loop s w').0 (hook.loop s w').1
    pub exits : (s : State) (w' : World) → J s w' → Q returned (hook.exit s w')

module _ (machine : Machine) {State World : Type 0} (Q : Ended → World → Type 0)
    (hook : Hook State World) {I0 I J : State → World → Type 0} (w : World)
    (k : Keeping Q hook I0 I J w) where
  open machine use {Files}

  abbrev Well : Ended × Files × World → Type 0
  Well (e, f, w') = Q e w'

  after_run-Keeping :
      (c : Config) (r : Option State × World) (f : Files)
      → Good Q I r
      → Well (after_run machine hook c r f)
  unfolding after_run after_loop module_exit
  after_run-Keeping c (none, w') f q = q
  after_run-Keeping c (some s, w') f i =
      k.exits (hook.loop s w').0 (hook.loop s w').1 (k.loops s w' i)

  run_and_exit-Keeping :
      (c : Config) (r : Option State × World) (f : Files)
      → Good Q I0 r
      → Well (run_and_exit machine hook c r f)
  unfolding run_and_exit
  run_and_exit-Keeping c (none, w') f q = q
  run_and_exit-Keeping c (some s, w') f i =
      after_run-Keeping c (hook.run c s w') f (k.runs c s w' i)

  with_acl-Keeping : (c : Config) (r : Bool × Files) → Well (with_acl machine hook c r w)
  unfolding with_acl
  with_acl-Keeping c (false, f) = k.idle.2
  with_acl-Keeping c (true, f) = run_and_exit-Keeping c (hook.init c w) f (k.inits c)

  with_crypto-Keeping : (c : Config) (r : Bool × Files) → Well (with_crypto machine hook c r w)
  unfolding with_crypto
  with_crypto-Keeping c (false, f) = k.idle.2
  with_crypto-Keeping c (true, f) = with_acl-Keeping c _

  with_pid_file-Keeping :
      (c : Config) (password : String) (r : Bool × Files)
      → Well (with_pid_file machine hook c password r w)
  unfolding with_pid_file
  with_pid_file-Keeping c password (false, f) = k.idle.2
  with_pid_file-Keeping c password (true, f) = with_crypto-Keeping c _

  start-Keeping :
      (c : Config) (password : Option String) (f : Files) → Well (start machine hook c password f w)
  unfolding start
  start-Keeping c none f = k.idle.2
  start-Keeping c (some password) f = with_pid_file-Keeping c password _

  after_parse-Keeping : (o : Outcome) (f : Files) → Well (after_parse machine hook o f w)
  unfolding after_parse
  after_parse-Keeping ends f = k.idle.0
  after_parse-Keeping (configured true c) f = k.idle.1
  after_parse-Keeping (configured false c) f = start-Keeping c c.password f

  -- However the program ends, it ends in a good world.
  pub module_main-Keeping :
      (xs : List Opt) (f : Files) → let (e, f', w') = module_main machine hook xs f w in Q e w'
  unfolding module_main
  module_main-Keeping xs f = after_parse-Keeping (config_parse machine.calls xs) f
