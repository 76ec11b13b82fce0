-- ===== src/Module/Start.antt =====
-- src/app/module/module.c: starting a program, running its event loop, and ending it. The functions Init,
-- Run and Exit of a program are its `Hook`.
pub mod Programs
pub mod Endings
use Prim.Native.String.{String}
use xsocks.Base.{Bool, true, false, List, Option, none, some, if◌then◌else◌}
use xsocks.Base.Int.{is_zero}
use xsocks.Config.{Calls, Config}
use xsocks.Config.Load.{is}
use xsocks.Config.Parse.{Opt, Outcome, ends, configured, config_parse}

-- What the frame calls of the operating system and of the libraries. `Files` is the state of the files and
-- of the process; `create_file` is fopen for writing, where the number of the process is written to, and
-- `false` where it fails; `crypto_init` and `init_acl` say whether they succeed. The log is left out, and
-- the handlers of signals only stop the loop.
pub record Machine : Type 1 where
  pub Files : Type 0
  pub calls : Calls
  pub daemonize : Files → Files
  pub create_file : String → Files → Bool × Files
  pub unlink : String → Files → Files
  pub crypto_init : String → Option String → Option String → Files → Bool × Files
  pub init_acl : String → Files → Bool × Files
  pub free_acl : Files → Files

-- `moduleHook`: `none` where a function ends the program, by FATAL or exit. `loop` is eventLoopRun.
pub record Hook (State World : Type 0) : Type 0 where
  pub init : Config → World → Option State × World
  pub run : Config → State → World → Option State × World
  pub loop : State → World → State × World
  pub exit : State → World → World

-- how a program ends: in configParse, after the usage, with EXIT_ERR, or by returning EXIT_OK from main
pub data Ended : Type 0 where
  parsing usage failed returned : Ended

module _ (machine : Machine) {State World : Type 0} (hook : Hook State World) where
  open machine use {Files, calls, daemonize, create_file, unlink, crypto_init, init_acl, free_acl}

  abbrev pub End : Type 0
  End = Ended × Files × World

  -- `createPidFile`
  pub create_pid_file : Option String → Files → Bool × Files
  create_pid_file none f = (true, f)
  create_pid_file (some path) f = if is path "" then (true, f) else create_file path f

  -- `moduleExit`, with what it frees of the files
  pub module_exit : Config → State → Files → World → Files × World
  module_exit c s f w =
      let f1 : Files = elim c.pidfile [ none ↦ f | some path ↦ unlink path f ] in
      (elim c.acl [ none ↦ f1 | some acl ↦ free_acl f1 ], hook.exit s w)

  -- behind the loop
  pub after_loop : Config → State × World → Files → End
  unfolding module_exit
  after_loop c (s, w) f = let (f', w') = module_exit c s f w in (returned, f', w')

  -- behind the `run` of the hook: the loop, and `moduleExit`
  after_run : Config → Option State × World → Files → End
  unfolding after_loop
  after_run c (none, w) f = (failed, f, w)
  after_run c (some s, w) f = after_loop c (hook.loop s w) f

  -- `moduleRun` and `moduleExit`, behind the `init` of the hook
  run_and_exit : Config → Option State × World → Files → End
  unfolding after_run
  run_and_exit c (none, w) f = (failed, f, w)
  run_and_exit c (some s, w) f = after_run c (hook.run c s w) f

  -- init_acl, for a configuration with an acl
  abbrev pub load_acl : Config → Files → Bool × Files
  load_acl c f = elim c.acl [ none ↦ (true, f) | some acl ↦ init_acl acl f ]

  -- behind init_acl
  with_acl : Config → Bool × Files → World → End
  unfolding run_and_exit
  with_acl c (false, f) w = (failed, f, w)
  with_acl c (true, f) w = run_and_exit c (hook.init c w) f

  -- behind crypto_init
  with_crypto : Config → Bool × Files → World → End
  unfolding with_acl
  with_crypto c (false, f) w = (failed, f, w)
  with_crypto c (true, f) w = with_acl c (load_acl c f) w

  -- behind `createPidFile`
  with_pid_file : Config → String → Bool × Files → World → End
  unfolding with_crypto
  with_pid_file c password (false, f) w = (failed, f, w)
  with_pid_file c password (true, f) w = with_crypto c (crypto_init password c.key c.method f) w

  -- `moduleInit` behind configParse, and what follows
  start : Config → Option String → Files → World → End
  unfolding with_pid_file create_pid_file
  start c none f w = (failed, f, w)
  start c (some password) f w =
      with_pid_file c password
        (create_pid_file c.pidfile (if is_zero c.daemonize then f else daemonize f)) w

  after_parse : Outcome → Files → World → End
  unfolding start
  after_parse ends f w = (parsing, f, w)
  after_parse (configured true c) f w = (usage, f, w)
  after_parse (configured false c) f w = start c c.password f w

  -- `moduleMain`
  pub module_main : List Opt → Files → World → End
  unfolding after_parse
  module_main xs f w = after_parse (config_parse calls xs) f w
