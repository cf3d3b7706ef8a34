-- ===== src/Cli/InstallCommand/Confirmed.antt =====
-- About when `ctxlite install` changes a file (packages/cli/src/install.ts).
use ctxlite.Prelude.{
  ◌≡◌, refl, ◌⊎◌, inl, inr, true, false, ◌&&◌, ◌||◌, not, Option, none, some, List, arith, Text,
  any, Bool-cases,
}
use ctxlite.Install.Paths.{InstallTool, InstallScope, Machine, Result, ok, error}
use ctxlite.Install.Run.{Disk, InstallPlanItem, plan_install, run_install}
use ctxlite.Install.Refresh.{Shell}
use ctxlite.Install.Run.Kinds.{Result-cases}
use ctxlite.Cli.InstallCommand.{
  InstallArgs, Terminal, Outcome, parse_install_args, options_of, is_open_code, finish_install,
  confirm_and_run, plan_and_run, scope_from, with_scope, with_prompts, with_tools,
  run_install_command,
}
use ctxlite.Prelude.{if-either}
use ctxlite.Prelude.{Bool, ◌≢◌}
use ctxlite.Install.Paths.{InstallError}
use ctxlite.Prelude.{text_eq}
use ctxlite.Prelude.{str}
use ctxlite.Cli.InstallCommand.{with_args}

-- Where the tools of an installation come from: `--tool`, or the answer at a terminal.
abbrev pub IsToolChoice : Terminal → InstallArgs → List InstallTool → Type 0
IsToolChoice term args tools =
    (args.tools ≡ some tools)
    ⊎ ((args.tools ≡ none) × (term.is_tty ≡ true) × (term.chosen_tools ≡ some tools))

abbrev pub gives_scope : List Text → Bool
gives_scope argv = any (λ arg. text_eq arg (str "--scope")) argv

-- Where its scope comes from: the arguments, whose scope is global without `--scope`; or the answer,
-- where the tools are asked for too and no argument is `--scope`.
abbrev pub IsScopeChoice : Terminal → List Text → InstallArgs → InstallScope → Type 0
IsScopeChoice term argv args scope =
    ((scope ≡ args.scope) × ((args.tools ≢ none) ⊎ (gives_scope argv ≡ true)))
    ⊎ ((args.tools ≡ none) × (gives_scope argv ≡ false) × (term.chosen_scope ≡ some scope))

-- Somebody wants the installation: `--yes` is given, or the question is answered at a terminal.
abbrev pub is_wanted : Terminal → InstallArgs → Bool
is_wanted term args = args.confirmed || term.is_tty && term.agrees

module _ (m : Machine) (shell : Shell) (term : Terminal) (disk : Disk) where
  -- The command has installed what its arguments and answers ask for.
  pub record IsConfirmed (argv : List Text) (out : Outcome) : Type 0 where
    pub args : InstallArgs
    pub tools : List InstallTool
    pub scope : InstallScope
    pub parsed : parse_install_args m argv ≡ ok args
    pub no_help : args.help ≡ false
    pub no_dry_run : args.dry_run ≡ false
    pub wanted : is_wanted term args ≡ true
    pub chosen_tools : IsToolChoice term args tools
    pub chosen_scope : IsScopeChoice term argv args scope
    pub installed : out.disk ≡ (run_install m disk (options_of args tools scope)).1

  -- Why the disk stays as it is: the help, a dry run, nobody who wants it, a choice that is not made, or
  -- a plan that fails.
  abbrev pub IsDeclined : List Text → InstallArgs → Type 0
  IsDeclined argv args =
      (args.help ≡ true)
      ⊎ (args.dry_run ≡ true)
      ⊎ (is_wanted term args ≡ false)
      ⊎ ((args.tools ≡ none)
          × ((term.is_tty ≡ false)
              ⊎ (term.chosen_tools ≡ none)
              ⊎ ((gives_scope argv ≡ false) × (term.chosen_scope ≡ none))))
      ⊎ ((tools : List InstallTool) × (scope : InstallScope) × (e : InstallError) × IsToolChoice
            term args tools
          × IsScopeChoice term argv args scope
          × (plan_install m disk (options_of args tools scope) ≡ error e))

  abbrev pub IsKept : List Text → Outcome → Type 0
  IsKept argv out =
      (out.disk ≡ disk)
      × (((e : InstallError) × (parse_install_args m argv ≡ error e))
          ⊎ ((args : InstallArgs) × (parse_install_args m argv ≡ ok args) × IsDeclined argv args))

  -- What becomes of the disk for arguments that do not ask for help.
  abbrev IsRun : List Text → InstallArgs → Outcome → Type 0
  IsRun argv args out =
      ((out.disk ≡ disk) × IsDeclined argv args)
      ⊎ ((tools : List InstallTool) × (scope : InstallScope) × (args.dry_run ≡ false)
          × (is_wanted term args ≡ true)
          × IsToolChoice term args tools
          × IsScopeChoice term argv args scope
          × (out.disk ≡ (run_install m disk (options_of args tools scope)).1))

  finish_install-disk :
      (args : InstallArgs) (tools : List InstallTool) (scope : InstallScope)
      (ran : Result (List InstallPlanItem) × Disk)
      → (finish_install m shell args tools scope ran).disk ≡ ran.1
  unfolding finish_install
  finish_install-disk args tools scope (error e, d) = refl
  finish_install-disk args tools scope (ok items, d) =
      elim (Bool-cases (not args.removing && any is_open_code tools)) [
        | inl e ↦ rw e refl
        | inr e ↦ rw e refl
      ]

  module _ (argv : List Text) (args : InstallArgs) (tools : List InstallTool) (scope : InstallScope)
      (t : IsToolChoice term args tools) (c : IsScopeChoice term argv args scope) where
    confirm-cases : IsRun argv args (confirm_and_run m shell term args tools scope disk)
    unfolding confirm_and_run
    confirm-cases = elim (Bool-cases args.dry_run) [
      | inl e ↦ inl (rw e refl, inr (inl e))
      | inr e ↦ elim (Bool-cases (not args.confirmed && not term.is_tty)) [
        | inl f ↦ inl (rw (e, f) refl, inr (inr (inl (ground arith))))
        | inr f ↦ elim (Bool-cases (not args.confirmed && not term.agrees)) [
          | inl g ↦ inl (rw (e, f, g) refl, inr (inr (inl (ground arith))))
          | inr g ↦ inr (
            tools,
            scope,
            e,
            ground arith,
            t,
            c,
            rw (e, f, g) (finish_install-disk args tools scope _),
          )
        ]
      ]
    ]

    plan-cases : IsRun argv args (plan_and_run m shell term args tools scope disk)
    unfolding plan_and_run
    plan-cases = elim (Result-cases (plan_install m disk (options_of args tools scope))) [
      | inl (plan, e) ↦ rw e confirm-cases
      | inr (err, e) ↦ rw e (inl (refl, inr (inr (inr (inr (tools, scope, err, t, c, e))))))
    ]

  -- The scope is chosen, or there is none to choose.
  abbrev IsScopeAnswer : List Text → InstallArgs → Option InstallScope → Type 0
  IsScopeAnswer argv args none = (gives_scope argv ≡ false) × (term.chosen_scope ≡ none)
  IsScopeAnswer argv args (some scope) = IsScopeChoice term argv args scope

  scope_from-IsScopeAnswer :
      (argv : List Text) (args : InstallArgs)
      → args.tools ≡ none
      → IsScopeAnswer argv args (scope_from term argv args)
  unfolding scope_from
  scope_from-IsScopeAnswer argv args n =
      if-either (IsScopeAnswer argv args) (gives_scope argv) (some args.scope) term.chosen_scope
        (λ e. inl (refl, inr e)) (λ e. answer e term.chosen_scope refl)
    where
      answer :
          gives_scope argv ≡ false
          → (o : Option InstallScope) → term.chosen_scope ≡ o
          → IsScopeAnswer argv args o
      answer e none chosen = (e, chosen)
      answer e (some scope) chosen = inr (n, e, chosen)

  module _ (argv : List Text) (args : InstallArgs) where
    scope-cases :
        (tools : List InstallTool) (o : Option InstallScope)
        → args.tools ≡ none
        → IsToolChoice term args tools
        → IsScopeAnswer argv args o
        → IsRun argv args (with_scope m shell term args tools o disk)
    scope-cases tools none n t a = inl (refl, inr (inr (inr (inl (n, inr (inr a))))))
    scope-cases tools (some scope) n t a = plan-cases argv args tools scope t a

    prompts-cases :
        (o : Option (List InstallTool))
        → args.tools ≡ none
        → term.is_tty ≡ true
        → term.chosen_tools ≡ o
        → IsRun argv args (with_prompts m shell term argv args o disk)
    prompts-cases none n tty chosen = inl (refl, inr (inr (inr (inl (n, inr (inl chosen))))))
    prompts-cases (some tools) n tty chosen =
        scope-cases tools (scope_from term argv args) n (inr (n, tty, chosen))
          (scope_from-IsScopeAnswer argv args n)

    tools-cases :
        (o : Option (List InstallTool))
        → args.tools ≡ o
        → IsRun argv args (with_tools m shell term argv args o disk)
    unfolding with_tools
    tools-cases (some tools) e =
        plan-cases argv args tools args.scope (inl e) (inl (refl, inl (λ n. cc (n, e))))
    tools-cases none n =
        if-either (IsRun argv args) term.is_tty _ _
          (λ tty. prompts-cases term.chosen_tools n tty refl)
          (λ tty. inl (refl, inr (inr (inr (inl (n, inl tty))))))

    run-cases :
        (out : Outcome)
        → parse_install_args m argv ≡ ok args
        → args.help ≡ false
        → IsRun argv args out
        → IsKept argv out ⊎ IsConfirmed argv out
    run-cases out e h (inl (same, why)) = inl (same, inr (args, e, why))
    run-cases out e h (inr (tools, scope, no_dry_run, wanted, t, c, installed)) = inr (record {
      args = args;
      tools = tools;
      scope = scope;
      parsed = e;
      no_help = h;
      no_dry_run = no_dry_run;
      wanted = wanted;
      chosen_tools = t;
      chosen_scope = c;
      installed = installed;
    })

  args-cases :
      (argv : List Text) (r : Result InstallArgs)
      → parse_install_args m argv ≡ r
      → IsKept argv (with_args m shell term argv r disk)
        ⊎ IsConfirmed argv (with_args m shell term argv r disk)
  args-cases argv (error err) e = inl (refl, inl (err, e))
  args-cases argv (ok args) e =
      if-either (λ out. IsKept argv out ⊎ IsConfirmed argv out) args.help _ _
        (λ h. inl (refl, inr (args, e, inl h)))
        (λ h. run-cases argv args _ e h (tools-cases argv args args.tools refl))

  -- Whatever the arguments, the answers and the files, ctxlite install does one of two things. It
  -- leaves the disk as it is: the arguments are not parsed, or ask for help or a dry run, or
  -- nobody wants the installation, or its tools or its scope are not chosen, or its plan fails.
  -- Or it does to the disk what runInstall does for the tools and the scope of the parsed
  -- arguments; where these have no tools, for those chosen at a terminal, and for the scope
  -- chosen there unless an argument is --scope. Then the parsed arguments ask for neither help
  -- nor a dry run, and they confirm the installation or the question is answered with yes at a
  -- terminal.
  pub run_install_command-IsConfirmed :
      (argv : List Text)
      → IsKept argv (run_install_command m shell term argv disk)
        ⊎ IsConfirmed argv (run_install_command m shell term argv disk)
  unfolding run_install_command
  run_install_command-IsConfirmed argv = args-cases argv (parse_install_args m argv) refl
