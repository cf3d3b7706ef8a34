-- ===== src/Install/Refresh.antt =====
-- `refreshOpenCodePlugin`, with the two calls of the shell as parameters (install/opencode-refresh.ts).
use ctxlite.Prelude.{Bool, true, false, Option, none, some, List, [], ◌∷◌, ◌++◌, Text, str, join}
use ctxlite.Install.Paths.{InstallScope, Machine, global, project, join_path}

unfoldable pub opencode_plugin_cache_dir : Machine → Text → Text
opencode_plugin_cache_dir m home_dir =
    join_path m home_dir (str ".cache" ∷ str "opencode" ∷ str "packages" ∷ str "@ctxlite" ∷ [])

-- A call of a program: the message of its failure, or none.
abbrev pub Shell : Type 0
Shell = Text → List Text → Option Text

-- The result, and the directory that is removed on the way.
pub record OpenCodeRefreshResult : Type 0 where
  pub attempted : Bool
  pub ok : Bool
  pub message : Text
  pub removed : Option Text

unfoldable pub refresh_args : InstallScope → List Text
refresh_args global = str "plugin" ∷ str "@ctxlite/opencode" ∷ str "-g" ∷ str "--force" ∷ []
refresh_args project = str "plugin" ∷ str "@ctxlite/opencode" ∷ str "--force" ∷ []

abbrev pub refreshed : List Text → Text → Option Text → OpenCodeRefreshResult
refreshed args dir none = record {
  attempted = true;
  ok = true;
  message = str "Refreshed OpenCode's cached plugin version";
  removed = some dir;
}
refreshed args dir (some failure) = record {
  attempted = true;
  ok = false;
  message =
      str "Cleared stale cache but `opencode "
      ++ (join (str " ") args ++ (str "` failed: " ++ failure));
  removed = some dir;
}

abbrev pub after_version :
    Machine → Shell → InstallScope → Text → Option Text → OpenCodeRefreshResult
after_version m shell scope home_dir (some failure) = record {
  attempted = false;
  ok = false;
  message = str "opencode CLI not found on PATH — skipped cache refresh";
  removed = none;
}
after_version m shell scope home_dir none =
    refreshed (refresh_args scope) (opencode_plugin_cache_dir m home_dir)
      (shell (str "opencode") (refresh_args scope))

unfoldable pub refresh_open_code_plugin :
    Machine → Shell → InstallScope → Text → OpenCodeRefreshResult
refresh_open_code_plugin m shell scope home_dir =
    after_version m shell scope home_dir (shell (str "opencode") (str "--version" ∷ []))
