-- ===== src/Application/Main.antt =====
-- The path of the configuration that `run` of cmd/mlb-controller/main.go chooses.
use mlb_controller.Base.{Bool, not, ◌&&◌, [], Str, codes, ◌==◌, str_eq, if◌then◌else◌}

abbrev default_path : Str
default_path = codes "/etc/mlb-controller/config.yaml"

-- The flag, the variable `CONFIG_PATH`, and whether the default file is there.
unfoldable pub resolve_config_path : Str → Str → Bool → Str
resolve_config_path flag env_path default_exists =
    if not (flag == [])
    then flag
    else if not (env_path == []) && not (env_path == codes "/configs/config.yaml")
    then env_path
    else if default_exists
    then default_path
    else if not (env_path == [])
    then env_path
    else default_path
