-- ===== src/Application/Metrics/Laws.antt =====
-- The endpoints of the metrics server, and what the metrics show of the controller's calls.
use mlb_controller.Base.{
  suc, ◌+◌, ◌≡◌, ◌⊎◌, Bool, false, [], ◌∷◌, ◌++◌, Option, Str, codes, ◌==◌, str_eq, if◌then◌else◌,
}
use mlb_controller.Base.Text.{contains_byte, has_prefix}
use mlb_controller.Application.Metrics.{metrics_handler, healthz_handler, readyz_handler, Mux}

abbrev IsProbe : Str → Type 0
IsProbe uri = (uri ≡ codes "/healthz") ⊎ (uri ≡ codes "/readyz")

-- The mux of a path that is no probe.
abbrev mux_of : Str → Mux
mux_of uri =
    (uri, metrics_handler)
    ∷ (codes "/healthz", healthz_handler)
    ∷ (codes "/readyz", readyz_handler)
    ∷ []

-- A pattern without a method, a wildcard or an escape: no space, tab, brace or percent sign in it.
abbrev pub IsPlain : Str → Type 0
IsPlain s =
    (contains_byte b' ' s ≡ false)
    × (contains_byte 9 s ≡ false)
    × (contains_byte b'{' s ≡ false)
    × (contains_byte b'%' s ≡ false)

-- The path of the metrics for a setting.
abbrev path_for : Str → Str
path_for uri =
    let path = if uri == [] then codes "/metrics" else uri in
    if has_prefix path (codes "/") then path else b'/' ∷ path
