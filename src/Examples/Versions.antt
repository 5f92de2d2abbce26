-- ===== src/Examples/Versions.antt =====
-- Inputs for the theorems about kube-core/src/gvk.rs and version.rs.
use kube.Prelude.{◌≡◌, refl, none, some, ok}
use kube.Core.Gvk.{GroupVersion, from_str, api_version}
use kube.Core.Gvk.Roundtrip.{from_str-api_version}
use kube.Core.Version.{stable, beta, alpha, nonconformant, parse, or_nonconformant}
use kube.Core.Version.Precedence.{compare_priority, kubectl_order, compare_priority-kubectl_order}
use kube.Core.Version.Roundtrip.{VersionText, beta_text, render, meant, parse-render}

abbrev apps : GroupVersion
apps = record { group = "apps"; version = "v1" }

from_str-api_version_example : from_str (api_version apps) ≡ ok apps
from_str-api_version_example = from_str-api_version apps refl refl

compare_priority-kubectl_order_example :
    compare_priority (stable 1) (beta 2 none) ≡ kubectl_order (stable 1) (beta 2 none)
compare_priority-kubectl_order_example = compare_priority-kubectl_order (stable 1) (beta 2 none)

abbrev preview : VersionText
preview = beta_text "10" (some "12")

parse-render_example : parse (render preview) ≡ or_nonconformant (render preview) (meant preview)
parse-render_example = parse-render preview ((refl, (refl, tt)), (refl, (refl, tt)))

-- The number of a preliminary release may have a sign.
signed_minor : parse "v1alpha+3" ≡ alpha 1 (some 3)
unfolding parse
signed_minor = refl

-- A number of 32 bits is the largest.
too_large : parse "v4294967296" ≡ nonconformant "v4294967296"
unfolding parse
too_large = refl

not_conformant : parse "v1zeta3" ≡ nonconformant "v1zeta3"
unfolding parse
not_conformant = refl
