-- ===== src/Router/Tests.antt =====
-- Runs of the router, and its theorems at concrete inputs.
use rs2_runtime.Message.{MsgUrl}
use rs2_runtime.Message.Url.{apply_mount}
use rs2_runtime.Router.Mounting.{apply_mount-splits}
use rs2_runtime.Common.{◌⊎◌, true, ◌++◌, ◌≡◌, refl, Option, none, some, List, [], ◌∷◌, map}
use rs2_runtime.Common.Text.{Text, lit, texts}
use rs2_runtime.Common.Sort.{sort_by}
use rs2_runtime.Json.{null}
use rs2_runtime.Error.{ok}
use rs2_runtime.Router.{
  Mount, multi, resolve, validate_path, check_candidate, normalize_base_path, normalized,
  find_duplicate, new, route, matches,
}
use rs2_runtime.Router.Table.Routes.{IsLongest, route-IsLongest}
use rs2_runtime.Router.Paths.{IsConfined, validate_path-IsConfined}

abbrev files : Mount
files = record { base_path = lit "/files"; service = lit "file"; config = null }

abbrev special : Mount
special = record { base_path = lit "files/special/"; service = lit "data"; config = null }

abbrev root : Mount
root = record { base_path = lit "/"; service = lit "file"; config = null }

abbrev served : Option Mount → Option Text
served none = none
served (some m) = some m.service

abbrev table : List Mount
table =
    record { base_path = lit "/files/special"; service = lit "data"; config = null }
    ∷ files
    ∷ record { base_path = []; service = lit "file"; config = null }
    ∷ []

made : new (files ∷ special ∷ root ∷ []) ≡ ok table
unfolding texts new normalize_base_path find_duplicate sort_by
made = refl

special_wins : served (route table (lit "/files/special/x")) ≡ some (lit "data")
unfolding texts route matches
special_wins = refl

not_on_boundary : route table (lit "/filesystem") ≡ some (normalized root)
unfolding texts route matches normalize_base_path
not_on_boundary = refl

files_routed : route table (lit "/files/a.txt") ≡ some files
unfolding texts route matches
files_routed = refl

sub_domain : resolve (multi [] (some (lit "rs2.dev"))) (lit "Beta.rs2.dev:443") ≡ some (lit "beta")
unfolding texts resolve
sub_domain = refl

accepted : validate_path (λ s. s) (lit "/a/file.with.dots.txt") ≡ ok tt
unfolding texts validate_path check_candidate
accepted = refl

route-IsLongest_example :
    IsLongest (map normalized (files ∷ special ∷ root ∷ [])) (lit "/files/a.txt") files
route-IsLongest_example =
    route-IsLongest (files ∷ special ∷ root ∷ []) table made (lit "/files/a.txt") files files_routed

validate_path-IsConfined_example :
    IsConfined (lit "/a/file.with.dots.txt") × IsConfined (lit "/a/file.with.dots.txt")
validate_path-IsConfined_example =
    validate_path-IsConfined (λ s. s) (lit "/a/file.with.dots.txt") accepted

abbrev readme : MsgUrl
readme = record { path = lit "/files/readme"; query = []; base_path = []; service_path = [] }

readme_matches : matches readme.path files ≡ true
unfolding texts matches
readme_matches = refl

apply_mount-splits_example :
    ((below : Text) × ((apply_mount readme files.base_path).service_path ≡ lit "/" ++ below)
      × (readme.path ≡ files.base_path ++ (lit "/" ++ below)))
    ⊎ (((apply_mount readme files.base_path).service_path ≡ lit "/")
        × (readme.path ≡ files.base_path))
apply_mount-splits_example =
    apply_mount-splits readme files (lit "files/readme") refl (unfold texts in refl) readme_matches
