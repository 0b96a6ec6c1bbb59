-- ===== src/Tests/Editor.antt =====
-- Runs of bin/workspace_harbor_ide.py.
use serena_workspace_orchest.Prelude.{ℕ, ◌≡◌, refl, ◌↔◌, true, some, List, [], ◌∷◌}
use serena_workspace_orchest.Prelude.Strings.{codes}
use serena_workspace_orchest.Prelude.Int.{pos}
use serena_workspace_orchest.Prelude.Results.{ok}
use serena_workspace_orchest.Opener.Process.{PsRun, completed}
use serena_workspace_orchest.Ide.Version.{version_is, trusted_paths_file, is_digits}
use serena_workspace_orchest.Ide.Process.{intellij_owned_port}
use serena_workspace_orchest.Ide.Owned.{IsOwned, intellij_owned_port_iff}

abbrev idea : List (List ℕ)
idea = codes "/Applications/IntelliJ IDEA.app/Contents/MacOS/idea" ∷ []

abbrev one_listener : PsRun
one_listener = completed (pos 0) "p812\nf33\n"

abbrev runs_idea : List ℕ → PsRun
runs_idea pid = completed (pos 0) "/Applications/IntelliJ IDEA.app/Contents/MacOS/idea /project\n"

idea_owns_port : intellij_owned_port (pos 63342) idea one_listener runs_idea ≡ true
unfolding intellij_owned_port
idea_owns_port = refl

intellij_owned_port_iff_example :
    (intellij_owned_port (pos 63342) idea one_listener runs_idea ≡ true)
    ↔ IsOwned (pos 63342) idea one_listener runs_idea
intellij_owned_port_iff_example = intellij_owned_port_iff (pos 63342) idea one_listener runs_idea

version_runs :
    (is_digits (codes "4") ≡ true)
    × (trusted_paths_file (codes "home" ∷ []) (version_is (some (codes "2026.1")))
        ≡ ok (
            codes "home"
            ∷ codes "Library"
            ∷ codes "Application Support"
            ∷ codes "JetBrains"
            ∷ codes "IntelliJIdea2026.1"
            ∷ codes "options"
            ∷ codes "trusted-paths.xml"
            ∷ []))
unfolding is_digits trusted_paths_file
version_runs = (refl, refl)
