-- ===== src/Transfers/Examples.antt =====
-- The theorem on the transfers at a concrete run.
use whatsapp_mcp.Prelude.{◌≤◌, ◌≡◌, ◌⊎◌, false, none, some, List, [], ◌∷◌}
use whatsapp_mcp.Transfers.{
  Use, asked, ended, tracked, released, counted_down, group_stopped, use_all, new_group, abandoned,
}
use whatsapp_mcp.Transfers.Single.{IsSingle, IsSingle-use_all}

-- Two callers share one transfer, another starts before the first has called `wg.Done`, and the
-- group stops while one runs.
abbrev shared : List Use
shared =
    asked "/store/a.jpg" 0
    ∷ asked "/store/a.jpg" 500
    ∷ ended "/store/a.jpg" 700 none
    ∷ asked "/store/b.jpg" 0
    ∷ counted_down
    ∷ tracked false
    ∷ group_stopped
    ∷ []

abbrev shutting_down : List Use
shutting_down =
    asked "/store/c.jpg" 0
    ∷ ended "/store/b.jpg" 0 (some abandoned)
    ∷ released 2
    ∷ counted_down
    ∷ counted_down
    ∷ []

IsSingle-use_all_example :
    IsSingle (use_all shared new_group)
    × (((use_all shared new_group).stopped ≡ false)
        ⊎ ((use_all shutting_down (use_all shared new_group)).active
            ≤ (use_all shared new_group).active))
IsSingle-use_all_example = IsSingle-use_all shared shutting_down
