-- ===== src/Svnedit/Shadow.antt =====
-- The shadow connection of src/svnedit.c.
use mrksvnup.Base.{Bool, true, false, if◌then◌else◌, ok, fault}
use mrksvnup.Svnedit.System.{System, Edit, Edited}

module _ (sys : System) where
  open sys use {W}

  -- `connect` is the second call.
  unfoldable pub shadow_made : Bool × W → Edit W → Edited (Edit W)
  shadow_made (false, w) x = ok (1, record x { has_shadow = false; world = w })
  shadow_made (true, w) x =
      let (connected, w') = sys.connect_shadow w in
      let x' = record x { has_shadow = true; world = w' } in
      if connected then ok (0, x') else ok (2, x')

  -- A connection that is there fails the assertion.
  unfoldable pub svnedit_init_shadow_ctx : Edit W → Edited (Edit W)
  svnedit_init_shadow_ctx x = if x.has_shadow then fault else shadow_made (sys.new_shadow x.world) x

  unfoldable pub svnedit_close_shadow_ctx : Edit W → Edit W
  svnedit_close_shadow_ctx x =
      if x.has_shadow then record x { has_shadow = false; world = sys.close_shadow x.world } else x
