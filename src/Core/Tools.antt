-- ===== src/Core/Tools.antt =====
-- The tools that change state, as packages/role-bridge/server.ts hands them on to the runtime.
pub mod Retry
use agent_router.Prelude.{Text}
use agent_router.Protocol.{Result, Input}
use agent_router.Store.{Db, Outside, Response}
use agent_router.Core.External.{External}
use agent_router.Core.Identity.{Identity}
use agent_router.Core.Messages.{send}
use agent_router.Core.Finish.{finish}
use agent_router.Core.Wait.{wait}

pub data RoleTool : Type 0 where
  route_send route_finish route_wait : RoleTool

unfoldable pub role_call :
    External → Outside → Identity → RoleTool → Text → Input → Db → Result (Response × Db)
role_call x o p RoleTool.route_send op input s = send x o p op input s
role_call x o p RoleTool.route_finish op input s = finish x o p op input s
role_call x o p RoleTool.route_wait op input s = wait x p op input s
