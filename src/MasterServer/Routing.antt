-- ===== src/MasterServer/Routing.antt =====
-- `MasterServer::router` of src/master/master_server.cpp.
use rackkey.Common.{ℕ, List, [], list_beq, if◌then◌else◌, codes}
use rackkey.Common.Exec.{pure}
use rackkey.Block.{Block}
use rackkey.Http.{Method, method_get, method_put, method_del, method_other, is_get}
use rackkey.Utils.{parse_path, fixed_size}
use package.rackkey.MasterServer.{Handler, Network, NodeSet, Order}
use package.rackkey.MasterServer.Getting.{get_handler}
use package.rackkey.MasterServer.Putting.{put_handler}
use package.rackkey.MasterServer.Deleting.{delete_handler}
use package.rackkey.MasterServer.Display.{keys_handler, stats_handler}

pub record Request : Type 0 where
  pub method : Method
  pub uri : List ℕ
  pub payload : List ℕ

-- What a request meets outside: the nodes' answers, and the orders of the hash maps.
pub record Surroundings : Type 0 where
  pub network : Network
  pub get_order : Order ℕ
  pub put_order : Order Block
  pub delete_order : NodeSet → List ℕ

-- An unknown endpoint gets no reply, and neither does a method that an endpoint does not have.
unfoldable pub router : (List ℕ → ℕ) → ℕ → Surroundings → Request → Handler
unfolding parse_path fixed_size get_handler put_handler delete_handler keys_handler stats_handler
router sha256_32 fuel around request =
    let (endpoint, param) = parse_path request.uri in
    let key = fixed_size param 50 in
    if list_beq endpoint (codes "/store")
    then elim request.method [
      | method_get ↦ get_handler around.network around.get_order key
      | method_put ↦ put_handler sha256_32 fuel around.network around.put_order key request.payload
      | method_del ↦ delete_handler around.network around.delete_order key
      | method_other ↦ pure []
    ]
    else if list_beq endpoint (codes "/keys")
    then (if is_get request.method then keys_handler else pure [])
    else if list_beq endpoint (codes "/stats")
    then (if is_get request.method then stats_handler else pure [])
    else pure []
