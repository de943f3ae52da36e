-- ===== src/MasterServer/Display.antt =====
-- The texts of src/master/master_server.cpp: `KeysEndpoint` and `StatsEndpoint`, the printed map
-- `showKbn` and `calculateAndShowBlockDistribution`.
use rackkey.Common.{ℕ, zero, suc, List, [], ◌∷◌, ◌++◌, if◌then◌else◌, replicate, to_string, codes}
use rackkey.Common.Exec.{pure, gets, ◌>>=◌}
use rackkey.Http.{status_ok}
use rackkey.OrderedMap.{OrderedMap}
use rackkey.OrderedMap.Order.{nat_ord}
use rackkey.StorageNode.{StorageNode}
use rackkey.Utils.{remove_null_chars, center_text}
use rackkey.Utils.NumBytes.{format_num_bytes}
use package.rackkey.MasterServer.{Handler, KeyBlockNodeMap}

abbrev pub newline : List ℕ
newline = 10 ∷ []

unfoldable pub keys_text : KeyBlockNodeMap → List ℕ
unfolding remove_null_chars
keys_text [] = []
keys_text ((key, m) ∷ kbn) = (remove_null_chars key ++ newline) ++ keys_text kbn

unfoldable pub keys_handler : Handler
unfolding keys_text
keys_handler = do
  body ← gets (λ ms. keys_text ms.key_block_node_map)
  pure (record { status = status_ok; body = body } ∷ [])

abbrev pub num_columns : ℕ
num_columns = 6

abbrev pub column_width : ℕ
column_width = 15

divider : List ℕ
divider = replicate column_width b'-'

-- The loop that prints the top and the bottom divider; the last column has one more dash.
outer_divider : ℕ → List ℕ
unfolding divider
outer_divider zero = []
outer_divider (suc zero) = (divider ++ codes "-") ++ codes "-"
outer_divider (suc (suc columns)) = (divider ++ codes "-") ++ outer_divider (suc columns)

middle_divider : ℕ → List ℕ
unfolding divider
middle_divider zero = []
middle_divider (suc zero) = (codes "|" ++ divider) ++ codes "|"
middle_divider (suc (suc columns)) = (codes "|" ++ divider) ++ middle_divider (suc columns)

-- A row's cells, each in a column.
cells : List (List ℕ) → List ℕ
unfolding center_text
cells [] = codes "|"
cells (text ∷ texts) = (codes "|" ++ center_text text column_width) ++ cells texts

header_row : List ℕ
unfolding cells
header_row = cells (
    codes "node"
    ∷ codes "status"
    ∷ codes "#blocks"
    ∷ codes "used"
    ∷ codes "free"
    ∷ codes "total"
    ∷ [])

-- The variable for the free size holds the used one and the other way round, and they are printed in
-- that order: each value stands below its title.
node_row : ℕ → StorageNode → List ℕ
unfolding cells to_string format_num_bytes
node_row id sn =
    let node_free_size_text = format_num_bytes sn.stats.data_bytes_used in
    let node_used_size_text = format_num_bytes sn.stats.data_bytes_free in
    cells (
      to_string id
      ∷ (if sn.is_healthy then codes "running" else codes "down")
      ∷ to_string sn.stats.blocks_stored
      ∷ node_free_size_text
      ∷ node_used_size_text
      ∷ format_num_bytes sn.stats.data_bytes_total
      ∷ [])

node_rows : OrderedMap ℕ StorageNode → List ℕ
unfolding node_row
node_rows [] = []
node_rows ((id, sn) ∷ nodes) = (node_row id sn ++ newline) ++ node_rows nodes

unfoldable pub create_stats_display : OrderedMap ℕ StorageNode → List ℕ
unfolding outer_divider middle_divider header_row node_rows
create_stats_display nodes =
    (outer_divider num_columns ++ newline)
    ++ (header_row ++ newline)
    ++ (middle_divider num_columns ++ newline)
    ++ node_rows nodes
    ++ (outer_divider num_columns ++ newline)

unfoldable pub stats_handler : Handler
unfolding create_stats_display
stats_handler = do
  body ← gets (λ ms. create_stats_display ms.storage_nodes)
  pure (record { status = status_ok; body = body } ∷ [])
