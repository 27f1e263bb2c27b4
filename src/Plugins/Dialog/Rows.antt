-- ===== src/Plugins/Dialog/Rows.antt =====
-- The filling of the three views of the plugins dialog (linux/src/plugins_manager.cpp).
use harness_desktop.Base.{
  ℕ, suc, Bool, true, false, not, ◌||◌, List, [], ◌∷◌, ◌++◌, Option, none, some, Bytes, codes, ◌&&◌,
  is_empty, bytes_eq, contains, ◌==◌, if◌then◌else◌,
}
use harness_desktop.Labels.{choose}
use harness_desktop.Plugins.Tree.{Node, Nodes, node, no_nodes, node_then, is_in}
use harness_desktop.Plugins.Market.{MarketPlugin}
use harness_desktop.Plugins.Dialog.State.{
  Flag, root, builtin, dep, Row, Rows, row, no_rows, row_then, EnabledRow, MarketRow,
}

abbrev pub is_blank : ℕ → Bool
is_blank c = c == b' ' || (c == b'\t' || (c == b'\r' || c == b'\n'))

-- find_first_not_of with the blanks, and the text from there on
unfoldable pub skip_blanks : Bytes → Bytes
skip_blanks [] = []
skip_blanks (c ∷ s) = let rest = skip_blanks s in if is_blank c then rest else c ∷ s

-- the text up to find_last_not_of
unfoldable pub drop_trailing : Bytes → Bytes
drop_trailing [] = []
drop_trailing (c ∷ s) =
    let rest = drop_trailing s in if is_empty rest && is_blank c then [] else c ∷ rest

unfoldable pub trim : Bytes → Bytes
unfolding skip_blanks drop_trailing
trim s = drop_trailing (skip_blanks s)

unfoldable pub flag_of : Bool → Bool → Flag
flag_of true is_builtin = if is_builtin then builtin else root
flag_of false is_builtin = dep

unfoldable pub status_of : Bool → List Bytes → Bytes → Bool → Bool → Bytes
unfolding choose
status_of zh enabled name is_builtin false = choose zh "依赖" "dependency"
status_of zh enabled name is_builtin true =
    let on = is_in name enabled in
    if is_builtin
    then choose zh "内置" "Built-in" ++ (if on then choose zh " · 已启用" " · enabled" else [])
    else if on
    then choose zh "已启用" "enabled"
    else choose zh "已停用" "disabled"

unfoldable mutual
  unfolding flag_of status_of

  -- FillInstalledRec: the row of a node with its children below it
  pub installed_row : Bool → List Bytes → Bool → Node → Row
  installed_row zh enabled is_root (node name is_builtin children) =
      row
        (record {
          name = name;
          status = status_of zh enabled name is_builtin is_root;
          flag = flag_of is_root is_builtin;
        })
        (child_rows zh enabled false children)

  -- the loops over the roots and over the children
  pub child_rows : Bool → List Bytes → Bool → Nodes → Rows
  child_rows zh enabled is_root no_nodes = no_rows
  child_rows zh enabled is_root (node_then n ns) =
      row_then (installed_row zh enabled is_root n) (child_rows zh enabled is_root ns)

-- the loop of FillEnabled
unfoldable pub enabled_rows_from : ℕ → List Bytes → List EnabledRow
enabled_rows_from order [] = []
enabled_rows_from order (name ∷ names) =
    record { order = order; name = name } ∷ enabled_rows_from (suc order) names

module _ {Int : Type 0} where
  -- `hit` of FillMarket
  unfoldable pub is_hit : Bytes → MarketPlugin Int → Bool
  unfolding contains
  is_hit filter p =
      contains filter (p.name)
      || (contains filter (p.display_name)
          || (contains filter (p.category) || contains filter (p.summary)))

  module _ (int_text : Int → Bytes) (zh : Bool) where
    unfoldable pub stars_text : Option Int → Bytes
    stars_text none = []
    stars_text (some n) = int_text n

    unfoldable pub market_row : ℕ → MarketPlugin Int → MarketRow
    unfolding stars_text choose bytes_eq
    market_row i p = record {
      name = p.display_name;
      type =
          if bytes_eq (p.type) (codes "package")
          then choose zh "npm 包" "npm package"
          else choose zh "仓库" "repo";
      category = p.category;
      version = p.version;
      stars = stars_text (p.stars);
      index = i;
    }

    -- the loop of FillMarket, at position `i`
    unfoldable pub market_rows_from : Bytes → ℕ → List (MarketPlugin Int) → List MarketRow
    unfolding market_row is_hit
    market_rows_from filter i [] = []
    market_rows_from filter i (p ∷ ps) =
        let later = market_rows_from filter (suc i) ps in
        if not (is_empty filter) && not (is_hit filter p) then later else market_row i p ∷ later

-- InstalledNameCell: weight and colour of a name
pub record NameCell : Type 0 where
  pub bold : Bool
  pub foreground : Option Bytes

unfoldable pub installed_name_cell : Flag → NameCell
installed_name_cell dep = record { bold = false; foreground = some (codes "#888888") }
installed_name_cell _ = record { bold = true; foreground = none }
