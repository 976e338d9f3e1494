-- ===== src/Enums/VillagerProfession.antt =====
-- src/enums/_villager-profession.hpp.
use Prim.Native.String.{String}
use text.Mathlib.Text.{◌==◌}
use je2be.Prelude.{Option, none, some, if◌then◌else◌}
use je2be.Enums.Prefix.{has_prefix, skip}
use je2be.Prelude.Int.{ℤ, pos}

pub data VillagerProfession : Type 0 where
  farmer : VillagerProfession
  fisherman : VillagerProfession
  shepherd : VillagerProfession
  fletcher : VillagerProfession
  librarian : VillagerProfession
  cartographer : VillagerProfession
  cleric : VillagerProfession
  armorer : VillagerProfession
  weapon_smith : VillagerProfession
  tool_smith : VillagerProfession
  butcher : VillagerProfession
  leather_worker : VillagerProfession
  stone_mason : VillagerProfession
  nitwit : VillagerProfession

-- The value of the enum, which `variant` returns.
unfoldable pub villager_profession_variant : VillagerProfession → ℤ
villager_profession_variant farmer = pos 1
villager_profession_variant fisherman = pos 2
villager_profession_variant shepherd = pos 3
villager_profession_variant fletcher = pos 4
villager_profession_variant librarian = pos 5
villager_profession_variant cartographer = pos 6
villager_profession_variant cleric = pos 7
villager_profession_variant armorer = pos 8
villager_profession_variant weapon_smith = pos 9
villager_profession_variant tool_smith = pos 10
villager_profession_variant butcher = pos 11
villager_profession_variant leather_worker = pos 12
villager_profession_variant stone_mason = pos 13
villager_profession_variant nitwit = pos 14

unfoldable pub trade_table_path : VillagerProfession → Option String
trade_table_path farmer = some "trading/economy_trades/farmer_trades.json"
trade_table_path fisherman = some "trading/economy_trades/fisherman_trades.json"
trade_table_path shepherd = some "trading/economy_trades/shepherd_trades.json"
trade_table_path fletcher = some "trading/economy_trades/fletcher_trades.json"
trade_table_path librarian = some "trading/economy_trades/librarian_trades.json"
trade_table_path cartographer = some "trading/economy_trades/cartographer_trades.json"
trade_table_path cleric = some "trading/economy_trades/cleric_trades.json"
trade_table_path armorer = some "trading/economy_trades/armorer_trades.json"
trade_table_path weapon_smith = some "trading/economy_trades/weapon_smith_trades.json"
trade_table_path tool_smith = some "trading/economy_trades/tool_smith_trades.json"
trade_table_path butcher = some "trading/economy_trades/butcher_trades.json"
trade_table_path leather_worker = some "trading/economy_trades/leather_worker_trades.json"
trade_table_path stone_mason = some "trading/economy_trades/stone_mason_trades.json"
trade_table_path nitwit = none

unfoldable pub villager_profession_from_java : String → Option VillagerProfession
unfolding has_prefix skip
villager_profession_from_java n =
    let t = if has_prefix "minecraft:" n then skip 10 n else n in
    if t == "shepherd"
    then some shepherd
    else if t == "farmer"
    then some farmer
    else if t == "fisherman"
    then some fisherman
    else if t == "butcher"
    then some butcher
    else if t == "armorer"
    then some armorer
    else if t == "cartographer"
    then some cartographer
    else if t == "fletcher"
    then some fletcher
    else if t == "weaponsmith"
    then some weapon_smith
    else if t == "toolsmith"
    then some tool_smith
    else if t == "mason"
    then some stone_mason
    else if t == "leatherworker"
    then some leather_worker
    else if t == "cleric"
    then some cleric
    else if t == "librarian"
    then some librarian
    else if t == "nitwit"
    then some nitwit
    else none

unfoldable pub villager_profession_string : VillagerProfession → String
villager_profession_string farmer = "farmer"
villager_profession_string fisherman = "fisherman"
villager_profession_string shepherd = "shepherd"
villager_profession_string fletcher = "fletcher"
villager_profession_string librarian = "librarian"
villager_profession_string cartographer = "cartographer"
villager_profession_string cleric = "cleric"
villager_profession_string armorer = "armorer"
villager_profession_string weapon_smith = "weaponsmith"
villager_profession_string tool_smith = "toolsmith"
villager_profession_string butcher = "butcher"
villager_profession_string leather_worker = "leatherworker"
villager_profession_string stone_mason = "mason"
villager_profession_string nitwit = "nitwit"
