-- ===== src/Trace/Json.antt =====
-- `serde_json::Value`, as far as main/src/trace.rs matches on it. A number is kept as what `as_u64`
-- returns for it; the members of an object stand in a list, of which `remove` takes the first.
use cargo_stylus.Common.{ℕ, suc, ◌≤◌, String, ◌≡◌, Bool, Option, none, some, arith, if◌then◌else◌}
use cargo_stylus.Common.Text.{str_eq}
use Prim.Native.Nat.{max}

mutual
  pub data Value : Type 0 where
    null : Value
    bool : Bool → Value
    number : Option ℕ → Value
    string : String → Value
    array : Values → Value
    object : Members → Value

  pub data Values : Type 0 where
    nil : Values
    cons : Value → Values → Values

  pub data Members : Type 0 where
    end : Members
    member : String → Value → Members → Members

-- The answer of `keys.remove(name)`: the value, if there is one, and the members left.
pub record Removed : Type 0 where
  pub value : Option Value
  pub left : Members

unfoldable pub remove : String → Members → Removed
remove name end = record { value = none; left = end }
remove name (member key v rest) =
    let r = remove name rest in
    if str_eq key name
    then record { value = some v; left = rest }
    else record { value = r.value; left = member key v r.left }

-- How deep arrays nest.
unfoldable mutual
  pub depth : Value → ℕ
  depth null = 0
  depth (bool b) = 0
  depth (number n) = 0
  depth (string s) = 0
  depth (array vs) = suc (depth_values vs)
  depth (object ms) = depth_members ms

  pub depth_values : Values → ℕ
  depth_values nil = 0
  depth_values (cons v vs) = max (depth v) (depth_values vs)

  pub depth_members : Members → ℕ
  depth_members end = 0
  depth_members (member k v ms) = max (depth v) (depth_members ms)

-- Taking a member out makes nothing deeper.
pub depth-remove :
    (name : String) (ms : Members) → depth_members (remove name ms).left ≤ depth_members ms
unfolding remove depth
depth-remove name end = omega arith
depth-remove name (member key v rest) = ground (arith, depth-remove name rest)

pub depth-remove_value :
    (name : String) (ms : Members) (v : Value)
    → (remove name ms).value ≡ some v
    → depth v ≤ depth_members ms
unfolding remove depth
depth-remove_value name end v h = cc
depth-remove_value name (member key w rest) v h = ground (arith, depth-remove_value name rest v)
