-- ===== src/Direction.antt =====
-- internal/controller/policy_generator.go: the direction of a membership. Go's string constants
-- are the constructors, and `text` and `parse_direction` go between the two.
mod Values
pub mod Algebra
pub use Values.{Direction, direction_eq}
use kube_vnet.Prelude.{
  String, Bool, true, false, ◌||◌, Option, none, some, if◌then◌else◌, ◌==◌, string_eq,
}

-- The value of Go's constant, as it stands in labels and specs.
unfoldable pub text : Direction → String
text Direction.both = "both"
text Direction.ingress = "ingress"
text Direction.egress = "egress"
text Direction.none = "none"
text Direction.default_both = "default-both"
text Direction.default_ingress = "default-ingress"
text Direction.default_egress = "default-egress"
text Direction.default_none = "default-none"

unfoldable pub is_default : Direction → Bool
is_default Direction.default_both = true
is_default Direction.default_ingress = true
is_default Direction.default_egress = true
is_default Direction.default_none = true
is_default _ = false

unfoldable pub bare : Direction → Direction
bare Direction.default_both = Direction.both
bare Direction.default_ingress = Direction.ingress
bare Direction.default_egress = Direction.egress
bare Direction.default_none = Direction.none
bare d = d

-- `"default-" + d` of a bare direction, the code's only use of the concatenation.
unfoldable pub with_default : Direction → Direction
with_default Direction.both = Direction.default_both
with_default Direction.ingress = Direction.default_ingress
with_default Direction.egress = Direction.default_egress
with_default Direction.none = Direction.default_none
with_default d = d

unfoldable pub parse_direction : String → Option Direction
parse_direction value =
    if value == "both"
    then some Direction.both
    else if value == "ingress"
    then some Direction.ingress
    else if value == "egress"
    then some Direction.egress
    else if value == "none"
    then some Direction.none
    else if value == "default-both"
    then some Direction.default_both
    else if value == "default-ingress"
    then some Direction.default_ingress
    else if value == "default-egress"
    then some Direction.default_egress
    else if value == "default-none"
    then some Direction.default_none
    else none

-- The bare value of a parsed direction, if it is one.
abbrev only_bare : Option Direction → Option Direction
only_bare none = none
only_bare (some d) = if is_default d then none else some d

unfoldable pub parse_bare_direction : String → Option Direction
unfolding parse_direction is_default
parse_bare_direction value = only_bare (parse_direction value)

-- resolution.go: the intersection of two directions.
unfoldable pub intersect : Direction → Direction → Direction
unfolding bare
intersect a b =
    let a' = bare a in
    let b' = bare b in
    if a' == Direction.none || b' == Direction.none
    then Direction.none
    else if a' == b'
    then a'
    else if a' == Direction.both
    then b'
    else if b' == Direction.both
    then a'
    else Direction.none
