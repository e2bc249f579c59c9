-- ===== src/Direction/Algebra.antt =====
-- What a direction allows, and the intersection as the conjunction of what its parts allow.
use kube_vnet.Prelude.{
  String, ◌≡◌, refl, ◌↔◌, Bool, true, false, ◌&&◌, ◌||◌, some, arith, ◌==◌, beq→eq, string_eq,
}
use kube_vnet.Direction.{
  Direction, direction_eq, text, is_default, bare, parse_direction, parse_bare_direction, intersect,
}

-- Whether a member with this direction accepts traffic from the vnet's initiators.
unfoldable pub accepts : Direction → Bool
unfolding bare
accepts d = bare d == Direction.both || bare d == Direction.ingress

-- Whether it may initiate traffic to the vnet's receivers.
unfoldable pub initiates : Direction → Bool
unfolding bare
initiates d = bare d == Direction.both || bare d == Direction.egress

-- The direction with the given permissions, bare or overridable.
unfoldable pub of_permissions : Bool → Bool → Bool → Direction
of_permissions true true false = Direction.both
of_permissions true false false = Direction.ingress
of_permissions false true false = Direction.egress
of_permissions false false false = Direction.none
of_permissions true true true = Direction.default_both
of_permissions true false true = Direction.default_ingress
of_permissions false true true = Direction.default_egress
of_permissions false false true = Direction.default_none

-- A direction is what it allows, and whether lower tiers may override it.
pub of_permissions_lem :
    (d : Direction) → of_permissions (accepts d) (initiates d) (is_default d) ≡ d
unfolding of_permissions accepts initiates is_default
of_permissions_lem d = ground arith

pub is_default-of_permissions : (a i o : Bool) → is_default (of_permissions a i o) ≡ o
unfolding of_permissions is_default
is_default-of_permissions a i o = ground arith

-- The intersection accepts where both accept, initiates where both initiate, and is bare.
pub intersect_permissions :
    (a b : Direction)
    → (accepts (intersect a b) ≡ (accepts a && accepts b))
      × (initiates (intersect a b) ≡ (initiates a && initiates b))
      × (is_default (intersect a b) ≡ false)
unfolding accepts initiates is_default intersect
intersect_permissions Direction.both b = ground arith
intersect_permissions _ b = ground arith

parse-text : (d : Direction) → parse_direction (text d) ≡ some d
unfolding parse_direction text
parse-text Direction.both = refl
parse-text _ = refl

text_of_parse : (value : String) (d : Direction) → parse_direction value ≡ some d → value ≡ text d
unfolding parse_direction text
text_of_parse value d h = ground (
  arith,
  beq→eq value "both",
  beq→eq value "ingress",
  beq→eq value "egress",
  beq→eq value "none",
  beq→eq value "default-both",
  beq→eq value "default-ingress",
  beq→eq value "default-egress",
  beq→eq value "default-none",
)

-- Reading a direction back from its label value gives the direction, and only the eight constants
-- are read.
pub parse_direction-text :
    (value : String) (d : Direction) → (parse_direction value ≡ some d) ↔ (value ≡ text d)
parse_direction-text value d = (text_of_parse value d, λ p. rw p (parse-text d))

-- A text parses as a bare direction exactly when it is the text of a direction that is bare.
pub parse_bare_direction-text :
    (value : String) (d : Direction)
    → (parse_bare_direction value ≡ some d) ↔ ((value ≡ text d) × (is_default d ≡ false))
unfolding parse_bare_direction
parse_bare_direction-text value d =
    (λ h. ground (arith, text_of_parse value d), λ (p, b). rw (p, parse-text d, b))
