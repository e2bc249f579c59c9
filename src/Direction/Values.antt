-- ===== src/Direction/Values.antt =====
-- internal/controller/policy_generator.go: the eight `Direction` constants.
use kube_vnet.Prelude.{ℕ, ◌≡◌, ap, ◌↔◌, true, arith, nat_beq, nat_beq_iff, Eq}

pub data Direction : Type 0 where
  both ingress egress none : Direction
  default_both default_ingress default_egress default_none : Direction

-- The number of a constructor, by which directions are compared.
abbrev pub rank : Direction → ℕ
rank Direction.both = 0
rank Direction.ingress = 1
rank Direction.egress = 2
rank Direction.none = 3
rank Direction.default_both = 4
rank Direction.default_ingress = 5
rank Direction.default_egress = 6
rank Direction.default_none = 7

rank_inj : (a b : Direction) → rank a ≡ rank b → a ≡ b
rank_inj a b h = ground arith

pub beq_rank_iff : (a b : Direction) → (nat_beq (rank a) (rank b) ≡ true) ↔ (a ≡ b)
beq_rank_iff a b = (
  λ h. rank_inj a b ((nat_beq_iff (rank a) (rank b)).0 h),
  λ p. (nat_beq_iff (rank a) (rank b)).1 (ap rank p),
)

instance abbrev pub direction_eq : Eq Direction
direction_eq = record { beq = λ a b. nat_beq (rank a) (rank b); beq_iff = beq_rank_iff }
