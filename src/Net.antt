-- ===== src/Net.antt =====
-- IP addresses (`std::net::IpAddr`): the family and the address as a number.
use ad_nope.Prelude.{ℕ, ◌≡◌, ◌↔◌, Bool, true, false, arith, Eq, nat_beq, nat_beq_iff}

pub data IpAddr : Type 0 where
  v4 v6 : ℕ → IpAddr

abbrev pub ip_beq : IpAddr → IpAddr → Bool
ip_beq (v4 a) (v4 b) = nat_beq a b
ip_beq (v6 a) (v6 b) = nat_beq a b
ip_beq _ _ = false

pub ip_beq_iff : (a b : IpAddr) → (ip_beq a b ≡ true) ↔ (a ≡ b)
ip_beq_iff (v4 a) (v4 b) = ground (arith, nat_beq_iff a b)
ip_beq_iff (v6 a) (v6 b) = ground (arith, nat_beq_iff a b)
ip_beq_iff _ _ = ground arith

instance abbrev pub ip_eq : Eq IpAddr
ip_eq = record { eqb = ip_beq; eqb_iff = ip_beq_iff }
