-- ===== src/Dns.antt =====
-- The parts of hickory's data that the program reads: record types, and records with their name,
-- time to live and data. A name is its text, as `Name::to_string` gives it.
use ad_nope.Prelude.{ℕ, ◌≡◌, ◌↔◌, Bool, true, false, String, arith, Eq, nat_beq, nat_beq_iff}

-- The types that the program names, and every other type by its code.
pub data RecordType : Type 0 where
  a aaaa : RecordType
  other : ℕ → RecordType

abbrev pub type_beq : RecordType → RecordType → Bool
type_beq a a = true
type_beq aaaa aaaa = true
type_beq (other m) (other n) = nat_beq m n
type_beq _ _ = false

pub type_beq_iff : (s t : RecordType) → (type_beq s t ≡ true) ↔ (s ≡ t)
type_beq_iff (other m) (other n) = ground (arith, nat_beq_iff m n)
type_beq_iff _ _ = ground arith

instance abbrev pub type_eq : Eq RecordType
type_eq = record { eqb = type_beq; eqb_iff = type_beq_iff }

-- The data of a record: an address, or the bytes of another type, as a number.
pub data RData : Type 0 where
  address4 address6 : ℕ → RData
  opaque : ℕ → ℕ → RData

pub record Record : Type 0 where
  pub name : String
  pub ttl : ℕ
  pub rdata : RData

-- `Record::record_type` is the type of the data.
abbrev pub record_type_of : RData → RecordType
record_type_of (address4 _) = a
record_type_of (address6 _) = aaaa
record_type_of (opaque code _) = other code

abbrev pub record_type : Record → RecordType
record_type r = record_type_of r.rdata
