-- ===== src/Dns/Message.antt =====
-- What the handler uses of hickory's `Message`, `Record` and `ResponseCode`.
use leshy.Prelude.{ℕ, Option, List, Eq}
use leshy.Config.{IpAddr}

-- The data of a record of an answer, as far as routes depend on it.
pub record Record : Type 0 where
  pub address : Option IpAddr
  pub ttl : ℕ

pub record Hickory : Type 1 where
  pub Message : Type 0
  pub Header : Type 0
  pub RecordType : Type 0
  pub type_eq : Eq RecordType
  pub ResponseCode : Type 0
  pub code_eq : Eq ResponseCode
  pub serv_fail : ResponseCode
  pub refused : ResponseCode
  pub nx_domain : ResponseCode
  pub not_imp : ResponseCode
  pub response_code : Message → ResponseCode
  pub answers : Message → List Record
  pub header : Message → Header
  pub set_id : ℕ → Header → Header
