-- ===== src/Outside.antt =====
-- What the receipt pipeline exchanges with the world outside the database: the lines that a language
-- model reads off a receipt (provider.go of baskety/internal/receipt) and the jobs of the queue
-- (worker.go of baskety/internal/receipt and of baskety/internal/catalog).
use baskety.Base.{String, Option}
use baskety.Base.Int.{ℤ}

-- Quantities and scores are whole thousandths, prices whole minor units.
pub record ParsedLineItem : Type 0 where
  pub raw_text : String
  pub parsed_name : Option String
  pub parsed_brand : Option String
  pub parsed_quantity : Option ℤ
  pub parsed_unit : Option String
  pub parsed_price_minor : Option ℤ
  pub parsed_total_price_minor : Option ℤ
  pub parsed_currency : Option String
  pub parsed_store_name : Option String
  pub confidence_score : Option ℤ

-- `ProcessReceiptScanArgs` and `ProcessPurchaseTransactionArgs`.
pub data Payload : Type 0 where
  scan_args transaction_args : String → Payload

pub record Job : Type 0 where
  pub job_type : String
  pub payload : Payload
